-- ===== src/Common/Strings.antt =====
-- Text as its list of UTF-16 code units.
use Prim.Native.Nat.{ℕ}
use Prim.Native.Char.{code}
use Prim.Native.String.{String}
use mathlib.Core.Path.{◌≡◌, refl}
use mathlib.Core.Logic.{ite}
use mathlib.Core.Bool.{Bool, true, false, ◌&&◌}
use mathlib.Core.List.{List, [], ◌∷◌, ◌++◌}
use mathlib.Core.Option.{Option, none, some}
use native.Mathlib.Decide.{ℕ_discrete}
use native.Mathlib.Omega.{arith}
use superbull.Common.Tests.{leb, ◌==◌, if◌then◌else◌}

abbrev pub Text : Type 0
Text = List ℕ

-- A literal of the program. (All of them are ASCII.)
abbrev pub codes : String → Text
codes String.[] = []
codes (String.◌∷◌ c s) = code c ∷ codes s

unfoldable pub Text_discrete : Discrete Text
unfolding ℕ_discrete
Text_discrete = hlevel ℕ_discrete

-- `a === b` on strings.
abbrev pub text_eq : Text → Text → Bool
text_eq a b = ite (Text_discrete a b) true false

-- `text.startsWith(prefix)` with `text.slice(prefix.length)`: the rest behind the prefix.
unfoldable pub strip_prefix : Text → Text → Option Text
strip_prefix [] text = some text
strip_prefix (p ∷ prefix) [] = none
strip_prefix (p ∷ prefix) (c ∷ text) = if p == c then strip_prefix prefix text else none

pub strip_prefix-append : (prefix rest : Text) → strip_prefix prefix (prefix ++ rest) ≡ some rest
unfolding strip_prefix
strip_prefix-append [] rest = refl
strip_prefix-append (p ∷ prefix) rest = ground (arith, strip_prefix-append prefix rest)

abbrev pub is_digit : ℕ → Bool
is_digit c = leb b'0' c && leb c b'9'
