-- ===== src/Common/Decimal.antt =====
-- The digits of a number, as a template shows it.
use Prim.Native.Nat.{ℕ, zero, suc, ◌+◌, ◌-◌, ◌*◌, ◌/◌, ◌%◌, ◌<◌}
use mathlib.Core.Path.{◌≡◌, refl, sym, ap, ◌∙◌}
use mathlib.Core.List.{[], ◌∷◌, ◌++◌}
use native.Mathlib.Omega.{arith}
use superbull.Common.Tests.{ltb, if◌then◌else◌}
use superbull.Common.Strings.{Text}

-- A number in a template, on fuel of which its value is enough.
unfoldable pub decimal_on : ℕ → ℕ → Text
decimal_on zero n = []
decimal_on (suc fuel) n =
    let rest = decimal_on fuel (n / 10) in
    if ltb n 10 then (b'0' + n) ∷ [] else rest ++ (b'0' + n % 10) ∷ []

unfoldable pub decimal : ℕ → Text
unfolding decimal_on
decimal n = decimal_on (suc n) n

-- The number that digits write, after one that is read already.
unfoldable pub value : ℕ → Text → ℕ
value acc [] = acc
value acc (c ∷ text) = value (acc * 10 + (c - b'0')) text

value-append :
    (acc c : ℕ) (text : Text) → value acc (text ++ c ∷ []) ≡ value acc text * 10 + (c - b'0')
unfolding value
value-append acc c [] = refl
value-append acc c (d ∷ text) = value-append (acc * 10 + (d - b'0')) c text

value-decimal_on : (fuel n : ℕ) → n < fuel → value 0 (decimal_on fuel n) ≡ n
unfolding decimal_on value
value-decimal_on zero n h = absurd (omega arith)
value-decimal_on (suc fuel) n h = ground (
  arith,
  value-append 0 (b'0' + n % 10) (decimal_on fuel (n / 10)),
  value-decimal_on fuel (n / 10),
)

-- Reading what is shown gives the number back.
pub value-decimal : (n : ℕ) → value 0 (decimal n) ≡ n
unfolding decimal
value-decimal n = value-decimal_on (suc n) n (omega arith)

pub decimal-injective : (m n : ℕ) → decimal m ≡ decimal n → m ≡ n
decimal-injective m n e = sym (value-decimal m) ∙ ap (value 0) e ∙ value-decimal n
