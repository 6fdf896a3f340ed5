-- ===== src/Hub/Access/Token.antt =====
-- apps/web/convex/access.ts: the comparison of tokens in constant time is equality.
use Prim.Native.Nat.{bit_or, bit_xor, digits, differ, bit_or-bitwise, bit_xor-bitwise}
use superbull.Common.{
  ℕ, zero, suc, ◌/◌, ◌%◌, ◌≤◌, max, ◌≡◌, refl, sym, ◌∙◌, ◌↔◌, ◌≢◌, [], ◌∷◌, Option, none, some,
  true, Text, length, arith,
}
use superbull.Hub.Access.{difference, tokens_match, has_valid_internal_token}

-- A fold over binary digits is 0 only if its step was 0 at the lowest digits and at all higher
-- ones: the step of `|` on digits, with more fuel than digits.
or_digits : ℕ → ℕ → ℕ → ℕ
or_digits n a b = digits (λ c. c) max n a b

or_digits-zero : (n a b : ℕ) → a ≤ n → or_digits n a b ≡ 0 → (a ≡ 0) × (b ≡ 0)
unfolding or_digits
or_digits-zero zero zero b h e = (refl, e)
or_digits-zero zero (suc a) b h e = absurd (omega arith)
or_digits-zero (suc n) zero b h e = (refl, e)
or_digits-zero (suc n) (suc a) b h e =
    omega (arith, or_digits-zero n (suc a / 2) (b / 2) (omega arith) (omega arith))

bit_or-zero : (a b : ℕ) → bit_or a b ≡ 0 → (a ≡ 0) × (b ≡ 0)
unfolding or_digits
bit_or-zero a b e = or_digits-zero a a b (omega arith) (sym (bit_or-bitwise a b) ∙ e)

differ-zero : (x y : ℕ) → differ x y ≡ 0 → x ≡ y
differ-zero zero y e = omega arith
differ-zero (suc x) zero e = absurd (omega arith)
differ-zero (suc x) (suc y) e = omega (arith, differ-zero x y e)

differ_self : (x : ℕ) → differ x x ≡ 0
differ_self zero = refl
differ_self (suc x) = differ_self x

xor_digits : ℕ → ℕ → ℕ → ℕ
xor_digits n a b = digits (λ c. c) differ n a b

xor_digits-zero : (n a b : ℕ) → a ≤ n → xor_digits n a b ≡ 0 → a ≡ b
unfolding xor_digits
xor_digits-zero zero zero b h e = omega arith
xor_digits-zero zero (suc a) b h e = absurd (omega arith)
xor_digits-zero (suc n) zero b h e = omega arith
xor_digits-zero (suc n) (suc a) b h e = omega (
  arith,
  xor_digits-zero n (suc a / 2) (b / 2) (omega arith) (omega arith),
  differ-zero (suc a % 2) (b % 2) (omega arith),
)

xor_digits_self : (n a : ℕ) → a ≤ n → xor_digits n a a ≡ 0
unfolding xor_digits
xor_digits_self zero zero h = refl
xor_digits_self zero (suc a) h = absurd (omega arith)
xor_digits_self (suc n) zero h = refl
xor_digits_self (suc n) (suc a) h =
    omega (arith, xor_digits_self n (suc a / 2) (omega arith), differ_self (suc a % 2))

bit_xor-zero : (a b : ℕ) → bit_xor a b ≡ 0 → a ≡ b
unfolding xor_digits
bit_xor-zero a b e = xor_digits-zero a a b (omega arith) (sym (bit_xor-bitwise a b) ∙ e)

bit_xor_self : (a : ℕ) → bit_xor a a ≡ 0
unfolding xor_digits
bit_xor_self a = bit_xor-bitwise a a ∙ xor_digits_self a a (omega arith)

difference-zero :
    (d : ℕ) (expected token : Text)
    → length expected ≡ length token
    → difference d expected token ≡ 0
    → (d ≡ 0) × (expected ≡ token)
unfolding difference
difference-zero d [] [] h e = (e, refl)
difference-zero d [] (t ∷ token) h e = absurd (omega arith)
difference-zero d (c ∷ expected) [] h e = absurd (omega arith)
difference-zero d (c ∷ expected) (t ∷ token) h e =
    let (rest, same) = difference-zero (bit_or d (bit_xor c t)) expected token (omega arith) e in
    let (before, here) = bit_or-zero d (bit_xor c t) rest in (before, cc (bit_xor-zero c t here))

difference_self : (token : Text) → difference 0 token token ≡ 0
unfolding difference
difference_self [] = refl
difference_self (t ∷ token) = rw (bit_xor_self t) (difference_self token)

-- The check lets a token through exactly when one is configured that is not empty, and the token
-- is that very text.
pub has_valid_internal_token_iff :
    (configured : Option Text) (token : Text)
    → (has_valid_internal_token configured (some token) ≡ true)
      ↔ ((configured ≡ some token) × (token ≢ []))
unfolding has_valid_internal_token tokens_match
has_valid_internal_token_iff none token = (λ e. cc, λ e. absurd (ground (arith, e.0)))
has_valid_internal_token_iff (some expected) token = (
  λ e. ground (arith, difference-zero 0 expected token),
  λ e. ground (arith, e.0, e.1, difference_self token),
)
