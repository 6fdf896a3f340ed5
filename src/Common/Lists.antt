-- ===== src/Common/Lists.antt =====
-- Lists measured by native numbers, and filtered by Boolean tests.
use Prim.Native.Nat.{ℕ, zero, suc, ◌+◌, ◌-◌, ◌≤◌, min}
use mathlib.Core.Path.{◌≡◌, refl, ap, ◌∙◌}
use mathlib.Core.Logic.{inl, inr}
use mathlib.Core.Bool.{Bool, true, false, not, ◌&&◌, ◌||◌}
use mathlib.Core.List.{List, [], ◌∷◌, ◌++◌}
use mathlib.Core.Option.{Option, none, some}
use native.Mathlib.Omega.{arith}
use superbull.Common.Tests.{if◌then◌else◌, Bool-cases}

module _ {ℓ} {A : Type ℓ} where
  abbrev pub length : List A → ℕ
  length [] = 0
  length (x ∷ xs) = suc (length xs)

  abbrev pub take : ℕ → List A → List A
  take zero xs = []
  take (suc n) [] = []
  take (suc n) (x ∷ xs) = x ∷ take n xs

  abbrev pub drop : ℕ → List A → List A
  drop zero xs = xs
  drop (suc n) [] = []
  drop (suc n) (x ∷ xs) = drop n xs

  -- `Array.prototype.shift`, which leaves the empty array as it is.
  abbrev pub tail : List A → List A
  tail [] = []
  tail (x ∷ xs) = xs

  abbrev pub is_empty : List A → Bool
  is_empty [] = true
  is_empty (x ∷ xs) = false

  abbrev pub filter : (A → Bool) → List A → List A
  filter p [] = []
  filter p (x ∷ xs) = if p x then x ∷ filter p xs else filter p xs

  -- `array.some(p)`.
  abbrev pub any : (A → Bool) → List A → Bool
  any p [] = false
  any p (x ∷ xs) = p x || any p xs

  -- The first match, as `.first()` of a database query and `array.find` return it.
  abbrev pub find : (A → Bool) → List A → Option A
  find p [] = none
  find p (x ∷ xs) = if p x then some x else find p xs

  abbrev pub All {κ} : (A → Type κ) → List A → Type κ
  All P [] = Unit
  All P (x ∷ xs) = P x × All P xs

  pub length-append : (xs ys : List A) → length (xs ++ ys) ≡ length xs + length ys
  length-append [] ys = omega arith
  length-append (x ∷ xs) ys = omega (arith, length-append xs ys)

  pub take-append-drop : (n : ℕ) (xs : List A) → take n xs ++ drop n xs ≡ xs
  take-append-drop zero xs = refl
  take-append-drop (suc n) [] = refl
  take-append-drop (suc n) (x ∷ xs) = ap (◌∷◌ x) (take-append-drop n xs)

  pub length-take : (n : ℕ) (xs : List A) → length (take n xs) ≡ min n (length xs)
  length-take zero xs = omega arith
  length-take (suc n) [] = omega arith
  length-take (suc n) (x ∷ xs) = omega (arith, length-take n xs)

  pub length-drop : (n : ℕ) (xs : List A) → length (drop n xs) ≡ length xs - n
  length-drop zero xs = omega arith
  length-drop (suc n) [] = omega arith
  length-drop (suc n) (x ∷ xs) = omega (arith, length-drop n xs)

  pub filter-append :
      (p : A → Bool) (xs ys : List A) → filter p (xs ++ ys) ≡ filter p xs ++ filter p ys
  filter-append p [] ys = refl
  filter-append p (x ∷ xs) ys = ground (arith, filter-append p xs ys)

  -- How many elements pass a test.
  abbrev pub count : (A → Bool) → List A → ℕ
  count p xs = length (filter p xs)

  pub count-append : (p : A → Bool) (xs ys : List A) → count p (xs ++ ys) ≡ count p xs + count p ys
  count-append p xs ys =
      ap length (filter-append p xs ys) ∙ length-append (filter p xs) (filter p ys)

  pub All-append {κ} : (P : A → Type κ) (xs ys : List A) → All P xs → All P ys → All P (xs ++ ys)
  All-append P [] ys hx hy = hy
  All-append P (x ∷ xs) ys hx hy = (hx.0, All-append P xs ys hx.1 hy)

  pub All-filter {κ} :
      (P : A → Type κ) (p : A → Bool) (xs : List A) → All P xs → All P (filter p xs)
  All-filter P p [] h = tt
  All-filter P p (x ∷ xs) h = elim (Bool-cases (p x)) [
    | inl hit ↦ rw hit (h.0, All-filter P p xs h.1)
    | inr miss ↦ rw miss (All-filter P p xs h.1)
  ]

  pub filter_comm : (p q : A → Bool) (xs : List A) → filter p (filter q xs) ≡ filter q (filter p xs)
  filter_comm p q [] = refl
  filter_comm p q (x ∷ xs) = ground (arith, filter_comm p q xs)

  pub any-append : (p : A → Bool) (xs ys : List A) → any p (xs ++ ys) ≡ (any p xs || any p ys)
  any-append p [] ys = refl
  any-append p (x ∷ xs) ys = ground (arith, any-append p xs ys)

  pub any_of_find : (p : A → Bool) (xs : List A) (x : A) → find p xs ≡ some x → any p xs ≡ true
  any_of_find p [] x h = absurd (ground arith)
  any_of_find p (y ∷ xs) x h = ground (arith, any_of_find p xs x)

  pub find_of_any : (p : A → Bool) (xs : List A) → any p xs ≡ true → (x : A) × (find p xs ≡ some x)
  find_of_any p [] h = absurd (ground arith)
  find_of_any p (y ∷ xs) h = elim (Bool-cases (p y)) [
    | inl hit ↦ (y, rw hit)
    | inr miss ↦ let (x, e) = find_of_any p xs (ground arith) in (x, rw miss e)
  ]

  pub filter_of_find : (p : A → Bool) (xs : List A) → find p xs ≡ none → filter p xs ≡ []
  filter_of_find p [] h = refl
  filter_of_find p (y ∷ xs) h = ground (arith, filter_of_find p xs)

  pub length-filter-le : (p : A → Bool) (xs : List A) → length (filter p xs) ≤ length xs
  length-filter-le p [] = omega arith
  length-filter-le p (x ∷ xs) = ground (arith, length-filter-le p xs)

  -- A filter that keeps what a search looks for is not seen by the search.
  pub find-filter :
      (p q : A → Bool) (xs : List A)
      → ((x : A) → p x ≡ true → q x ≡ true)
      → find p (filter q xs) ≡ find p xs
  find-filter p q [] h = refl
  find-filter p q (x ∷ xs) h = elim (Bool-cases (p x)) [
    | inl hit ↦ rw (hit, h x hit, hit) refl
    | inr miss ↦ elim (Bool-cases (q x)) [
      | inl kept ↦ rw (kept, miss) (find-filter p q xs h)
      | inr gone ↦ rw (gone, miss) (find-filter p q xs h)
    ]
  ]

  pub length-filter-not :
      (p : A → Bool) (xs : List A) (x : A)
      → find p xs ≡ some x
      → suc (length (filter (λ y. not (p y)) xs)) ≤ length xs
  length-filter-not p [] x h = absurd (ground arith)
  length-filter-not p (y ∷ xs) x h = elim (Bool-cases (p y)) [
    | inl hit ↦ rw hit (omega (arith, length-filter-le (λ y. not (p y)) xs))
    | inr miss ↦ rw miss (omega (arith, length-filter-not p xs x (rw miss at h)))
  ]

  pub append-cancel : (xs ys zs : List A) → xs ++ ys ≡ xs ++ zs → ys ≡ zs
  append-cancel [] ys zs h = h
  append-cancel (x ∷ xs) ys zs h = append-cancel xs ys zs (ap tail h)

  pub filter-filter :
      (p q : A → Bool) (xs : List A) → filter p (filter q xs) ≡ filter (λ x. q x && p x) xs
  filter-filter p q [] = refl
  filter-filter p q (x ∷ xs) = ground (arith, filter-filter p q xs)

  pub filter-congr :
      (p q : A → Bool) (same : (x : A) → p x ≡ q x) (xs : List A) → filter p xs ≡ filter q xs
  filter-congr p q same [] = refl
  filter-congr p q same (x ∷ xs) = ground (arith, same x, filter-congr p q same xs)

  pub filter_all : (p : A → Bool) (all : (x : A) → p x ≡ true) (xs : List A) → filter p xs ≡ xs
  filter_all p all [] = refl
  filter_all p all (x ∷ xs) = ground (arith, all x, filter_all p all xs)

  pub All_mono {κ κ'} :
      (P : A → Type κ) (Q : A → Type κ') (xs : List A) → ((x : A) → P x → Q x) → All P xs → All Q xs
  All_mono P Q [] f h = tt
  All_mono P Q (x ∷ xs) f h = (f x h.0, All_mono P Q xs f h.1)

  abbrev pub all : (A → Bool) → List A → Bool
  all p [] = true
  all p (x ∷ xs) = p x && all p xs

  pub all-append : (p : A → Bool) (xs ys : List A) → all p (xs ++ ys) ≡ (all p xs && all p ys)
  all-append p [] ys = refl
  all-append p (x ∷ xs) ys = ground (arith, all-append p xs ys)

  pub all-tail : (p : A → Bool) (xs : List A) → all p xs ≡ true → all p (tail xs) ≡ true
  all-tail p [] h = refl
  all-tail p (x ∷ xs) h = ground arith

  pub all_mono :
      (p q : A → Bool) (xs : List A)
      → ((x : A) → p x ≡ true → q x ≡ true)
      → all p xs ≡ true
      → all q xs ≡ true
  all_mono p q [] f h = refl
  all_mono p q (x ∷ xs) f h = ground (arith, f x, all_mono p q xs f)

  pub length_zero : (xs : List A) → length xs ≡ 0 → xs ≡ []
  length_zero [] h = refl
  length_zero (x ∷ xs) h = absurd (omega arith)

  pub filter_of_any : (p : A → Bool) (xs : List A) → any p xs ≡ false → filter p xs ≡ []
  filter_of_any p [] h = refl
  filter_of_any p (x ∷ xs) h = ground (arith, filter_of_any p xs)

  pub filter_one :
      (p q : A → Bool) (xs : List A) (x : A)
      → find q xs ≡ some x
      → p x ≡ true
      → length (filter p xs) ≤ 1
      → filter p xs ≡ x ∷ []
  filter_one p q [] x h px few = absurd (ground arith)
  filter_one p q (y ∷ xs) x h px few = elim (Bool-cases (q y)) [
    | inl hit ↦ ground (arith, hit, length_zero (filter p xs))
    | inr miss ↦ elim (Bool-cases (p y)) [
      | inl other ↦ absurd (ground (arith, other, miss, filter_one p q xs x))
      | inr skip ↦ rw skip (filter_one p q xs x (rw miss at h) px (rw skip at few))
    ]
  ]
