-- ===== src/Common/Sort.antt =====
-- Stable sorting by a number, as indexes and `Array.prototype.sort` have it.
use Prim.Native.Nat.{ℕ}
use mathlib.Core.List.{List, [], ◌∷◌}
use superbull.Common.Tests.{leb, if◌then◌else◌}

module _ {ℓ} {A : Type ℓ} (key : A → ℕ) where
  unfoldable pub insert_by : A → List A → List A
  insert_by x [] = x ∷ []
  insert_by x (y ∷ ys) =
      let rest = insert_by x ys in if leb (key x) (key y) then x ∷ y ∷ ys else y ∷ rest

  -- The smallest first.
  unfoldable pub sort_by : List A → List A
  unfolding insert_by
  sort_by [] = []
  sort_by (x ∷ xs) = insert_by x (sort_by xs)

  unfoldable pub insert_down : A → List A → List A
  insert_down x [] = x ∷ []
  insert_down x (y ∷ ys) =
      let rest = insert_down x ys in if leb (key y) (key x) then x ∷ y ∷ ys else y ∷ rest

  -- The largest first.
  unfoldable pub sort_down : List A → List A
  unfolding insert_down
  sort_down [] = []
  sort_down (x ∷ xs) = insert_down x (sort_down xs)
