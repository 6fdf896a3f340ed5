-- ===== src/Common/Dict.antt =====
-- JavaScript's `Map` with text keys: an association list in the order of insertion.
use mathlib.Core.Path.{◌≡◌, refl}
use mathlib.Core.Logic.{◌≢◌, ite}
use mathlib.Core.List.{List, [], ◌∷◌, ◌++◌}
use mathlib.Core.Option.{Option, none, some}
use native.Mathlib.Omega.{arith}
use superbull.Common.Strings.{Text, Text_discrete}

module _ {ℓ} {V : Type ℓ} where
  -- `map.get(key)`.
  unfoldable pub lookup : Text → List (Text × V) → Option V
  lookup k [] = none
  lookup k ((j, v) ∷ m) = ite (Text_discrete j k) (some v) (lookup k m)

  -- `map.set(key, value)`: an old key keeps its place, a new one goes to the end.
  unfoldable pub insert : Text → V → List (Text × V) → List (Text × V)
  insert k v [] = (k, v) ∷ []
  insert k v ((j, w) ∷ m) = ite (Text_discrete j k) ((j, v) ∷ m) ((j, w) ∷ insert k v m)

  -- `map.delete(key)`.
  unfoldable pub delete : Text → List (Text × V) → List (Text × V)
  delete k [] = []
  delete k ((j, w) ∷ m) = ite (Text_discrete j k) m ((j, w) ∷ delete k m)

  pub lookup-insert :
      (k j : Text) (v : V) (m : List (Text × V))
      → lookup j (insert k v m) ≡ ite (Text_discrete k j) (some v) (lookup j m)
  unfolding lookup insert
  lookup-insert k j v [] = refl
  lookup-insert k j v ((i, w) ∷ m) = ground (arith, lookup-insert k j v m)

  pub insert_new :
      (k : Text) (v : V) (m : List (Text × V)) → lookup k m ≡ none → insert k v m ≡ m ++ (k, v) ∷ []
  unfolding lookup insert
  insert_new k v [] h = refl
  insert_new k v ((i, w) ∷ m) h = ground (arith, insert_new k v m)

  pub lookup-append_none :
      (k j : Text) (v : V) (m : List (Text × V))
      → lookup k m ≡ none
      → j ≢ k
      → lookup k (m ++ (j, v) ∷ []) ≡ none
  unfolding lookup
  lookup-append_none k j v [] h e = ground arith
  lookup-append_none k j v ((i, w) ∷ m) h e = ground (arith, lookup-append_none k j v m)

  pub lookup-delete-none :
      (k j : Text) (m : List (Text × V)) → lookup k m ≡ none → lookup k (delete j m) ≡ none
  unfolding lookup delete
  lookup-delete-none k j [] h = refl
  lookup-delete-none k j ((i, w) ∷ m) h = ground (arith, lookup-delete-none k j m)

  pub lookup-delete_ne :
      (k j : Text) (m : List (Text × V)) → j ≢ k → lookup k (delete j m) ≡ lookup k m
  unfolding lookup delete
  lookup-delete_ne k j [] h = refl
  lookup-delete_ne k j ((i, w) ∷ m) h = ground (arith, lookup-delete_ne k j m)
