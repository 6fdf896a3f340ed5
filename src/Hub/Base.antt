-- ===== src/Hub/Base.antt =====
-- What the functions of apps/web/convex share: a handler that throws changes nothing, so it returns
-- its new database or a failure; and the ways in which it queries and patches a table.
use superbull.Common.{
  ◌==◌, any, not, ◌||◌, ◌<◌, All, ℕ, suc, ◌+◌, ◌≤◌, ap, length, Bool-cases, ◌⊎◌, inl, inr, ◌≡◌,
  refl, List, [], ◌∷◌, ◌++◌, Option, none, some, Bool, true, false, if◌then◌else◌, filter, find,
  arith,
}
use mathlib.Core.Option

-- The errors that the handlers throw, by their messages.
pub data Failure : Type 0 where
  unauthorized unauthenticated project_not_found forbidden connector_not_found : Failure
  unknown_connector invalid_client not_unique unknown_group : Failure
  invalid_token_hash email_required invite_not_found other_email : Failure
  project_name_required last_owner name_mismatch no_slug connector_name_required user_not_found :
      Failure
  key_name_required invalid_api_key key_name_taken key_taken api_key_not_found : Failure
  invalid_slug slug_taken unknown_status_page invalid_event_limit unknown_dashboard
        unknown_document :
      Failure
  invalid_arguments window_not_positive threshold_not_positive queue_name_required unknown_rule :
      Failure

pub data Result {ℓ} (A : Type ℓ) : Type ℓ where
  ok : A → Result A
  fail : Failure → Result A

infixl 5 ◌>>=◌ ◌>>◌
abbrev pub ◌>>=◌ {ℓ κ} : {A : Type ℓ} {B : Type κ} → Result A → (A → Result B) → Result B
ok a >>= f = f a
fail e >>= f = fail e

abbrev pub ◌>>◌ {ℓ κ} : {A : Type ℓ} {B : Type κ} → Result A → Result B → Result B
m >> k = m >>= λ _. k

abbrev pub guard : Bool → Failure → Result (Unit {0})
guard true e = ok tt
guard false e = fail e

abbrev pub or_fail {ℓ} : {A : Type ℓ} → Option A → Failure → Result A
or_fail none e = fail e
or_fail (some a) e = ok a

-- A chain that returns has returned at its first step.
pub ok_of_bind {ℓ κ} :
    {A : Type ℓ} {B : Type κ} (m : Result A) (f : A → Result B) (b : B)
    → (m >>= f) ≡ ok b
    → (a : A) × (m ≡ ok a) × (f a ≡ ok b)
ok_of_bind (ok a) f b h = (a, refl, h)
ok_of_bind (fail e) f b h = absurd (ground arith)

pub Result-cases {ℓ} :
    {A : Type ℓ} (r : Result A) → ((a : A) × (r ≡ ok a)) ⊎ ((why : Failure) × (r ≡ fail why))
Result-cases (ok a) = inl (a, refl)
Result-cases (fail why) = inr (why, refl)

module _ {ℓ} {A : Type ℓ} where
  -- `.unique()`: throws on a second match.
  abbrev pub at_most_one : List A → Result (Option A)
  at_most_one [] = ok none
  at_most_one (x ∷ []) = ok (some x)
  at_most_one (x ∷ y ∷ xs) = fail not_unique

  abbrev pub unique : (A → Bool) → List A → Result (Option A)
  unique p xs = at_most_one (filter p xs)

  -- `patch` of the documents that a test selects.
  abbrev pub patch_where : (A → Bool) → (A → A) → List A → List A
  patch_where p f [] = []
  patch_where p f (x ∷ xs) = (if p x then f x else x) ∷ patch_where p f xs

  pub All-patch_where {κ} :
      (P : A → Type κ) (q : A → Bool) (f : A → A) (new : (x : A) → P (f x)) (xs : List A)
      → All P xs
      → All P (patch_where q f xs)
  All-patch_where P q f new [] h = tt
  All-patch_where P q f new (x ∷ xs) h = elim (Bool-cases (q x)) [
    | inl hit ↦ rw hit (new x, All-patch_where P q f new xs h.1)
    | inr miss ↦ rw miss (h.0, All-patch_where P q f new xs h.1)
  ]

  pub find_sound : (p : A → Bool) (xs : List A) (x : A) → find p xs ≡ some x → p x ≡ true
  find_sound p [] x h = absurd (ground arith)
  find_sound p (y ∷ xs) x h = ground (arith, find_sound p xs x)

  pub at_most_one-some : (xs : List A) (x : A) → at_most_one xs ≡ ok (some x) → xs ≡ x ∷ []
  at_most_one-some [] x h = absurd (ground arith)
  at_most_one-some (y ∷ []) x h = ground arith
  at_most_one-some (y ∷ z ∷ xs) x h = absurd (ground arith)

  -- A patch that the query's test does not see leaves the query's rows, patched.
  pub filter-patch_where :
      (p q : A → Bool) (f : A → A) (keep : (x : A) → p (f x) ≡ p x) (xs : List A)
      → filter p (patch_where q f xs) ≡ patch_where q f (filter p xs)
  filter-patch_where p q f keep [] = refl
  filter-patch_where p q f keep (x ∷ xs) = ground (arith, keep x, filter-patch_where p q f keep xs)

  pub length-patch_where :
      (q : A → Bool) (f : A → A) (xs : List A) → length (patch_where q f xs) ≡ length xs
  length-patch_where q f [] = refl
  length-patch_where q f (x ∷ xs) = ap suc (length-patch_where q f xs)

  pub find-patch_where :
      (p q : A → Bool) (f : A → A) (keep : (x : A) → p (f x) ≡ p x) (xs : List A)
      → find p (patch_where q f xs) ≡ Option.map (λ x. if q x then f x else x) (find p xs)
  find-patch_where p q f keep [] = refl
  find-patch_where p q f keep (x ∷ xs) = ground (arith, keep x, find-patch_where p q f keep xs)

  pub find-append :
      (p : A → Bool) (xs ys : List A)
      → find p (xs ++ ys) ≡ (elim (find p xs) [ none ↦ find p ys | some x ↦ some x ])
  find-append p [] ys = refl
  find-append p (x ∷ xs) ys = ground (arith, find-append p xs ys)

  pub find_of_filter :
      (p : A → Bool) (xs : List A) (x : A) (ys : List A) → filter p xs ≡ x ∷ ys → find p xs ≡ some x
  find_of_filter p [] x ys h = absurd (ground arith)
  find_of_filter p (y ∷ xs) x ys h = ground (arith, find_of_filter p xs x ys)

  pub find-none_of_filter : (p : A → Bool) (xs : List A) → filter p xs ≡ [] → find p xs ≡ none
  find-none_of_filter p [] h = refl
  find-none_of_filter p (y ∷ xs) h = ground (arith, find-none_of_filter p xs)

  -- A query that may match once at most returns.
  pub unique_of_count :
      (p : A → Bool) (xs : List A)
      → length (filter p xs) ≤ 1
      → ((unique p xs ≡ ok none) × (filter p xs ≡ []))
        ⊎ ((x : A) × (unique p xs ≡ ok (some x)) × (filter p xs ≡ x ∷ []))
  unique_of_count p xs h = go (filter p xs) refl
    where
      go :
          (ys : List A)
          → filter p xs ≡ ys
          → ((unique p xs ≡ ok none) × (filter p xs ≡ []))
            ⊎ ((x : A) × (unique p xs ≡ ok (some x)) × (filter p xs ≡ x ∷ []))
      go [] e = inl (rw e refl, e)
      go (x ∷ []) e = inr (x, rw e refl, e)
      go (x ∷ y ∷ ys) e = absurd (ground arith)

-- The database mints ids in rising order, so a table's ids rise along it and stay below the next.
module _ {ℓ} {A : Type ℓ} (id : A → ℕ) where
  abbrev pub Rising : ℕ → ℕ → List A → Type 0
  Rising lo hi [] = lo ≤ hi
  Rising lo hi (x ∷ xs) = (lo ≤ id x) × Rising (suc (id x)) hi xs

  pub Rising-append :
      (lo hi : ℕ) (xs : List A) (x : A)
      → Rising lo hi xs
      → id x ≡ hi
      → Rising lo (hi + 1) (xs ++ x ∷ [])
  Rising-append lo hi [] x r e = omega arith
  Rising-append lo hi (y ∷ xs) x r e = (r.0, Rising-append (suc (id y)) hi xs x r.1 e)

  pub Rising-patch_where :
      (q : A → Bool) (f : A → A) (keep : (x : A) → id (f x) ≡ id x) (lo hi : ℕ) (xs : List A)
      → Rising lo hi xs
      → Rising lo hi (patch_where q f xs)
  Rising-patch_where q f keep lo hi [] r = r
  Rising-patch_where q f keep lo hi (x ∷ xs) r =
      let rest = Rising-patch_where q f keep (suc (id x)) hi xs r.1 in
      elim (Bool-cases (q x)) [
        | inl hit ↦ rw (hit, keep x) (r.0, rest)
        | inr miss ↦ rw miss (r.0, rest)
      ]

  pub find-Rising :
      (p : A → Bool) (lo hi : ℕ) (xs : List A) (x : A)
      → Rising lo hi xs
      → find p xs ≡ some x
      → lo ≤ id x
  find-Rising p lo hi [] x r h = absurd (ground arith)
  find-Rising p lo hi (y ∷ xs) x r h = ground (arith, find-Rising p (suc (id y)) hi xs x r.1)

  -- Two rows of one id are one row.
  pub Rising-unique :
      (p q : A → Bool) (lo hi : ℕ) (xs : List A) (x y : A)
      → Rising lo hi xs
      → find p xs ≡ some x
      → find q xs ≡ some y
      → id x ≡ id y
      → x ≡ y
  Rising-unique p q lo hi [] x y r hx hy e = absurd (ground arith)
  Rising-unique p q lo hi (z ∷ xs) x y r hx hy e = ground (
    arith,
    find-Rising p (suc (id z)) hi xs x r.1,
    find-Rising q (suc (id z)) hi xs y r.1,
    Rising-unique p q (suc (id z)) hi xs x y r.1,
  )

  pub Rising-mono : (lo hi hi' : ℕ) (xs : List A) → hi ≤ hi' → Rising lo hi xs → Rising lo hi' xs
  Rising-mono lo hi hi' [] h r = omega arith
  Rising-mono lo hi hi' (x ∷ xs) h r = (r.0, Rising-mono (suc (id x)) hi hi' xs h r.1)

  -- The ids of the rows that a test selects.
  abbrev pub ids_of : (A → Bool) → List A → ℕ → Bool
  ids_of p xs n = any (λ d. id d == n) (filter p xs)

  ids_of-beyond :
      (p : A → Bool) (n lo hi : ℕ) (xs : List A) → Rising lo hi xs → n < lo → ids_of p xs n ≡ false
  ids_of-beyond p n lo hi [] r h = refl
  ids_of-beyond p n lo hi (x ∷ xs) r h = ground (arith, ids_of-beyond p n (suc (id x)) hi xs r.1)

  skip_head :
      (g : ℕ → Bool) (n lo hi : ℕ) (xs : List A)
      → Rising lo hi xs
      → n < lo
      → filter (λ c. not (n == id c || g (id c))) xs ≡ filter (λ c. not (g (id c))) xs
  skip_head g n lo hi [] r h = refl
  skip_head g n lo hi (x ∷ xs) r h = ground (arith, skip_head g n (suc (id x)) hi xs r.1)

  -- A row goes by its id exactly if the test selects it.
  pub filter-ids_of :
      (p : A → Bool) (lo hi : ℕ) (xs : List A)
      → Rising lo hi xs
      → filter (λ c. not (ids_of p xs (id c))) xs ≡ filter (λ c. not (p c)) xs
  filter-ids_of p lo hi [] r = refl
  filter-ids_of p lo hi (x ∷ xs) r = elim (Bool-cases (p x)) [
    | inl hit ↦ ground (
      arith,
      skip_head (ids_of p xs) (id x) (suc (id x)) hi xs r.1,
      filter-ids_of p (suc (id x)) hi xs r.1,
    )
    | inr miss ↦ ground (
      arith,
      ids_of-beyond p (id x) (suc (id x)) hi xs r.1,
      filter-ids_of p (suc (id x)) hi xs r.1,
    )
  ]
