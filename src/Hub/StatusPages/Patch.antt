-- ===== src/Hub/StatusPages/Patch.antt =====
-- apps/web/convex/statusPages.ts: what the patch of one page does to the table.
use superbull.Common.{
  ℕ, suc, ◌+◌, ◌≤◌, ◌<◌, ◌≡◌, refl, List, [], ◌∷◌, none, some, Bool, true, not, ◌||◌, all, ◌==◌,
  if◌then◌else◌, filter, count, find, arith, inl, inr, Bool-cases,
}
use superbull.Hub.Schema.{StatusPage}
use superbull.Hub.Base.{ok, patch_where, at_most_one, Rising}
use superbull.Hub.StatusPages.{Fields, with_fields, is_page, has_slug, is_of}

abbrev pub id_of : StatusPage → ℕ
id_of p = p.id

abbrev pub one_if : Bool → ℕ
one_if b = if b then 1 else 0

pub patch_other :
    (lo hi id : ℕ) (f : StatusPage → StatusPage) (xs : List StatusPage)
    → Rising id_of lo hi xs
    → id < lo
    → patch_where (is_page id) f xs ≡ xs
patch_other lo hi id f [] r h = refl
patch_other lo hi id f (x ∷ xs) r h = ground (arith, patch_other (suc x.id) hi id f xs r.1, r.0)

pub id_above :
    (lo hi : ℕ) (q : StatusPage → Bool) (xs : List StatusPage) (e : StatusPage)
    → Rising id_of lo hi xs
    → filter q xs ≡ e ∷ []
    → lo ≤ e.id
id_above lo hi q [] e r h = absurd (ground arith)
id_above lo hi q (x ∷ xs) e r h = ground (arith, id_above (suc x.id) hi q xs e r.1, r.0)

pub find_page :
    (lo hi : ℕ) (q : StatusPage → Bool) (xs : List StatusPage) (e : StatusPage)
    → Rising id_of lo hi xs
    → filter q xs ≡ e ∷ []
    → find (is_page e.id) xs ≡ some e
find_page lo hi q [] e r h = absurd (ground arith)
find_page lo hi q (x ∷ xs) e r h = elim (Bool-cases (q x)) [
  | inl hit ↦ ground (arith, hit)
  | inr miss ↦
      ground (arith, miss, find_page (suc x.id) hi q xs e r.1, id_above (suc x.id) hi q xs e r.1)
]

-- A patch of one page changes a count by that page.
pub patch-count :
    (p q : StatusPage → Bool) (f : StatusPage → StatusPage) (lo hi : ℕ) (xs : List StatusPage)
    (e : StatusPage)
    → Rising id_of lo hi xs
    → filter q xs ≡ e ∷ []
    → count p (patch_where (is_page e.id) f xs) + one_if (p e) ≡ count p xs + one_if (p (f e))
patch-count p q f lo hi [] e r h = absurd (ground arith)
patch-count p q f lo hi (x ∷ xs) e r h = elim (Bool-cases (q x)) [
  | inl hit ↦
      let same : x ≡ e = ground (arith, hit) in
      ground (arith, same, patch_other (suc x.id) hi x.id f xs r.1)
  | inr miss ↦
      let rest : filter q xs ≡ e ∷ [] = rw miss at h in
      ground (
        arith,
        id_above (suc x.id) hi q xs e r.1 rest,
        patch-count p q f (suc x.id) hi xs e r.1 rest,
      )
]

pub patch-others :
    (f : Fields) (lo hi : ℕ) (q : StatusPage → Bool) (xs : List StatusPage) (e : StatusPage)
    → Rising id_of lo hi xs
    → filter q xs ≡ e ∷ []
    → e.connector_id ≡ f.connector_id
    → filter
        (λ p. not (p.connector_id == f.connector_id))
        (patch_where (is_page e.id) (with_fields f) xs)
      ≡ filter (λ p. not (p.connector_id == f.connector_id)) xs
patch-others f lo hi q [] e r h mine = refl
patch-others f lo hi q (x ∷ xs) e r h mine = elim (Bool-cases (q x)) [
  | inl hit ↦
      let same : x ≡ e = ground (arith, hit) in
      ground (arith, same, mine, patch_other (suc x.id) hi x.id (with_fields f) xs r.1)
  | inr miss ↦
      let rest : filter q xs ≡ e ∷ [] = rw miss at h in
      ground (
        arith,
        id_above (suc x.id) hi q xs e r.1 rest,
        patch-others f (suc x.id) hi q xs e r.1 rest mine,
      )
]

-- Nobody else holds a slug that is free or that the connector's one page has.
pub free-held :
    (f : Fields) (xs : List StatusPage)
    → filter (has_slug f.slug) xs ≡ []
    → all (λ p. not (has_slug f.slug p) || is_of f.connector_id p) xs ≡ true
free-held f [] h = refl
free-held f (x ∷ xs) h = ground (arith, free-held f xs)

pub own-held :
    (f : Fields) (xs : List StatusPage) (e : StatusPage)
    → filter (has_slug f.slug) xs ≡ e ∷ []
    → e.connector_id ≡ f.connector_id
    → all (λ p. not (has_slug f.slug p) || is_of f.connector_id p) xs ≡ true
own-held f [] e h mine = absurd (ground arith)
own-held f (x ∷ xs) e h mine = elim (Bool-cases (has_slug f.slug x)) [
  | inl hit ↦
      let same : x ≡ e = ground (arith, hit) in ground (arith, same, mine, hit, free-held f xs)
  | inr miss ↦ ground (arith, miss, own-held f xs e (ground (arith, miss)) mine)
]

pub filter_hit :
    (q : StatusPage → Bool) (xs : List StatusPage) (e : StatusPage)
    → filter q xs ≡ e ∷ []
    → q e ≡ true
filter_hit q [] e h = absurd (ground arith)
filter_hit q (x ∷ xs) e h = elim (Bool-cases (q x)) [
  | inl hit ↦ let same : x ≡ e = ground (arith, hit) in rw same at hit
  | inr miss ↦ filter_hit q xs e (rw miss at h)
]

pub at_most_one-none : {A : Type 0} (xs : List A) → at_most_one xs ≡ ok none → xs ≡ []
at_most_one-none [] h = refl
at_most_one-none (x ∷ []) h = absurd (ground arith)
at_most_one-none (x ∷ y ∷ xs) h = absurd (ground arith)
