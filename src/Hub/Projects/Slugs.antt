-- ===== src/Hub/Projects/Slugs.antt =====
-- apps/web/convex/projects.ts: the search for a free slug ends, and slugs stay apart.
use superbull.Common.{
  ℕ, zero, suc, ◌+◌, ◌≤◌, ◌<◌, ◌≡◌, ◌≢◌, refl, sym, ◌∙◌, List, [], ◌∷◌, ◌++◌, none, some, Bool,
  true, false, not, ◌&&◌, Text, codes, is_empty, leb, filter, filter-append, filter_of_find, find,
  find-filter, length, length-filter-not, length-append, append-cancel, append-nil, any, any-append,
  decimal, decimal-injective, arith, inl, inr, Bool-cases, Option-cases,
}
use superbull.Hub.Schema.{Db, User, Project, Member, owner}
use superbull.Hub.Base.{ok}
use superbull.Hub.Access.{require_user, same_role, member_of}
use superbull.Hub.Projects.{
  has_slug, candidate, free_slug, slug_base, slugify, generate_unique_slug, new_project, new_owner,
  create_project_for_user, create_project,
}

candidate_apart : (base : Text) (j k : ℕ) → 1 ≤ j → j < k → candidate base k ≢ candidate base j
candidate_apart base j k h l e = elim (Bool-cases (leb j 1)) [
  | inl first ↦
      let same : base ++ (codes "-" ++ decimal k) ≡ base = ground arith in
      let nothing : codes "-" ++ decimal k ≡ [] =
        append-cancel base (codes "-" ++ decimal k) [] (same ∙ sym (append-nil base)) in
      absurd (ground arith)
  | inr later ↦
      let same : base ++ (codes "-" ++ decimal k) ≡ base ++ (codes "-" ++ decimal j) =
        ground arith in
      let digits : codes "-" ++ decimal k ≡ codes "-" ++ decimal j =
        append-cancel base (codes "-" ++ decimal k) (codes "-" ++ decimal j) same in
      omega
        (arith, decimal-injective k j (append-cancel (codes "-") (decimal k) (decimal j) digits))
]

other : Text → Project → Bool
other x p = not (has_slug x p)

-- A slug that no further attempt tries may as well not be there.
free_slug-other :
    (fuel k : ℕ) (base x : Text) (projects : List Project)
    → ((j : ℕ) → k ≤ j → candidate base j ≢ x)
    → free_slug fuel base k (filter (other x) projects) ≡ free_slug fuel base k projects
unfolding free_slug other
free_slug-other zero k base x projects h = refl
free_slug-other (suc fuel) k base x projects h =
    let seen : find (has_slug (candidate base k)) (filter (other x) projects)
        ≡ find (has_slug (candidate base k)) projects =
      find-filter (has_slug (candidate base k)) (other x) projects
        (λ p e. ground (arith, h k (omega arith))) in
    rw (free_slug, seen)
      (elim (Option-cases (find (has_slug (candidate base k)) projects)) [
        | inl nothing ↦ rw (free_slug, nothing) refl
        | inr (p, taken) ↦
            rw (free_slug, taken)
              (free_slug-other fuel (k + 1) base x projects (λ j l. h j (omega arith)))
      ])

free_slug-some :
    (fuel k : ℕ) (base : Text) (projects : List Project)
    → length projects < fuel
    → 1 ≤ k
    → (slug : Text) × (free_slug fuel base k projects ≡ some slug)
unfolding free_slug other
free_slug-some zero k base projects h l = absurd (omega arith)
free_slug-some (suc fuel) k base projects h l =
    elim (Option-cases (find (has_slug (candidate base k)) projects)) [
      | inl nothing ↦ (candidate base k, rw (free_slug, nothing) refl)
      | inr (p, taken) ↦
          let x = candidate base k in
          let shorter = length-filter-not (has_slug x) projects p taken in
          let (slug, e) =
            free_slug-some fuel (k + 1) base (filter (other x) projects) (omega arith)
              (omega arith) in
          (
            slug,
            rw (free_slug, taken)
                (sym (
                    free_slug-other fuel (k + 1) base x projects
                      (λ j m. candidate_apart base k j l (omega arith)))
                  ∙ e),
          )
    ]

free_slug-free :
    (fuel k : ℕ) (base slug : Text) (projects : List Project)
    → free_slug fuel base k projects ≡ some slug
    → find (has_slug slug) projects ≡ none
unfolding free_slug
free_slug-free zero k base slug projects h = absurd (ground arith)
free_slug-free (suc fuel) k base slug projects h =
    elim (Option-cases (find (has_slug (candidate base k)) projects)) [
      | inl nothing ↦ ground arith
      | inr (p, taken) ↦ free_slug-free fuel (k + 1) base slug projects (rw (free_slug, taken) at h)
    ]

-- No two projects share a slug.
abbrev pub IsUnique : Db → Type 0
IsUnique db = (slug : Text) → length (filter (has_slug slug) db.projects) ≤ 1

insert-IsUnique :
    (p : Project) (projects : List Project)
    → ((s : Text) → length (filter (has_slug s) projects) ≤ 1)
    → find (has_slug p.slug) projects ≡ none
    → (slug : Text) → length (filter (has_slug slug) (projects ++ p ∷ [])) ≤ 1
insert-IsUnique p projects u free slug = elim (Bool-cases (has_slug slug p)) [
  | inl mine ↦
      let same : slug ≡ p.slug = ground arith in
      rw (filter-append (has_slug slug) projects (p ∷ []))
        (rw same (rw (filter_of_find (has_slug p.slug) projects free) (ground arith)))
  | inr other ↦ ground (
    arith,
    filter-append (has_slug slug) projects (p ∷ []),
    length-append (filter (has_slug slug) projects) [],
    u slug,
  )
]

abbrev pub owns : ℕ → ℕ → Member → Bool
owns project_id user_id m = member_of project_id user_id m && same_role m.role owner

-- A known user's creation of a project with a name that is not blank goes through: the search for a
-- slug ends, the slug was free, slugs that were unique stay so, and the user owns the new project.
pub create_project_lem :
    (trim to_lower : Text → Text) (now user_id : ℕ) (name : Text) (db : Db) (user : User)
    → require_user (some user_id) db ≡ ok (user_id, user)
    → is_empty (trim name) ≡ false
    → IsUnique db
    → (db' : Db) × (p : Project) × (create_project trim to_lower now (some user_id) name db
        ≡ ok (db', p))
      × (p.name ≡ trim name)
      × (find (has_slug p.slug) db.projects ≡ none)
      × IsUnique db'
      × (any (owns p.id user_id) db'.members ≡ true)
unfolding create_project create_project_for_user generate_unique_slug
create_project_lem trim to_lower now user_id name db user known named u =
    let base = slug_base (slugify to_lower (trim name)) in
    let (slug, e) =
      free_slug-some (suc (length db.projects)) 1 base db.projects (omega arith) (omega arith) in
    let free = free_slug-free (suc (length db.projects)) 1 base slug db.projects e in
    let p = new_project now (trim name) slug db.next_id in
    let db' : Db = record db {
      projects = db.projects ++ p ∷ [];
      members = db.members ++ new_owner db.next_id user_id (db.next_id + 1) ∷ [];
      next_id = db.next_id + 2;
    } in
    (
      db',
      p,
      rw (known, named, e) refl,
      refl,
      free,
      insert-IsUnique p db.projects u free,
      ground (
        arith,
        any-append (owns db.next_id user_id) db.members
            (new_owner db.next_id user_id (db.next_id + 1) ∷ []),
      ),
    )
