-- ===== src/Hub/Projects/Owners.antt =====
-- apps/web/convex/projects.ts: removing members leaves every owner in place.
use superbull.Common.{
  ◌∙◌, ℕ, suc, ap, ◌≢◌, ◌<◌, ◌≡◌, refl, List, [], ◌∷◌, Option, some, Bool, false, not, ◌==◌, filter,
  find, arith, inl, inr, Option-cases, Bool-cases,
}
use superbull.Hub.Schema.{Db, Member, owner, admin, member}
use superbull.Hub.Base.{ok, ok_of_bind, find_sound, Rising}
use superbull.Hub.Access.{Membership, require_project_member, require_role, same_role}
use superbull.Hub.Projects.{remove_found, remove_member}

abbrev pub is_owner : Member → Bool
is_owner m = same_role m.role owner

abbrev pub elsewhere : ℕ → Member → Bool
elsewhere project_id m = not (m.project_id == project_id)

abbrev pub id_of : Member → ℕ
id_of m = m.id

filter_beyond :
    (n lo hi : ℕ) (rows : List Member)
    → Rising id_of lo hi rows
    → n < lo
    → filter (λ m. not (m.id == n)) rows ≡ rows
filter_beyond n lo hi [] r h = refl
filter_beyond n lo hi (z ∷ rows) r h = ground (arith, filter_beyond n (suc z.id) hi rows r.1)

-- Filtering out one row leaves the rows of a kind that it is not of.
kept_rows :
    (keep : Member → Bool) (lo hi : ℕ) (target : Member) (rows : List Member)
    → Rising id_of lo hi rows
    → find (λ n. n.id == target.id) rows ≡ some target
    → keep target ≡ false
    → filter keep (filter (λ n. not (n.id == target.id)) rows) ≡ filter keep rows
kept_rows keep lo hi target [] r found plain = refl
kept_rows keep lo hi target (z ∷ rows) r found plain = elim (Bool-cases (z.id == target.id)) [
  | inl here ↦
      let same : z ≡ target = ground arith in
      let plain' : keep z ≡ false = rw same plain in
      rw (here, plain')
        (ap (filter keep) (filter_beyond target.id (suc z.id) hi rows r.1 (ground arith)))
  | inr later ↦
      let rest = kept_rows keep (suc z.id) hi target rows r.1 (ground arith) plain in
      rw later (ground (arith, rest))
]

remove_found_lem :
    (project_id : ℕ) (target : Member) (db db' : Db)
    → Rising id_of 0 db.next_id db.members
    → find (λ n. n.id == target.id) db.members ≡ some target
    → remove_found project_id target db ≡ ok db'
    → (filter is_owner db'.members ≡ filter is_owner db.members)
      × (filter (elsewhere project_id) db'.members ≡ filter (elsewhere project_id) db.members)
unfolding remove_found
remove_found_lem project_id target db db' r found h =
    elim (Bool-cases (target.project_id == project_id)) [
      | inr other ↦ ground arith
      | inl of_it ↦ elim (Bool-cases (is_owner target)) [
        | inl owning ↦ absurd (ground arith)
        | inr plain ↦
            let same : db'.members ≡ filter (λ n. not (n.id == target.id)) db.members =
              ground arith in
            rw same (
              kept_rows is_owner 0 db.next_id target db.members r found plain,
              kept_rows (elsewhere project_id) 0 db.next_id target db.members r found
                  (ground arith),
            )
      ]
    ]

-- Where the ids rise along the members' table, a removal that goes through was asked for by an owner or
-- an admin of the project, and leaves every owner, of any project, and every member of another one.
pub remove_member_lem :
    (auth : Option ℕ) (project_id member_id : ℕ) (db db' : Db)
    → Rising id_of 0 db.next_id db.members
    → remove_member auth project_id member_id db ≡ ok db'
    → ((m : Membership) × (require_project_member auth project_id db ≡ ok m)
        × (m.member.role ≢ member))
      × (filter is_owner db'.members ≡ filter is_owner db.members)
      × (filter (elsewhere project_id) db'.members ≡ filter (elsewhere project_id) db.members)
unfolding remove_member require_role
remove_member_lem auth project_id member_id db db' r h =
    let (m, e, h₁) = ok_of_bind (require_project_member auth project_id db) _ _ h in
    let (u, allowed, h₂) = ok_of_bind (require_role m.member (owner ∷ admin ∷ [])) _ _ h₁ in
    let kept : (filter is_owner db'.members ≡ filter is_owner db.members)
        × (filter (elsewhere project_id) db'.members ≡ filter (elsewhere project_id) db.members) =
      elim (Option-cases (find (λ n. n.id == member_id) db.members)) [
        | inl nothing ↦ ground arith
        | inr (target, found) ↦
            let same : target.id ≡ member_id =
              ground (arith, find_sound (λ n. n.id == member_id) db.members target found) in
            remove_found_lem project_id target db db' r
              (ap (λ k. find (λ (n : Member). n.id == k) db.members) same ∙ found) (rw found at h₂)
      ] in
    ((m, e, λ plain. ground (arith, allowed, plain)), kept.0, kept.1)
