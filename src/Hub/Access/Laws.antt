-- ===== src/Hub/Access/Laws.antt =====
-- apps/web/convex/access.ts: tenants stay apart.
use mathlib.Core.List.{Memᴰ}
use superbull.Common.{
  ℕ, ◌≡◌, refl, List, [], ◌∷◌, ◌&&◌, Bool, true, false, text_eq, Option, none, some, Text, find,
  any, any_of_find, find_of_any, ◌==◌, ◌⊎◌, inl, inr, if◌then◌else◌, Bool-cases, Option-cases,
  arith,
}
use superbull.Hub.Schema.{Db, Project, Connector}
use superbull.Hub.Base.{ok, fail, find_sound, project_not_found, connector_not_found}
use superbull.Hub.Access.{
  Membership, ConnectorMembership, member_of, require_project_member,
  require_project_member_by_slug, require_connector_member, require_connector_member_for_user,
}

-- What a caller holds behind a guard: its own user, the project, and a row of the members table that
-- ties the one to the other; all three stand in the database.
pub record Authorised (user_id project_id : ℕ) (db : Db) (m : Membership) : Type 0 where
  pub caller : m.user_id ≡ user_id
  pub self : m.user.id ≡ user_id
  pub known : Memᴰ m.user db.users
  pub seated : Memᴰ m.member db.members
  pub row_user : m.member.user_id ≡ user_id
  pub row_project : m.member.project_id ≡ project_id
  pub project : m.project.id ≡ project_id
  pub there : Memᴰ m.project db.projects

find-Memᴰ {ℓ} : {A : Type ℓ} (p : A → Bool) (xs : List A) (x : A) → find p xs ≡ some x → Memᴰ x xs
find-Memᴰ p [] x h = absurd (ground arith)
find-Memᴰ p (y ∷ xs) x h = elim (Bool-cases (p y)) [
  | inl hit ↦ Memᴰ.head (ground (arith, hit))
  | inr miss ↦ Memᴰ.tail (find-Memᴰ p xs x (ground (arith, miss)))
]

-- What the three queries of a guard find.
record Queried (user_id project_id : ℕ) (db : Db) (m : Membership) : Type 0 where
  caller : m.user_id ≡ user_id
  user : find (λ u. u.id == user_id) db.users ≡ some m.user
  member : find (member_of project_id user_id) db.members ≡ some m.member
  project : find (λ p. p.id == project_id) db.projects ≡ some m.project

Queried-Authorised :
    (user_id project_id : ℕ) (db : Db) (m : Membership)
    → Queried user_id project_id db m
    → Authorised user_id project_id db m
Queried-Authorised user_id project_id db m q =
    let row = find_sound (member_of project_id user_id) db.members m.member q.member in
    record {
      caller = q.caller;
      self = ground (arith, find_sound (λ u. u.id == user_id) db.users m.user q.user);
      known = find-Memᴰ (λ u. u.id == user_id) db.users m.user q.user;
      seated = find-Memᴰ (member_of project_id user_id) db.members m.member q.member;
      row_user = ground (arith, row);
      row_project = ground (arith, row);
      project =
          ground (arith, find_sound (λ p. p.id == project_id) db.projects m.project q.project);
      there = find-Memᴰ (λ p. p.id == project_id) db.projects m.project q.project;
    }

-- A caller that a guard lets through is who it says, and the members table has a row of it in the
-- project; the user and the project that the guard returns stand in their tables.
pub require_project_member-Authorised :
    (user_id project_id : ℕ) (db : Db) (m : Membership)
    → require_project_member (some user_id) project_id db ≡ ok m
    → Authorised user_id project_id db m
unfolding require_project_member
require_project_member-Authorised user_id project_id db m h =
    Queried-Authorised user_id project_id db m (record {
      caller = ground arith;
      user = ground arith;
      member = ground arith;
      project = ground arith;
    })

-- Behind the connector guard the caller is a member of the connector's own project, so an id of
-- another tenant's connector is never let through.
pub require_connector_member-Authorised :
    (user_id connector_id : ℕ) (db : Db) (c : ConnectorMembership)
    → require_connector_member (some user_id) connector_id db ≡ ok c
    → (c.connector.id ≡ connector_id) × Authorised user_id c.connector.project_id db c.membership
unfolding require_connector_member
require_connector_member-Authorised user_id connector_id db c h = (
  ground (arith, find_sound (λ c'. c'.id == connector_id) db.connectors c.connector),
  require_project_member-Authorised user_id c.connector.project_id db c.membership (ground arith),
)

-- A call on behalf of a user gets the connector of the id it names, from the connectors table, and
-- only if the members table has a row of the user in that connector's project; a project that the
-- call requires is the connector's.
pub require_connector_member_for_user-Authorised :
    (user_id connector_id : ℕ) (required : Option ℕ) (db : Db) (c : ConnectorMembership)
    → require_connector_member_for_user user_id connector_id required db ≡ ok c
    → (c.connector.id ≡ connector_id)
      × Memᴰ c.connector db.connectors
      × ((required ≡ none) ⊎ (required ≡ some c.connector.project_id))
      × Authorised user_id c.connector.project_id db c.membership
unfolding require_connector_member_for_user
require_connector_member_for_user-Authorised user_id connector_id required db c h =
    let found : find (λ d. d.id == connector_id) db.connectors ≡ some c.connector = ground arith in
    (
      ground (arith, find_sound (λ d. d.id == connector_id) db.connectors c.connector found),
      find-Memᴰ (λ d. d.id == connector_id) db.connectors c.connector found,
      elim (Option-cases required) [
        | inl free ↦ inl free
        | inr (p, bound) ↦ inr (ground (arith, found))
      ],
      Queried-Authorised user_id c.connector.project_id db c.membership (record {
        caller = ground arith;
        user = ground arith;
        member = ground arith;
        project = ground arith;
      }),
    )

abbrev pub without_projects : Db → Db
without_projects db = record db { projects = [] }

-- To a caller that is not a member, a project looks as if it were not there: both guards return
-- what they return on the database that has no project at all.
pub non_member_blind :
    (user_id project_id : ℕ) (slug : Text) (db : Db) (p : Project)
    → find (λ q. text_eq q.slug slug) db.projects ≡ some p
    → p.id ≡ project_id
    → find (member_of project_id user_id) db.members ≡ none
    → (require_project_member (some user_id) project_id db
        ≡ require_project_member (some user_id) project_id (without_projects db))
      × (require_project_member_by_slug (some user_id) slug db
          ≡ require_project_member_by_slug (some user_id) slug (without_projects db))
unfolding require_project_member require_project_member_by_slug
non_member_blind user_id project_id slug db p here same outside = ground arith

any_at {ℓ} :
    {A : Type ℓ} (p q : A → Bool) (xs : List A) (x : A)
    → find p xs ≡ some x
    → q x ≡ true
    → any (λ y. p y && q y) xs ≡ true
any_at p q [] x h k = absurd (ground arith)
any_at p q (y ∷ xs) x h k = elim (Bool-cases (p y)) [
  | inl hit ↦ let same : y ≡ x = ground (arith, hit) in rw same (rw (rw same at hit, k) refl)
  | inr miss ↦ rw miss (any_at p q xs x (ground (arith, miss)) k)
]

any_of_no_find {ℓ} : {A : Type ℓ} (p : A → Bool) (xs : List A) → find p xs ≡ none → any p xs ≡ false
any_of_no_find p [] h = refl
any_of_no_find p (y ∷ xs) h = ground (arith, any_of_no_find p xs)

-- The user is a member of the project of a connector of that id.
abbrev pub is_seated : ℕ → ℕ → Db → Bool
is_seated user_id connector_id db =
    any
      (λ c.
        c.id == connector_id
        && any (λ m. m.project_id == c.project_id && m.user_id == user_id) db.members)
      db.connectors

unseated :
    (user_id connector_id : ℕ) (db : Db) (c : Connector)
    → is_seated user_id connector_id db ≡ false
    → find (λ d. d.id == connector_id) db.connectors ≡ some c
    → find (member_of c.project_id user_id) db.members ≡ none
unseated user_id connector_id db c outside here =
    elim (Option-cases (find (member_of c.project_id user_id) db.members)) [
      | inl nothing ↦ nothing
      | inr (m, seat) ↦ absurd (
          ground (
            arith,
            any_at (λ d. d.id == connector_id)
                (λ d. any (member_of d.project_id user_id) db.members) db.connectors c here,
            any_of_find (member_of c.project_id user_id) db.members m seat,
            outside,
          ))
    ]

-- What a known user is told of an id when it is no member of the project of a connector of that id, or
-- when there is no such connector. The session
-- guard tells whether there is such a connector: it answers "Project not found" if there is one and
-- "Connector not found" if there is none. The guard of the calls on behalf of a user, whatever project
-- they require, answers "Connector not found" in both cases, and so does not tell.
pub require_connector_member_tells :
    (user_id connector_id : ℕ) (required : Option ℕ) (db : Db)
    → any (λ u. u.id == user_id) db.users ≡ true
    → is_seated user_id connector_id db ≡ false
    → (require_connector_member (some user_id) connector_id db
        ≡ fail (
            if any (λ c. c.id == connector_id) db.connectors
            then project_not_found
            else connector_not_found))
      × (require_connector_member_for_user user_id connector_id required db
          ≡ fail connector_not_found)
unfolding require_connector_member require_connector_member_for_user
require_connector_member_tells user_id connector_id required db known outside =
    let (u, user) = find_of_any (λ u. u.id == user_id) db.users known in
    elim (Option-cases (find (λ c. c.id == connector_id) db.connectors)) [
      | inl nothing ↦ (
        ground (arith, nothing, any_of_no_find (λ c. c.id == connector_id) db.connectors nothing),
        ground (arith, nothing),
      )
      | inr (c, here) ↦
          let alone = unseated user_id connector_id db c outside here in
          (
            ground (
              arith,
              here,
              user,
              alone,
              any_of_find (λ c. c.id == connector_id) db.connectors c here,
            ),
            ground (arith, here, alone),
          )
    ]
