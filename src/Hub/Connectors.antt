-- ===== src/Hub/Connectors.antt =====
-- apps/web/convex/connectors.ts: connectors, and what goes with one that is removed. `normalize_user` and
-- its like are the database's `normalizeId` for a table; `trim` is the runtime's.
pub mod Cascade
pub mod Enrollment
mod Tests
use superbull.Common.{
  or_before, ℕ, ◌+◌, List, [], ◌∷◌, ◌++◌, Option, none, some, Bool, true, false, not, ◌&&◌, Text,
  text_eq, is_empty, ◌==◌, if◌then◌else◌, filter, find,
}
use superbull.Hub.Schema.{Db, Connector, Project, Member, owner, admin, member}
use superbull.Hub.Base.{
  Result, ok, fail, ◌>>=◌, ◌>>◌, guard, or_fail, unique, patch_where, connector_name_required,
  user_not_found, connector_not_found, unknown_connector,
}
use superbull.Hub.Access.{
  ConnectorMembership, require_internal_token, require_project_member, require_role, member_of,
  require_connector_member_for_user,
}
use superbull.Hub.Invites.{guard_token_hash}

-- The four queries and the deletions of what they return, then of the connector itself.
unfoldable pub delete_connector_children : ℕ → Db → Db
delete_connector_children connector_id db = record db {
  ingest_events = filter (λ e. not (e.connector_id == connector_id)) db.ingest_events;
  error_groups = filter (λ g. not (g.connector_id == connector_id)) db.error_groups;
  annotations = filter (λ a. not (a.connector_id == connector_id)) db.annotations;
  status_pages = filter (λ s. not (s.connector_id == connector_id)) db.status_pages;
  connectors = filter (λ c. not (c.id == connector_id)) db.connectors;
}

abbrev pub of_project : ℕ → Connector → Bool
of_project project_id c = c.project_id == project_id

unfoldable pub list_by_project : Option ℕ → ℕ → Db → Result (List Connector)
list_by_project auth project_id db = do
  m ← require_project_member auth project_id db
  ok (filter (of_project project_id) db.connectors)

-- The connector of an id, if it is of the project.
abbrev pub find_of_project : ℕ → ℕ → Db → Option Connector
find_of_project project_id connector_id db = elim (find (λ c. c.id == connector_id) db.connectors) [
  | none ↦ none
  | some c ↦ if c.project_id == project_id then some c else none
]

unfoldable pub get_by_id : Option ℕ → ℕ → ℕ → Db → Result (Option Connector)
get_by_id auth project_id connector_id db = do
  m ← require_project_member auth project_id db
  ok (find_of_project project_id connector_id db)

abbrev pub new_connector : ℕ → Text → Text → ℕ → Connector
new_connector project_id name token_hash id = record {
  id = id;
  project_id = project_id;
  name = name;
  token_hash = some token_hash;
  version = none;
  queues = none;
  last_connected_at = none;
  last_disconnected_at = none;
}

unfoldable pub create_connector :
    (Text → Text) → Option ℕ → ℕ → Text → Text → Db → Result (Db × Connector)
create_connector trim auth project_id name token_hash db = do
  m ← require_project_member auth project_id db
  require_role m.member (owner ∷ admin ∷ member ∷ [])
  guard (not (is_empty (trim name))) connector_name_required
  guard_token_hash token_hash
  let created = new_connector project_id (trim name) token_hash db.next_id
  ok (record db { connectors = db.connectors ++ created ∷ []; next_id = db.next_id + 1 }, created)

unfoldable pub remove_connector : Option ℕ → ℕ → ℕ → Db → Result Db
remove_connector auth project_id connector_id db = do
  m ← require_project_member auth project_id db
  require_role m.member (owner ∷ admin ∷ [])
  ok (elim (find_of_project project_id connector_id db) [
    | none ↦ db
    | some c ↦ delete_connector_children connector_id db
  ])

-- `flat()` of the projects of some memberships.
unfoldable pub connectors_of : List Member → Db → List Connector
connectors_of [] db = []
connectors_of (m ∷ members) db =
    filter (of_project m.project_id) db.connectors ++ connectors_of members db

-- `none` for no required project or an empty one; else what `normalizeId` makes of it.
abbrev pub required : (Text → Option ℕ) → Option Text → Option (Option ℕ)
required normalize_project none = none
required normalize_project (some p) = if is_empty p then none else some (normalize_project p)

module _ (configured : Option Text)
    (normalize_user normalize_connector normalize_project : Text → Option ℕ) where
  unfoldable pub list_connectors_for_user : Text → Text → Option Text → Db → Result (List Connector)
  list_connectors_for_user token user required_project db = do
    require_internal_token configured token
    user_id ← or_fail (normalize_user user) user_not_found
    ok (elim (required normalize_project required_project) [
      | none ↦ connectors_of (filter (λ m. m.user_id == user_id) db.members) db
      | some none ↦ []
      | some (some project_id) ↦ elim (find (member_of project_id user_id) db.members) [
        | none ↦ []
        | some m ↦ filter (of_project project_id) db.connectors
      ]
    ])

  -- The three ids, where each that is given is one.
  unfoldable pub named : Text → Text → Option Text → Option (ℕ × ℕ × Option ℕ)
  named user connector required_project = elim (normalize_user user) [
    | none ↦ none
    | some u ↦ elim (normalize_connector connector) [
      | none ↦ none
      | some c ↦ elim (required normalize_project required_project) [
        | none ↦ some (u, c, none)
        | some none ↦ none
        | some (some p) ↦ some (u, c, some p)
      ]
    ]
  ]

  -- "Connector not found" becomes null; another error is thrown again.
  abbrev pub null_if_not_found : Result ConnectorMembership → Result (Option Connector)
  null_if_not_found (ok m) = ok (some m.connector)
  null_if_not_found (fail connector_not_found) = ok none
  null_if_not_found (fail e) = fail e

  unfoldable pub find_connector_by_id_for_user :
      Text → Text → Text → Option Text → Db → Result (Option Connector)
  unfolding named
  find_connector_by_id_for_user token user connector required_project db = do
    require_internal_token configured token
    elim (named user connector required_project) [
      | none ↦ ok none
      | some (u, c, p) ↦ null_if_not_found (require_connector_member_for_user u c p db)
    ]

  unfoldable pub remove_connector_for_user : Text → Text → Text → Option Text → Db → Result Db
  unfolding named
  remove_connector_for_user token user connector required_project db = do
    require_internal_token configured token
    ids ← or_fail (named user connector required_project) connector_not_found
    m ← require_connector_member_for_user ids.0 ids.1 ids.2 db
    ok (delete_connector_children ids.1 db)

abbrev pub has_enrollment : Text → Connector → Bool
has_enrollment token_hash c = elim c.token_hash [ none ↦ false | some h ↦ text_eq h token_hash ]

-- The columns of the answer are those of the connector.
unfoldable pub find_by_enrollment_token_hash :
    Option Text → Text → Text → Db → Result (Option Connector)
find_by_enrollment_token_hash configured token token_hash db = do
  require_internal_token configured token
  unique (has_enrollment token_hash) db.connectors

abbrev pub connect_at : ℕ → Option Text → Option (List Text) → Connector → Connector
connect_at now version queues c = record c {
  version = or_before version c.version;
  queues = or_before queues c.queues;
  last_connected_at = some now;
}

unfoldable pub mark_connected :
    Option Text → ℕ → Text → ℕ → Option Text → Option (List Text) → Db → Result Db
mark_connected configured now token connector_id version queues db = do
  require_internal_token configured token
  c ← or_fail (find (λ c. c.id == connector_id) db.connectors) unknown_connector
  ok (record db {
    connectors =
        patch_where (λ c. c.id == connector_id) (connect_at now version queues) db.connectors;
  })

abbrev pub disconnect_at : ℕ → Connector → Connector
disconnect_at now c = record c { last_disconnected_at = some now }

unfoldable pub mark_disconnected : Option Text → ℕ → Text → ℕ → Db → Result Db
mark_disconnected configured now token connector_id db = do
  require_internal_token configured token
  ok (elim (find (λ c. c.id == connector_id) db.connectors) [
    | none ↦ db
    | some c ↦ record db {
      connectors = patch_where (λ c. c.id == connector_id) (disconnect_at now) db.connectors;
    }
  ])
