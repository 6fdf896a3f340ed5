-- ===== src/Hub/Projects.antt =====
-- apps/web/convex/projects.ts: projects, their slugs, their members, and the deletion of one with all
-- that is in it. `to_lower`, `to_upper` and `trim` are the runtime's.
pub mod Slugs
pub mod Owners
pub mod Erase
mod Tests
use superbull.Common.{
  ℕ, zero, suc, ◌+◌, List, [], ◌∷◌, ◌++◌, Option, none, some, Bool, true, false, not, ◌&&◌, ◌||◌,
  Text, codes, text_eq, is_empty, is_digit, leb, ◌==◌, if◌then◌else◌, filter, find, length, decimal,
}
use superbull.Hub.Schema.{Db, User, Project, Member, Connector, AlertRule, Role, owner, admin}
use superbull.Hub.Base.{
  Result, ok, fail, ◌>>=◌, ◌>>◌, guard, or_fail, project_name_required, last_owner, name_mismatch,
  no_slug,
}
use superbull.Hub.Access.{
  require_user_id, require_user, require_project_member, require_role, same_role, member_of,
}
use superbull.Hub.Connectors.{delete_connector_children, of_project}

-- The class `[a-z0-9]`.
abbrev pub is_plain : ℕ → Bool
is_plain c = is_digit c || (leb b'a' c && leb c b'z')

-- `.replace(/[^a-z0-9]+/g, '-')`: whether a run is being passed over, and the text.
unfoldable pub dash_runs : Bool → Text → Text
dash_runs in_run [] = []
dash_runs in_run (c ∷ text) = elim (is_plain c) [
  | true ↦ c ∷ dash_runs false text
  | false ↦ elim in_run [ true ↦ dash_runs true text | false ↦ b'-' ∷ dash_runs true text ]
]

-- `.replace(/(^-|-$)/g, '')`, first at the head and then at the end.
unfoldable pub strip_head : Text → Text
strip_head [] = []
strip_head (c ∷ text) = if c == b'-' then text else c ∷ text

unfoldable pub strip_end : Text → Text
strip_end [] = []
strip_end (c ∷ []) = if c == b'-' then [] else c ∷ []
strip_end (c ∷ d ∷ text) = c ∷ strip_end (d ∷ text)

unfoldable pub slugify : (Text → Text) → Text → Text
slugify to_lower value = strip_end (strip_head (dash_runs false (to_lower value)))

abbrev pub has_slug : Text → Project → Bool
has_slug slug p = text_eq p.slug slug

-- The slug of an attempt, from the first.
abbrev pub candidate : Text → ℕ → Text
candidate base attempt = if leb attempt 1 then base else base ++ (codes "-" ++ decimal attempt)

-- The loop, on fuel; `none` means that the fuel ran out.
unfoldable pub free_slug : ℕ → Text → ℕ → List Project → Option Text
free_slug zero base attempt projects = none
free_slug (suc fuel) base attempt projects =
    elim (find (has_slug (candidate base attempt)) projects) [
      | none ↦ some (candidate base attempt)
      | some p ↦ free_slug fuel base (attempt + 1) projects
    ]

abbrev pub slug_base : Text → Text
slug_base slug = if is_empty slug then codes "project" else slug

-- One attempt more than there are projects.
unfoldable pub generate_unique_slug : (Text → Text) → Text → Db → Option Text
generate_unique_slug to_lower name db =
    free_slug (suc (length db.projects)) (slug_base (slugify to_lower name)) 1 db.projects

-- `text.split(sep)[0]`, and what is behind the first `sep`.
unfoldable pub before_first : ℕ → Text → Text
before_first sep [] = []
before_first sep (c ∷ text) = elim (c == sep) [ true ↦ [] | false ↦ c ∷ before_first sep text ]

unfoldable pub after_first : ℕ → Text → Option Text
after_first sep [] = none
after_first sep (c ∷ text) = elim (c == sep) [ true ↦ some text | false ↦ after_first sep text ]

-- The domain's first label, where the address has one.
unfoldable pub domain_of : Option Text → Text
domain_of none = []
domain_of (some email) = elim (after_first b'@' email) [
  | none ↦ []
  | some rest ↦ before_first b'.' (before_first b'@' rest)
]

abbrev pub capitalized : (Text → Text) → Text → Text
capitalized to_upper [] = codes "My Project"
capitalized to_upper (c ∷ domain) = to_upper (c ∷ []) ++ domain

abbrev pub trimmed : (Text → Text) → Option Text → Text
trimmed trim none = []
trimmed trim (some name) = trim name

unfoldable pub project_name_for_profile :
    (Text → Text) → (Text → Text) → Option Text → Option Text → Text
project_name_for_profile trim to_upper email name =
    if is_empty (trimmed trim name)
    then capitalized to_upper (domain_of email)
    else trimmed trim name ++ codes "'s Project"

abbrev pub new_project : ℕ → Text → Text → ℕ → Project
new_project now name slug id = record { id = id; name = name; slug = slug; created_at = now }

abbrev pub new_owner : ℕ → ℕ → ℕ → Member
new_owner project_id user_id id = record {
  id = id;
  project_id = project_id;
  user_id = user_id;
  role = owner;
}

unfoldable pub create_project_for_user : (Text → Text) → ℕ → ℕ → Text → Db → Result (Db × Project)
create_project_for_user to_lower now user_id name db = do
  slug ← or_fail (generate_unique_slug to_lower name db) no_slug
  let project = new_project now name slug db.next_id
  ok (
    record db {
      projects = db.projects ++ project ∷ [];
      members = db.members ++ new_owner db.next_id user_id (db.next_id + 1) ∷ [];
      next_id = db.next_id + 2;
    },
    project,
  )

unfoldable pub create_project :
    (Text → Text) → (Text → Text) → ℕ → Option ℕ → Text → Db → Result (Db × Project)
create_project trim to_lower now auth name db = do
  (user_id, user) ← require_user auth db
  guard (not (is_empty (trim name))) project_name_required
  create_project_for_user to_lower now user_id (trim name) db

unfoldable pub projects_of : List Member → Db → List (Project × Member)
projects_of [] db = []
projects_of (m ∷ members) db =
    let rest = projects_of members db in
    elim (find (λ p. p.id == m.project_id) db.projects) [ none ↦ rest | some p ↦ (p, m) ∷ rest ]

unfoldable pub list_projects_by_user : Option ℕ → Db → Result (List (Project × Member))
list_projects_by_user auth db = do
  user_id ← require_user_id auth
  ok (projects_of (filter (λ m. m.user_id == user_id) db.members) db)

unfoldable pub find_project_by_slug : Option ℕ → Text → Db → Result (Option (Project × Member))
find_project_by_slug auth slug db = do
  user_id ← require_user_id auth
  ok (elim (find (has_slug slug) db.projects) [
    | none ↦ none
    | some p ↦ elim (find (member_of p.id user_id) db.members) [
      | none ↦ none
      | some m ↦ some (p, m)
    ]
  ])

pub record MemberRow : Type 0 where
  pub id : ℕ
  pub user_id : ℕ
  pub role : Role
  pub email : Option Text
  pub name : Option Text

abbrev pub email_of : Option User → Option Text
email_of none = none
email_of (some u) = u.email

abbrev pub user_name_of : Option User → Option Text
user_name_of none = none
user_name_of (some u) = u.name

unfoldable pub member_rows : List Member → Db → List MemberRow
member_rows [] db = []
member_rows (m ∷ members) db =
    let user = find (λ u. u.id == m.user_id) db.users in
    record {
      id = m.id;
      user_id = m.user_id;
      role = m.role;
      email = email_of user;
      name = user_name_of user;
    }
    ∷ member_rows members db

unfoldable pub list_members : Option ℕ → ℕ → Db → Result (List MemberRow)
list_members auth project_id db = do
  m ← require_project_member auth project_id db
  ok (member_rows (filter (λ n. n.project_id == project_id) db.members) db)

unfoldable pub remove_found : ℕ → Member → Db → Result Db
remove_found project_id target db =
    if not (target.project_id == project_id)
    then ok db
    else if same_role target.role owner
    then fail last_owner
    else ok (record db { members = filter (λ n. not (n.id == target.id)) db.members })

unfoldable pub remove_member : Option ℕ → ℕ → ℕ → Db → Result Db
remove_member auth project_id member_id db = do
  m ← require_project_member auth project_id db
  require_role m.member (owner ∷ admin ∷ [])
  elim (find (λ n. n.id == member_id) db.members) [
    | none ↦ ok db
    | some target ↦ remove_found project_id target db
  ]

-- The loops of `deleteProjectAsOwner`.
unfoldable pub delete_connectors : List Connector → Db → Db
delete_connectors [] db = db
delete_connectors (c ∷ connectors) db =
    delete_connectors connectors (delete_connector_children c.id db)

unfoldable pub delete_rule : ℕ → Db → Db
delete_rule rule_id db = record db {
  alert_states = filter (λ s. not (s.rule_id == rule_id)) db.alert_states;
  alert_rules = filter (λ r. not (r.id == rule_id)) db.alert_rules;
}

unfoldable pub delete_rules : List AlertRule → Db → Db
delete_rules [] db = db
delete_rules (r ∷ rules) db = delete_rules rules (delete_rule r.id db)

abbrev pub rules_of : ℕ → Db → List AlertRule
rules_of project_id db = filter (λ r. r.project_id == project_id) db.alert_rules

-- What is left once the connectors and the rules are gone.
unfoldable pub delete_rows : ℕ → Db → Db
delete_rows project_id db = record db {
  dashboards = filter (λ d. not (d.project_id == project_id)) db.dashboards;
  invites = filter (λ i. not (i.project_id == project_id)) db.invites;
  members = filter (λ m. not (m.project_id == project_id)) db.members;
  projects = filter (λ p. not (p.id == project_id)) db.projects;
}

unfoldable pub delete_project : ℕ → Db → Db
unfolding delete_connectors delete_rules delete_rows
delete_project project_id db =
    let db₁ = delete_connectors (filter (of_project project_id) db.connectors) db in
    let db₂ = delete_rules (rules_of project_id db₁) db₁ in delete_rows project_id db₂

unfoldable pub delete_project_as_owner : (Text → Text) → Option ℕ → ℕ → Text → Db → Result Db
delete_project_as_owner trim auth project_id name db = do
  m ← require_project_member auth project_id db
  require_role m.member (owner ∷ [])
  guard (text_eq (trim name) m.project.name) name_mismatch
  ok (delete_project project_id db)
