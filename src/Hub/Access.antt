-- ===== src/Hub/Access.antt =====
-- apps/web/convex/access.ts: the guards of the handlers. `auth` is what `getAuthUserId` returns, and
-- `expected` the environment's CONVEX_INTERNAL_TOKEN.
pub mod Laws
pub mod Token
mod Tests
use Prim.Native.Nat.{bit_or, bit_xor}
use superbull.Common.{
  ℕ, List, [], ◌∷◌, Option, none, some, Bool, true, false, not, ◌&&◌, ◌||◌, Text, text_eq, length,
  is_empty, if◌then◌else◌, find, any, ◌==◌,
}
use superbull.Hub.Schema.{Db, User, Project, Member, Connector, Role, owner, admin, member}
use superbull.Hub.Base.{
  Result, ok, fail, ◌>>=◌, ◌>>◌, guard, or_fail, unauthorized, unauthenticated, project_not_found,
  forbidden, connector_not_found,
}

-- The loop: every code unit is compared, whatever came before.
unfoldable pub difference : ℕ → Text → Text → ℕ
difference d [] token = d
difference d (e ∷ expected) [] = d
difference d (e ∷ expected) (t ∷ token) = difference (bit_or d (bit_xor e t)) expected token

-- On two present tokens.
unfoldable pub tokens_match : Text → Text → Bool
tokens_match expected token =
    if is_empty expected || is_empty token || not (length expected == length token)
    then false
    else difference 0 expected token == 0

unfoldable pub has_valid_internal_token : Option Text → Option Text → Bool
has_valid_internal_token none token = false
has_valid_internal_token (some expected) none = false
has_valid_internal_token (some expected) (some token) = tokens_match expected token

unfoldable pub require_internal_token : Option Text → Text → Result (Unit {0})
require_internal_token expected token =
    guard (has_valid_internal_token expected (some token)) unauthorized

unfoldable pub require_user_id : Option ℕ → Result ℕ
require_user_id auth = or_fail auth unauthenticated

unfoldable pub require_user : Option ℕ → Db → Result (ℕ × User)
unfolding require_user_id
require_user auth db = do
  user_id ← require_user_id auth
  user ← or_fail (find (λ u. u.id == user_id) db.users) unauthenticated
  ok (user_id, user)

pub record Membership : Type 0 where
  pub user_id : ℕ
  pub user : User
  pub member : Member
  pub project : Project

abbrev pub member_of : ℕ → ℕ → Member → Bool
member_of project_id user_id m = m.project_id == project_id && m.user_id == user_id

unfoldable pub require_project_member : Option ℕ → ℕ → Db → Result Membership
unfolding require_user
require_project_member auth project_id db = do
  (user_id, user) ← require_user auth db
  m ← or_fail (find (member_of project_id user_id) db.members) project_not_found
  project ← or_fail (find (λ p. p.id == project_id) db.projects) project_not_found
  ok (record { user_id = user_id; user = user; member = m; project = project })

unfoldable pub require_project_member_by_slug : Option ℕ → Text → Db → Result Membership
unfolding require_user
require_project_member_by_slug auth slug db = do
  (user_id, user) ← require_user auth db
  project ← or_fail (find (λ p. text_eq p.slug slug) db.projects) project_not_found
  m ← or_fail (find (member_of project.id user_id) db.members) project_not_found
  ok (record { user_id = user_id; user = user; member = m; project = project })

abbrev pub same_role : Role → Role → Bool
same_role owner owner = true
same_role admin admin = true
same_role member member = true
same_role _ _ = false

unfoldable pub require_role : Member → List Role → Result (Unit {0})
require_role m roles = guard (any (λ r. same_role r m.role) roles) forbidden

pub record ConnectorMembership : Type 0 where
  pub membership : Membership
  pub connector : Connector

unfoldable pub require_connector_member : Option ℕ → ℕ → Db → Result ConnectorMembership
unfolding require_project_member
require_connector_member auth connector_id db = do
  connector ← or_fail (find (λ c. c.id == connector_id) db.connectors) connector_not_found
  membership ← require_project_member auth connector.project_id db
  ok (record { membership = membership; connector = connector })

-- `!member || !project || !user`
unfoldable pub require_connector_member_for_user :
    ℕ → ℕ → Option ℕ → Db → Result ConnectorMembership
require_connector_member_for_user user_id connector_id required_project_id db = do
  connector ← or_fail (find (λ c. c.id == connector_id) db.connectors) connector_not_found
  guard (elim required_project_id [ none ↦ true | some p ↦ connector.project_id == p ])
      connector_not_found
  m ← or_fail (find (member_of connector.project_id user_id) db.members) connector_not_found
  project ← or_fail (find (λ p. p.id == connector.project_id) db.projects) connector_not_found
  user ← or_fail (find (λ u. u.id == user_id) db.users) connector_not_found
  ok (record {
    membership = record { user_id = user_id; user = user; member = m; project = project };
    connector = connector;
  })
