-- ===== src/Hub/Invites.antt =====
-- apps/web/convex/invites.ts: invites to a project, each accepted by its token. The runtime's `trim`
-- and `toLowerCase` are parameters.
pub mod Accept
mod Tests
use superbull.Common.{
  ℕ, ◌+◌, ◌*◌, List, [], ◌∷◌, ◌++◌, Option, none, some, Bool, true, false, not, ◌&&◌, Text, text_eq,
  is_empty, truthy, ltb, ◌==◌, if◌then◌else◌, filter, find, length,
}
use superbull.Hub.Schema.{Db, User, Project, Member, Invite, Role, owner, admin}
use superbull.Hub.Base.{
  Result, ok, fail, ◌>>=◌, ◌>>◌, guard, or_fail, patch_where, project_not_found, invalid_token_hash,
  email_required, invite_not_found, other_email,
}
use superbull.Hub.Access.{require_user, require_project_member, require_role, member_of}
use superbull.Hub.ErrorGroups.{is_hex}

abbrev pub invite_ttl_ms : ℕ
invite_ttl_ms = 7 * 24 * 60 * 60 * 1000

unfoldable pub all_hex : Text → Bool
all_hex [] = true
all_hex (c ∷ text) = is_hex c && all_hex text

unfoldable pub guard_token_hash : Text → Result (Unit {0})
guard_token_hash token_hash =
    guard (length token_hash == 64 && all_hex token_hash) invalid_token_hash

unfoldable pub create :
    (Text → Text)
    → (Text → Text)
    → ℕ
    → Option ℕ
    → ℕ
    → Text
    → Role
    → Text
    → Db
    → Result (Db × Invite)
create trim to_lower now auth project_id email role token_hash db = do
  m ← require_project_member auth project_id db
  require_role m.member (owner ∷ admin ∷ [])
  guard_token_hash token_hash
  let address = to_lower (trim email)
  guard (not (is_empty address)) email_required
  let invite : Invite = record {
    id = db.next_id;
    project_id = project_id;
    email = address;
    role = role;
    token_hash = token_hash;
    invited_by = m.user_id;
    expires_at = now + invite_ttl_ms;
    accepted_at = none;
  }
  ok (record db { invites = db.invites ++ invite ∷ []; next_id = db.next_id + 1 }, invite)

unfoldable pub list_by_project : Option ℕ → ℕ → Db → Result (List Invite)
list_by_project auth project_id db = do
  m ← require_project_member auth project_id db
  ok (filter (λ i. i.project_id == project_id) db.invites)

abbrev pub is_live : ℕ → Invite → Bool
is_live now i = not (truthy i.accepted_at) && ltb now i.expires_at

abbrev pub has_token : Text → Invite → Bool
has_token token_hash i = text_eq i.token_hash token_hash

-- The invite of a token, if it is live.
abbrev pub find_live : ℕ → Text → Db → Option Invite
find_live now token_hash db = elim (find (has_token token_hash) db.invites) [
  | none ↦ none
  | some i ↦ if is_live now i then some i else none
]

unfoldable pub find_by_token_hash : ℕ → Text → Db → Option (Invite × Project)
find_by_token_hash now token_hash db = elim (find_live now token_hash db) [
  | none ↦ none
  | some i ↦ elim (find (λ p. p.id == i.project_id) db.projects) [
    | none ↦ none
    | some p ↦ some (i, p)
  ]
]

-- `user.email && user.email.toLowerCase() !== invite.email`, negated.
abbrev pub may_accept : (Text → Text) → User → Invite → Bool
may_accept to_lower u i = elim u.email [
  | none ↦ true
  | some e ↦ if is_empty e then true else text_eq (to_lower e) i.email
]

abbrev pub new_member : Invite → ℕ → ℕ → Member
new_member i user_id id = record {
  id = id;
  project_id = i.project_id;
  user_id = user_id;
  role = i.role;
}

unfoldable pub add_member : Invite → ℕ → Db → Db
add_member i user_id db = elim (find (member_of i.project_id user_id) db.members) [
  | some existing ↦ db
  | none ↦ record db {
    members = db.members ++ new_member i user_id db.next_id ∷ [];
    next_id = db.next_id + 1;
  }
]

abbrev pub accept_at : ℕ → Invite → Invite
accept_at now i = record i { accepted_at = some now }

unfoldable pub mark_accepted : ℕ → Invite → Db → Db
mark_accepted now i db = record db {
  invites = patch_where (λ j. j.id == i.id) (accept_at now) db.invites;
}

unfoldable pub accept : (Text → Text) → ℕ → Option ℕ → Text → Db → Result (Db × Project)
accept to_lower now auth token_hash db = do
  (user_id, user) ← require_user auth db
  i ← or_fail (find_live now token_hash db) invite_not_found
  guard (may_accept to_lower user i) other_email
  let db' = mark_accepted now i (add_member i user_id db)
  project ← or_fail (find (λ p. p.id == i.project_id) db'.projects) project_not_found
  ok (db', project)

unfoldable pub revoke : Option ℕ → ℕ → Db → Result Db
revoke auth invite_id db = elim (find (λ i. i.id == invite_id) db.invites) [
  | none ↦ ok db
  | some i ↦ do
    m ← require_project_member auth i.project_id db
    require_role m.member (owner ∷ admin ∷ [])
    ok (record db { invites = filter (λ j. not (j.id == invite_id)) db.invites })
]
