-- ===== src/Hub/ApiKeys.antt =====
-- apps/web/convex/apiKeys.ts: the keys that a user gives to MCP clients. Only a key's hash is stored.
-- `is_space` is the class `\s`, and `trim` is the runtime's.
pub mod Lifecycle
mod Tests
use superbull.Common.{
  ℕ, ◌+◌, ◌-◌, ◌*◌, List, [], ◌∷◌, ◌++◌, map, Option, none, some, Bool, true, false, not, ◌&&◌,
  ◌||◌, Text, codes, text_eq, strip_prefix, is_empty, length, ltb, ◌==◌, if◌then◌else◌, filter,
  find, any, truthy,
}
use superbull.Hub.Schema.{Db, ApiKey}
use superbull.Hub.Base.{
  Result, ok, fail, ◌>>=◌, ◌>>◌, guard, or_fail, unique, patch_where, key_name_required,
  invalid_api_key, key_name_taken, key_taken, api_key_not_found,
}
use superbull.Hub.Access.{require_user_id, require_internal_token}
use superbull.Hub.Invites.{all_hex}
use superbull.Hub.OAuth
use superbull.Hub.OAuth.{resolve_oauth_access_token}

abbrev pub last_used_touch_interval_ms : ℕ
last_used_touch_interval_ms = 60000

-- `.replace(/\s+/g, ' ')`: whether a run is being passed over, and the text.
unfoldable pub space_runs : (ℕ → Bool) → Bool → Text → Text
space_runs is_space in_run [] = []
space_runs is_space in_run (c ∷ text) = elim (is_space c) [
  | false ↦ c ∷ space_runs is_space false text
  | true ↦ elim in_run [
    | true ↦ space_runs is_space true text
    | false ↦ b' ' ∷ space_runs is_space true text
  ]
]

abbrev pub has_prefix : Text → Text → Bool
has_prefix prefix text = elim (strip_prefix prefix text) [ none ↦ false | some rest ↦ true ]

abbrev pub has_hash : Text → ApiKey → Bool
has_hash key_hash k = text_eq k.key_hash key_hash

abbrev pub is_named : ℕ → Text → ApiKey → Bool
is_named user_id name k = k.user_id == user_id && text_eq k.name name

abbrev pub new_key : ℕ → ℕ → Text → Text → Text → ℕ → ApiKey
new_key now user_id name key_hash key_prefix id = record {
  id = id;
  created = now;
  user_id = user_id;
  name = name;
  key_hash = key_hash;
  key_prefix = key_prefix;
  last_used_at = none;
  revoked_at = none;
}

unfoldable pub insert_api_key :
    (ℕ → Bool) → (Text → Text) → ℕ → Option ℕ → Text → Text → Text → Db → Result (Db × ℕ)
insert_api_key is_space trim now auth raw_name key_hash key_prefix db = do
  user_id ← require_user_id auth
  let name = trim (space_runs is_space false raw_name)
  guard (not (is_empty name)) key_name_required
  guard (length key_hash == 64 && all_hex key_hash && has_prefix (codes "sbh_") key_prefix)
      invalid_api_key
  guard (not (any (is_named user_id name) db.api_keys)) key_name_taken
  guard (not (any (has_hash key_hash) db.api_keys)) key_taken
  ok (
    record db {
      api_keys = db.api_keys ++ new_key now user_id name key_hash key_prefix db.next_id ∷ [];
      next_id = db.next_id + 1;
    },
    db.next_id,
  )

pub record KeyRow : Type 0 where
  pub id : ℕ
  pub name : Text
  pub key_prefix : Text
  pub created_at : ℕ
  pub last_used_at : Option ℕ
  pub revoked_at : Option ℕ

abbrev pub key_row : ApiKey → KeyRow
key_row k = record {
  id = k.id;
  name = k.name;
  key_prefix = k.key_prefix;
  created_at = k.created;
  last_used_at = k.last_used_at;
  revoked_at = k.revoked_at;
}

unfoldable pub list_api_keys : Option ℕ → Db → Result (List KeyRow)
list_api_keys auth db = do
  user_id ← require_user_id auth
  ok (map key_row (filter (λ k. k.user_id == user_id) db.api_keys))

abbrev pub revoke_at : ℕ → ApiKey → ApiKey
revoke_at now k = record k { revoked_at = some now }

abbrev pub use_at : ℕ → ApiKey → ApiKey
use_at now k = record k { last_used_at = some now }

abbrev pub patch_key : (ApiKey → ApiKey) → ℕ → Db → Db
patch_key f id db = record db { api_keys = patch_where (λ k. k.id == id) f db.api_keys }

unfoldable pub revoke_api_key : ℕ → Option ℕ → ℕ → Db → Result Db
revoke_api_key now auth id db = do
  user_id ← require_user_id auth
  k ← or_fail (find (λ k. k.id == id) db.api_keys) api_key_not_found
  guard (k.user_id == user_id) api_key_not_found
  ok (if truthy k.revoked_at then db else patch_key (revoke_at now) k.id db)

-- A key is of no one project.
pub record Caller : Type 0 where
  pub user_id : ℕ
  pub project_id : Option ℕ
  pub scopes : List Text

abbrev pub key_caller : ApiKey → Caller
key_caller k = record { user_id = k.user_id; project_id = none; scopes = codes "mcp" ∷ [] }

-- A use is noted at most once a minute.
abbrev pub is_due : ℕ → Option ℕ → Bool
is_due now none = true
is_due now (some used) = used == 0 || ltb last_used_touch_interval_ms (now - used)

unfoldable pub touch : ℕ → ApiKey → Db → Db
touch now k db = if is_due now k.last_used_at then patch_key (use_at now) k.id db else db

unfoldable pub found_caller : ℕ → Option ApiKey → Db → Db × Option Caller
found_caller now none db = (db, none)
found_caller now (some k) db =
    if truthy k.revoked_at then (db, none) else (touch now k db, some (key_caller k))

unfoldable pub find_api_key_caller :
    Option Text → ℕ → Text → Text → Db → Result (Db × Option Caller)
find_api_key_caller configured now token key_hash db = do
  require_internal_token configured token
  k ← unique (has_hash key_hash) db.api_keys
  ok (found_caller now k db)

unfoldable pub find_oauth_caller :
    (Text → Text) → Option Text → ℕ → Text → Text → Db → Result (Option OAuth.Caller)
find_oauth_caller sha256 configured now token raw_token db = do
  require_internal_token configured token
  elim (has_prefix (codes "sbho_") raw_token) [
    | true ↦ resolve_oauth_access_token sha256 now raw_token db
    | false ↦ ok none
  ]
