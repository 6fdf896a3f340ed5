-- ===== src/Hub/OAuth.antt =====
-- apps/web/convex/oauthProvider.ts: authorization codes and tokens for MCP clients. What the
-- runtime provides is a parameter: `sha256` is `hashToken`, and `parse_url` is `new URL`, `none` when
-- it throws. `configured` is CONVEX_INTERNAL_TOKEN, `auth` the signed-in user and `now` `Date.now()`.
pub mod Rotation
pub mod Grants
pub mod Exchange
pub mod Refresh
pub mod Lifetime
pub mod Calls
pub mod Apps
mod Tests
use superbull.Common.{
  ℕ, ◌+◌, ◌*◌, ◌/◌, List, [], ◌∷◌, ◌++◌, Option, none, some, Bool, true, false, not, ◌&&◌, ◌||◌,
  Text, codes, text_eq, truthy, ltb, leb, ◌==◌, if◌then◌else◌, filter, any, length,
}
use superbull.Hub.Schema.{Db, OAuthClient, AuthCode, OAuthToken}
use superbull.Hub.Base.{
  Result, ok, fail, ◌>>=◌, ◌>>◌, guard, or_fail, at_most_one, unique, patch_where, invalid_client,
}
use superbull.Hub.Access.{require_internal_token, require_project_member, require_user_id}

abbrev pub auth_code_ttl_ms : ℕ
auth_code_ttl_ms = 10 * 60 * 1000

abbrev pub access_token_ttl_ms : ℕ
access_token_ttl_ms = 60 * 60 * 1000

abbrev pub refresh_token_ttl_ms : ℕ
refresh_token_ttl_ms = 90 * 24 * 60 * 60 * 1000

pub record Url : Type 0 where
  pub protocol : Text
  pub hostname : Text
  pub pathname : Text

abbrev pub is_loopback_host : Text → Bool
is_loopback_host host =
    text_eq host (codes "localhost")
    || text_eq host (codes "127.0.0.1")
    || text_eq host (codes "[::1]")

abbrev pub is_loopback_http : Url → Bool
is_loopback_http url = text_eq url.protocol (codes "http:") && is_loopback_host url.hostname

unfoldable pub same_loopback : Option Url → Option Url → Bool
same_loopback none second = false
same_loopback (some first) none = false
same_loopback (some first) (some second) =
    if not (is_loopback_http first) || not (is_loopback_http second)
    then false
    else text_eq first.hostname second.hostname && text_eq first.pathname second.pathname

unfoldable pub redirect_uri_matches : (Text → Option Url) → Text → Text → Bool
redirect_uri_matches parse_url first second =
    if text_eq first second then true else same_loopback (parse_url first) (parse_url second)

abbrev pub is_redirect_uri_registered : (Text → Option Url) → List Text → Text → Bool
is_redirect_uri_registered parse_url registered presented =
    any (λ uri. redirect_uri_matches parse_url uri presented) registered

-- Tokens and codes.

abbrev pub is_revoked : OAuthToken → Bool
is_revoked t = truthy t.revoked_at

pub record Caller : Type 0 where
  pub user_id : ℕ
  pub project_id : ℕ
  pub scopes : List Text

-- The token that a query found, where it may still be used.
unfoldable pub live_caller : ℕ → Option OAuthToken → Option Caller
live_caller now none = none
live_caller now (some t) =
    if is_revoked t || leb t.expires_at now
    then none
    else some (record { user_id = t.user_id; project_id = t.project_id; scopes = t.scopes })

unfoldable pub resolve_oauth_access_token : (Text → Text) → ℕ → Text → Db → Result (Option Caller)
resolve_oauth_access_token sha256 now raw_token db = do
  token ← unique (λ t. text_eq t.access_token_hash (sha256 raw_token)) db.oauth_tokens
  ok (live_caller now token)

unfoldable pub register_client : Option Text → Text → Text → List Text → Text → Db → Result Db
register_client configured client_id name redirect_uris token db = do
  require_internal_token configured token
  let client : OAuthClient = record {
    id = db.next_id;
    client_id = client_id;
    name = name;
    redirect_uris = redirect_uris;
  }
  ok (record db { oauth_clients = db.oauth_clients ++ client ∷ []; next_id = db.next_id + 1 })

abbrev pub find_client : Text → Db → Result (Option OAuthClient)
find_client client_id db = unique (λ c. text_eq c.client_id client_id) db.oauth_clients

unfoldable pub get_client : Option Text → Text → Text → Db → Result (Option OAuthClient)
get_client configured client_id token db = do
  require_internal_token configured token
  find_client client_id db

pub record CodeArgs : Type 0 where
  pub code_hash : Text
  pub client_id : Text
  pub project_id : ℕ
  pub redirect_uri : Text
  pub code_challenge : Text

abbrev pub accepts_redirect : (Text → Option Url) → Option OAuthClient → Text → Bool
accepts_redirect parse_url none uri = false
accepts_redirect parse_url (some c) uri = is_redirect_uri_registered parse_url c.redirect_uris uri

unfoldable pub create_auth_code : (Text → Option Url) → ℕ → Option ℕ → CodeArgs → Db → Result Db
create_auth_code parse_url now auth args db = do
  m ← require_project_member auth args.project_id db
  client ← find_client args.client_id db
  guard (accepts_redirect parse_url client args.redirect_uri) invalid_client
  let code : AuthCode = record {
    id = db.next_id;
    code_hash = args.code_hash;
    client_id = args.client_id;
    user_id = m.user_id;
    project_id = args.project_id;
    redirect_uri = args.redirect_uri;
    code_challenge = args.code_challenge;
    scopes = codes "mcp" ∷ [];
    expires_at = now + auth_code_ttl_ms;
    used_at = none;
  }
  ok (record db { auth_codes = db.auth_codes ++ code ∷ []; next_id = db.next_id + 1 })

-- What a grant belongs to.
pub record Grant : Type 0 where
  pub client_id : Text
  pub user_id : ℕ
  pub project_id : ℕ

abbrev pub of_grant : Grant → OAuthToken → Bool
of_grant g t =
    t.user_id == g.user_id && (text_eq t.client_id g.client_id && t.project_id == g.project_id)

abbrev pub revoke_at : ℕ → OAuthToken → OAuthToken
revoke_at now t = record t { revoked_at = some now }

unfoldable pub revoke_grant_family : ℕ → Grant → Db → Db
revoke_grant_family now g db = record db {
  oauth_tokens =
      patch_where (λ t. of_grant g t && not (is_revoked t)) (revoke_at now) db.oauth_tokens;
}

pub record Issue : Type 0 where
  pub access_token_hash : Text
  pub refresh_token_hash : Text
  pub grant : Grant
  pub scopes : List Text

unfoldable pub new_token : ℕ → Issue → ℕ → OAuthToken
new_token now i id = record {
  id = id;
  created = now;
  access_token_hash = i.access_token_hash;
  refresh_token_hash = i.refresh_token_hash;
  user_id = i.grant.user_id;
  project_id = i.grant.project_id;
  client_id = i.grant.client_id;
  scopes = i.scopes;
  expires_at = now + access_token_ttl_ms;
  refresh_expires_at = now + refresh_token_ttl_ms;
  revoked_at = none;
}

unfoldable pub insert_tokens : ℕ → Issue → Db → Db
unfolding new_token
insert_tokens now i db = record db {
  oauth_tokens = db.oauth_tokens ++ new_token now i db.next_id ∷ [];
  next_id = db.next_id + 1;
}

abbrev pub grant_of_code : AuthCode → Grant
grant_of_code c = record { client_id = c.client_id; user_id = c.user_id; project_id = c.project_id }

abbrev pub grant_of_token : OAuthToken → Grant
grant_of_token t = record {
  client_id = t.client_id;
  user_id = t.user_id;
  project_id = t.project_id;
}

pub record ExchangeArgs : Type 0 where
  pub code_hash : Text
  pub client_id : Text
  pub redirect_uri : Text
  pub computed_code_challenge : Text
  pub access_token_hash : Text
  pub refresh_token_hash : Text

unfoldable pub is_valid_auth_code : (Text → Option Url) → ℕ → AuthCode → ExchangeArgs → Bool
is_valid_auth_code parse_url now code args =
    not (truthy code.used_at)
    && leb now code.expires_at
    && text_eq code.client_id args.client_id
    && redirect_uri_matches parse_url code.redirect_uri args.redirect_uri
    && text_eq code.code_challenge args.computed_code_challenge

abbrev pub has_code_hash : Text → AuthCode → Bool
has_code_hash hash c = text_eq c.code_hash hash

abbrev pub find_code : Text → Db → Result (Option AuthCode)
find_code hash db = unique (has_code_hash hash) db.auth_codes

abbrev pub use_at : ℕ → AuthCode → AuthCode
use_at now c = record c { used_at = some now }

-- The code is marked, then the tokens go in.
unfoldable pub redeem : ℕ → AuthCode → ExchangeArgs → Db → Db
redeem now code args db =
    insert_tokens now
      (record {
        access_token_hash = args.access_token_hash;
        refresh_token_hash = args.refresh_token_hash;
        grant = grant_of_code code;
        scopes = code.scopes;
      })
      (record db { auth_codes = patch_where (λ c. c.id == code.id) (use_at now) db.auth_codes })

abbrev pub expires_in_seconds : ℕ
expires_in_seconds = access_token_ttl_ms / 1000

unfoldable pub exchange_found :
    (Text → Option Url) → ℕ → ExchangeArgs → Option AuthCode → Db → Db × Option ℕ
exchange_found parse_url now args none db = (db, none)
exchange_found parse_url now args (some code) db =
    if truthy code.used_at
    then (revoke_grant_family now (grant_of_code code) db, none)
    else if is_valid_auth_code parse_url now code args
    then (redeem now code args db, some expires_in_seconds)
    else (db, none)

unfoldable pub exchange_code :
    Option Text → (Text → Option Url) → ℕ → ExchangeArgs → Text → Db → Result (Db × Option ℕ)
exchange_code configured parse_url now args token db = do
  require_internal_token configured token
  code ← find_code args.code_hash db
  ok (exchange_found parse_url now args code db)
