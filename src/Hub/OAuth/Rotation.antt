-- ===== src/Hub/OAuth/Rotation.antt =====
-- apps/web/convex/oauthProvider.ts: `refreshTokens`, `revokeToken`, `disconnectApp` and
-- `cleanupExpiredOAuth`, the mutations of tokens that were issued.
use superbull.Common.{
  ℕ, Option, none, some, Bool, not, ◌&&◌, ◌||◌, Text, text_eq, leb, ◌==◌, if◌then◌else◌, filter,
  length,
}
use superbull.Hub.Schema.{Db, AuthCode, OAuthToken}
use superbull.Hub.Base.{Result, ok, ◌>>=◌, ◌>>◌, unique, patch_where}
use superbull.Hub.Access.{require_internal_token, require_user_id}
use superbull.Hub.OAuth.{
  is_revoked, revoke_at, revoke_grant_family, insert_tokens, grant_of_token, expires_in_seconds,
}

pub record RefreshArgs : Type 0 where
  pub refresh_token_hash : Text
  pub client_id : Text
  pub new_access_token_hash : Text
  pub new_refresh_token_hash : Text

unfoldable pub is_valid_refresh_token : ℕ → OAuthToken → Text → Bool
is_valid_refresh_token now t client_id =
    not (is_revoked t) && leb now t.refresh_expires_at && text_eq t.client_id client_id

abbrev pub has_refresh_hash : Text → OAuthToken → Bool
has_refresh_hash hash t = text_eq t.refresh_token_hash hash

abbrev pub find_refresh : Text → Db → Result (Option OAuthToken)
find_refresh hash db = unique (has_refresh_hash hash) db.oauth_tokens

abbrev pub revoke_one : ℕ → OAuthToken → Db → Db
revoke_one now t db = record db {
  oauth_tokens = patch_where (λ u. u.id == t.id) (revoke_at now) db.oauth_tokens;
}

unfoldable pub rotate : ℕ → OAuthToken → RefreshArgs → Db → Db
rotate now t args db =
    insert_tokens now
      (record {
        access_token_hash = args.new_access_token_hash;
        refresh_token_hash = args.new_refresh_token_hash;
        grant = grant_of_token t;
        scopes = t.scopes;
      })
      (revoke_one now t db)

unfoldable pub refresh_found : ℕ → RefreshArgs → Option OAuthToken → Db → Db × Option ℕ
refresh_found now args none db = (db, none)
refresh_found now args (some t) db =
    if is_revoked t
    then (revoke_grant_family now (grant_of_token t) db, none)
    else if is_valid_refresh_token now t args.client_id
    then (rotate now t args db, some expires_in_seconds)
    else (db, none)

unfoldable pub refresh_tokens : Option Text → ℕ → RefreshArgs → Text → Db → Result (Db × Option ℕ)
refresh_tokens configured now args token db = do
  require_internal_token configured token
  t ← find_refresh args.refresh_token_hash db
  ok (refresh_found now args t db)

abbrev pub has_access_hash : Text → OAuthToken → Bool
has_access_hash hash t = text_eq t.access_token_hash hash

-- By its access hash, else by its refresh hash.
unfoldable pub find_either : Text → Db → Result (Option OAuthToken)
find_either hash db = do
  by_access ← unique (has_access_hash hash) db.oauth_tokens
  elim by_access [ some t ↦ ok (some t) | none ↦ find_refresh hash db ]

unfoldable pub revoke_found : ℕ → Text → Option OAuthToken → Db → Db
revoke_found now client_id none db = db
revoke_found now client_id (some t) db =
    if text_eq t.client_id client_id && not (is_revoked t) then revoke_one now t db else db

unfoldable pub revoke_token : Option Text → ℕ → Text → Text → Text → Db → Result Db
revoke_token configured now hash client_id token db = do
  require_internal_token configured token
  t ← find_either hash db
  ok (revoke_found now client_id t db)

unfoldable pub disconnect_app : ℕ → Option ℕ → Text → ℕ → Db → Result Db
disconnect_app now auth client_id project_id db = do
  user_id ← require_user_id auth
  ok (record db {
    oauth_tokens =
        patch_where
          (λ t.
            t.user_id == user_id
            && (text_eq t.client_id client_id && t.project_id == project_id && not (is_revoked t)))
          (revoke_at now) db.oauth_tokens;
  })

abbrev pub is_expired_code : ℕ → AuthCode → Bool
is_expired_code now c = leb c.expires_at now

abbrev pub is_expired_token : ℕ → OAuthToken → Bool
is_expired_token now t = is_revoked t || leb t.refresh_expires_at now

-- With the numbers of deleted codes and tokens.
unfoldable pub cleanup_expired_oauth : Option Text → ℕ → Text → Db → Result (Db × ℕ × ℕ)
cleanup_expired_oauth configured now token db = do
  require_internal_token configured token
  ok (
    record db {
      auth_codes = filter (λ c. not (is_expired_code now c)) db.auth_codes;
      oauth_tokens = filter (λ t. not (is_expired_token now t)) db.oauth_tokens;
    },
    length (filter (is_expired_code now) db.auth_codes),
    length (filter (is_expired_token now) db.oauth_tokens),
  )
