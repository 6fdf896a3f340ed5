-- ===== src/Hub/OAuth/Lifetime.antt =====
-- apps/web/convex/oauthProvider.ts: how long a token resolves: `resolveOAuthAccessToken` beside
-- `revokeToken`, `disconnectApp` and `cleanupExpiredOAuth`.
use superbull.Common.{
  ℕ, ◌+◌, ◌≤◌, ◌<◌, ◌≡◌, refl, ap, ◌∙◌, List, [], ◌∷◌, Option, none, some, Bool, true, not, ◌&&◌,
  Text, text_eq, ◌==◌, length, filter, filter_comm, All, All-filter, if◌then◌else◌, arith,
}
use superbull.Hub.Schema.{Db, OAuthToken}
use superbull.Hub.Base.{
  ok, ◌>>=◌, patch_where, at_most_one, unique, at_most_one-some, filter-patch_where,
}
use superbull.Hub.Access.{has_valid_internal_token, require_internal_token, require_user_id}
use superbull.Hub.OAuth.{
  Caller, is_revoked, revoke_at, live_caller, resolve_oauth_access_token, revoke_grant_family,
}
use superbull.Hub.OAuth.Rotation.{
  revoke_one, has_access_hash, find_either, revoke_found, revoke_token, disconnect_app,
  is_expired_code, is_expired_token, cleanup_expired_oauth,
}

patch_where-congr :
    (p q : OAuthToken → Bool) (f : OAuthToken → OAuthToken) (same : (t : OAuthToken) → p t ≡ q t)
    (tokens : List OAuthToken)
    → patch_where p f tokens ≡ patch_where q f tokens
patch_where-congr p q f same [] = refl
patch_where-congr p q f same (t ∷ tokens) =
    ground (arith, same t, patch_where-congr p q f same tokens)

-- Disconnecting an app revokes the grant family of that app, project and the signed-in user, as a
-- replay does, and no other token.
pub disconnect_app_lem :
    (now user_id : ℕ) (client_id : Text) (project_id : ℕ) (db : Db)
    → disconnect_app now (some user_id) client_id project_id db
      ≡ ok (
          revoke_grant_family now
            (record { client_id = client_id; user_id = user_id; project_id = project_id })
            db)
unfolding disconnect_app require_user_id revoke_grant_family
disconnect_app_lem now user_id client_id project_id db = ground (
  arith,
  patch_where-congr
      (λ t.
        t.user_id == user_id
        && (text_eq t.client_id client_id && t.project_id == project_id && not (is_revoked t)))
      (λ t.
        t.user_id == user_id
        && (text_eq t.client_id client_id && t.project_id == project_id)
        && not (is_revoked t))
      (revoke_at now) (λ t. ground arith) db.oauth_tokens,
)

module _ (configured : Option Text) (sha256 : Text → Text) (token : Text) where
  -- Called with the internal token at a time that is not 0, where one token has the access hash,
  -- `revokeToken` for an access token stops it at once, for any later lookup, if the client is the token's
  -- own; for any other client the token resolves as before.
  pub revoke_token_resolve :
      (now later : ℕ) (raw client_id : Text) (db : Db) (t : OAuthToken)
      → 0 < now
      → has_valid_internal_token configured (some token) ≡ true
      → unique (has_access_hash (sha256 raw)) db.oauth_tokens ≡ ok (some t)
      → (db' : Db) × (revoke_token configured now (sha256 raw) client_id token db ≡ ok db')
        × (resolve_oauth_access_token sha256 later raw db' ≡ (
            if text_eq t.client_id client_id
            then ok none
            else resolve_oauth_access_token sha256 later raw db))
  unfolding revoke_token find_either revoke_found require_internal_token resolve_oauth_access_token
      live_caller
  revoke_token_resolve now later raw client_id db t h a e =
      (revoke_found now client_id (some t) db, rw (a, e) refl, resolves)
    where
      p : OAuthToken → Bool
      p = has_access_hash (sha256 raw)

      row : filter p db.oauth_tokens ≡ t ∷ []
      row = at_most_one-some (filter p db.oauth_tokens) t e

      patched : filter p (revoke_one now t db).oauth_tokens ≡ revoke_at now t ∷ []
      patched =
          filter-patch_where p (λ u. u.id == t.id) (revoke_at now) (λ u. refl) db.oauth_tokens
          ∙ ap (patch_where (λ u. u.id == t.id) (revoke_at now)) row
          ∙ ground arith

      resolves :
          resolve_oauth_access_token sha256 later raw (revoke_found now client_id (some t) db) ≡ (
            if text_eq t.client_id client_id
            then ok none
            else resolve_oauth_access_token sha256 later raw db)
      resolves = ground (arith, row, patched)

-- No access token outlives its refresh token.
abbrev pub Lifetimes : Db → Type 0
Lifetimes db = All (λ t. t.expires_at ≤ t.refresh_expires_at) db.oauth_tokens

abbrev kept : ℕ → List OAuthToken → List OAuthToken
kept now = filter (λ t. not (is_expired_token now t))

live_caller-kept :
    (now later : ℕ) (tokens : List OAuthToken) (r : Option Caller)
    → now ≤ later
    → All (λ t. t.expires_at ≤ t.refresh_expires_at) tokens
    → (at_most_one tokens >>= λ t. ok (live_caller later t)) ≡ ok r
    → (at_most_one (kept now tokens) >>= λ t. ok (live_caller later t)) ≡ ok r
unfolding live_caller
live_caller-kept now later [] r h l e = e
live_caller-kept now later (t ∷ []) r h l e = ground arith
live_caller-kept now later (t ∷ u ∷ tokens) r h l e = absurd (ground arith)

length-filter-not :
    (p : OAuthToken → Bool) (tokens : List OAuthToken)
    → length (filter (λ t. not (p t)) tokens) + length (filter p tokens) ≡ length tokens
length-filter-not p [] = refl
length-filter-not p (t ∷ tokens) = ground (arith, length-filter-not p tokens)

-- The cleanup, called with the internal token, is not seen by any access token that can be looked up:
-- where lifetimes are in order, what a token resolves
-- to at any later time is what it would have resolved to without the cleanup. The returned count is
-- the number of tokens that went.
pub cleanup_expired_oauth-resolve :
    (configured : Option Text) (sha256 : Text → Text) (token : Text) (now later : ℕ) (raw : Text)
    (db : Db) (r : Option Caller)
    → now ≤ later
    → has_valid_internal_token configured (some token) ≡ true
    → Lifetimes db
    → resolve_oauth_access_token sha256 later raw db ≡ ok r
    → (db' : Db) × (codes_gone tokens_gone : ℕ) × (cleanup_expired_oauth configured now token db
        ≡ ok (db', codes_gone, tokens_gone))
      × (resolve_oauth_access_token sha256 later raw db' ≡ ok r)
      × (length db'.oauth_tokens + tokens_gone ≡ length db.oauth_tokens)
unfolding cleanup_expired_oauth require_internal_token resolve_oauth_access_token
cleanup_expired_oauth-resolve configured sha256 token now later raw db r h a l e = (
  record db {
    auth_codes = filter (λ c. not (is_expired_code now c)) db.auth_codes;
    oauth_tokens = kept now db.oauth_tokens;
  },
  length (filter (is_expired_code now) db.auth_codes),
  length (filter (is_expired_token now) db.oauth_tokens),
  rw a refl,
  rw
      (filter_comm (has_access_hash (sha256 raw)) (λ t. not (is_expired_token now t))
        db.oauth_tokens)
      (live_caller-kept now later (filter (has_access_hash (sha256 raw)) db.oauth_tokens) r h
        (All-filter _ (has_access_hash (sha256 raw)) db.oauth_tokens l) e),
  length-filter-not (is_expired_token now) db.oauth_tokens,
)
