-- ===== src/Hub/OAuth/Refresh.antt =====
-- apps/web/convex/oauthProvider.ts: `refreshTokens`, which rotates both tokens.
use superbull.Common.{
  ℕ, ◌≤◌, ◌<◌, ◌≡◌, ◌≢◌, refl, ◌↔◌, [], ◌∷◌, ◌++◌, Option, none, some, Bool, true, false, Text,
  truthy-some, ◌==◌, filter, filter-append, arith,
}
use superbull.Hub.Schema.{Db, OAuthToken}
use superbull.Hub.Base.{Result, ok, patch_where, at_most_one-some, filter-patch_where}
use superbull.Hub.Access.{has_valid_internal_token, require_internal_token}
use superbull.Hub.OAuth.Grants.{IsRevoked, revoke_grant_family_lem}
use superbull.Hub.OAuth.{
  of_grant, grant_of_token, is_revoked, revoke_at, insert_tokens, revoke_grant_family,
}
use superbull.Hub.OAuth.Rotation.{
  RefreshArgs, is_valid_refresh_token, has_refresh_hash, find_refresh, rotate, refresh_found,
  refresh_tokens,
}

module _ (configured : Option Text) (token : Text) where
  -- What lets a refresh token be rotated.
  pub record Rotatable (now : ℕ) (args : RefreshArgs) (db : Db) (t : OAuthToken) : Type 0 where
    pub allowed : has_valid_internal_token configured (some token) ≡ true
    pub found : find_refresh args.refresh_token_hash db ≡ ok (some t)
    pub live : is_revoked t ≡ false
    pub unexpired : now ≤ t.refresh_expires_at
    pub client : t.client_id ≡ args.client_id

  rotated_only :
      (now : ℕ) (args : RefreshArgs) (db db' : Db) (seconds : ℕ)
      → refresh_tokens configured now args token db ≡ ok (db', some seconds)
      → (t : OAuthToken) × Rotatable now args db t × (db' ≡ rotate now t args db) × (seconds ≡ 3600)
  unfolding refresh_tokens refresh_found is_valid_refresh_token require_internal_token
  rotated_only now args db db' seconds h = go (find_refresh args.refresh_token_hash db) refl
    where
      go :
          (r : Result (Option OAuthToken))
          → find_refresh args.refresh_token_hash db ≡ r
          → (t : OAuthToken) × Rotatable now args db t
            × (db' ≡ rotate now t args db)
            × (seconds ≡ 3600)
      go (Result.fail e) q = absurd (ground arith)
      go (ok none) q = absurd (ground arith)
      go (ok (some t)) q = (
        t,
        record {
          allowed = ground arith;
          found = q;
          live = ground arith;
          unexpired = ground arith;
          client = ground arith;
        },
        ground arith,
        ground arith,
      )

  rotated :
      (now : ℕ) (args : RefreshArgs) (db : Db) (t : OAuthToken)
      → Rotatable now args db t
      → refresh_tokens configured now args token db ≡ ok (rotate now t args db, some 3600)
  unfolding refresh_tokens refresh_found is_valid_refresh_token require_internal_token
  rotated now args db t r = rw (r.allowed, r.found) (ground arith)

  -- A refresh hands out tokens exactly if the call carries the internal token and finds one token
  -- of that refresh hash, which is not revoked, not past its refresh lifetime, and the client's own.
  pub refresh_tokens_iff :
      (now : ℕ) (args : RefreshArgs) (db db' : Db) (seconds : ℕ)
      → (refresh_tokens configured now args token db ≡ ok (db', some seconds)) ↔ (
          (t : OAuthToken) × Rotatable now args db t
          × (db' ≡ rotate now t args db)
          × (seconds ≡ 3600))
  refresh_tokens_iff now args db db' seconds =
      (rotated_only now args db db' seconds, λ (t, r, e, s). rw (e, s) (rotated now args db t r))

  -- The rotated token is still found by its hash, and is revoked.
  find_refresh-rotate :
      (now : ℕ) (args : RefreshArgs) (db : Db) (t : OAuthToken)
      → find_refresh args.refresh_token_hash db ≡ ok (some t)
      → args.new_refresh_token_hash ≢ args.refresh_token_hash
      → find_refresh args.refresh_token_hash (rotate now t args db) ≡ ok (some (revoke_at now t))
  unfolding rotate insert_tokens
  find_refresh-rotate now args db t h fresh =
      let p = has_refresh_hash args.refresh_token_hash in
      let q : OAuthToken → Bool = λ u. u.id == t.id in
      rw (filter-append p (patch_where q (revoke_at now) db.oauth_tokens) _) (
        rw (filter-patch_where p q (revoke_at now) (λ u. refl) db.oauth_tokens)
          (rw (at_most_one-some (filter p db.oauth_tokens) t h) (ground arith)))

  replayed :
      (now : ℕ) (args : RefreshArgs) (db : Db) (t : OAuthToken)
      → has_valid_internal_token configured (some token) ≡ true
      → find_refresh args.refresh_token_hash db ≡ ok (some t)
      → is_revoked t ≡ true
      → refresh_tokens configured now args token db
        ≡ ok (revoke_grant_family now (grant_of_token t) db, none)
  unfolding refresh_tokens refresh_found require_internal_token
  replayed now args db t a f u = rw (a, f) (ground arith)

  issued_to :
      (now : ℕ) (args : RefreshArgs) (db : Db) (t : OAuthToken)
      → (u : OAuthToken) × ((rotate now t args db).oauth_tokens
          ≡ patch_where (λ v. v.id == t.id) (revoke_at now) db.oauth_tokens ++ u ∷ [])
        × (of_grant (grant_of_token t) u ≡ true)
  unfolding rotate insert_tokens
  issued_to now args db t = (_, refl, ground arith)

  -- A refresh token is rotated once, at times that are not 0 and with the same internal token: the rotation revokes it and adds one token to the same grant.
  -- When the old refresh token is presented again (the new one being another), the answer is null
  -- and every token of the grant, the new one among them, is then revoked.
  pub refresh_tokens_once :
      (now later : ℕ) (args again : RefreshArgs) (db db' : Db) (seconds : ℕ)
      → 0 < now
      → 0 < later
      → args.new_refresh_token_hash ≢ args.refresh_token_hash
      → refresh_tokens configured now args token db ≡ ok (db', some seconds)
      → again.refresh_token_hash ≡ args.refresh_token_hash
      → (t u : OAuthToken) × (find_refresh args.refresh_token_hash db ≡ ok (some t))
        × (find_refresh args.refresh_token_hash db' ≡ ok (some (revoke_at now t)))
        × (db'.oauth_tokens
            ≡ patch_where (λ v. v.id == t.id) (revoke_at now) db.oauth_tokens ++ u ∷ [])
        × (of_grant (grant_of_token t) u ≡ true)
        × (refresh_tokens configured later again token db'
            ≡ ok (revoke_grant_family later (grant_of_token t) db', none))
        × IsRevoked
            (grant_of_token t)
            (revoke_grant_family later (grant_of_token t) db').oauth_tokens
  refresh_tokens_once now later args again db db' seconds h k fresh e same =
      let (t, r, eq, _) = rotated_only now args db db' seconds e in
      let (u, appended, mine) = issued_to now args db t in
      let gone = find_refresh-rotate now args db t r.found fresh in
      (
        t,
        u,
        r.found,
        rw eq gone,
        rw eq appended,
        mine,
        replayed later again db' (revoke_at now t) r.allowed (rw (same, eq) gone) (truthy-some h),
        (revoke_grant_family_lem later (grant_of_token t) db' k).0,
      )
