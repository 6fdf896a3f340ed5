-- ===== src/Hub/OAuth/Exchange.antt =====
-- apps/web/convex/oauthProvider.ts: `exchangeCode`.
use superbull.Common.{
  ℕ, ◌≤◌, ◌<◌, ◌+◌, ◌≡◌, refl, ap, ◌∙◌, List, map, Bool, if◌then◌else◌, ◌↔◌, [], ◌∷◌, ◌++◌, Option,
  none, some, true, false, Text, text_eq, truthy, truthy-some, ◌==◌, filter, arith,
}
use superbull.Hub.Schema.{Db, AuthCode, OAuthToken}
use superbull.Hub.Base.{Result, ok, unique, patch_where, at_most_one-some, filter-patch_where}
use superbull.Hub.Access.{has_valid_internal_token, require_internal_token}
use superbull.Hub.OAuth.Grants.{IsRevoked, revoke_grant_family_lem}
use superbull.Hub.OAuth.{
  Url, ExchangeArgs, Grant, of_grant, grant_of_code, is_valid_auth_code, has_code_hash, find_code,
  use_at, redeem, new_token, insert_tokens, exchange_found, exchange_code, redirect_uri_matches,
  revoke_grant_family,
}

-- The database after an exchange, row by row.
abbrev pub after_exchange : ℕ → ExchangeArgs → AuthCode → Db → Db
after_exchange now args code db = record db {
  auth_codes =
      map (λ c. if c.id == code.id then record c { used_at = some now } else c) db.auth_codes;
  oauth_tokens =
      db.oauth_tokens
      ++ record {
        id = db.next_id;
        created = now;
        access_token_hash = args.access_token_hash;
        refresh_token_hash = args.refresh_token_hash;
        user_id = code.user_id;
        project_id = code.project_id;
        client_id = code.client_id;
        scopes = code.scopes;
        expires_at = now + 3600000;
        refresh_expires_at = now + 7776000000;
        revoked_at = none;
      }
        ∷ [];
  next_id = db.next_id + 1;
}

map-patch_where {ℓ} :
    {A : Type ℓ} (p : A → Bool) (f : A → A) (xs : List A)
    → patch_where p f xs ≡ map (λ x. if p x then f x else x) xs
map-patch_where p f [] = refl
map-patch_where p f (x ∷ xs) = ap (◌∷◌ (if p x then f x else x)) (map-patch_where p f xs)

redeem-after_exchange :
    (now : ℕ) (args : ExchangeArgs) (code : AuthCode) (db : Db)
    → redeem now code args db ≡ after_exchange now args code db
unfolding redeem insert_tokens new_token
redeem-after_exchange now args code db =
    rw (map-patch_where (λ c. c.id == code.id) (use_at now) db.auth_codes) refl

module _ (configured : Option Text) (parse_url : Text → Option Url) (token : Text) where
  -- What lets a code be redeemed.
  pub record Redeemable (now : ℕ) (args : ExchangeArgs) (db : Db) (code : AuthCode) : Type 0 where
    pub allowed : has_valid_internal_token configured (some token) ≡ true
    pub found : unique (λ c. text_eq c.code_hash args.code_hash) db.auth_codes ≡ ok (some code)
    pub unused : truthy code.used_at ≡ false
    pub unexpired : now ≤ code.expires_at
    pub client : code.client_id ≡ args.client_id
    pub redirect : redirect_uri_matches parse_url code.redirect_uri args.redirect_uri ≡ true
    pub challenge : code.code_challenge ≡ args.computed_code_challenge

  redeemed_only :
      (now : ℕ) (args : ExchangeArgs) (db db' : Db) (seconds : ℕ)
      → exchange_code configured parse_url now args token db ≡ ok (db', some seconds)
      → (code : AuthCode) × Redeemable now args db code
        × (db' ≡ redeem now code args db)
        × (seconds ≡ 3600)
  unfolding exchange_code exchange_found is_valid_auth_code require_internal_token
  redeemed_only now args db db' seconds h = go (find_code args.code_hash db) refl
    where
      go :
          (r : Result (Option AuthCode))
          → find_code args.code_hash db ≡ r
          → (code : AuthCode) × Redeemable now args db code
            × (db' ≡ redeem now code args db)
            × (seconds ≡ 3600)
      go (Result.fail e) q = absurd (ground arith)
      go (ok none) q = absurd (ground arith)
      go (ok (some code)) q = (
        code,
        record {
          allowed = ground arith;
          found = q;
          unused = ground arith;
          unexpired = ground arith;
          client = ground arith;
          redirect = ground arith;
          challenge = ground arith;
        },
        ground arith,
        ground arith,
      )

  redeemed :
      (now : ℕ) (args : ExchangeArgs) (db : Db) (code : AuthCode)
      → Redeemable now args db code
      → exchange_code configured parse_url now args token db
        ≡ ok (redeem now code args db, some 3600)
  unfolding exchange_code exchange_found is_valid_auth_code require_internal_token
  redeemed now args db code r =
      let found : find_code args.code_hash db ≡ ok (some code) = r.found in
      rw (r.allowed, found) (ground arith)

  -- An exchange hands out tokens exactly if the call carries the internal token and finds one code
  -- of that hash, which is unused, unexpired, and was issued for the same client, a matching
  -- redirect URI and the presented challenge. Then the code is marked as used now, and one unrevoked
  -- token of the code's user, client, project and scopes goes in, under the presented hashes, that
  -- expires in an hour and can be refreshed for ninety days; nothing else changes.
  pub exchange_code_iff :
      (now : ℕ) (args : ExchangeArgs) (db db' : Db) (seconds : ℕ)
      → (exchange_code configured parse_url now args token db ≡ ok (db', some seconds)) ↔ (
          (code : AuthCode) × Redeemable now args db code
          × (db' ≡ after_exchange now args code db)
          × (seconds ≡ 3600))
  exchange_code_iff now args db db' seconds = (
    λ h.
        let (code, r, e, s) = redeemed_only now args db db' seconds h in
        (code, r, e ∙ redeem-after_exchange now args code db, s),
    λ (code, r, e, s).
        rw (e, s)
          (redeemed now args db code r
            ∙ ap (λ d. ok (d, some 3600)) (redeem-after_exchange now args code db)),
  )

  -- The marked code is what a later query finds.
  find_code-redeem :
      (now : ℕ) (args : ExchangeArgs) (db : Db) (code : AuthCode) (hash : Text)
      → find_code hash db ≡ ok (some code)
      → find_code hash (redeem now code args db) ≡ ok (some (use_at now code))
  unfolding redeem insert_tokens
  find_code-redeem now args db code hash h =
      rw
        (filter-patch_where (has_code_hash hash) (λ c. c.id == code.id) (use_at now) (λ c. refl)
          db.auth_codes)
        (rw (at_most_one-some (filter (has_code_hash hash) db.auth_codes) code h) (ground arith))

  issued_to :
      (now : ℕ) (args : ExchangeArgs) (db : Db) (code : AuthCode)
      → (t : OAuthToken) × ((redeem now code args db).oauth_tokens ≡ db.oauth_tokens ++ t ∷ [])
        × (of_grant (grant_of_code code) t ≡ true)
  unfolding redeem insert_tokens
  issued_to now args db code = (_, refl, ground arith)

  replayed :
      (now : ℕ) (args : ExchangeArgs) (db : Db) (code : AuthCode)
      → has_valid_internal_token configured (some token) ≡ true
      → find_code args.code_hash db ≡ ok (some code)
      → truthy code.used_at ≡ true
      → exchange_code configured parse_url now args token db
        ≡ ok (revoke_grant_family now (grant_of_code code) db, none)
  unfolding exchange_code exchange_found require_internal_token
  replayed now args db code a f u = rw (a, f) (ground arith)

  -- A code is redeemed once, at times that are not 0. When it is presented again, with whatever other
  -- arguments but the same internal token, the answer is null, and every token of its grant, the one that the first exchange issued among them, is then
  -- revoked.
  pub exchange_code_once :
      (now later : ℕ) (args again : ExchangeArgs) (db db' : Db) (seconds : ℕ)
      → 0 < now
      → 0 < later
      → exchange_code configured parse_url now args token db ≡ ok (db', some seconds)
      → again.code_hash ≡ args.code_hash
      → (g : Grant) × (issued : OAuthToken) × (db'.oauth_tokens ≡ db.oauth_tokens ++ issued ∷ [])
        × (of_grant g issued ≡ true)
        × (exchange_code configured parse_url later again token db'
            ≡ ok (revoke_grant_family later g db', none))
        × IsRevoked g (revoke_grant_family later g db').oauth_tokens
  exchange_code_once now later args again db db' seconds h k e same =
      let (code, r, eq, _) = redeemed_only now args db db' seconds e in
      let (issued, appended, mine) = issued_to now args db code in
      (
        grant_of_code code,
        issued,
        rw eq appended,
        mine,
        replayed later again db' (use_at now code) r.allowed
            (rw (same, eq) (find_code-redeem now args db code args.code_hash r.found))
            (truthy-some h),
        (revoke_grant_family_lem later (grant_of_code code) db' k).0,
      )
