-- ===== src/Hub/OAuth/Calls.antt =====
-- apps/web/convex/oauthProvider.ts: any sequence of mutations. One that throws changes nothing.
use superbull.Common.{
  ℕ, ◌≤◌, List, [], ◌∷◌, Option, none, some, Bool, Text, ◌==◌, All, All-append, All-filter, arith,
}
use superbull.Hub.Schema.{Db, AuthCode, OAuthToken}
use superbull.Hub.Base.{Result, ok, fail, ◌>>=◌, patch_where}
use superbull.Hub.Access.{require_internal_token, require_user_id}
use superbull.Hub.OAuth.Lifetime.{Lifetimes}
use superbull.Hub.OAuth.{
  Url, CodeArgs, ExchangeArgs, Issue, Grant, revoke_at, register_client, create_auth_code,
  insert_tokens, redeem, exchange_found, exchange_code, revoke_grant_family, find_code,
  grant_of_code, grant_of_token,
}
use superbull.Hub.OAuth.Rotation.{
  RefreshArgs, rotate, refresh_found, refresh_tokens, revoke_found, revoke_token, disconnect_app,
  cleanup_expired_oauth, find_refresh, find_either,
}

pub record Env : Type 0 where
  pub configured : Option Text
  pub parse_url : Text → Option Url

-- The mutations of the file, each with what its caller sends.
pub data Call : Type 0 where
  registers : Text → Text → List Text → Text → Call
  authorizes : Option ℕ → CodeArgs → Call
  exchanges : ExchangeArgs → Text → Call
  refreshes : RefreshArgs → Text → Call
  revokes : Text → Text → Text → Call
  disconnects : Option ℕ → Text → ℕ → Call
  cleans : Text → Call

abbrev after {ℓ} : {A : Type ℓ} → (A → Db) → Db → Result A → Db
after f db (ok a) = f a
after f db (fail e) = db

unfoldable pub apply : Env → ℕ → Call → Db → Db
apply env now (registers client_id name uris token) db =
    after (λ d. d) db (register_client env.configured client_id name uris token db)
apply env now (authorizes auth args) db =
    after (λ d. d) db (create_auth_code env.parse_url now auth args db)
apply env now (exchanges args token) db =
    after (λ r. r.0) db (exchange_code env.configured env.parse_url now args token db)
apply env now (refreshes args token) db =
    after (λ r. r.0) db (refresh_tokens env.configured now args token db)
apply env now (revokes hash client_id token) db =
    after (λ d. d) db (revoke_token env.configured now hash client_id token db)
apply env now (disconnects auth client_id project_id) db =
    after (λ d. d) db (disconnect_app now auth client_id project_id db)
apply env now (cleans token) db =
    after (λ r. r.0) db (cleanup_expired_oauth env.configured now token db)

unfoldable pub run : Env → List (ℕ × Call) → Db → Db
run env [] db = db
run env ((now, c) ∷ calls) db = run env calls (apply env now c db)

abbrev IsOrdered : OAuthToken → Type 0
IsOrdered t = t.expires_at ≤ t.refresh_expires_at

patch-IsOrdered :
    (p : OAuthToken → Bool) (now : ℕ) (tokens : List OAuthToken)
    → All IsOrdered tokens
    → All IsOrdered (patch_where p (revoke_at now) tokens)
patch-IsOrdered p now [] h = tt
patch-IsOrdered p now (t ∷ tokens) h = (ground arith, patch-IsOrdered p now tokens h.1)

insert_tokens-Lifetimes :
    (now : ℕ) (i : Issue) (db : Db) → Lifetimes db → Lifetimes (insert_tokens now i db)
unfolding insert_tokens
insert_tokens-Lifetimes now i db h = All-append IsOrdered db.oauth_tokens _ h (omega arith, tt)

revoke_grant_family-Lifetimes :
    (now : ℕ) (g : Grant) (db : Db) → Lifetimes db → Lifetimes (revoke_grant_family now g db)
unfolding revoke_grant_family
revoke_grant_family-Lifetimes now g db h = patch-IsOrdered _ now db.oauth_tokens h

redeem-Lifetimes :
    (now : ℕ) (code : AuthCode) (args : ExchangeArgs) (db : Db)
    → Lifetimes db
    → Lifetimes (redeem now code args db)
unfolding redeem
redeem-Lifetimes now code args db h = insert_tokens-Lifetimes now _ _ h

rotate-Lifetimes :
    (now : ℕ) (t : OAuthToken) (args : RefreshArgs) (db : Db)
    → Lifetimes db
    → Lifetimes (rotate now t args db)
unfolding rotate
rotate-Lifetimes now t args db h =
    insert_tokens-Lifetimes now _ _ (patch-IsOrdered _ now db.oauth_tokens h)

exchange_found-Lifetimes :
    (parse_url : Text → Option Url) (now : ℕ) (args : ExchangeArgs) (code : Option AuthCode)
    (db : Db)
    → Lifetimes db
    → Lifetimes (exchange_found parse_url now args code db).0
unfolding exchange_found
exchange_found-Lifetimes parse_url now args none db h = h
exchange_found-Lifetimes parse_url now args (some code) db h = ground (
  arith,
  revoke_grant_family-Lifetimes now (grant_of_code code) db h,
  redeem-Lifetimes now code args db h,
)

refresh_found-Lifetimes :
    (now : ℕ) (args : RefreshArgs) (t : Option OAuthToken) (db : Db)
    → Lifetimes db
    → Lifetimes (refresh_found now args t db).0
unfolding refresh_found
refresh_found-Lifetimes now args none db h = h
refresh_found-Lifetimes now args (some t) db h = ground (
  arith,
  revoke_grant_family-Lifetimes now (grant_of_token t) db h,
  rotate-Lifetimes now t args db h,
)

revoke_found-Lifetimes :
    (now : ℕ) (client_id : Text) (t : Option OAuthToken) (db : Db)
    → Lifetimes db
    → Lifetimes (revoke_found now client_id t db)
unfolding revoke_found
revoke_found-Lifetimes now client_id none db h = h
revoke_found-Lifetimes now client_id (some t) db h =
    ground (arith, patch-IsOrdered (λ u. u.id == t.id) now db.oauth_tokens h)

-- Behind a guard and a query: what holds of the old database, and of the new one for each row that
-- the query may return, holds after the call.
after-query {ℓ} :
    {A B : Type 0} (P : Db → Type ℓ) (new : B → Db) (db : Db) (r : Result (Unit {0})) (q : Result A)
    (k : A → B)
    → P db
    → ((a : A) → P (new (k a)))
    → P (after new db (r >>= λ _. q >>= λ a. ok (k a)))
after-query P new db (ok u) (ok a) k h step = step a
after-query P new db (ok u) (fail e) k h step = h
after-query P new db (fail e) q k h step = h

disconnect-Lifetimes :
    (now : ℕ) (auth : Option ℕ) (client_id : Text) (project_id : ℕ) (db : Db)
    → Lifetimes db
    → Lifetimes (after (λ d. d) db (disconnect_app now auth client_id project_id db))
unfolding disconnect_app require_user_id
disconnect-Lifetimes now none client_id project_id db h = h
disconnect-Lifetimes now (some u) client_id project_id db h =
    patch-IsOrdered _ now db.oauth_tokens h

cleanup-Lifetimes :
    (db d : Db) (r : Result (Unit {0})) (m n : ℕ)
    → Lifetimes db
    → Lifetimes d
    → Lifetimes (after (λ (p : Db × ℕ × ℕ). p.0) db (r >>= λ _. ok (d, m, n)))
cleanup-Lifetimes db d (ok u) m n h k = k
cleanup-Lifetimes db d (fail e) m n h k = h

-- One mutation keeps the lifetimes in order.
apply-Lifetimes :
    (env : Env) (now : ℕ) (c : Call) (db : Db) → Lifetimes db → Lifetimes (apply env now c db)
unfolding apply register_client create_auth_code exchange_code refresh_tokens revoke_token
    cleanup_expired_oauth
apply-Lifetimes env now (registers client_id name uris token) db h = ground arith
apply-Lifetimes env now (authorizes auth args) db h = ground arith
apply-Lifetimes env now (exchanges args token) db h =
    after-query Lifetimes (λ (r : Db × Option ℕ). r.0) db
      (require_internal_token env.configured token) (find_code args.code_hash db)
      (λ code. exchange_found env.parse_url now args code db) h
      (λ code. exchange_found-Lifetimes env.parse_url now args code db h)
apply-Lifetimes env now (refreshes args token) db h =
    after-query Lifetimes (λ (r : Db × Option ℕ). r.0) db
      (require_internal_token env.configured token) (find_refresh args.refresh_token_hash db)
      (λ t. refresh_found now args t db) h (λ t. refresh_found-Lifetimes now args t db h)
apply-Lifetimes env now (revokes hash client_id token) db h =
    after-query Lifetimes (λ d. d) db (require_internal_token env.configured token)
      (find_either hash db) (λ t. revoke_found now client_id t db) h
      (λ t. revoke_found-Lifetimes now client_id t db h)
apply-Lifetimes env now (disconnects auth client_id project_id) db h =
    disconnect-Lifetimes now auth client_id project_id db h
apply-Lifetimes env now (cleans token) db h =
    cleanup-Lifetimes db _ (require_internal_token env.configured token) _ _ h
      (All-filter IsOrdered _ db.oauth_tokens h)

-- So they are in order after any sequence of mutations.
pub run-Lifetimes :
    (env : Env) (calls : List (ℕ × Call)) (db : Db) → Lifetimes db → Lifetimes (run env calls db)
unfolding run
run-Lifetimes env [] db h = h
run-Lifetimes env ((now, c) ∷ calls) db h =
    run-Lifetimes env calls (apply env now c db) (apply-Lifetimes env now c db h)
