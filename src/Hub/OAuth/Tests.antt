-- ===== src/Hub/OAuth/Tests.antt =====
-- A code exchanged twice, a token rotated twice, and the ends of a token's life.
use superbull.Common.{
  ℕ, ◌+◌, ◌≡◌, ◌↔◌, refl, List, [], ◌∷◌, ◌++◌, Option, none, some, Bool, true, Text, Text_discrete,
  codes, ℕ_discrete, length, arith, ◌==◌,
}
use superbull.Hub.Schema.{Db, AuthCode, OAuthToken}
use superbull.Hub.Base.{ok, patch_where}
use superbull.Hub.Access.{
  difference, tokens_match, has_valid_internal_token, require_internal_token, require_user_id,
}
use superbull.Hub.OAuth.{
  Url, Caller, Grant, ExchangeArgs, new_token, of_grant, revoke_at, same_loopback,
  redirect_uri_matches, live_caller, resolve_oauth_access_token, revoke_grant_family, insert_tokens,
  is_valid_auth_code, redeem, exchange_found, exchange_code, grant_of_token,
}
use superbull.Hub.OAuth.Rotation.{
  RefreshArgs, find_refresh, is_valid_refresh_token, rotate, refresh_found, refresh_tokens,
  find_either, revoke_found, revoke_token, disconnect_app, cleanup_expired_oauth,
}
use superbull.Hub.OAuth.Grants.{IsRevoked}
use superbull.Hub.OAuth.Exchange.{Redeemable, after_exchange, exchange_code_iff, exchange_code_once}
use superbull.Hub.OAuth.Refresh.{Rotatable, refresh_tokens_iff, refresh_tokens_once}
use superbull.Hub.OAuth.Lifetime.{Lifetimes, cleanup_expired_oauth-resolve}
use superbull.Hub.OAuth.Calls.{Env, Call, exchanges, refreshes, cleans, run, run-Lifetimes}
use superbull.Hub.Fixtures.{db, code, live_token, secret, configured}

program : Unit {0}
unfolding Text_discrete ℕ_discrete difference tokens_match has_valid_internal_token
    require_internal_token require_user_id new_token same_loopback redirect_uri_matches live_caller
    resolve_oauth_access_token revoke_grant_family insert_tokens is_valid_auth_code redeem
    exchange_found exchange_code is_valid_refresh_token rotate refresh_found refresh_tokens
    find_either revoke_found revoke_token disconnect_app cleanup_expired_oauth
program = tt

abbrev parse_url : Text → Option Url
parse_url text = none

-- A hash for the tests: raw tokens are their own hashes.
abbrev hash : Text → Text
hash text = text

abbrev exchange_args : ExchangeArgs
exchange_args = record {
  code_hash = codes "c";
  client_id = codes "app";
  redirect_uri = codes "app:cb";
  computed_code_challenge = codes "x";
  access_token_hash = codes "a2";
  refresh_token_hash = codes "r2";
}

abbrev refresh_args : RefreshArgs
refresh_args = record {
  refresh_token_hash = codes "r";
  client_id = codes "app";
  new_access_token_hash = codes "a2";
  new_refresh_token_hash = codes "r2";
}

-- A port that differs is accepted on the loopback interface alone.
abbrev on_loopback : Text → Option Url
on_loopback text =
    some (record { protocol = codes "http:"; hostname = codes "127.0.0.1"; pathname = codes "/cb" })

abbrev elsewhere : Text → Option Url
elsewhere text =
    some (record { protocol = codes "http:"; hostname = codes "evil.com"; pathname = codes "/cb" })

loopback_ports :
    (redirect_uri_matches on_loopback (codes "1") (codes "2") ≡ true)
    × (redirect_uri_matches elsewhere (codes "1") (codes "2") ≡ Bool.false)
unfolding program
loopback_ports = (refl, refl)

abbrev exchanged : Db
exchanged = redeem 500 code exchange_args db

exchange_runs :
    exchange_code configured parse_url 500 exchange_args secret db ≡ ok (exchanged, some 3600)
unfolding program
exchange_runs = refl

abbrev rotated : Db
rotated = rotate 500 live_token refresh_args db

refresh_runs : refresh_tokens configured 500 refresh_args secret db ≡ ok (rotated, some 3600)
unfolding program
refresh_runs = refl

abbrev grant : Grant
grant = record { client_id = codes "app"; user_id = 1; project_id = 2 }

exchange_code_iff_example :
    (exchange_code configured parse_url 500 exchange_args secret db ≡ ok (exchanged, some 3600)) ↔ (
      (c : AuthCode) × Redeemable configured parse_url secret 500 exchange_args db c
      × (exchanged ≡ after_exchange 500 exchange_args c db)
      × (◌≡◌ {A = ℕ} 3600 3600))
exchange_code_iff_example =
    exchange_code_iff configured parse_url secret 500 exchange_args db exchanged 3600

exchange_code_once_example :
    (g : Grant) × (issued : OAuthToken) × (exchanged.oauth_tokens ≡ db.oauth_tokens ++ issued ∷ [])
    × (of_grant g issued ≡ true)
    × (exchange_code configured parse_url 600 exchange_args secret exchanged
        ≡ ok (revoke_grant_family 600 g exchanged, none))
    × IsRevoked g (revoke_grant_family 600 g exchanged).oauth_tokens
exchange_code_once_example =
    exchange_code_once configured parse_url secret 500 600 exchange_args exchange_args db exchanged
      3600 (omega arith) (omega arith) exchange_runs refl

refresh_tokens_iff_example :
    (refresh_tokens configured 500 refresh_args secret db ≡ ok (rotated, some 3600)) ↔ (
      (t : OAuthToken) × Rotatable configured secret 500 refresh_args db t
      × (rotated ≡ rotate 500 t refresh_args db)
      × (◌≡◌ {A = ℕ} 3600 3600))
refresh_tokens_iff_example = refresh_tokens_iff configured secret 500 refresh_args db rotated 3600

refresh_tokens_once_example :
    (t u : OAuthToken) × (find_refresh (codes "r") db ≡ ok (some t))
    × (find_refresh (codes "r") rotated ≡ ok (some (revoke_at 500 t)))
    × (rotated.oauth_tokens
        ≡ patch_where (λ v. v.id == t.id) (revoke_at 500) db.oauth_tokens ++ u ∷ [])
    × (of_grant (grant_of_token t) u ≡ true)
    × (refresh_tokens configured 600 refresh_args secret rotated
        ≡ ok (revoke_grant_family 600 (grant_of_token t) rotated, none))
    × IsRevoked (grant_of_token t) (revoke_grant_family 600 (grant_of_token t) rotated).oauth_tokens
refresh_tokens_once_example =
    refresh_tokens_once configured secret 500 600 refresh_args refresh_args db rotated 3600
      (omega arith) (omega arith) (λ e. ground arith) refresh_runs refl

abbrev caller : Caller
caller = record { user_id = 1; project_id = 2; scopes = codes "mcp" ∷ [] }

cleanup_expired_oauth-resolve_example :
    (db' : Db) × (codes_gone tokens_gone : ℕ) × (cleanup_expired_oauth configured 500 secret db
      ≡ ok (db', codes_gone, tokens_gone))
    × (resolve_oauth_access_token hash 600 (codes "a") db' ≡ ok (some caller))
    × (length db'.oauth_tokens + tokens_gone ≡ length db.oauth_tokens)
unfolding program
cleanup_expired_oauth-resolve_example =
    cleanup_expired_oauth-resolve configured hash secret 500 600 (codes "a") db (some caller)
      (omega arith) refl (omega arith, tt) refl

abbrev env : Env
env = record { configured = configured; parse_url = parse_url }

abbrev calls : List (ℕ × Call)
calls =
    (500, exchanges exchange_args secret)
    ∷ (600, refreshes refresh_args secret)
    ∷ (700, cleans secret)
    ∷ []

run-Lifetimes_example : Lifetimes (run env calls db)
run-Lifetimes_example = run-Lifetimes env calls db (omega arith, tt)
