-- ===== src/Hub/ApiKeys/Tests.antt =====
-- A key that is inserted, used and revoked.
use superbull.Common.{
  ℕ, ◌≡◌, ◌==◌, refl, [], ◌∷◌, Option, none, some, Bool, Text, Text_discrete, ℕ_discrete, codes,
  strip_prefix, arith,
}
use superbull.Hub.Schema.{Db}
use superbull.Hub.Base.{ok}
use superbull.Hub.Access.{difference, tokens_match, has_valid_internal_token, require_user_id}
use superbull.Hub.Invites.{all_hex}
use superbull.Hub.ApiKeys.{
  space_runs, insert_api_key, list_api_keys, revoke_api_key, revoke_at, patch_key, new_key, touch,
  found_caller, find_api_key_caller, find_oauth_caller,
}
use superbull.Hub.ApiKeys.Lifecycle.{IsValid, insert_api_key-find, revoke_api_key-find}
use superbull.Hub.Fixtures.{db, secret, configured}

program : Unit {0}
unfolding Text_discrete ℕ_discrete strip_prefix difference tokens_match has_valid_internal_token
    require_user_id all_hex space_runs insert_api_key list_api_keys revoke_api_key touch
    found_caller find_api_key_caller find_oauth_caller
program = tt

abbrev same : Text → Text
same text = text

abbrev is_space : ℕ → Bool
is_space c = c == b' '

abbrev hash : Text
hash = codes "0123456789abcdef0123456789abcdef0123456789abcdef0123456789abcdef"

abbrev prefix : Text
prefix = codes "sbh_ab"

abbrev keyed : Db
keyed = record db { api_keys = new_key 50 1 (codes "my key") hash prefix 10 ∷ []; next_id = 11 }

db-IsValid : IsValid db
db-IsValid = record { once = λ h. omega arith }

keyed-IsValid : IsValid keyed
keyed-IsValid = record { once = λ h. ground arith }

insert_api_key-find_example :
    IsValid keyed
    × (user_id : ℕ) × (some 1 ≡ some user_id)
    × (db' : Db) × (find_api_key_caller configured 60 secret hash keyed
        ≡ ok (
          db',
          some (record { user_id = user_id; project_id = none; scopes = codes "mcp" ∷ [] }),
        ))
unfolding program
insert_api_key-find_example =
    insert_api_key-find is_space same configured secret 50 60 (some 1) (codes "my   key") hash
      prefix db (keyed, 10) db-IsValid refl refl

revoke_api_key-find_example :
    (◌≡◌ {A = Option ℕ} (some 1) (some 1))
    × IsValid (patch_key (revoke_at 70) 10 keyed)
    × (find_api_key_caller configured 80 secret hash (patch_key (revoke_at 70) 10 keyed)
        ≡ ok (patch_key (revoke_at 70) 10 keyed, none))
unfolding program
revoke_api_key-find_example =
    revoke_api_key-find configured secret 70 80 (some 1) 10 keyed
      (patch_key (revoke_at 70) 10 keyed) (new_key 50 1 (codes "my key") hash prefix 10)
      keyed-IsValid refl (omega arith) refl refl
