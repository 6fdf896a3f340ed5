-- ===== src/Hub/ApiKeys/Lifecycle.antt =====
-- apps/web/convex/apiKeys.ts: what a key is good for, from its insertion to its revocation.
use superbull.Common.{
  ℕ, ◌≤◌, ◌<◌, ◌≡◌, refl, ap, ◌∙◌, [], ◌∷◌, ◌++◌, Option, none, some, Bool, true, false, Text,
  text_eq, codes, length, ◌==◌, if◌then◌else◌, filter, filter-append, filter_of_any, filter_one,
  find, any, truthy, truthy-some, arith, inl, inr, Bool-cases, length-append,
}
use superbull.Hub.Schema.{Db, ApiKey}
use superbull.Hub.Base.{ok, patch_where, filter-patch_where, length-patch_where}
use superbull.Hub.Access.{require_user_id, require_internal_token, has_valid_internal_token}
use superbull.Hub.ApiKeys.{
  space_runs, has_hash, new_key, insert_api_key, revoke_at, patch_key, revoke_api_key, touch,
  found_caller, find_api_key_caller,
}

-- A hash stands once.
pub record IsValid (db : Db) : Type 0 where
  pub once : (key_hash : Text) → length (filter (has_hash key_hash) db.api_keys) ≤ 1

inserted_only :
    (is_space : ℕ → Bool) (trim : Text → Text) (now : ℕ) (auth : Option ℕ)
    (raw_name key_hash key_prefix : Text) (db : Db) (r : Db × ℕ)
    → insert_api_key is_space trim now auth raw_name key_hash key_prefix db ≡ ok r
    → (user_id : ℕ) × (name : Text) × (auth ≡ some user_id)
      × (any (has_hash key_hash) db.api_keys ≡ false)
      × (r.0.api_keys ≡ db.api_keys ++ new_key now user_id name key_hash key_prefix db.next_id ∷ [])
unfolding insert_api_key require_user_id
inserted_only is_space trim now none raw_name key_hash key_prefix db r h = absurd (ground arith)
inserted_only is_space trim now (some user_id) raw_name key_hash key_prefix db r h =
    (user_id, trim (space_runs is_space false raw_name), refl, ground arith, ground arith)

insert-IsValid :
    (now user_id : ℕ) (name key_hash key_prefix : Text) (db db' : Db)
    → IsValid db
    → any (has_hash key_hash) db.api_keys ≡ false
    → db'.api_keys ≡ db.api_keys ++ new_key now user_id name key_hash key_prefix db.next_id ∷ []
    → IsValid db'
insert-IsValid now user_id name key_hash key_prefix db db' v new e = record {
  once = λ h.
      let k = new_key now user_id name key_hash key_prefix db.next_id in
      rw (e, filter-append (has_hash h) db.api_keys (k ∷ []))
        (elim (Bool-cases (text_eq key_hash h)) [
          | inl same ↦
              let it : key_hash ≡ h = ground arith in
              rw⁻¹ it (rw (filter_of_any (has_hash key_hash) db.api_keys new) (ground arith))
          | inr other ↦
              rw other (omega (arith, length-append (filter (has_hash h) db.api_keys) [], v.once h))
        ]);
}

-- A key that is inserted is known by its hash from then on, as the caller who inserted it; and the hashes
-- of the keys stay different, so the lookup of none fails.
pub insert_api_key-find :
    (is_space : ℕ → Bool) (trim : Text → Text) (configured : Option Text) (token : Text)
    (now later : ℕ) (auth : Option ℕ) (raw_name key_hash key_prefix : Text) (db : Db) (r : Db × ℕ)
    → IsValid db
    → has_valid_internal_token configured (some token) ≡ true
    → insert_api_key is_space trim now auth raw_name key_hash key_prefix db ≡ ok r
    → IsValid r.0
      × (user_id : ℕ) × (auth ≡ some user_id)
      × (db' : Db) × (find_api_key_caller configured later token key_hash r.0
          ≡ ok (
            db',
            some (record { user_id = user_id; project_id = none; scopes = codes "mcp" ∷ [] }),
          ))
unfolding find_api_key_caller require_internal_token found_caller
insert_api_key-find is_space trim configured token now later auth raw_name key_hash key_prefix db r
      v a h =
    let (user_id, name, known, new, e) =
      inserted_only is_space trim now auth raw_name key_hash key_prefix db r h in
    let k = new_key now user_id name key_hash key_prefix db.next_id in
    let found : filter (has_hash key_hash) r.0.api_keys ≡ k ∷ [] =
      ap (filter (has_hash key_hash)) e
      ∙ filter-append (has_hash key_hash) db.api_keys (k ∷ [])
      ∙ ap (λ rows. rows ++ filter (has_hash key_hash) (k ∷ []))
          (filter_of_any (has_hash key_hash) db.api_keys new)
      ∙ ground arith in
    (
      insert-IsValid now user_id name key_hash key_prefix db r.0 v new e,
      user_id,
      known,
      touch later k r.0,
      rw (a, find_api_key_caller, found) refl,
    )

patched_filter :
    (f : ApiKey → ApiKey) (keep : (k : ApiKey) → (f k).key_hash ≡ k.key_hash) (id : ℕ)
    (key_hash : Text) (db : Db)
    → filter (has_hash key_hash) (patch_key f id db).api_keys
      ≡ patch_where (λ k. k.id == id) f (filter (has_hash key_hash) db.api_keys)
patched_filter f keep id key_hash db =
    filter-patch_where (has_hash key_hash) (λ k. k.id == id) f
      (λ k. ap (λ t. text_eq t key_hash) (keep k)) db.api_keys

revoked_only :
    (now : ℕ) (auth : Option ℕ) (id : ℕ) (db db' : Db) (k : ApiKey)
    → find (λ k. k.id == id) db.api_keys ≡ some k
    → revoke_api_key now auth id db ≡ ok db'
    → (auth ≡ some k.user_id)
      × (db' ≡ (if truthy k.revoked_at then db else patch_key (revoke_at now) k.id db))
unfolding revoke_api_key require_user_id
revoked_only now none id db db' k here h = absurd (ground arith)
revoked_only now (some user_id) id db db' k here h = (ground (arith, here), ground (arith, here))

patch-IsValid :
    (f : ApiKey → ApiKey) (keep : (k : ApiKey) → (f k).key_hash ≡ k.key_hash) (id : ℕ) (db : Db)
    → IsValid db
    → IsValid (patch_key f id db)
patch-IsValid f keep id db v = record {
  once = λ h. rw (patched_filter f keep id h db) (
      omega (
        arith,
        length-patch_where (λ k. k.id == id) f (filter (has_hash h) db.api_keys),
        v.once h,
      ));
}

-- Only the key's owner revokes it; a revoked key is no caller's, whenever it is presented; and the hashes
-- of the keys stay different. (The time of the revocation is not 0, which would count as no time.)
pub revoke_api_key-find :
    (configured : Option Text) (token : Text) (now later : ℕ) (auth : Option ℕ) (id : ℕ)
    (db db' : Db) (k : ApiKey)
    → IsValid db
    → has_valid_internal_token configured (some token) ≡ true
    → 0 < now
    → find (λ k. k.id == id) db.api_keys ≡ some k
    → revoke_api_key now auth id db ≡ ok db'
    → (auth ≡ some k.user_id)
      × IsValid db'
      × (find_api_key_caller configured later token k.key_hash db' ≡ ok (db', none))
unfolding find_api_key_caller require_internal_token found_caller
revoke_api_key-find configured token now later auth id db db' k v a positive here h =
    let (owner, e) = revoked_only now auth id db db' k here h in
    let one =
      filter_one (has_hash k.key_hash) (λ k. k.id == id) db.api_keys k here (ground arith)
        (v.once k.key_hash) in
    elim (Bool-cases (truthy k.revoked_at)) [
      | inl already ↦
          let same : db' ≡ db = rw already at e in
          rw same (owner, v, rw (a, find_api_key_caller, one, found_caller, already) refl)
      | inr live ↦
          let same : db' ≡ patch_key (revoke_at now) k.id db = rw live at e in
          let patched : filter (has_hash k.key_hash) (patch_key (revoke_at now) k.id db).api_keys
              ≡ revoke_at now k ∷ [] =
            patched_filter (revoke_at now) (λ j. refl) k.id k.key_hash db
            ∙ ap (patch_where (λ j. j.id == k.id) (revoke_at now)) one
            ∙ ground arith in
          rw same (
            owner,
            patch-IsValid (revoke_at now) (λ j. refl) k.id db v,
            rw (a, find_api_key_caller, patched, found_caller, truthy-some positive) refl,
          )
    ]
