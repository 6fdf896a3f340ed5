-- ===== src/Hub/ErrorGroups/Upsert.antt =====
-- apps/web/convex/errors.ts: `upsertErrorGroup` keeps one group for each connector and fingerprint.
use superbull.Common.{
  ℕ, ◌+◌, ◌≤◌, ◌≡◌, refl, ap, ◌∙◌, [], ◌∷◌, Option, none, some, Bool, true, false, ◌&&◌, Text,
  text_eq, ◌==◌, filter, filter-append, find, length, length-append, if◌then◌else◌, arith, inl, inr,
  Bool-cases, Option-cases,
}
use superbull.Hub.Schema.{Db, ErrorGroup, GroupState, opened, resolved, ignored}
use superbull.Hub.Base.{
  ok, filter-patch_where, length-patch_where, find-patch_where, find-append, find_of_filter,
  find-none_of_filter, unique_of_count, Rising, Rising-append, Rising-patch_where, Rising-unique,
  find_sound,
}
use superbull.Hub.ErrorGroups.{
  Failed, has_key, bump, new_group, write_group, upsert_error_group, compute_fingerprint,
}

-- One group for a key, and ids as the database mints them.
pub record IsValid (db : Db) : Type 0 where
  pub rising : Rising (λ (g : ErrorGroup). g.id) 0 db.next_id db.error_groups
  pub once : (c : ℕ) (f : Text) → length (filter (has_key c f) db.error_groups) ≤ 1

bump-has_key :
    (f : Failed) (c : ℕ) (k : Text) (g : ErrorGroup) → has_key c k (bump f g) ≡ has_key c k g
unfolding bump
bump-has_key f c k g = refl

bump-id : (f : Failed) (g : ErrorGroup) → (bump f g).id ≡ g.id
unfolding bump
bump-id f g = refl

abbrev pub reopened : GroupState → GroupState
reopened opened = opened
reopened resolved = opened
reopened ignored = ignored

abbrev pub regressed : GroupState → Bool → Bool
regressed opened before = before
regressed resolved before = true
regressed ignored before = before

-- The group of a key after one more failure. A key's first failure makes an open group that counts one
-- failure, seen first and last now; another failure adds one to the count and moves the last sighting, and
-- a resolved group is then open, as a regression. Every other key's group is the one before.
abbrev pub after_failure : Failed → Text → ℕ → ℕ → Text → Option ErrorGroup → Option ErrorGroup
after_failure f fingerprint id c k before =
    if f.connector_id == c && text_eq fingerprint k
    then some (elim before [
      | none ↦ record {
        id = id;
        project_id = f.project_id;
        connector_id = f.connector_id;
        fingerprint = fingerprint;
        queue_name = f.queue_name;
        job_name = f.job_name;
        message = f.message;
        state = opened;
        count = 1;
        first_seen_ts = f.ts;
        last_seen_ts = f.ts;
        last_job_id = f.job_id;
        is_regression = false;
      }
      | some g ↦ record g {
        count = g.count + 1;
        last_seen_ts = f.ts;
        last_job_id = f.job_id;
        state = reopened g.state;
        is_regression = regressed g.state g.is_regression;
      }
    ])
    else before

-- The same by the functions of the code.
abbrev after_write : Failed → Text → ℕ → ℕ → Text → Option ErrorGroup → Option ErrorGroup
after_write f fingerprint id c k before =
    if f.connector_id == c && text_eq fingerprint k
    then some (elim before [ none ↦ new_group f fingerprint id | some g ↦ bump f g ])
    else before

bump-reopened :
    (f : Failed) (g : ErrorGroup) (s : GroupState)
    → g.state ≡ s
    → some (bump f g)
      ≡ some (record g {
        count = g.count + 1;
        last_seen_ts = f.ts;
        last_job_id = f.job_id;
        state = reopened g.state;
        is_regression = regressed g.state g.is_regression;
      })
unfolding bump
bump-reopened f g opened h = rw h refl
bump-reopened f g resolved h = rw h refl
bump-reopened f g ignored h = rw h refl

write-failure :
    (f : Failed) (fingerprint : Text) (id c : ℕ) (k : Text) (before : Option ErrorGroup)
    → after_write f fingerprint id c k before ≡ after_failure f fingerprint id c k before
unfolding new_group
write-failure f fingerprint id c k none = refl
write-failure f fingerprint id c k (some g) =
    ap (λ r. if f.connector_id == c && text_eq fingerprint k then r else some g)
      (bump-reopened f g g.state refl)

module _ (f : Failed) (fingerprint : Text) (db : Db) (v : IsValid db) where
  abbrev own : ErrorGroup → Bool
  own = has_key f.connector_id fingerprint

  write_new-IsValid : filter own db.error_groups ≡ [] → IsValid (write_group f fingerprint none db)
  unfolding write_group new_group
  write_new-IsValid e = record {
    rising = Rising-append _ 0 db.next_id db.error_groups _ v.rising refl;
    once = λ c k. elim (Bool-cases (has_key c k (new_group f fingerprint db.next_id))) [
      | inl mine ↦
          let same_c : c ≡ f.connector_id = ground arith in
          let same_k : k ≡ fingerprint = ground arith in
          rw (filter-append (has_key c k) db.error_groups (new_group f fingerprint db.next_id ∷ []))
            (rw (same_c, same_k) (rw e (ground arith)))
      | inr other ↦ ground (
        arith,
        filter-append (has_key c k) db.error_groups (new_group f fingerprint db.next_id ∷ []),
        length-append (filter (has_key c k) db.error_groups) [],
        v.once c k,
      )
    ];
  }

  write_old-IsValid : (g : ErrorGroup) → IsValid (write_group f fingerprint (some g) db)
  unfolding write_group
  write_old-IsValid g = record {
    rising =
        Rising-patch_where _ (λ x. x.id == g.id) (bump f) (bump-id f) 0 db.next_id db.error_groups
          v.rising;
    once = λ c k.
        rw
          (filter-patch_where (has_key c k) (λ x. x.id == g.id) (bump f) (bump-has_key f c k)
            db.error_groups)
          (rw
            (length-patch_where (λ x. x.id == g.id) (bump f) (filter (has_key c k) db.error_groups))
            (v.once c k));
  }

  write_new-find :
      (c : ℕ) (k : Text)
      → filter own db.error_groups ≡ []
      → find (has_key c k) (write_group f fingerprint none db).error_groups
        ≡ after_write f fingerprint db.next_id c k (find (has_key c k) db.error_groups)
  unfolding write_group new_group
  write_new-find c k e = elim (Bool-cases (f.connector_id == c && text_eq fingerprint k)) [
    | inl mine ↦
        let same_c : c ≡ f.connector_id = ground arith in
        let same_k : k ≡ fingerprint = ground arith in
        let fresh = new_group f fingerprint db.next_id in
        rw (same_c, same_k)
          (ground (
            arith,
            find-append own db.error_groups (fresh ∷ []),
            find-none_of_filter own db.error_groups e,
          ))
    | inr other ↦
        ground (
          arith,
          find-append (has_key c k) db.error_groups (new_group f fingerprint db.next_id ∷ []),
        )
  ]

  write_old-find :
      (c : ℕ) (k : Text) (g : ErrorGroup)
      → filter own db.error_groups ≡ g ∷ []
      → find (has_key c k) (write_group f fingerprint (some g) db).error_groups
        ≡ after_write f fingerprint db.next_id c k (find (has_key c k) db.error_groups)
  unfolding write_group
  write_old-find c k g e = elim (Bool-cases (f.connector_id == c && text_eq fingerprint k)) [
    | inl mine ↦
        let same_c : c ≡ f.connector_id = ground arith in
        let same_k : k ≡ fingerprint = ground arith in
        rw (same_c, same_k)
          (rw
            (find-patch_where own is_row (bump f) (bump-has_key f f.connector_id fingerprint)
              db.error_groups)
            (ground (arith, here)))
    | inr other ↦
        rw (find-patch_where (has_key c k) is_row (bump f) (bump-has_key f c k) db.error_groups)
          (elim (Option-cases (find (has_key c k) db.error_groups)) [
            | inl nothing ↦ ground arith
            | inr (x, found) ↦ ground (
              arith,
              find_sound (has_key c k) db.error_groups x found,
              find_sound own db.error_groups g here,
              Rising-unique (λ (y : ErrorGroup). y.id) (has_key c k) own 0 db.next_id
                  db.error_groups x g v.rising found here,
            )
          ])
  ]
    where
      here : find own db.error_groups ≡ some g
      here = find_of_filter own db.error_groups g [] e

      is_row : ErrorGroup → Bool
      is_row x = x.id == g.id

-- On a valid table `upsertErrorGroup` never throws and keeps the table valid. Where the failure's
-- connector and fingerprint had no group, there is now an open one that counts one failure; where they
-- had one, it counts one more and was seen last now, an ignored one stays ignored, and a resolved one is
-- open again and marked as a regression. The group of every other key is the one before.
pub upsert_error_group_lem :
    (to_lower : Text → Text) (f : Failed) (db : Db)
    → IsValid db
    → (db' : Db) × (upsert_error_group to_lower f db ≡ ok db')
      × IsValid db'
      × ((c : ℕ) (k : Text)
          → find (has_key c k) db'.error_groups
            ≡ after_failure f
                (compute_fingerprint to_lower f.message f.queue_name)
                db.next_id
                c
                k
                (find (has_key c k) db.error_groups))
unfolding upsert_error_group
upsert_error_group_lem to_lower f db v =
    let k = compute_fingerprint to_lower f.message f.queue_name in
    elim (unique_of_count (has_key f.connector_id k) db.error_groups (v.once f.connector_id k)) [
      | inl (e, row) ↦ (
        write_group f k none db,
        rw e refl,
        write_new-IsValid f k db v row,
        λ c j. write_new-find f k db v c j row ∙ write-failure f k db.next_id c j _,
      )
      | inr (g, e, row) ↦ (
        write_group f k (some g) db,
        rw e refl,
        write_old-IsValid f k db v g,
        λ c j. write_old-find f k db v c j g row ∙ write-failure f k db.next_id c j _,
      )
    ]

-- Nothing but the groups and the next id changes.
pub upsert_error_group_frame :
    (to_lower : Text → Text) (f : Failed) (db db' : Db)
    → upsert_error_group to_lower f db ≡ ok db'
    → (db'.ingest_events ≡ db.ingest_events) × (db'.connectors ≡ db.connectors)
unfolding upsert_error_group write_group
upsert_error_group_frame to_lower f db db' h = ground arith
