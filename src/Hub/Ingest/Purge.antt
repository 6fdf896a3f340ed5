-- ===== src/Hub/Ingest/Purge.antt =====
-- apps/web/convex/ingest.ts: `purgeExpired` deletes old events, a batch at a time.
use superbull.Common.{
  ℕ, zero, suc, ◌-◌, ◌≤◌, ◌<◌, min, ◌≡◌, refl, ◌↔◌, List, [], ◌∷◌, Bool, true, false, not, ◌||◌,
  ◌==◌, filter, take, length, length-take, arith, Bool-cases, inl, inr,
}
use superbull.Hub.Schema.{Db, StoredEvent}
use superbull.Hub.Base.{Rising}
use superbull.Hub.Ingest.{is_old, selected, purge_expired, purge_batch_size, ingest_retention_ms}

abbrev id_of : StoredEvent → ℕ
id_of s = s.id

-- The events that a purge leaves: of the old ones all but the first `room`, and every newer one.
abbrev pub surviving : ℕ → ℕ → List StoredEvent → List StoredEvent
surviving cutoff room [] = []
surviving cutoff room (s ∷ rows) = elim (is_old cutoff s) [
  | false ↦ s ∷ surviving cutoff room rows
  | true ↦ elim room [ zero ↦ s ∷ surviving cutoff zero rows | suc r ↦ surviving cutoff r rows ]
]

abbrev old_of : ℕ → ℕ → List StoredEvent → List StoredEvent
old_of cutoff room rows = take room (filter (is_old cutoff) rows)

-- Every id of the batch is at least `lo`.
selected-bound :
    (cutoff room lo hi : ℕ) (rows : List StoredEvent) (s : StoredEvent)
    → Rising id_of lo hi rows
    → s.id < lo
    → selected (old_of cutoff room rows) s ≡ false
selected-bound cutoff zero lo hi rows s r h = refl
selected-bound cutoff (suc room) lo hi [] s r h = refl
selected-bound cutoff (suc room) lo hi (x ∷ rows) s r h = ground (
  arith,
  selected-bound cutoff (suc room) (suc x.id) hi rows s r.1,
  selected-bound cutoff room (suc x.id) hi rows s r.1,
)

drop_head :
    (n lo hi : ℕ) (p : StoredEvent → Bool) (rows : List StoredEvent)
    → Rising id_of lo hi rows
    → n < lo
    → filter (λ s. not (n == s.id || p s)) rows ≡ filter (λ s. not (p s)) rows
drop_head n lo hi p [] r h = refl
drop_head n lo hi p (x ∷ rows) r h = ground (arith, drop_head n (suc x.id) hi p rows r.1)

filter-surviving :
    (cutoff room lo hi : ℕ) (rows : List StoredEvent)
    → Rising id_of lo hi rows
    → filter (λ s. not (selected (old_of cutoff room rows) s)) rows ≡ surviving cutoff room rows
filter-surviving cutoff room lo hi [] r = refl
filter-surviving cutoff zero lo hi (x ∷ rows) r =
    ground (arith, filter-surviving cutoff zero (suc x.id) hi rows r.1)
filter-surviving cutoff (suc room) lo hi (x ∷ rows) r = elim (Bool-cases (is_old cutoff x)) [
  | inl old ↦ ground (
    arith,
    drop_head x.id (suc x.id) hi (selected (old_of cutoff room rows)) rows r.1,
    filter-surviving cutoff room (suc x.id) hi rows r.1,
  )
  | inr young ↦ ground (
    arith,
    selected-bound cutoff (suc room) (suc x.id) hi rows x r.1,
    filter-surviving cutoff (suc room) (suc x.id) hi rows r.1,
  )
]

-- Where the ids rise along the table, as the database mints them, a purge deletes the first events
-- older than the retention time, 4000 at most, and no other; the count it returns is their number,
-- and a further purge is scheduled exactly if 4000 were deleted.
pub purge_expired_lem :
    (now : ℕ) (db : Db)
    → Rising id_of 0 db.next_id db.ingest_events
    → let old = length (filter (is_old (now - ingest_retention_ms)) db.ingest_events) in
      let (db', again, deleted) = purge_expired now db in
      (db'.ingest_events ≡ surviving (now - ingest_retention_ms) purge_batch_size db.ingest_events)
      × (deleted ≡ min purge_batch_size old)
      × ((again ≡ true) ↔ (purge_batch_size ≤ old))
unfolding purge_expired
purge_expired_lem now db r =
    let cutoff = now - ingest_retention_ms in
    let n = length-take purge_batch_size (filter (is_old cutoff) db.ingest_events) in
    (
      filter-surviving cutoff purge_batch_size 0 db.next_id db.ingest_events r,
      n,
      (λ h. ground (arith, n), λ h. ground (arith, n)),
    )
