-- ===== src/Delivery/Stored.antt =====
-- apps/web/convex/ingest.ts and the gateway's `handleFrame`: what is stored stays, and what is
-- acknowledged is stored.
use superbull.Common.{
  ℕ, ◌≤◌, ◌≡◌, refl, List, [], ◌∷◌, map, Option, Bool, true, Text, any, any-append, All, all, arith,
  filter, length,
}
use superbull.Protocol.{IngestEvent}
use superbull.Hub.Schema.{Db, StoredEvent}
use superbull.Hub.Base.{ok}
use superbull.Hub.Ingest.{Tally, has_uuid, normalize, record_batch}
use superbull.Hub.Ingest.Batch.{IsValid, is_stored, recorded_only, record_batch-Inserted}

abbrev pub has : ℕ → Db → IngestEvent → Bool
has c db event = is_stored c event.uuid db

all_stored :
    (c : ℕ) (db : Db) (batch : List IngestEvent)
    → All (λ e. is_stored c e.uuid db ≡ true) (map normalize batch)
    → all (has c db) batch ≡ true
unfolding normalize
all_stored c db [] h = refl
all_stored c db (event ∷ batch) h = ground (arith, h.0, all_stored c db batch h.1)

-- What a recorded batch does.
pub record Recorded (c : ℕ) (batch : List IngestEvent) (db db' : Db) : Type 0 where
  pub stored : all (has c db') batch ≡ true
  pub stays : (c' : ℕ) (event : IngestEvent) → has c' db event ≡ true → has c' db' event ≡ true
  pub valid : IsValid db'

pub record_batch-Recorded :
    (configured : Option Text) (to_lower : Text → Text) (token : Text) (now c : ℕ)
    (batch : List IngestEvent) (db : Db) (s : Db × Tally)
    → IsValid db
    → record_batch configured to_lower now token c batch db ≡ ok s
    → Recorded c batch db s.0
record_batch-Recorded configured to_lower token now c batch db s v h =
    let (connector, fit, a, known) = recorded_only configured to_lower token now c batch db s h in
    let (s', e, i) =
      record_batch-Inserted configured to_lower token now c batch db connector v a fit known in
    let same : s' ≡ s = ground arith in
    record {
      stored = rw⁻¹ same (all_stored c s'.0 batch i.stored);
      stays = λ c' event old. rw⁻¹ same (
          rw i.appended
            (ground (arith, any-append (has_uuid c' event.uuid) db.ingest_events i.news)));
      valid = rw⁻¹ same i.valid;
    }

filter_nonempty :
    (c : ℕ) (u : Text) (rows : List StoredEvent)
    → any (has_uuid c u) rows ≡ true
    → 1 ≤ length (filter (has_uuid c u) rows)
filter_nonempty c u [] h = absurd (ground arith)
filter_nonempty c u (x ∷ rows) h = ground (arith, filter_nonempty c u rows)

-- On a valid database, stored is stored once.
pub stored_once :
    (c : ℕ) (db : Db) (event : IngestEvent)
    → IsValid db
    → has c db event ≡ true
    → length (filter (has_uuid c event.uuid) db.ingest_events) ≡ 1
stored_once c db event v h =
    omega (arith, v.once c event.uuid, filter_nonempty c event.uuid db.ingest_events h)
