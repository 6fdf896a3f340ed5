-- ===== src/Hub/Ingest.antt =====
-- apps/web/convex/ingest.ts: the write path of events, and their purge. `configured` is
-- CONVEX_INTERNAL_TOKEN, `to_lower` the runtime's `toLowerCase`, and `now` is `Date.now()`, which is
-- also the creation time that the database gives a row.
pub mod Batch
pub mod Purge
mod Tests
use superbull.Common.{
  ℕ, zero, suc, ◌+◌, ◌-◌, ◌*◌, ℤ, List, [], ◌∷◌, ◌++◌, map, Option, none, some, Bool, true, false,
  not, ◌&&◌, Text, codes, text_eq, is_empty, ◌==◌, ltb, if◌then◌else◌, filter, find, any, take,
  length,
}
use superbull.Protocol.{IngestEvent, JobId, text, num}
use superbull.Hub.Schema.{Db, StoredEvent, Connector}
use superbull.Hub.Base.{
  Result, ok, fail, ◌>>=◌, ◌>>◌, guard, or_fail, unknown_connector, invalid_arguments,
}
use superbull.Hub.Access.{require_internal_token}
use superbull.Hub.ErrorGroups.{Failed, upsert_error_group}

abbrev pub ingest_retention_ms : ℕ
ingest_retention_ms = 7 * 24 * 60 * 60 * 1000

abbrev pub purge_batch_size : ℕ
purge_batch_size = 4000

pub record NormalizedEvent : Type 0 where
  pub uuid : Text
  pub type : Text
  pub queue_name : Text
  pub job_name : Option Text
  pub job_id : Option Text
  pub ts : ℕ
  pub duration_ms : Option ℤ
  pub wait_ms : Option ℤ
  pub failed_reason : Option Text
  pub counts : Option (List (Text × ℕ))
  pub worker_count : Option ℕ
  pub oldest_waiting_ms : Option ℕ

abbrev pub has_uuid : ℕ → Text → StoredEvent → Bool
has_uuid connector_id uuid s = s.connector_id == connector_id && text_eq s.uuid uuid

-- `event.type === 'job.failed' && event.failedReason`: the reason, if it is there and not empty.
unfoldable pub failure_reason : NormalizedEvent → Option Text
failure_reason e = elim e.failed_reason [
  | none ↦ none
  | some reason ↦
      if text_eq e.type (codes "job.failed") && not (is_empty reason) then some reason else none
]

unfoldable pub new_row : ℕ → ℕ → ℕ → NormalizedEvent → ℕ → StoredEvent
new_row now project_id connector_id e id = record {
  id = id;
  created = now;
  project_id = project_id;
  connector_id = connector_id;
  uuid = e.uuid;
  type = e.type;
  queue_name = e.queue_name;
  job_name = e.job_name;
  job_id = e.job_id;
  ts = e.ts;
  duration_ms = e.duration_ms;
  wait_ms = e.wait_ms;
  failed_reason = e.failed_reason;
  counts = e.counts;
  worker_count = e.worker_count;
  oldest_waiting_ms = e.oldest_waiting_ms;
}

unfoldable pub insert_row : ℕ → ℕ → ℕ → NormalizedEvent → Db → Db
unfolding new_row
insert_row now project_id connector_id e db = record db {
  ingest_events = db.ingest_events ++ new_row now project_id connector_id e db.next_id ∷ [];
  next_id = db.next_id + 1;
}

-- What follows the insertion of a row.
unfoldable pub track_failure : (Text → Text) → ℕ → ℕ → NormalizedEvent → Db → Result Db
track_failure to_lower project_id connector_id e db = elim (failure_reason e) [
  | none ↦ ok db
  | some reason ↦
      upsert_error_group to_lower
        (record {
          project_id = project_id;
          connector_id = connector_id;
          queue_name = e.queue_name;
          job_name = e.job_name;
          job_id = e.job_id;
          message = reason;
          ts = e.ts;
        })
        db
]

pub record Tally : Type 0 where
  pub accepted : ℕ
  pub deduped : ℕ

-- The loop's body.
unfoldable pub insert_event :
    (Text → Text) → ℕ → ℕ → ℕ → NormalizedEvent → Db × Tally → Result (Db × Tally)
insert_event to_lower now project_id connector_id e (db, t) =
    elim (find (has_uuid connector_id e.uuid) db.ingest_events) [
      | some existing ↦ ok (db, record t { deduped = t.deduped + 1 })
      | none ↦ do
        db' ←
            track_failure to_lower project_id connector_id e
              (insert_row now project_id connector_id e db)
        ok (db', record t { accepted = t.accepted + 1 })
    ]

unfoldable pub insert_events :
    (Text → Text) → ℕ → ℕ → ℕ → List NormalizedEvent → Db × Tally → Result (Db × Tally)
insert_events to_lower now project_id connector_id [] s = ok s
insert_events to_lower now project_id connector_id (e ∷ events) s =
    insert_event to_lower now project_id connector_id e s
    >>= insert_events to_lower now project_id connector_id events

-- `value ?? undefined`
abbrev pub present {ℓ} : {A : Type ℓ} → Option (Option A) → Option A
present none = none
present (some v) = v

abbrev pub job_id_text : Option JobId → Option Text
job_id_text none = none
job_id_text (some (text t)) = some t
job_id_text (some (num n)) = none

unfoldable pub normalize : IngestEvent → NormalizedEvent
normalize e = record {
  uuid = e.uuid;
  type = e.type;
  queue_name = e.queue_name;
  job_name = e.job_name;
  job_id = job_id_text e.job_id;
  ts = e.ts;
  duration_ms = present e.duration_ms;
  wait_ms = present e.wait_ms;
  failed_reason = e.failed_reason;
  counts = e.counts;
  worker_count = e.worker_count;
  oldest_waiting_ms = present e.oldest_waiting_ms;
}

-- `protocolEventArgs`, which takes a `job_id` only as a string.
unfoldable pub fits_args : IngestEvent → Bool
fits_args e = elim e.job_id [ some (num n) ↦ false | _ ↦ true ]

unfoldable pub all_fit_args : List IngestEvent → Bool
all_fit_args [] = true
all_fit_args (e ∷ events) = fits_args e && all_fit_args events

-- The arguments are validated before the handler runs.
unfoldable pub record_batch :
    Option Text → (Text → Text) → ℕ → Text → ℕ → List IngestEvent → Db → Result (Db × Tally)
record_batch configured to_lower now token connector_id events db = do
  guard (all_fit_args events) invalid_arguments
  require_internal_token configured token
  connector ← or_fail (find (λ c. c.id == connector_id) db.connectors) unknown_connector
  insert_events to_lower now connector.project_id connector_id (map normalize events)
      (db, record { accepted = 0; deduped = 0 })

abbrev pub is_old : ℕ → StoredEvent → Bool
is_old cutoff s = ltb s.created cutoff

abbrev pub selected : List StoredEvent → StoredEvent → Bool
selected expired s = any (λ d. d.id == s.id) expired

-- The database after the deletions, whether a further purge is scheduled, and the count. The index
-- runs through the rows in the order of creation, which is that of the table.
unfoldable pub purge_expired : ℕ → Db → Db × Bool × ℕ
purge_expired now db =
    let expired =
      take purge_batch_size (filter (is_old (now - ingest_retention_ms)) db.ingest_events) in
    (
      record db { ingest_events = filter (λ s. not (selected expired s)) db.ingest_events },
      length expired == purge_batch_size,
      length expired,
    )

unfoldable pub count_by_connector : Option Text → Text → Option ℕ → Db → Result ℕ
count_by_connector configured token connector_id db = do
  require_internal_token configured token
  ok (elim connector_id [
    | none ↦ 0
    | some c ↦ length (filter (λ s. s.connector_id == c) db.ingest_events)
  ])
