-- ===== src/Hub/Ingest/Tests.antt =====
-- A batch that arrives twice, and a purge.
use superbull.Common.{
  ◌+◌, ◌-◌, ◌≤◌, min, ◌≡◌, ◌↔◌, refl, List, [], ◌∷◌, map, none, true, Text, Text_discrete, codes,
  ℕ_discrete, filter, length, arith,
}
use superbull.Protocol.{IngestEvent}
use superbull.Hub.Schema.{Db}
use superbull.Hub.Base.{ok}
use superbull.Hub.Access.{
  difference, tokens_match, has_valid_internal_token, require_internal_token,
}
use superbull.Hub.ErrorGroups.{
  first_line, replace_all, match_run, match_uuid, normalize_fingerprint_message,
  compute_fingerprint, new_group, write_group, upsert_error_group,
}
use superbull.Hub.Ingest.{
  Tally, failure_reason, new_row, insert_row, track_failure, insert_event, insert_events, normalize,
  fits_args, all_fit_args, record_batch, is_old, purge_expired, purge_batch_size,
  ingest_retention_ms,
}
use superbull.Hub.Ingest.Batch.{IsValid, Inserted, record_batch-Inserted, record_batch_again}
use superbull.Hub.Ingest.Purge.{surviving, purge_expired_lem}
use superbull.Hub.Fixtures.{db, agent, secret, configured, failure}

program : Unit {0}
unfolding Text_discrete ℕ_discrete difference tokens_match has_valid_internal_token
    require_internal_token first_line replace_all match_run match_uuid normalize_fingerprint_message
    compute_fingerprint new_group write_group upsert_error_group failure_reason insert_row
    track_failure insert_event insert_events normalize fits_args all_fit_args record_batch
program = tt

abbrev same : Text → Text
same text = text

abbrev batch : List IngestEvent
batch = failure ∷ failure ∷ []

db-IsValid : IsValid db
db-IsValid = record {
  once = λ c u. omega arith;
  groups = record { rising = omega arith; once = λ c f. omega arith };
}

abbrev stored : Db
stored = record db {
  ingest_events = new_row 90 2 4 (normalize failure) 10 ∷ [];
  error_groups =
      new_group
        (record {
          project_id = 2;
          connector_id = 4;
          queue_name = codes "mail";
          job_name = none;
          job_id = none;
          message = codes "timeout 17";
          ts = 50;
        })
        (codes "timeout #:mail") 11
      ∷ [];
  next_id = 12;
}

-- The second event of the batch is a duplicate of the first.
batch_recorded :
    record_batch configured same 90 secret 4 batch db
    ≡ ok (stored, record { accepted = 1; deduped = 1 })
unfolding program
batch_recorded = refl

record_batch-Inserted_example :
    (s : Db × Tally) × (record_batch configured same 90 secret 4 batch db ≡ ok s)
    × Inserted 4 (map normalize batch) (db, record { accepted = 0; deduped = 0 }) s
unfolding program
record_batch-Inserted_example =
    record_batch-Inserted configured same secret 90 4 batch db agent db-IsValid refl refl refl

record_batch_again_example :
    record_batch configured same 95 secret 4 batch stored
    ≡ ok (stored, record { accepted = 0; deduped = length (map normalize batch) })
record_batch_again_example =
    record_batch_again configured same secret 90 95 4 batch db stored
      (record { accepted = 1; deduped = 1 }) db-IsValid batch_recorded

purge_expired_lem_example :
    let now = ingest_retention_ms + 91 in
    let old = length (filter (is_old (now - ingest_retention_ms)) stored.ingest_events) in
    let (db', again, deleted) = purge_expired now stored in
    (db'.ingest_events
      ≡ surviving (now - ingest_retention_ms) purge_batch_size stored.ingest_events)
    × (deleted ≡ min purge_batch_size old)
    × ((again ≡ true) ↔ (purge_batch_size ≤ old))
unfolding new_row
purge_expired_lem_example =
    purge_expired_lem (ingest_retention_ms + 91) stored (omega arith, omega arith)
