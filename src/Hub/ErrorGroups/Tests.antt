-- ===== src/Hub/ErrorGroups/Tests.antt =====
-- Fingerprints and groups at concrete failures.
use superbull.Common.{
  ℕ, ◌≡◌, refl, [], ◌∷◌, none, some, Text, Text_discrete, codes, ℕ_discrete, find, arith,
}
use superbull.Hub.Schema.{Db, resolved, empty_db}
use superbull.Hub.Base.{ok}
use superbull.Hub.ErrorGroups.{
  Failed, first_line, replace_all, match_run, match_uuid, normalize_fingerprint_message,
  compute_fingerprint, has_key, new_group, bump, upsert_error_group,
}
use superbull.Hub.ErrorGroups.Upsert.{IsValid, after_failure, upsert_error_group_lem}

program : Unit {0}
unfolding Text_discrete ℕ_discrete first_line replace_all match_run match_uuid
    normalize_fingerprint_message compute_fingerprint new_group bump
program = tt

abbrev same : Text → Text
same text = text

-- The digits of a UUID go with it, those of a short number on their own.
normalize_uuid :
    normalize_fingerprint_message same
      (codes "job 01234567-89ab-cdef-0123-456789abcdef took 170 ms")
    ≡ codes "job # took # ms"
unfolding program
normalize_uuid = refl

abbrev failed : Failed
failed = record {
  project_id = 2;
  connector_id = 4;
  queue_name = codes "mail";
  job_name = none;
  job_id = some (codes "8");
  message = codes "timeout 17";
  ts = 50;
}

abbrev db : Db
db = record empty_db {
  error_groups =
      record (new_group failed (codes "timeout #:mail") 1) { state = resolved; last_job_id = none }
      ∷ [];
  next_id = 2;
}

db-IsValid : IsValid db
unfolding program
db-IsValid = record { rising = (omega arith, omega arith); once = λ c f. ground arith }

upsert_error_group_lem_example :
    (db' : Db) × (upsert_error_group same failed db ≡ ok db')
    × IsValid db'
    × ((c : ℕ) (k : Text)
        → find (has_key c k) db'.error_groups
          ≡ after_failure failed
              (compute_fingerprint same failed.message failed.queue_name)
              db.next_id
              c
              k
              (find (has_key c k) db.error_groups))
upsert_error_group_lem_example = upsert_error_group_lem same failed db db-IsValid
