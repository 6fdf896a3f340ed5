-- ===== src/Board/Bulk/Tests.antt =====
-- Two jobs that are promoted, of which one fails; and two of which one is not delayed.
use superbull.Common.{
  ℕ, ◌≡◌, ◌==◌, refl, [], ◌∷◌, Option, none, some, Bool, true, false, not, Text, Text_discrete,
  ℕ_discrete, codes, text_eq, if◌then◌else◌,
}
use superbull.Board.Bulk.{
  promote, Queue, Deed, called, promotes, wrong_state, find_jobs, jobs_of, read_states,
  find_invalid_job_ids, apply_action, apply_all, apply_valid, apply_found, apply_parsed,
  apply_bulk_job_action,
}
use superbull.Board.Bulk.Ready.{is_allowed}
use superbull.Board.Bulk.Whole.{Tried, apply_bulk_job_action_whole}

program : Unit {0}
unfolding Text_discrete ℕ_discrete find_jobs jobs_of read_states find_invalid_job_ids apply_action
    apply_all apply_valid apply_found apply_parsed apply_bulk_job_action
program = tt

-- A job is its state; every job but "9" is delayed.
abbrev find_job : Text → Option (Option Text)
find_job id =
    if text_eq id (codes "9") then some (some (codes "active")) else some (some (codes "delayed"))

abbrev state : Text → Option Text
state job = some job

abbrev state_now : ℕ → Text → Option Text
state_now i job = none

-- The second job fails.
abbrev is_done : ℕ → Text → Deed → Bool
is_done i job deed = not (i == 1)

abbrev queue : Queue
queue = record { read_only_mode = false; allow_retries = true; allow_completed_retries = true }

refused :
    apply_bulk_job_action find_job state state_now is_done
      (some queue)
      (some (promote, codes "1" ∷ codes "9" ∷ []))
    ≡ (some (wrong_state promote (codes "9" ∷ [])), [])
unfolding program
refused = refl

failing :
    apply_bulk_job_action find_job state state_now is_done
      (some queue)
      (some (promote, codes "1" ∷ codes "2" ∷ codes "3" ∷ []))
    ≡ (
      none,
      (codes "1", called promotes true)
          ∷ (codes "2", called promotes false)
          ∷ (codes "3", called promotes true)
          ∷ [],
    )
unfolding program
failing = refl

apply_bulk_job_action_whole_example :
    Tried promote
      (codes "1" ∷ codes "2" ∷ [])
      (is_allowed find_job state state_now is_done queue promote (codes "1" ∷ codes "2" ∷ []))
      (apply_bulk_job_action find_job state state_now is_done
        (some queue)
        (some (promote, codes "1" ∷ codes "2" ∷ [])))
apply_bulk_job_action_whole_example =
    apply_bulk_job_action_whole find_job state state_now is_done queue promote
      (codes "1" ∷ codes "2" ∷ [])
