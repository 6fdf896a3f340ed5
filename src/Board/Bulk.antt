-- ===== src/Board/Bulk.antt =====
-- packages/api/src/handlers/apply-bulk-job-action.ts: one action on many jobs. The queue and its jobs come
-- from the adapter, any of whose calls may reject: `find_job` and `get_state` are what it answers before
-- the action, `none` when it rejects; `state_now i` is the state that the retry of the i-th job reads
-- again, and `is_done i` whether the i-th job's retry, promotion or removal succeeds. The body is what
-- `bodySchema` makes of it, `none` if it refuses. The handler's answer is `none` when its promise rejects.
pub mod Ready
pub mod Whole
mod Tests
use mathlib.Core.Option
use superbull.Common.{
  ℕ, ◌+◌, all, List, [], ◌∷◌, map, Option, none, some, Bool, true, false, not, ◌&&◌, ◌||◌, Text,
  codes, text_eq, is_empty, if◌then◌else◌, filter,
}

pub data BulkAction : Type 0 where
  retry promote remove : BulkAction

pub record Queue : Type 0 where
  pub read_only_mode : Bool
  pub allow_retries : Bool
  pub allow_completed_retries : Bool

-- The response.
pub data Answer : Type 0 where
  queue_not_found read_only invalid_body retries_disabled done : Answer
  jobs_not_found : List Text → Answer
  wrong_state : BulkAction → List Text → Answer

abbrev pub status_of : Answer → ℕ
status_of queue_not_found = 404
status_of read_only = 405
status_of invalid_body = 400
status_of retries_disabled = 405
status_of done = 204
status_of (jobs_not_found ids) = 400
status_of (wrong_state action ids) = 400

-- What is asked of a job; a retry says from which state.
pub data Deed : Type 0 where
  retries : Text → Deed
  promotes removes : Deed

-- How it went: the state of a job to retry could not be read, or the job was called, with success or not.
pub data Outcome : Type 0 where
  unread : Outcome
  called : Deed → Bool → Outcome

abbrev pub is_success : Outcome → Bool
is_success unread = false
is_success (called deed success) = success

abbrev pub is_retry : BulkAction → Bool
is_retry retry = true
is_retry _ = false

-- Whether a state allows the action.
abbrev pub is_valid : Bool → BulkAction → Text → Bool
is_valid allow_completed remove state = true
is_valid allow_completed retry state =
    text_eq state (codes "failed") || (text_eq state (codes "completed") && allow_completed)
is_valid allow_completed promote state = text_eq state (codes "delayed")

module _ {Job : Type 0} (find_job : Text → Option (Option Job)) (get_state : Job → Option Text)
    (state_now : ℕ → Job → Option Text) (is_done : ℕ → Job → Deed → Bool) where
  -- `Promise.all` over `findJob`.
  unfoldable pub find_jobs : List Text → Option (List (Text × Option Job))
  find_jobs [] = some []
  find_jobs (id ∷ ids) =
      let rest = find_jobs ids in
      elim (find_job id) [ none ↦ none | some job ↦ Option.map (◌∷◌ (id, job)) rest ]

  abbrev pub is_missing : Text × Option Job → Bool
  is_missing (id, none) = true
  is_missing (id, some job) = false

  unfoldable pub jobs_of : List (Text × Option Job) → List (Text × Job)
  jobs_of [] = []
  jobs_of ((id, none) ∷ found) = jobs_of found
  jobs_of ((id, some job) ∷ found) = (id, job) ∷ jobs_of found

  -- `Promise.all` over `getState`.
  unfoldable pub read_states : List (Text × Job) → Option (List (Text × Text))
  read_states [] = some []
  read_states ((id, job) ∷ jobs) =
      let rest = read_states jobs in
      elim (get_state job) [ none ↦ none | some state ↦ Option.map (◌∷◌ (id, state)) rest ]

  abbrev pub invalid_of : Bool → BulkAction → List (Text × Text) → List Text
  invalid_of allow_completed action states =
      map (λ e. e.0) (filter (λ e. not (is_valid allow_completed action e.1)) states)

  unfoldable pub find_invalid_job_ids : Bool → BulkAction → List (Text × Job) → Option (List Text)
  find_invalid_job_ids allow_completed remove jobs = some []
  find_invalid_job_ids allow_completed retry jobs =
      Option.map (invalid_of allow_completed retry) (read_states jobs)
  find_invalid_job_ids allow_completed promote jobs =
      Option.map (invalid_of allow_completed promote) (read_states jobs)

  abbrev pub call : ℕ → Job → Deed → Outcome
  call i job deed = called deed (is_done i job deed)

  unfoldable pub apply_action : ℕ → BulkAction → Job → Outcome
  apply_action i retry job = elim (state_now i job) [
    | none ↦ unread
    | some state ↦
        call i job (
          retries (if text_eq state (codes "completed") then codes "completed" else codes "failed"))
  ]
  apply_action i promote job = call i job promotes
  apply_action i remove job = call i job removes

  -- `Promise.all` over `applyAction`: every job's action is started, whichever rejects.
  unfoldable pub apply_all : ℕ → BulkAction → List (Text × Job) → List (Text × Outcome)
  apply_all i action [] = []
  apply_all i action ((id, job) ∷ jobs) =
      (id, apply_action i action job) ∷ apply_all (i + 1) action jobs

  -- It resolves if all do.
  abbrev pub answer_of : List (Text × Outcome) → Option Answer
  answer_of outcomes = if all (λ o. is_success o.1) outcomes then some done else none

  unfoldable pub apply_valid :
      BulkAction → List (Text × Job) → List Text → Option Answer × List (Text × Outcome)
  apply_valid action jobs invalid =
      if is_empty invalid
      then (answer_of (apply_all 0 action jobs), apply_all 0 action jobs)
      else (some (wrong_state action invalid), [])

  -- From the jobs that were found.
  unfoldable pub apply_found :
      Queue → BulkAction → List (Text × Option Job) → Option Answer × List (Text × Outcome)
  apply_found q action found =
      let missing = filter is_missing found in
      if is_empty missing
      then elim (find_invalid_job_ids q.allow_completed_retries action (jobs_of found)) [
        | none ↦ (none, [])
        | some invalid ↦ apply_valid action (jobs_of found) invalid
      ]
      else (some (jobs_not_found (map (λ e. e.0) missing)), [])

  unfoldable pub apply_parsed :
      Queue → BulkAction → List Text → Option Answer × List (Text × Outcome)
  apply_parsed q action ids =
      if is_retry action && not q.allow_retries
      then (some retries_disabled, [])
      else elim (find_jobs ids) [ none ↦ (none, []) | some found ↦ apply_found q action found ]

  unfoldable pub apply_bulk_job_action :
      Option Queue → Option (BulkAction × List Text) → Option Answer × List (Text × Outcome)
  apply_bulk_job_action none body = (some queue_not_found, [])
  apply_bulk_job_action (some q) none =
      (if q.read_only_mode then some read_only else some invalid_body, [])
  apply_bulk_job_action (some q) (some (action, ids)) =
      if q.read_only_mode then (some read_only, []) else apply_parsed q action ids
