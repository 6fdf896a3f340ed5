-- ===== src/Board/Bulk/Ready.antt =====
-- packages/api/src/handlers/apply-bulk-job-action.ts: the jobs that are found and fit for the action.
use mathlib.Core.Option
use superbull.Common.{
  text_eq, codes, ◌||◌, ℕ, ◌≡◌, refl, List, [], ◌∷◌, map, Option, none, some, Bool, true, false,
  not, ◌&&◌, Text, is_empty, all, filter, arith, ◌∙◌, inl, inr, Option-cases,
}
use superbull.Board.Bulk.{
  BulkAction, retry, promote, remove, Queue, is_retry, is_valid, Deed, is_missing, find_jobs,
  jobs_of, read_states, invalid_of, find_invalid_job_ids,
}

elim-map {ℓ κ} :
    {A : Type ℓ} {B : Type κ} (f : A → B) (p : B → Bool) (r : Option A)
    → elim r [ none ↦ false | some a ↦ p (f a) ]
      ≡ elim (Option.map f r) [ none ↦ false | some b ↦ p b ]
elim-map f p none = refl
elim-map f p (some a) = refl

-- A queue may forbid retries.
abbrev pub permits : Queue → BulkAction → Bool
permits q retry = q.allow_retries
permits q promote = true
permits q remove = true

pub permits_lem :
    (q : Queue) (action : BulkAction)
    → permits q action ≡ not (is_retry action && not q.allow_retries)
permits_lem q retry = ground arith
permits_lem q promote = refl
permits_lem q remove = refl

module _ {Job : Type 0} (find_job : Text → Option (Option Job)) (get_state : Job → Option Text)
    (state_now : ℕ → Job → Option Text) (is_done : ℕ → Job → Deed → Bool) where
  -- The job's state can be read and allows the action; a removal asks for no state.
  abbrev pub is_fit : Bool → BulkAction → Job → Bool
  is_fit allow_completed remove job = true
  is_fit allow_completed retry job = elim (get_state job) [
    | none ↦ false
    | some state ↦
        text_eq state (codes "failed") || (text_eq state (codes "completed") && allow_completed)
  ]
  is_fit allow_completed promote job = elim (get_state job) [
    | none ↦ false
    | some state ↦ text_eq state (codes "delayed")
  ]

  abbrev pub is_ready : Queue → BulkAction → Text → Bool
  is_ready q action id = elim (find_job id) [
    | none ↦ false
    | some none ↦ false
    | some (some job) ↦ is_fit q.allow_completed_retries action job
  ]

  abbrev pub is_allowed : Queue → BulkAction → List Text → Bool
  is_allowed q action ids = not q.read_only_mode && permits q action && all (is_ready q action) ids

  all_of_true {ℓ} : {A : Type ℓ} (xs : List A) → all (λ x. true) xs ≡ true
  all_of_true [] = refl
  all_of_true (x ∷ xs) = all_of_true xs

  read_states_fit :
      (allow_completed : Bool) (action : BulkAction) (jobs : List (Text × Job))
      → all
          (λ e. elim (get_state e.1) [ none ↦ false | some s ↦ is_valid allow_completed action s ])
          jobs
        ≡ elim (read_states find_job get_state state_now is_done jobs) [
          | none ↦ false
          | some states ↦
              is_empty
                (invalid_of find_job get_state state_now is_done allow_completed action states)
        ]
  unfolding read_states
  read_states_fit allow_completed action [] = refl
  read_states_fit allow_completed action ((id, job) ∷ jobs) =
      let rest = read_states_fit allow_completed action jobs in
      elim (Option-cases (get_state job)) [
        | inl failed ↦ rw failed refl
        | inr (state, here) ↦
            elim (Option-cases (read_states find_job get_state state_now is_done jobs)) [
              | inl failed ↦ rw (here, failed) (ground (arith, rest, failed))
              | inr (states, there) ↦ rw (here, there) (ground (arith, rest, there))
            ]
      ]

  -- No job is invalid if and only if every job is fit.
  pub invalid_fit :
      (allow_completed : Bool) (action : BulkAction) (jobs : List (Text × Job))
      → all (λ e. is_fit allow_completed action e.1) jobs
        ≡ elim (find_invalid_job_ids find_job get_state state_now is_done allow_completed action
            jobs) [ none ↦ false | some invalid ↦ is_empty invalid ]
  unfolding find_invalid_job_ids
  invalid_fit allow_completed remove jobs = all_of_true jobs
  invalid_fit allow_completed retry jobs =
      read_states_fit allow_completed retry jobs
      ∙ elim-map (invalid_of find_job get_state state_now is_done allow_completed retry) is_empty
          (read_states find_job get_state state_now is_done jobs)
  invalid_fit allow_completed promote jobs =
      read_states_fit allow_completed promote jobs
      ∙ elim-map (invalid_of find_job get_state state_now is_done allow_completed promote) is_empty
          (read_states find_job get_state state_now is_done jobs)

  pub none_ready :
      (q : Queue) (action : BulkAction) (ids : List Text)
      → find_jobs find_job get_state state_now is_done ids ≡ none
      → all (is_ready q action) ids ≡ false
  unfolding find_jobs
  none_ready q action [] h = absurd (ground arith)
  none_ready q action (id ∷ ids) h = elim (Option-cases (find_job id)) [
    | inl failed ↦ ground (arith, failed)
    | inr (job, here) ↦ elim (Option-cases (find_jobs find_job get_state state_now is_done ids)) [
      | inl nothing ↦ ground (arith, none_ready q action ids nothing)
      | inr (found, there) ↦ absurd (ground (arith, here, there, h))
    ]
  ]

  -- What `findJob` answers for the ids, one after the other.
  unfoldable pub Found : List Text → List (Text × Option Job) → Type 0
  Found [] [] = Unit {0}
  Found (id ∷ ids) ((id', job) ∷ found) = (id' ≡ id) × (find_job id ≡ some job) × Found ids found
  Found _ _ = ⊥

  pub find_jobs-Found :
      (ids : List Text) (found : List (Text × Option Job))
      → find_jobs find_job get_state state_now is_done ids ≡ some found
      → Found ids found
  unfolding find_jobs Found
  find_jobs-Found [] [] h = tt
  find_jobs-Found [] (e ∷ found) h = absurd (ground arith)
  find_jobs-Found (id ∷ ids) found h = elim (Option-cases (find_job id)) [
    | inl failed ↦ absurd (ground (arith, failed, h))
    | inr (job, here) ↦ elim (Option-cases (find_jobs find_job get_state state_now is_done ids)) [
      | inl nothing ↦ absurd (ground (arith, here, nothing, h))
      | inr (rest, there) ↦
          let same : found ≡ (id, job) ∷ rest = ground (arith, here, there, h) in
          rw same (refl, here, find_jobs-Found ids rest there)
    ]
  ]

  pub all_ready :
      (q : Queue) (action : BulkAction) (ids : List Text) (found : List (Text × Option Job))
      → Found ids found
      → all (is_ready q action) ids ≡ (
          is_empty (filter (is_missing find_job get_state state_now is_done) found)
          && all
              (λ e. is_fit q.allow_completed_retries action e.1)
              (jobs_of find_job get_state state_now is_done found))
  unfolding jobs_of Found
  all_ready q action [] [] h = refl
  all_ready q action [] (e ∷ found) h = absurd h
  all_ready q action (id ∷ ids) [] h = absurd h
  all_ready q action (id ∷ ids) ((id', none) ∷ found) (same, here, rest) = ground (arith, here)
  all_ready q action (id ∷ ids) ((id', some job) ∷ found) (same, here, rest) =
      ground (arith, here, all_ready q action ids found rest)

  pub ids_of_jobs :
      (ids : List Text) (found : List (Text × Option Job))
      → Found ids found
      → is_empty (filter (is_missing find_job get_state state_now is_done) found) ≡ true
      → map (λ e. e.0) (jobs_of find_job get_state state_now is_done found) ≡ ids
  unfolding jobs_of Found
  ids_of_jobs [] [] h full = refl
  ids_of_jobs [] (e ∷ found) h full = absurd h
  ids_of_jobs (id ∷ ids) [] h full = absurd h
  ids_of_jobs (id ∷ ids) ((id', none) ∷ found) h full = absurd (ground arith)
  ids_of_jobs (id ∷ ids) ((id', some job) ∷ found) (same, here, rest) full =
      rw (same, ids_of_jobs ids found rest full) refl
