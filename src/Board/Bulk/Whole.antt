-- ===== src/Board/Bulk/Whole.antt =====
-- packages/api/src/handlers/apply-bulk-job-action.ts: tried on all of the jobs or on none.
use superbull.Common.{
  ℕ, ◌+◌, ◌≡◌, refl, ap, List, [], ◌∷◌, map, Option, none, some, Bool, true, false, not, ◌&&◌, ◌||◌,
  Text, codes, text_eq, is_empty, all, filter, if◌then◌else◌, ◌==◌, arith, ◌∙◌, inl, inr,
  Bool-cases, Option-cases, Text_discrete,
}
use superbull.Board.Bulk.{
  BulkAction, retry, promote, remove, Queue, Answer, status_of, is_retry, Deed, Outcome, unread,
  called, retries, promotes, removes, is_success, is_missing, find_jobs, jobs_of,
  find_invalid_job_ids, apply_action, apply_all, answer_of, apply_valid, apply_found, apply_parsed,
  apply_bulk_job_action,
}
use superbull.Board.Bulk.Ready.{
  is_ready, is_allowed, permits_lem, none_ready, Found, find_jobs-Found, all_ready, ids_of_jobs,
  invalid_fit,
}

-- The outcome is of the action: a retry is from "completed" or from "failed".
abbrev pub is_of : BulkAction → Outcome → Bool
is_of retry unread = true
is_of retry (called (retries state) b) =
    text_eq state (codes "completed") || text_eq state (codes "failed")
is_of promote (called promotes b) = true
is_of remove (called removes b) = true
is_of _ _ = false

abbrev pub is_no_content : Option Answer → Bool
is_no_content none = false
is_no_content (some answer) = status_of answer == 204

abbrev pub is_rejected : Option Answer → Bool
is_rejected none = true
is_rejected (some answer) = false

abbrev pub all_succeed : List (Text × Outcome) → Bool
all_succeed outcomes = all (λ o. is_success o.1) outcomes

-- Every job named is tried, with the action, or none is. The answer is 204 if they are tried and all
-- succeed; if they are tried and one fails, the handler rejects.
pub record Tried (action : BulkAction) (ids : List Text) (allowed : Bool)
    (r : Option Answer × List (Text × Outcome)) : Type 0 where
  pub tried : map (λ o. o.0) r.1 ≡ (if allowed then ids else [])
  pub same_action : all (λ o. is_of action o.1) r.1 ≡ true
  pub no_content : is_no_content r.0 ≡ (allowed && all_succeed r.1)
  pub rejected : (allowed && is_rejected r.0) ≡ (allowed && not (all_succeed r.1))

refused-Tried :
    (action : BulkAction) (ids : List Text) (answer : Option Answer)
    → is_no_content answer ≡ false
    → Tried action ids false (answer, [])
refused-Tried action ids answer h = record {
  tried = refl;
  same_action = refl;
  no_content = h;
  rejected = refl;
}

module _ {Job : Type 0} (find_job : Text → Option (Option Job)) (get_state : Job → Option Text)
    (state_now : ℕ → Job → Option Text) (is_done : ℕ → Job → Deed → Bool) where
  applied_ids :
      (i : ℕ) (action : BulkAction) (jobs : List (Text × Job))
      → map (λ o. o.0) (apply_all find_job get_state state_now is_done i action jobs)
        ≡ map (λ e. e.0) jobs
  unfolding apply_all
  applied_ids i action [] = refl
  applied_ids i action ((id, job) ∷ jobs) = ap (◌∷◌ id) (applied_ids (i + 1) action jobs)

  retries_of :
      (state : Text) (b : Bool)
      → is_of retry (
          called
            (retries
              (if text_eq state (codes "completed") then codes "completed" else codes "failed"))
            b)
        ≡ true
  unfolding Text_discrete
  retries_of state b = elim (Bool-cases (text_eq state (codes "completed"))) [
    | inl completed ↦ rw completed refl
    | inr other ↦ rw other refl
  ]

  applied_of :
      (i : ℕ) (action : BulkAction) (jobs : List (Text × Job))
      → all (λ o. is_of action o.1) (apply_all find_job get_state state_now is_done i action jobs)
        ≡ true
  unfolding apply_all apply_action
  applied_of i action [] = refl
  applied_of i promote (e ∷ jobs) = applied_of (i + 1) promote jobs
  applied_of i remove (e ∷ jobs) = applied_of (i + 1) remove jobs
  applied_of i retry ((id, job) ∷ jobs) = elim (Option-cases (state_now i job)) [
    | inl failed ↦ ground (arith, failed, applied_of (i + 1) retry jobs)
    | inr (state, here) ↦ ground (arith, here, retries_of state, applied_of (i + 1) retry jobs)
  ]

  apply_all-Tried :
      (action : BulkAction) (ids : List Text) (jobs : List (Text × Job))
      → map (λ e. e.0) jobs ≡ ids
      → let outcomes = apply_all find_job get_state state_now is_done 0 action jobs in
        Tried action ids true (answer_of find_job get_state state_now is_done outcomes, outcomes)
  apply_all-Tried action ids jobs h =
      let outcomes = apply_all find_job get_state state_now is_done 0 action jobs in
      elim (Bool-cases (all_succeed outcomes)) [
        | inl success ↦ record {
          tried = applied_ids 0 action jobs ∙ h;
          same_action = applied_of 0 action jobs;
          no_content = ground (arith, success);
          rejected = ground (arith, success);
        }
        | inr failure ↦ record {
          tried = applied_ids 0 action jobs ∙ h;
          same_action = applied_of 0 action jobs;
          no_content = ground (arith, failure);
          rejected = ground (arith, failure);
        }
      ]

  apply_found-Tried :
      (q : Queue) (action : BulkAction) (ids : List Text) (found : List (Text × Option Job))
      → Found find_job get_state state_now is_done ids found
      → Tried action ids
          (all (is_ready find_job get_state state_now is_done q action) ids)
          (apply_found find_job get_state state_now is_done q action found)
  unfolding apply_found apply_valid
  apply_found-Tried q action ids found h =
      let jobs = jobs_of find_job get_state state_now is_done found in
      let invalid =
        find_invalid_job_ids find_job get_state state_now is_done q.allow_completed_retries action
          jobs in
      let fit =
        invalid_fit find_job get_state state_now is_done q.allow_completed_retries action jobs in
      rw (all_ready find_job get_state state_now is_done q action ids found h)
        (elim (Bool-cases
          (is_empty (filter (is_missing find_job get_state state_now is_done) found))) [
            | inr missing ↦ rw missing (refused-Tried action ids _ refl)
            | inl full ↦
                rw (full, fit)
                  (elim (Option-cases invalid) [
                    | inl failed ↦ rw failed (refused-Tried action ids none refl)
                    | inr (wrong, read) ↦ rw read (elim (Bool-cases (is_empty wrong)) [
                      | inl fine ↦ rw fine (
                          apply_all-Tried action ids jobs
                            (ids_of_jobs find_job get_state state_now is_done ids found h full))
                      | inr some_wrong ↦ rw some_wrong (refused-Tried action ids _ refl)
                    ])
                  ])
          ])

  -- A bulk action on a queue. If the queue is not read-only, retries are not disabled for a retry, and
  -- every job named is found and, unless it is to be removed, in a state that can be read and allows the
  -- action, then that action is tried on every one of them, whichever of the others fails: the answer is
  -- 204 if all succeed, and the handler rejects if one fails, as a retry does whose state cannot be read
  -- again. Otherwise the action is tried on none, and there is no answer 204.
  pub apply_bulk_job_action_whole :
      (q : Queue) (action : BulkAction) (ids : List Text)
      → Tried action ids
          (is_allowed find_job get_state state_now is_done q action ids)
          (apply_bulk_job_action find_job get_state state_now is_done (some q) (some (action, ids)))
  unfolding apply_bulk_job_action apply_parsed
  apply_bulk_job_action_whole q action ids =
      rw (permits_lem q action) (elim (Bool-cases q.read_only_mode) [
        | inl closed ↦ rw closed (refused-Tried action ids _ refl)
        | inr writable ↦ rw writable (elim (Bool-cases (is_retry action && not q.allow_retries)) [
          | inl disabled ↦ rw disabled (refused-Tried action ids _ refl)
          | inr enabled ↦
              rw enabled (elim (Option-cases (find_jobs find_job get_state state_now is_done ids)) [
                | inl failed ↦
                    rw (failed, none_ready find_job get_state state_now is_done q action ids failed)
                      (refused-Tried action ids none refl)
                | inr (found, read) ↦ rw read (
                    apply_found-Tried q action ids found
                      (find_jobs-Found find_job get_state state_now is_done ids found read))
              ])
        ])
      ])
