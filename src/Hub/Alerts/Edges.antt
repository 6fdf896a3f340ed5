-- ===== src/Hub/Alerts/Edges.antt =====
-- apps/web/convex/alerts.ts: one evaluation of one rule, and what it does to the states.
use superbull.Common.{
  ℕ, ◌≤◌, ◌≡◌, refl, ap, [], ◌∷◌, Option, none, some, Bool, true, false, not, ◌==◌, Text, filter,
  filter-append, find, length, length-append, if◌then◌else◌, arith, inl, inr, Bool-cases,
  Option-cases,
}
use superbull.Hub.Schema.{Db, AlertRule, AlertState, FiringState, firing, resolved}
use superbull.Hub.Base.{
  ok, filter-patch_where, length-patch_where, find-patch_where, find-append, find_of_filter,
  find-none_of_filter, unique_of_count, Rising, Rising-append, Rising-patch_where, Rising-unique,
  find_sound,
}
use superbull.Hub.Alerts.Rules.{state_of}
use superbull.Hub.Alerts.Status.{Status, compute_rule_status}
use superbull.Hub.Alerts.Evaluate.{
  NotifyEntry, entry_of, is_firing, fire_at, resolve_at, patch_state, new_state, fire, resolve,
  apply_status, window_start, evaluate_rule,
}

abbrev pub id_of : AlertState → ℕ
id_of s = s.id

-- One state for a rule, and ids as the database mints them.
pub record IsValid (db : Db) : Type 0 where
  pub rising : Rising id_of 0 db.next_id db.alert_states
  pub once : (q : ℕ) → length (filter (state_of q) db.alert_states) ≤ 1

-- Whether a rule is firing, by the states.
abbrev pub flag : ℕ → Db → Bool
flag q db = is_firing (find (state_of q) db.alert_states)

abbrev pub differs : Bool → Bool → Bool
differs true b = not b
differs false b = b

abbrev status_of : Bool → Text → Status
status_of fires summary = record { firing = fires; summary = summary }

abbrev pub kind_of : Bool → FiringState
kind_of true = firing
kind_of false = resolved

-- What is told of a rule that was firing or not: nothing, if that has not changed.
abbrev pub announced : AlertRule → Bool → Status → Option NotifyEntry
announced r before status =
    if differs before status.firing
    then some (entry_of r status.summary (kind_of status.firing))
    else none

module _ (r : AlertRule) (db : Db) (v : IsValid db) where
  -- Patching the state of the rule.
  patch-IsValid :
      (s : AlertState) (f : AlertState → AlertState) (same_id : (x : AlertState) → (f x).id ≡ x.id)
      (same_rule : (x : AlertState) → (f x).rule_id ≡ x.rule_id)
      → IsValid (patch_state s f db)
  patch-IsValid s f same_id same_rule = record {
    rising =
        Rising-patch_where id_of (λ x. x.id == s.id) f same_id 0 db.next_id db.alert_states
          v.rising;
    once = λ q.
        rw
          (filter-patch_where (state_of q) (λ x. x.id == s.id) f
            (λ x. ap (λ n. n == q) (same_rule x)) db.alert_states)
          (rw (length-patch_where (λ x. x.id == s.id) f (filter (state_of q) db.alert_states))
            (v.once q));
  }

  patch-flag :
      (s : AlertState) (f : AlertState → AlertState) (b : Bool)
      (same_rule : (x : AlertState) → (f x).rule_id ≡ x.rule_id)
      (new : (x : AlertState) → is_firing (some (f x)) ≡ b)
      → filter (state_of r.id) db.alert_states ≡ s ∷ []
      → (q : ℕ) → flag q (patch_state s f db) ≡ (if r.id == q then b else flag q db)
  patch-flag s f b same_rule new e q = elim (Bool-cases (r.id == q)) [
    | inl mine ↦
        let same : q ≡ r.id = ground arith in
        rw same (
          rw
            (find-patch_where (state_of r.id) is_row f (λ x. ap (λ n. n == r.id) (same_rule x))
              db.alert_states)
            (ground (arith, here, new s)))
    | inr other ↦
        rw
          (find-patch_where (state_of q) is_row f (λ x. ap (λ n. n == q) (same_rule x))
            db.alert_states)
          (elim (Option-cases (find (state_of q) db.alert_states)) [
            | inl nothing ↦ ground arith
            | inr (x, found) ↦ ground (
              arith,
              find_sound (state_of q) db.alert_states x found,
              find_sound (state_of r.id) db.alert_states s here,
              Rising-unique id_of (state_of q) (state_of r.id) 0 db.next_id db.alert_states x s
                  v.rising found here,
            )
          ])
  ]
    where
      here : find (state_of r.id) db.alert_states ≡ some s
      here = find_of_filter (state_of r.id) db.alert_states s [] e

      is_row : AlertState → Bool
      is_row x = x.id == s.id

  insert-IsValid :
      (now : ℕ) → filter (state_of r.id) db.alert_states ≡ [] → IsValid (fire now r none db)
  unfolding fire
  insert-IsValid now e = record {
    rising = Rising-append id_of 0 db.next_id db.alert_states _ v.rising refl;
    once = λ q. elim (Bool-cases (r.id == q)) [
      | inl mine ↦
          let same : q ≡ r.id = ground arith in
          rw (filter-append (state_of q) db.alert_states (new_state now r db.next_id ∷ []))
            (rw same (rw e (ground arith)))
      | inr other ↦ ground (
        arith,
        filter-append (state_of q) db.alert_states (new_state now r db.next_id ∷ []),
        length-append (filter (state_of q) db.alert_states) [],
        v.once q,
      )
    ];
  }

  insert-flag :
      (now : ℕ)
      → filter (state_of r.id) db.alert_states ≡ []
      → (q : ℕ) → flag q (fire now r none db) ≡ (if r.id == q then true else flag q db)
  unfolding fire
  insert-flag now e q = elim (Bool-cases (r.id == q)) [
    | inl mine ↦
        let same : q ≡ r.id = ground arith in
        rw same (
          ground (
            arith,
            find-append (state_of r.id) db.alert_states (new_state now r db.next_id ∷ []),
            find-none_of_filter (state_of r.id) db.alert_states e,
          ))
    | inr other ↦
        ground (arith, find-append (state_of q) db.alert_states (new_state now r db.next_id ∷ []))
  ]

  -- What `apply_status` does, by what was firing and what is.
  pub record Applied (status : Status) (db' : Db) (entry : Option NotifyEntry) : Type 0 where
    pub valid : IsValid db'
    pub flags : (q : ℕ) → flag q db' ≡ (if r.id == q then status.firing else flag q db)
    pub told : entry ≡ announced r (flag r.id db) status

  unchanged : (status : Status) → flag r.id db ≡ status.firing → Applied status db none
  unchanged status e = record {
    valid = v;
    flags = λ q. elim (Bool-cases (r.id == q)) [
      | inl mine ↦ let same : q ≡ r.id = ground arith in rw same (ground (arith, e))
      | inr other ↦ ground arith
    ];
    told = ground (arith, e);
  }

  no_state-Applied :
      (now : ℕ) (fires : Bool) (summary : Text)
      → filter (state_of r.id) db.alert_states ≡ []
      → let status = status_of fires summary in
        let (db', entry) = apply_status now r status none db in Applied status db' entry
  unfolding apply_status
  no_state-Applied now false summary e =
      unchanged (status_of false summary)
        (ground (arith, find-none_of_filter (state_of r.id) db.alert_states e))
  no_state-Applied now true summary e = record {
    valid = insert-IsValid now e;
    flags = λ q. insert-flag now e q;
    told = rw (find-none_of_filter (state_of r.id) db.alert_states e) refl;
  }

  state-Applied :
      (now : ℕ) (fires : Bool) (summary : Text) (s : AlertState)
      → filter (state_of r.id) db.alert_states ≡ s ∷ []
      → let status = status_of fires summary in
        let (db', entry) = apply_status now r status (some s) db in Applied status db' entry
  unfolding apply_status fire resolve
  state-Applied now true summary s e =
      let here = find_of_filter (state_of r.id) db.alert_states s [] e in
      elim (Bool-cases (is_firing (some s))) [
        | inl was ↦ rw was (unchanged (status_of true summary) (ground (arith, here)))
        | inr was ↦ rw was (record {
          valid = patch-IsValid s (fire_at now) (λ x. refl) (λ x. refl);
          flags = λ q. patch-flag s (fire_at now) true (λ x. refl) (λ x. refl) e q;
          told = rw (here, was) refl;
        })
      ]
  state-Applied now false summary s e =
      let here = find_of_filter (state_of r.id) db.alert_states s [] e in
      elim (Bool-cases (is_firing (some s))) [
        | inr was ↦ rw was (unchanged (status_of false summary) (ground (arith, here)))
        | inl was ↦ rw was (record {
          valid = patch-IsValid s (resolve_at now) (λ x. refl) (λ x. refl);
          flags = λ q. patch-flag s (resolve_at now) false (λ x. refl) (λ x. refl) e q;
          told = rw (here, was) refl;
        })
      ]

  -- On valid states the evaluation of a rule never throws and keeps them valid. Afterwards the rule
  -- is firing exactly if its status is, every other rule as before; and an entry is returned exactly
  -- if that changed, of the kind that it changed to.
  pub evaluate_rule-Applied :
      (now : ℕ)
      → (db' : Db) × (entry : Option NotifyEntry) × (evaluate_rule now r db ≡ ok (db', entry))
        × Applied (compute_rule_status r (window_start now r) db) db' entry
  unfolding evaluate_rule
  evaluate_rule-Applied now =
      let status = compute_rule_status r (window_start now r) db in
      elim (unique_of_count (state_of r.id) db.alert_states (v.once r.id)) [
        | inl (e, row) ↦
            let (db', entry) = apply_status now r status none db in
            (db', entry, rw e refl, no_state-Applied now status.firing status.summary row)
        | inr (s, e, row) ↦
            let (db', entry) = apply_status now r status (some s) db in
            (db', entry, rw e refl, state-Applied now status.firing status.summary s row)
      ]
