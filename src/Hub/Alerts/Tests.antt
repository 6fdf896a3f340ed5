-- ===== src/Hub/Alerts/Tests.antt =====
-- A rule that fires and resolves, and edits of rules.
use superbull.Common.{
  decimal, sort_by, ℕ, ◌≡◌, refl, List, [], ◌∷◌, Option, none, some, true, Text, Text_discrete,
  ℕ_discrete, codes, All, arith,
}
use superbull.Hub.Schema.{Db, AlertRule, failed_threshold}
use superbull.Hub.Base.{ok}
use superbull.Hub.Access.{
  difference, tokens_match, has_valid_internal_token, require_internal_token,
}
use superbull.Hub.Ingest.{new_row, normalize}
use superbull.Hub.Alerts.Rules.{CreateArgs}
use superbull.Hub.Alerts.Status.{
  query_events_in_window, compute_failed_threshold_status, compute_rule_status,
}
use superbull.Hub.Alerts.Evaluate.{
  NotifyEntry, fire, resolve, apply_status, window_start, evaluate_rule, evaluate_rules, evaluate,
}
use superbull.Hub.Alerts.Edges.{IsValid, Applied, evaluate_rule-Applied}
use superbull.Hub.Alerts.Sweeps.{Alternating, sweeps, sweeps-Alternating}
use superbull.Hub.Alerts.Sound.{IsSound, Edit, creates, removes, run_edits, run_edits-IsSound}
use superbull.Hub.Fixtures.{db, secret, configured, failure}

program : Unit {0}
unfolding Text_discrete ℕ_discrete difference tokens_match has_valid_internal_token
    require_internal_token new_row normalize decimal sort_by query_events_in_window
    compute_failed_threshold_status compute_rule_status fire resolve apply_status evaluate_rule
    evaluate_rules evaluate sweeps
program = tt

abbrev rule : AlertRule
rule = record {
  id = 9;
  project_id = 2;
  connector_id = none;
  type = failed_threshold;
  queue_name = some (codes "mail");
  threshold = some 1;
  window_minutes = some 5;
  email = codes "a@b.c";
  is_enabled = true;
}

abbrev quiet : Db
quiet = record db { alert_rules = rule ∷ [] }

abbrev failing : Db
failing = record quiet { ingest_events = new_row 90 2 4 (normalize failure) 10 ∷ [] }

-- One failure: the first sweep fires, the second is silent, and the third, with the event out of
-- the window, resolves.
abbrev worlds : List (ℕ × Db)
worlds = (100, failing) ∷ (200, failing) ∷ (900000, failing) ∷ []

abbrev kinds : List NotifyEntry → List (ℕ × Text)
kinds [] = []
kinds (e ∷ entries) = (e.rule_id, e.summary) ∷ kinds entries

three_sweeps :
    (elim (sweeps configured secret worlds quiet) [ ok r ↦ kinds r.1 | _ ↦ [] ])
    ≡ (9, codes "1 failed jobs in queue \"mail\" over the last 5m (threshold 1)")
      ∷ (9, codes "0 failed jobs in queue \"mail\" over the last 5m (threshold 1)")
      ∷ []
unfolding program
three_sweeps = refl

quiet-IsValid : IsValid quiet
quiet-IsValid = record { rising = omega arith; once = λ q. omega arith }

failing-IsValid : IsValid failing
failing-IsValid = record { rising = omega arith; once = λ q. omega arith }

evaluate_rule-Applied_example :
    (db' : Db) × (entry : Option NotifyEntry) × (evaluate_rule 100 rule failing ≡ ok (db', entry))
    × Applied rule failing failing-IsValid
        (compute_rule_status rule (window_start 100 rule) failing)
        db'
        entry
evaluate_rule-Applied_example = evaluate_rule-Applied rule failing failing-IsValid 100

sweeps-Alternating_example :
    (db' : Db) × (entries : List NotifyEntry) × (sweeps configured secret worlds quiet
      ≡ ok (db', entries))
    × Alternating quiet entries db'
unfolding program
sweeps-Alternating_example = sweeps-Alternating configured secret worlds quiet quiet-IsValid refl

abbrev args : CreateArgs
args = record {
  project_id = 2;
  connector_id = some 4;
  type = failed_threshold;
  queue_name = none;
  threshold = some 3;
  window_minutes = some 10;
  email = codes "a@b.c";
  is_enabled = true;
}

abbrev edits : List Edit
edits = creates (some 1) args ∷ removes (some 1) 2 9 ∷ []

run_edits-IsSound_example : All IsSound (run_edits edits quiet).alert_rules
run_edits-IsSound_example = run_edits-IsSound edits quiet ((omega arith, omega arith), tt)
