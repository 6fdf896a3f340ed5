-- ===== src/Hub/Alerts/Evaluate.antt =====
-- apps/web/convex/alerts.ts: `evaluate`, and `listAllRulesForDigest`.
use superbull.Common.{
  or_else, ℕ, ◌+◌, ◌-◌, ◌*◌, List, [], ◌∷◌, ◌++◌, map, Option, none, some, Bool, true, false, Text,
  ◌==◌, if◌then◌else◌, filter, length,
}
use superbull.Hub.Schema.{Db, AlertRule, AlertState, FiringState, firing, resolved, RuleType}
use superbull.Hub.Base.{Result, ok, ◌>>=◌, ◌>>◌, unique, patch_where}
use superbull.Hub.Access.{require_internal_token}
use superbull.Hub.Alerts.Rules.{state_of}
use superbull.Hub.Alerts.Status.{Status, compute_rule_status}

pub record NotifyEntry : Type 0 where
  pub rule_id : ℕ
  pub project_id : ℕ
  pub email : Text
  pub type : RuleType
  pub queue_name : Option Text
  pub summary : Text
  pub kind : FiringState

abbrev pub entry_of : AlertRule → Text → FiringState → NotifyEntry
entry_of r summary kind = record {
  rule_id = r.id;
  project_id = r.project_id;
  email = r.email;
  type = r.type;
  queue_name = r.queue_name;
  summary = summary;
  kind = kind;
}

abbrev pub is_firing : Option AlertState → Bool
is_firing none = false
is_firing (some s) = elim s.state [ firing ↦ true | resolved ↦ false ]

abbrev pub fire_at : ℕ → AlertState → AlertState
fire_at now s = record s { state = firing; last_fired_ts = some now; last_notified_ts = some now }

abbrev pub resolve_at : ℕ → AlertState → AlertState
resolve_at now s = record s { state = resolved; last_notified_ts = some now }

abbrev pub patch_state : AlertState → (AlertState → AlertState) → Db → Db
patch_state s f db = record db { alert_states = patch_where (λ x. x.id == s.id) f db.alert_states }

abbrev pub new_state : ℕ → AlertRule → ℕ → AlertState
new_state now r id = record {
  id = id;
  rule_id = r.id;
  state = firing;
  last_fired_ts = some now;
  last_notified_ts = some now;
}

-- `firing`, and the rule's state was not.
unfoldable pub fire : ℕ → AlertRule → Option AlertState → Db → Db
fire now r (some s) db = patch_state s (fire_at now) db
fire now r none db = record db {
  alert_states = db.alert_states ++ new_state now r db.next_id ∷ [];
  next_id = db.next_id + 1;
}

unfoldable pub resolve : ℕ → Option AlertState → Db → Db
resolve now none db = db
resolve now (some s) db = patch_state s (resolve_at now) db

unfoldable pub apply_status :
    ℕ → AlertRule → Status → Option AlertState → Db → Db × Option NotifyEntry
apply_status now r status state db =
    if status.firing
    then (if is_firing state
        then (db, none)
        else (fire now r state db, some (entry_of r status.summary firing)))
    else if is_firing state
    then (resolve now state db, some (entry_of r status.summary resolved))
    else (db, none)

abbrev pub window_start : ℕ → AlertRule → ℕ
window_start now r = now - or_else r.window_minutes 5 * 60000

unfoldable pub evaluate_rule : ℕ → AlertRule → Db → Result (Db × Option NotifyEntry)
evaluate_rule now r db = do
  state ← unique (state_of r.id) db.alert_states
  ok (apply_status now r (compute_rule_status r (window_start now r) db) state db)

abbrev pub push_entry : Option NotifyEntry → List NotifyEntry → List NotifyEntry
push_entry none entries = entries
push_entry (some e) entries = e ∷ entries

unfoldable pub evaluate_rules : ℕ → List AlertRule → Db → Result (Db × List NotifyEntry)
evaluate_rules now [] db = ok (db, [])
evaluate_rules now (r ∷ rules) db = do
  (db', entry) ← evaluate_rule now r db
  (db'', entries) ← evaluate_rules now rules db'
  ok (db'', push_entry entry entries)

-- With the number of enabled rules.
unfoldable pub evaluate : Option Text → ℕ → Text → Db → Result (Db × ℕ × List NotifyEntry)
evaluate configured now token db = do
  require_internal_token configured token
  let rules = filter (λ r. r.is_enabled) db.alert_rules
  (db', entries) ← evaluate_rules now rules db
  ok (db', length rules, entries)

unfoldable pub list_all_rules_for_digest : Option Text → Text → Db → Result (List (Text × ℕ))
list_all_rules_for_digest configured token db = do
  require_internal_token configured token
  ok (map (λ r. (r.email, r.project_id)) db.alert_rules)
