-- ===== src/Hub/Alerts/Rules.antt =====
-- apps/web/convex/alerts.ts: `list`, `listStates`, `create`, `update` and `remove`. A threshold and a
-- window are natural numbers; to the guards a negative one would be as 0 is.
use superbull.Common.{
  or_before, or_else, ℕ, ◌+◌, List, [], ◌∷◌, ◌++◌, Option, none, some, Bool, true, false, not, ◌&&◌,
  Text, is_empty, truthy, ◌==◌, if◌then◌else◌, filter, find,
}
use superbull.Hub.Schema.{
  Db, AlertRule, AlertState, RuleType, failed_threshold, stuck_queue, worker_loss,
}
use superbull.Hub.Base.{
  Result, ok, ◌>>=◌, ◌>>◌, guard, or_fail, unique, patch_where, unknown_connector, unknown_rule,
  window_not_positive, threshold_not_positive, queue_name_required,
}
use superbull.Hub.Access.{require_project_member}

-- `!!text`
abbrev pub is_present : Option Text → Bool
is_present none = false
is_present (some t) = not (is_empty t)

abbrev pub needs_threshold : RuleType → Bool
needs_threshold failed_threshold = true
needs_threshold _ = false

abbrev pub needs_queue : RuleType → Bool
needs_queue stuck_queue = true
needs_queue worker_loss = true
needs_queue _ = false

unfoldable pub guard_rule_fields : RuleType → Option Text → Option ℕ → Option ℕ → Result (Unit {0})
guard_rule_fields type queue_name threshold window_minutes = do
  guard (truthy window_minutes) window_not_positive
  guard (not (needs_threshold type && not (truthy threshold))) threshold_not_positive
  guard (not (needs_queue type && not (is_present queue_name))) queue_name_required

abbrev pub of_project : ℕ → AlertRule → Bool
of_project project_id r = r.project_id == project_id

unfoldable pub list : Option ℕ → ℕ → Db → Result (List AlertRule)
list auth project_id db = do
  m ← require_project_member auth project_id db
  ok (filter (of_project project_id) db.alert_rules)

abbrev pub state_of : ℕ → AlertState → Bool
state_of rule_id s = s.rule_id == rule_id

unfoldable pub states_of : List AlertRule → Db → Result (List AlertState)
states_of [] db = ok []
states_of (r ∷ rules) db = do
  state ← unique (state_of r.id) db.alert_states
  states ← states_of rules db
  ok (elim state [ none ↦ states | some s ↦ s ∷ states ])

unfoldable pub list_states : Option ℕ → ℕ → Db → Result (List AlertState)
list_states auth project_id db = do
  m ← require_project_member auth project_id db
  states_of (filter (of_project project_id) db.alert_rules) db

unfoldable pub guard_connector_in_project : ℕ → Option ℕ → Db → Result (Unit {0})
guard_connector_in_project project_id none db = ok tt
guard_connector_in_project project_id (some connector_id) db = do
  c ← or_fail (find (λ c. c.id == connector_id) db.connectors) unknown_connector
  guard (c.project_id == project_id) unknown_connector

pub record CreateArgs : Type 0 where
  pub project_id : ℕ
  pub connector_id : Option ℕ
  pub type : RuleType
  pub queue_name : Option Text
  pub threshold : Option ℕ
  pub window_minutes : Option ℕ
  pub email : Text
  pub is_enabled : Bool

abbrev pub new_rule : CreateArgs → ℕ → AlertRule
new_rule a id = record {
  id = id;
  project_id = a.project_id;
  connector_id = a.connector_id;
  type = a.type;
  queue_name = a.queue_name;
  threshold = a.threshold;
  window_minutes = a.window_minutes;
  email = a.email;
  is_enabled = a.is_enabled;
}

unfoldable pub create : Option ℕ → CreateArgs → Db → Result (Db × AlertRule)
create auth a db = do
  m ← require_project_member auth a.project_id db
  guard_rule_fields a.type a.queue_name a.threshold a.window_minutes
  guard_connector_in_project a.project_id a.connector_id db
  let rule = new_rule a db.next_id
  ok (record db { alert_rules = db.alert_rules ++ rule ∷ []; next_id = db.next_id + 1 }, rule)

pub record UpdateArgs : Type 0 where
  pub project_id : ℕ
  pub id : ℕ
  pub connector_id : Option ℕ
  pub type : Option RuleType
  pub queue_name : Option Text
  pub threshold : Option ℕ
  pub window_minutes : Option ℕ
  pub email : Option Text
  pub is_enabled : Option Bool

abbrev pub updated : UpdateArgs → AlertRule → AlertRule → AlertRule
updated a existing r = record r {
  connector_id = or_before a.connector_id existing.connector_id;
  type = or_else a.type existing.type;
  queue_name = or_before a.queue_name existing.queue_name;
  threshold = or_before a.threshold existing.threshold;
  window_minutes = or_before a.window_minutes existing.window_minutes;
  email = or_else a.email existing.email;
  is_enabled = or_else a.is_enabled existing.is_enabled;
}

-- The rule of an id, if it is of the project.
abbrev pub find_rule : ℕ → ℕ → Db → Option AlertRule
find_rule project_id id db = elim (find (λ r. r.id == id) db.alert_rules) [
  | none ↦ none
  | some r ↦ if r.project_id == project_id then some r else none
]

unfoldable pub update : Option ℕ → UpdateArgs → Db → Result (Db × Option AlertRule)
update auth a db = do
  m ← require_project_member auth a.project_id db
  existing ← or_fail (find_rule a.project_id a.id db) unknown_rule
  guard_rule_fields (or_else a.type existing.type) (or_before a.queue_name existing.queue_name)
      (or_before a.threshold existing.threshold)
      (or_before a.window_minutes existing.window_minutes)
  guard_connector_in_project a.project_id a.connector_id db
  let rules = patch_where (λ r. r.id == a.id) (updated a existing) db.alert_rules
  ok (record db { alert_rules = rules }, find (λ r. r.id == a.id) rules)

unfoldable pub remove : Option ℕ → ℕ → ℕ → Db → Result Db
remove auth project_id id db = do
  m ← require_project_member auth project_id db
  ok (elim (find_rule project_id id db) [
    | none ↦ db
    | some existing ↦ record db {
      alert_states = filter (λ s. not (state_of id s)) db.alert_states;
      alert_rules = filter (λ r. not (r.id == id)) db.alert_rules;
    }
  ])
