-- ===== src/Hub/Alerts/Sound.antt =====
-- apps/web/convex/alerts.ts: every stored rule can be evaluated.
use superbull.Common.{
  or_before, or_else, ℕ, ◌<◌, ◌≡◌, refl, List, [], ◌∷◌, ◌++◌, Option, true, not, Text, ◌==◌, All,
  All-append, All-filter, filter, arith, inl, inr, Option-cases,
}
use superbull.Hub.Schema.{
  Db, AlertRule, RuleType, failed_threshold, stuck_queue, worker_loss, new_error_group,
}
use superbull.Hub.Base.{
  Result, ok, fail, ◌>>=◌, or_fail, ok_of_bind, patch_where, All-patch_where, unknown_rule,
}
use superbull.Hub.Access.{require_project_member}
use superbull.Hub.Alerts.Rules.{
  is_present, guard_rule_fields, guard_connector_in_project, find_rule, new_rule, updated,
  CreateArgs, UpdateArgs, create, update, remove,
}

-- What each type of rule needs.
abbrev pub Needs : RuleType → Option Text → Option ℕ → Type 0
Needs failed_threshold queue_name threshold = 0 < or_else threshold 0
Needs stuck_queue queue_name threshold = is_present queue_name ≡ true
Needs worker_loss queue_name threshold = is_present queue_name ≡ true
Needs new_error_group queue_name threshold = Unit

abbrev pub Sound : RuleType → Option Text → Option ℕ → Option ℕ → Type 0
Sound type queue_name threshold window = (0 < or_else window 0) × Needs type queue_name threshold

abbrev pub IsSound : AlertRule → Type 0
IsSound r = Sound r.type r.queue_name r.threshold r.window_minutes

guard_rule_fields-Sound :
    (type : RuleType) (queue_name : Option Text) (threshold window : Option ℕ)
    → guard_rule_fields type queue_name threshold window ≡ ok tt
    → Sound type queue_name threshold window
unfolding guard_rule_fields
guard_rule_fields-Sound failed_threshold q t w h = (ground arith, ground arith)
guard_rule_fields-Sound stuck_queue q t w h = (ground arith, ground arith)
guard_rule_fields-Sound worker_loss q t w h = (ground arith, ground arith)
guard_rule_fields-Sound new_error_group q t w h = (ground arith, tt)

create-IsSound :
    (auth : Option ℕ) (a : CreateArgs) (db db' : Db) (rule : AlertRule)
    → create auth a db ≡ ok (db', rule)
    → All IsSound db.alert_rules
    → All IsSound db'.alert_rules
unfolding create
create-IsSound auth a db db' rule h k =
    let (m, _, h₁) = ok_of_bind (require_project_member auth a.project_id db) _ _ h in
    let (u, sound, h₂) =
      ok_of_bind (guard_rule_fields a.type a.queue_name a.threshold a.window_minutes) _ _ h₁ in
    let (w, _, e) = ok_of_bind (guard_connector_in_project a.project_id a.connector_id db) _ _ h₂ in
    let same : db'.alert_rules ≡ db.alert_rules ++ new_rule a db.next_id ∷ [] = ground arith in
    rw same (
      All-append IsSound db.alert_rules _ k
        (guard_rule_fields-Sound a.type a.queue_name a.threshold a.window_minutes sound, tt))

update-IsSound :
    (auth : Option ℕ) (a : UpdateArgs) (db db' : Db) (rule : Option AlertRule)
    → update auth a db ≡ ok (db', rule)
    → All IsSound db.alert_rules
    → All IsSound db'.alert_rules
unfolding update
update-IsSound auth a db db' rule h k =
    let (m, _, h₁) = ok_of_bind (require_project_member auth a.project_id db) _ _ h in
    let (x, _, h₂) = ok_of_bind (or_fail (find_rule a.project_id a.id db) unknown_rule) _ _ h₁ in
    let (u, sound, h₃) =
      ok_of_bind
        (guard_rule_fields (or_else a.type x.type) (or_before a.queue_name x.queue_name)
          (or_before a.threshold x.threshold) (or_before a.window_minutes x.window_minutes))
        _ _ h₂ in
    let (w, _, e) = ok_of_bind (guard_connector_in_project a.project_id a.connector_id db) _ _ h₃ in
    let same : db'.alert_rules ≡ patch_where (λ r. r.id == a.id) (updated a x) db.alert_rules =
      ground arith in
    rw same (
      All-patch_where IsSound (λ r. r.id == a.id) (updated a x)
        (λ r. guard_rule_fields-Sound _ _ _ _ sound) db.alert_rules k)

remove-IsSound :
    (auth : Option ℕ) (project_id id : ℕ) (db db' : Db)
    → remove auth project_id id db ≡ ok db'
    → All IsSound db.alert_rules
    → All IsSound db'.alert_rules
unfolding remove
remove-IsSound auth project_id id db db' h k =
    let (m, _, e) = ok_of_bind (require_project_member auth project_id db) _ _ h in
    elim (Option-cases (find_rule project_id id db)) [
      | inl nothing ↦ let same : db'.alert_rules ≡ db.alert_rules = ground arith in rw same k
      | inr (r, found) ↦
          let same : db'.alert_rules ≡ filter (λ r. not (r.id == id)) db.alert_rules =
            ground arith in
          rw same (All-filter IsSound (λ r. not (r.id == id)) db.alert_rules k)
    ]

-- The mutations of rules that a user may call. One that throws changes nothing.
pub data Edit : Type 0 where
  creates : Option ℕ → CreateArgs → Edit
  updates : Option ℕ → UpdateArgs → Edit
  removes : Option ℕ → ℕ → ℕ → Edit

abbrev outcome : Edit → Db → Result Db
outcome (creates auth a) db = create auth a db >>= λ r. ok r.0
outcome (updates auth a) db = update auth a db >>= λ r. ok r.0
outcome (removes auth project_id id) db = remove auth project_id id db

abbrev after : Db → Result Db → Db
after db (ok db') = db'
after db (fail f) = db

unfoldable pub run_edits : List Edit → Db → Db
run_edits [] db = db
run_edits (e ∷ edits) db = run_edits edits (after db (outcome e db))

outcome-IsSound :
    (e : Edit) (db db' : Db)
    → outcome e db ≡ ok db'
    → All IsSound db.alert_rules
    → All IsSound db'.alert_rules
outcome-IsSound (creates auth a) db db' h k =
    let ((d, rule), e, f) = ok_of_bind (create auth a db) _ _ h in
    create-IsSound auth a db db' rule (rw e (ground arith)) k
outcome-IsSound (updates auth a) db db' h k =
    let ((d, rule), e, f) = ok_of_bind (update auth a db) _ _ h in
    update-IsSound auth a db db' rule (rw e (ground arith)) k
outcome-IsSound (removes auth project_id id) db db' h k =
    remove-IsSound auth project_id id db db' h k

after-IsSound :
    (e : Edit) (db : Db) (r : Result Db)
    → outcome e db ≡ r
    → All IsSound db.alert_rules
    → All IsSound (after db r).alert_rules
after-IsSound e db (ok db') h k = outcome-IsSound e db db' h k
after-IsSound e db (fail f) h k = k

-- Where every rule can be evaluated (it has a window that is not 0, and the threshold or the queue
-- that its type needs), every rule still can after any sequence of creations, updates and removals.
pub run_edits-IsSound :
    (edits : List Edit) (db : Db)
    → All IsSound db.alert_rules
    → All IsSound (run_edits edits db).alert_rules
unfolding run_edits
run_edits-IsSound [] db k = k
run_edits-IsSound (e ∷ edits) db k =
    run_edits-IsSound edits (after db (outcome e db)) (after-IsSound e db (outcome e db) refl k)
