-- ===== src/Hub/Alerts/Status.antt =====
-- apps/web/convex/alerts.ts: whether a rule fires, and the summary of it. A query through an index
-- returns its rows by the index's last column, equal ones by their creation. A window that starts
-- before time 0 has every event in it.
use superbull.Common.{
  decimal, or_else, sort_by, ℕ, ◌+◌, List, [], ◌∷◌, ◌++◌, map, Option, none, some, Bool, true,
  false, not, ◌&&◌, Text, codes, text_eq, is_empty, ltb, leb, ◌==◌, if◌then◌else◌, filter, find,
  length, lookup, insert,
}
use superbull.Hub.Schema.{
  Db, AlertRule, StoredEvent, ErrorGroup, failed_threshold, stuck_queue, worker_loss,
  new_error_group,
}
use superbull.Hub.Alerts.Rules.{is_present}

abbrev pub shown_text : Option Text → Text
shown_text none = codes "undefined"
shown_text (some t) = t

abbrev pub shown : Option ℕ → Text
shown none = codes "undefined"
shown (some n) = decimal n

pub record Status : Type 0 where
  pub firing : Bool
  pub summary : Text

abbrev pub is_type : Text → StoredEvent → Bool
is_type type e = text_eq e.type type

abbrev pub in_scope : ℕ → Option Text → ℕ → StoredEvent → Bool
in_scope connector_id none start e = e.connector_id == connector_id && leb start e.ts
in_scope connector_id (some queue) start e =
    e.connector_id == connector_id && (text_eq e.queue_name queue && leb start e.ts)

-- `if (queueName)`: a missing and an empty name are alike.
abbrev pub queue_scope : Option Text → Option Text
queue_scope none = none
queue_scope (some q) = if is_empty q then none else some q

unfoldable pub query_events_in_window : ℕ → Option Text → ℕ → Db → List StoredEvent
query_events_in_window connector_id queue_name start db =
    sort_by (λ (e : StoredEvent). e.ts)
      (filter (in_scope connector_id (queue_scope queue_name) start) db.ingest_events)

abbrev pub get_rule_connector_ids : AlertRule → Db → List ℕ
get_rule_connector_ids r db = elim r.connector_id [
  | some c ↦ c ∷ []
  | none ↦ map (λ c. c.id) (filter (λ c. c.project_id == r.project_id) db.connectors)
]

-- The loop of `latestSnapshotsByQueue`, and the values of its map.
unfoldable pub note_snapshot : StoredEvent → List (Text × StoredEvent) → List (Text × StoredEvent)
note_snapshot e latest =
    if not (is_type (codes "queue.snapshot") e) then latest else elim (lookup e.queue_name latest) [
      | none ↦ insert e.queue_name e latest
      | some current ↦ if ltb current.ts e.ts then insert e.queue_name e latest else latest
    ]

unfoldable pub note_snapshots :
    List StoredEvent → List (Text × StoredEvent) → List (Text × StoredEvent)
unfolding note_snapshot
note_snapshots [] latest = latest
note_snapshots (e ∷ events) latest = note_snapshots events (note_snapshot e latest)

unfoldable pub latest_snapshots_by_queue : List StoredEvent → List StoredEvent
unfolding note_snapshots
latest_snapshots_by_queue events = map (λ entry. entry.1) (note_snapshots events [])

unfoldable pub count_events_by_queue : Text → List StoredEvent → List (Text × ℕ) → List (Text × ℕ)
count_events_by_queue type [] counts = counts
count_events_by_queue type (e ∷ events) counts = count_events_by_queue type events (
    if is_type type e
    then insert e.queue_name (or_else (lookup e.queue_name counts) 0 + 1) counts
    else counts)

unfoldable pub failed_count : AlertRule → ℕ → List ℕ → Db → ℕ
failed_count r start [] db = 0
failed_count r start (c ∷ connectors) db =
    length (filter (is_type (codes "job.failed")) (query_events_in_window c r.queue_name start db))
    + failed_count r start connectors db

unfoldable pub compute_failed_threshold_status : AlertRule → ℕ → Db → Status
unfolding failed_count
compute_failed_threshold_status r start db =
    let count = failed_count r start (get_rule_connector_ids r db) db in
    let threshold = or_else r.threshold 0 in
    let scope =
      if is_present r.queue_name
      then codes "queue \"" ++ shown_text r.queue_name ++ codes "\""
      else codes "all queues" in
    record {
      firing = leb threshold count;
      summary =
          decimal count
          ++ codes " failed jobs in "
          ++ scope
          ++ codes " over the last "
          ++ shown r.window_minutes
          ++ codes "m (threshold "
          ++ decimal threshold
          ++ codes ")";
    }

abbrev pub waiting_of : StoredEvent → ℕ
waiting_of s = elim s.counts [
  | none ↦ 0
  | some counts ↦
      or_else (lookup (codes "waiting") counts) 0 + or_else (lookup (codes "prioritized") counts) 0
]

abbrev pub is_stuck : List (Text × ℕ) → StoredEvent → Bool
is_stuck completed s = ltb 0 (waiting_of s) && or_else (lookup s.queue_name completed) 0 == 0

-- The first snapshot that a test hits, through the connectors in order.
unfoldable pub first_hit :
    (List StoredEvent → StoredEvent → Bool) → AlertRule → ℕ → List ℕ → Db → Option StoredEvent
first_hit hits r start [] db = none
first_hit hits r start (c ∷ connectors) db =
    let events = query_events_in_window c r.queue_name start db in
    elim (find (hits events) (latest_snapshots_by_queue events)) [
      | some s ↦ some s
      | none ↦ first_hit hits r start connectors db
    ]

abbrev pub hits_stuck : List StoredEvent → StoredEvent → Bool
hits_stuck events = is_stuck (count_events_by_queue (codes "job.completed") events [])

unfoldable pub compute_stuck_queue_status : AlertRule → ℕ → Db → Status
unfolding first_hit
compute_stuck_queue_status r start db =
    elim (first_hit hits_stuck r start (get_rule_connector_ids r db) db) [
      | some s ↦ record {
        firing = true;
        summary =
            codes "Queue \""
            ++ s.queue_name
            ++ codes "\" has "
            ++ decimal (waiting_of s)
            ++ codes " jobs waiting with zero completions in the last "
            ++ shown r.window_minutes
            ++ codes "m";
      }
      | none ↦ record {
        firing = false;
        summary = codes "Queue \"" ++ shown_text r.queue_name ++ codes "\" is draining normally";
      }
    ]

abbrev pub has_no_worker : List StoredEvent → StoredEvent → Bool
has_no_worker events s = elim s.worker_count [ none ↦ false | some n ↦ n == 0 ]

unfoldable pub compute_worker_loss_status : AlertRule → ℕ → Db → Status
unfolding first_hit
compute_worker_loss_status r start db =
    elim (first_hit has_no_worker r start (get_rule_connector_ids r db) db) [
      | some s ↦ record {
        firing = true;
        summary = codes "No active workers detected for queue \"" ++ s.queue_name ++ codes "\"";
      }
      | none ↦ record {
        firing = false;
        summary = codes "Queue \"" ++ shown_text r.queue_name ++ codes "\" has active workers";
      }
    ]

abbrev pub is_new_group : ℕ → ℕ → ErrorGroup → Bool
is_new_group connector_id start g =
    g.connector_id == connector_id && leb start g.last_seen_ts && leb start g.first_seen_ts

unfoldable pub new_group_count : ℕ → List ℕ → Db → ℕ
new_group_count start [] db = 0
new_group_count start (c ∷ connectors) db =
    length (filter (is_new_group c start) db.error_groups) + new_group_count start connectors db

unfoldable pub compute_new_error_group_status : AlertRule → ℕ → Db → Status
unfolding new_group_count
compute_new_error_group_status r start db =
    let count = new_group_count start (get_rule_connector_ids r db) db in
    record {
      firing = ltb 0 count;
      summary =
          decimal count
          ++ codes " new error group"
          ++ (if count == 1 then [] else codes "s")
          ++ codes " in the last "
          ++ shown r.window_minutes
          ++ codes "m";
    }

unfoldable pub compute_rule_status : AlertRule → ℕ → Db → Status
compute_rule_status r start db = elim r.type [
  | failed_threshold ↦ compute_failed_threshold_status r start db
  | stuck_queue ↦ compute_stuck_queue_status r start db
  | worker_loss ↦ compute_worker_loss_status r start db
  | new_error_group ↦ compute_new_error_group_status r start db
]
