-- ===== src/Hub/Alerts/Digest.antt =====
-- apps/web/convex/alerts.ts: `digestSummary`, the figures of each connector for the daily e-mail.
use superbull.Common.{
  ℕ, List, map, Option, ◌&&◌, Text, codes, leb, ◌==◌, filter, length, take, sort_by, sort_down,
}
use superbull.Hub.Schema.{Db, Connector, ErrorGroup}
use superbull.Hub.Base.{Result, ok, ◌>>◌}
use superbull.Hub.Access.{require_internal_token}
use superbull.Hub.Alerts.Status.{is_type}

pub record TopGroup : Type 0 where
  pub message : Text
  pub queue_name : Text
  pub count : ℕ

pub record Summary : Type 0 where
  pub project_id : ℕ
  pub connector_id : ℕ
  pub connector_name : Text
  pub completed : ℕ
  pub failed : ℕ
  pub top_error_groups : List TopGroup

abbrev pub top_group : ErrorGroup → TopGroup
top_group g = record { message = g.message; queue_name = g.queue_name; count = g.count }

-- The groups come by their last time, and are then sorted by their count.
unfoldable pub summary_of : ℕ → Db → Connector → Summary
summary_of since db c =
    let events = filter (λ e. e.connector_id == c.id && leb since e.ts) db.ingest_events in
    let groups =
      sort_by (λ (g : ErrorGroup). g.last_seen_ts)
        (filter (λ g. g.connector_id == c.id && leb since g.last_seen_ts) db.error_groups) in
    record {
      project_id = c.project_id;
      connector_id = c.id;
      connector_name = c.name;
      completed = length (filter (is_type (codes "job.completed")) events);
      failed = length (filter (is_type (codes "job.failed")) events);
      top_error_groups = map top_group (take 5 (sort_down (λ (g : ErrorGroup). g.count) groups));
    }

unfoldable pub digest_summary : Option Text → Text → ℕ → Db → Result (List Summary)
unfolding summary_of
digest_summary configured token since db = do
  require_internal_token configured token
  ok (map (summary_of since db) db.connectors)
