-- ===== src/Hub/StatusPages/Uptime.antt =====
-- apps/web/convex/statusPages.ts: the uptime of the last ninety days. The first day is taken as none before
-- 1970, and a limit is a whole number.
pub mod Counted
use superbull.Common.{
  ℕ, zero, suc, ◌+◌, ◌-◌, ◌*◌, ◌/◌, List, [], ◌∷◌, ◌++◌, map, Option, none, some, Bool, true, false,
  not, ◌&&◌, ◌||◌, Text, codes, text_eq, ltb, leb, ◌==◌, if◌then◌else◌, filter, take, sort_by,
}
use superbull.Hub.Schema.{Db, StatusPage, StoredEvent}
use superbull.Hub.Base.{Result, ok, fail, ◌>>=◌, unique, invalid_event_limit}
use superbull.Hub.ErrorGroups.Listing.{backwards}
use superbull.Hub.StatusPages.{
  day_ms, default_events_per_query, max_events_per_query, has_slug, or_none,
}

abbrev pub day_start : ℕ → ℕ
day_start ts = ts / day_ms * day_ms

pub record Bucket : Type 0 where
  pub start : ℕ
  pub completed : ℕ
  pub failed : ℕ

-- The loop that makes the buckets, on fuel.
unfoldable pub empty_buckets : ℕ → ℕ → ℕ → List Bucket
empty_buckets zero ts today = []
empty_buckets (suc fuel) ts today =
    let rest = empty_buckets fuel (ts + day_ms) today in
    if leb ts today then record { start = ts; completed = 0; failed = 0 } ∷ rest else []

abbrev pub bump : StoredEvent → Bucket → Bucket
bump e b =
    if text_eq e.type (codes "job.completed")
    then record b { completed = b.completed + 1 }
    else if text_eq e.type (codes "job.failed")
    then record b { failed = b.failed + 1 }
    else b

-- The bucket of the event's day, if there is one.
unfoldable pub note_event : StoredEvent → List Bucket → List Bucket
note_event e [] = []
note_event e (b ∷ buckets) =
    if b.start == day_start e.ts then bump e b ∷ buckets else b ∷ note_event e buckets

unfoldable pub note_events : List StoredEvent → List Bucket → List Bucket
note_events [] buckets = buckets
note_events (e ∷ events) buckets = note_events events (note_event e buckets)

-- `rateOrNull`: the completed ones and the total.
abbrev pub rate_or_null : ℕ → ℕ → Option (ℕ × ℕ)
rate_or_null completed failed =
    if completed + failed == 0 then none else some (completed, completed + failed)

pub record Day : Type 0 where
  pub date : ℕ
  pub rate : Option (ℕ × ℕ)
  pub total : ℕ

abbrev pub day_of : Bucket → Day
day_of b = record {
  date = b.start;
  rate = rate_or_null b.completed b.failed;
  total = b.completed + b.failed;
}

abbrev pub sum : (Bucket → ℕ) → List Bucket → ℕ
sum f [] = 0
sum f (b ∷ buckets) = f b + sum f buckets

pub record Uptime : Type 0 where
  pub days : List Day
  pub rate : Option (ℕ × ℕ)

-- A round of the loop for each day, and one to see the end.
unfoldable pub bucket_events_by_day : List StoredEvent → ℕ → ℕ → Uptime
bucket_events_by_day events cutoff today =
    let buckets =
      note_events events (empty_buckets (suc (suc ((today - cutoff) / day_ms))) cutoff today) in
    record {
      days = map day_of (sort_by (λ (b : Bucket). b.start) buckets);
      rate = rate_or_null (sum (λ b. b.completed) buckets) (sum (λ b. b.failed) buckets);
    }

-- The newest first, and as many as the limit.
abbrev pub newest : ℕ → List StoredEvent → List StoredEvent
newest limit events = take limit (backwards (sort_by (λ (e : StoredEvent). e.ts) events))

abbrev pub since : ℕ → ℕ → StoredEvent → Bool
since connector_id cutoff e = e.connector_id == connector_id && leb cutoff e.ts

unfoldable pub bucket_connector_events : ℕ → ℕ → ℕ → ℕ → Db → Uptime
bucket_connector_events connector_id cutoff today limit db =
    bucket_events_by_day (newest limit (filter (since connector_id cutoff) db.ingest_events)) cutoff
      today

unfoldable pub bucket_queue_events : ℕ → Text → ℕ → ℕ → Db → Text × List StoredEvent
bucket_queue_events connector_id queue_name cutoff limit db = (
  queue_name,
  newest limit (
      filter (λ e. since connector_id cutoff e && text_eq e.queue_name queue_name)
        db.ingest_events),
)

unfoldable pub get_event_limit : Option ℕ → Result ℕ
get_event_limit none = ok default_events_per_query
get_event_limit (some limit) =
    if ltb limit 1 || ltb max_events_per_query limit then fail invalid_event_limit else ok limit

pub record QueueUptime : Type 0 where
  pub name : Text
  pub uptime : Uptime

pub record PublicUptime : Type 0 where
  pub overall : Uptime
  pub queues : List QueueUptime

abbrev pub all_events : List (Text × List StoredEvent) → List StoredEvent
all_events [] = []
all_events ((name, events) ∷ queues) = events ++ all_events queues

-- With no queues named, the connector's events; else those of each, and of all.
unfoldable pub uptime_of : ℕ → ℕ → List Text → ℕ → ℕ → Db → PublicUptime
uptime_of connector_id limit [] cutoff today db = record {
  overall = bucket_connector_events connector_id cutoff today limit db;
  queues = [];
}
uptime_of connector_id limit (name ∷ names) cutoff today db =
    let queues = map (λ n. bucket_queue_events connector_id n cutoff limit db) (name ∷ names) in
    record {
      overall = bucket_events_by_day (all_events queues) cutoff today;
      queues =
          map (λ q. record { name = q.0; uptime = bucket_events_by_day q.1 cutoff today }) queues;
    }

abbrev pub enabled : Option StatusPage → Option StatusPage
enabled none = none
enabled (some p) = if p.is_enabled then some p else none

unfoldable pub get_public_uptime : ℕ → Text → Option ℕ → Db → Result (Option PublicUptime)
get_public_uptime now slug event_limit db = do
  page ← unique (has_slug slug) db.status_pages
  elim (enabled page) [
    | none ↦ ok none
    | some p ↦ do
      limit ← get_event_limit event_limit
      ok (
          some (
            uptime_of p.connector_id limit (or_none p.queue_names) (day_start now - 89 * day_ms)
              (day_start now) db))
  ]
