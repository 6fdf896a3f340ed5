-- ===== src/Hub/StatusPages/Uptime/Counted.antt =====
-- apps/web/convex/statusPages.ts: which events the days of an uptime count.
use superbull.Common.{
  ℕ, zero, suc, ◌+◌, ◌-◌, ◌*◌, ◌/◌, ◌≤◌, ◌<◌, ◌≡◌, refl, ap, ◌∙◌, List, [], ◌∷◌, Bool, ◌&&◌, ◌||◌,
  codes, text_eq, ltb, leb, ◌==◌, if◌then◌else◌, any, count, arith, inl, inr, Bool-cases,
}
use superbull.Common.{Text_discrete}
use superbull.Hub.Schema.{StoredEvent}
use superbull.Hub.StatusPages.{day_ms}
use superbull.Hub.StatusPages.Uptime.{
  day_start, Bucket, empty_buckets, bump, note_event, note_events, sum, rate_or_null,
  bucket_events_by_day,
}

abbrev pub is_completed : StoredEvent → Bool
is_completed e = text_eq e.type (codes "job.completed")

abbrev pub is_failed : StoredEvent → Bool
is_failed e = text_eq e.type (codes "job.failed")

abbrev has_day : List Bucket → ℕ → Bool
has_day buckets ts = any (λ b. b.start == day_start ts) buckets

abbrev one_if : Bool → ℕ
one_if b = if b then 1 else 0

-- From the first day to the end of the last.
abbrev pub in_window : ℕ → ℕ → StoredEvent → Bool
in_window cutoff today e = leb cutoff e.ts && ltb e.ts (today + day_ms)

has_day-empty_buckets :
    (fuel a b t : ℕ)
    → t < a + fuel
    → any (λ (c : Bucket). c.start == b * day_ms) (empty_buckets fuel (a * day_ms) (t * day_ms))
      ≡ (leb a b && leb b t)
unfolding empty_buckets
has_day-empty_buckets zero a b t h = ground arith
has_day-empty_buckets (suc fuel) a b t h = ground (arith, has_day-empty_buckets fuel (a + 1) b t)

bump_lem :
    (e : StoredEvent) (b : Bucket)
    → ((bump e b).start ≡ b.start)
      × ((bump e b).completed ≡ b.completed + one_if (is_completed e))
      × ((bump e b).failed ≡ b.failed + one_if (is_failed e))
unfolding Text_discrete
bump_lem e b = elim (Bool-cases (is_completed e)) [
  | inl done ↦
      let it : e.type ≡ codes "job.completed" = ground arith in
      rw (done, it) (refl, refl, omega arith)
  | inr other ↦ ground (arith, other)
]

note_event_lem :
    (e : StoredEvent) (buckets : List Bucket)
    → (sum (λ b. b.completed) (note_event e buckets)
        ≡ sum (λ b. b.completed) buckets + one_if (has_day buckets e.ts && is_completed e))
      × (sum (λ b. b.failed) (note_event e buckets)
          ≡ sum (λ b. b.failed) buckets + one_if (has_day buckets e.ts && is_failed e))
unfolding note_event
note_event_lem e [] = (omega arith, omega arith)
note_event_lem e (b ∷ buckets) = elim (Bool-cases (b.start == day_start e.ts)) [
  | inl here ↦ rw here (ground (arith, bump_lem e b))
  | inr later ↦ rw later (ground (arith, note_event_lem e buckets))
]

note_event-has_day :
    (e : StoredEvent) (buckets : List Bucket) (ts : ℕ)
    → has_day (note_event e buckets) ts ≡ has_day buckets ts
unfolding note_event
note_event-has_day e [] ts = refl
note_event-has_day e (b ∷ buckets) ts = elim (Bool-cases (b.start == day_start e.ts)) [
  | inl here ↦ rw here (ap (λ s. s == day_start ts || has_day buckets ts) (bump_lem e b).0)
  | inr later ↦ rw later (ap (λ x. b.start == day_start ts || x) (note_event-has_day e buckets ts))
]

note_events_lem :
    (days : ℕ → Bool) (events : List StoredEvent) (buckets : List Bucket)
    → ((ts : ℕ) → has_day buckets ts ≡ days ts)
    → (sum (λ b. b.completed) (note_events events buckets)
        ≡ sum (λ b. b.completed) buckets + count (λ e. days e.ts && is_completed e) events)
      × (sum (λ b. b.failed) (note_events events buckets)
          ≡ sum (λ b. b.failed) buckets + count (λ e. days e.ts && is_failed e) events)
unfolding note_events
note_events_lem days [] buckets same = (omega arith, omega arith)
note_events_lem days (e ∷ events) buckets same =
    let rest =
      note_events_lem days events (note_event e buckets)
        (λ ts. note_event-has_day e buckets ts ∙ same ts) in
    ground (arith, rest.0, rest.1, note_event_lem e buckets, same e.ts)

sum_empty :
    (f : Bucket → ℕ) (zero_at : (ts : ℕ) → f (record { start = ts; completed = 0; failed = 0 }) ≡ 0)
    (fuel ts today : ℕ)
    → sum f (empty_buckets fuel ts today) ≡ 0
unfolding empty_buckets
sum_empty f zero_at zero ts today = refl
sum_empty f zero_at (suc fuel) ts today =
    ground (arith, zero_at ts, sum_empty f zero_at fuel (ts + day_ms) today)

-- The rate of an uptime is that of the events from the start of its first day to the end of its last: each
-- that completed or failed counts once, and no event of another time or type counts; and the buckets'
-- loop has had rounds enough. The days are full ones, and the first is no later than the last.
pub bucket_events_by_day-rate :
    (events : List StoredEvent) (a b : ℕ)
    → a ≤ b
    → (bucket_events_by_day events (a * day_ms) (b * day_ms)).rate
      ≡ rate_or_null
          (count (λ e. in_window (a * day_ms) (b * day_ms) e && is_completed e) events)
          (count (λ e. in_window (a * day_ms) (b * day_ms) e && is_failed e) events)
unfolding bucket_events_by_day
bucket_events_by_day-rate events a b h =
    let fuel = suc (suc ((b * day_ms - a * day_ms) / day_ms)) in
    let days : ℕ → Bool = λ ts. leb (a * day_ms) ts && ltb ts (b * day_ms + day_ms) in
    let buckets = empty_buckets fuel (a * day_ms) (b * day_ms) in
    let (done, failed) =
      note_events_lem days events buckets
        (λ ts. has_day-empty_buckets fuel a (ts / day_ms) b (omega arith) ∙ ground arith) in
    let all_done : sum (λ b. b.completed) (note_events events buckets)
        ≡ count (λ e. days e.ts && is_completed e) events =
      omega
        (arith, done, sum_empty (λ b. b.completed) (λ ts. refl) fuel (a * day_ms) (b * day_ms)) in
    let all_failed : sum (λ b. b.failed) (note_events events buckets)
        ≡ count (λ e. days e.ts && is_failed e) events =
      omega
        (arith, failed, sum_empty (λ b. b.failed) (λ ts. refl) fuel (a * day_ms) (b * day_ms)) in
    ap (λ n. rate_or_null n (sum (λ b. b.failed) (note_events events buckets))) all_done
    ∙ ap (rate_or_null (count (λ e. days e.ts && is_completed e) events)) all_failed
