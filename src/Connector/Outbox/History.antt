-- ===== src/Connector/Outbox/History.antt =====
-- packages/connector/src/event-outbox.ts: any sequence of calls, with a ledger of what left.
use superbull.Common.{
  ℕ, ◌+◌, ◌≤◌, ◌≡◌, List, [], ◌∷◌, ◌++◌, Option, none, some, Bool, Text, length, count, take, ltb,
  if◌then◌else◌, lookup,
}
use mathlib.Core.Option
use superbull.Protocol.{IngestEvent}
use superbull.Connector.Outbox.{Options, Outbox, flush, enqueue, ack, set_transport}
use superbull.Connector.Outbox.Pending.{pending, IsValid}

pub data Call : Type 0 where
  enqueues : IngestEvent → Call
  flushes : Call
  resends : Call
  acks : Text → Call
  attaches : Bool → Call

-- The outbox after a call.
unfoldable pub step : (ℕ → Text) → Options → Call → Outbox → Option Outbox
step random_uuid opts (enqueues event) o = Option.map (λ r. r.0) (enqueue random_uuid opts event o)
step random_uuid opts flushes o = Option.map (λ r. r.0) (flush random_uuid opts o)
step random_uuid opts resends o = some o
step random_uuid opts (acks batch_id) o = some (ack batch_id o)
step random_uuid opts (attaches attached) o = some (set_transport attached o)

-- What has been acknowledged, and what has been dropped.
pub record Ledger : Type 0 where
  pub acked : List IngestEvent
  pub dropped : List IngestEvent

unfoldable pub note : Options → Call → Outbox → Ledger → Ledger
note opts (enqueues event) o l =
    if ltb opts.max_buffered_events (length (pending o ++ event ∷ []))
    then record l { dropped = l.dropped ++ take 1 (pending o ++ event ∷ []) }
    else l
note opts (acks batch_id) o l = elim (lookup batch_id o.unacked_batches) [
  | none ↦ l
  | some events ↦ record l { acked = l.acked ++ events }
]
note opts _ o l = l

unfoldable pub run : (ℕ → Text) → Options → List Call → Outbox → Ledger → Option (Outbox × Ledger)
run random_uuid opts [] o l = some (o, l)
run random_uuid opts (c ∷ calls) o l = elim (step random_uuid opts c o) [
  | none ↦ none
  | some o' ↦ run random_uuid opts calls o' (note opts c o l)
]

-- The events that calls bring in.
unfoldable pub entered : List Call → List IngestEvent
entered [] = []
entered (enqueues event ∷ calls) = event ∷ entered calls
entered (_ ∷ calls) = entered calls

-- The books balance: each event that came in is undelivered, acknowledged or dropped, as often as
-- it came in (under every test), no more are held than the cap allows, and the drop count is right.
pub record Balanced (random_uuid : ℕ → Text) (opts : Options) (came : List IngestEvent) (o : Outbox)
    (l : Ledger) : Type 0 where
  pub valid : IsValid random_uuid opts o
  pub bounded : length (pending o) ≤ opts.max_buffered_events
  pub balance :
      (p : IngestEvent → Bool)
      → count p came ≡ count p (pending o) + count p l.acked + count p l.dropped
  pub tally : o.total_dropped ≡ length l.dropped
