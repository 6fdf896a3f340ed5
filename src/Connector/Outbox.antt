-- ===== src/Connector/Outbox.antt =====
-- packages/connector/src/event-outbox.ts: events are buffered, flushed in batches, and kept until
-- the gateway acknowledges their batch. The timer's callback is a call of `flush`. The ids that
-- `randomUUID` returns are the parameter `random_uuid`, the n-th call's at n.
pub mod StreamId
pub mod Pending
pub mod Flush
pub mod Capacity
pub mod Cursor
pub mod History
pub mod Accounts
mod Tests
use superbull.Common.{
  ℕ, zero, suc, ◌+◌, List, [], ◌∷◌, ◌++◌, Option, none, some, Bool, true, false, Text, codes,
  text_eq, strip_prefix, length, take, drop, tail, is_empty, lookup, insert, delete, ltb, leb, not,
  ◌&&◌, ◌||◌, if◌then◌else◌, min,
}
use mathlib.Core.Option
use superbull.Protocol.{IngestEvent, EventsFrame}
use StreamId.{is_stream_id, is_later}

pub record Options : Type 0 where
  pub batch_size : ℕ
  pub max_batch_size : ℕ
  pub max_buffered_events : ℕ

-- `unacked_batches` and `cursors` are Maps. `minted` counts the calls of `randomUUID`.
pub record Outbox : Type 0 where
  pub buffer : List IngestEvent
  pub unacked_batches : List (Text × List IngestEvent)
  pub cursors : List (Text × Text)
  pub has_transport : Bool
  pub total_dropped : ℕ
  pub minted : ℕ

-- What a call hands to the outside: a frame to the transport, a count to `onDrop`.
pub data Effect : Type 0 where
  send : EventsFrame → Effect
  report_drop : ℕ → Effect

unfoldable pub empty : Outbox
empty = record {
  buffer = [];
  unacked_batches = [];
  cursors = [];
  has_transport = false;
  total_dropped = 0;
  minted = 0;
}

unfoldable pub unacked_count : List (Text × List IngestEvent) → ℕ
unacked_count [] = 0
unacked_count ((_, events) ∷ batches) = length events + unacked_count batches

unfoldable pub total_count : Outbox → ℕ
total_count o = length o.buffer + unacked_count o.unacked_batches

-- The oldest event of the oldest unacknowledged batch, else of the buffer. A batch that this
-- empties is deleted; otherwise its array is shortened in place.
unfoldable pub drop_oldest : Outbox → Outbox
drop_oldest o = elim o.unacked_batches [
  | [] ↦ record o { buffer = tail o.buffer }
  | (batch_id, events) ∷ rest ↦
      if is_empty (tail events)
      then record o { unacked_batches = delete batch_id o.unacked_batches }
      else record o { unacked_batches = (batch_id, tail events) ∷ rest }
]

unfoldable pub send_batch : Outbox → Text → List IngestEvent → List Effect
send_batch o batch_id events =
    if o.has_transport then send (record { batch_id = batch_id; events = events }) ∷ [] else []

-- The body of the loop in `flush`, on a buffer that is not empty.
unfoldable pub flush_chunk : (ℕ → Text) → Options → Outbox → Outbox × List Effect
flush_chunk random_uuid opts o =
    let n = min opts.max_batch_size (length o.buffer) in
    let chunk = take n o.buffer in
    let batch_id = random_uuid o.minted in
    let o' : Outbox = record o {
      buffer = drop n o.buffer;
      unacked_batches = insert batch_id chunk o.unacked_batches;
      minted = o.minted + 1;
    } in
    (o', send_batch o' batch_id chunk)

-- The loop of `flush`, on fuel; `none` means that the fuel ran out.
unfoldable pub flush_loop : (ℕ → Text) → Options → ℕ → Outbox → Option (Outbox × List Effect)
unfolding flush_chunk
flush_loop random_uuid opts zero o = none
flush_loop random_uuid opts (suc fuel) o =
    let (o', sent) = flush_chunk random_uuid opts o in
    let rest = flush_loop random_uuid opts fuel o' in
    if is_empty o.buffer then some (o, []) else Option.map (λ r. (r.0, sent ++ r.1)) rest

-- One round for each buffered event, and one to see the buffer empty.
unfoldable pub flush : (ℕ → Text) → Options → Outbox → Option (Outbox × List Effect)
unfolding flush_loop
flush random_uuid opts o = flush_loop random_uuid opts (suc (length o.buffer)) o

-- The first half of `enqueue`: the event goes in, and at capacity the oldest goes out.
unfoldable pub admit : Options → IngestEvent → Outbox → Outbox × List Effect
unfolding total_count drop_oldest
admit opts event o =
    let o' : Outbox = record o { buffer = o.buffer ++ event ∷ [] } in
    let kept : Outbox = drop_oldest o' in
    if ltb opts.max_buffered_events (total_count o')
    then (
      record kept { total_dropped = o.total_dropped + 1 },
      report_drop (o.total_dropped + 1) ∷ [],
    )
    else (o', [])

unfoldable pub enqueue : (ℕ → Text) → Options → IngestEvent → Outbox → Option (Outbox × List Effect)
unfolding admit flush
enqueue random_uuid opts event o =
    let (o', reported) = admit opts event o in
    if leb opts.batch_size (length o'.buffer)
    then Option.map (λ r. (r.0, reported ++ r.1)) (flush random_uuid opts o')
    else some (o', reported)

unfoldable pub set_transport : Bool → Outbox → Outbox
set_transport attached o = record o { has_transport = attached }

unfoldable pub resend_batches : Outbox → List (Text × List IngestEvent) → List Effect
unfolding send_batch
resend_batches o [] = []
resend_batches o ((batch_id, events) ∷ batches) =
    send_batch o batch_id events ++ resend_batches o batches

unfoldable pub resend_unacked : Outbox → List Effect
unfolding resend_batches
resend_unacked o = resend_batches o o.unacked_batches

abbrev pub is_terminal : IngestEvent → Bool
is_terminal event =
    text_eq event.type (codes "job.completed") || text_eq event.type (codes "job.failed")

-- The stream id in the uuid of a terminal event, where there is one.
unfoldable pub stream_id? : IngestEvent → Option Text
stream_id? event =
    if is_terminal event
    then elim (strip_prefix (event.queue_name ++ codes ":") event.uuid) [
      | none ↦ none
      | some id ↦ if is_stream_id id then some id else none
    ]
    else none

-- `!current || compareStreamIds(streamId, current) > 0`
unfoldable pub advances : Text → Option Text → Bool
advances id none = true
advances id (some current) = is_empty current || is_later id current

-- `cursors.set(...)`, unless the queue's cursor is already there or further.
unfoldable pub advance_cursor : Text → Text → List (Text × Text) → List (Text × Text)
advance_cursor queue_name id cursors =
    if advances id (lookup queue_name cursors) then insert queue_name id cursors else cursors

unfoldable pub update_cursor : IngestEvent → List (Text × Text) → List (Text × Text)
update_cursor event cursors = elim (stream_id? event) [
  | none ↦ cursors
  | some id ↦ advance_cursor event.queue_name id cursors
]

unfoldable pub update_cursors : List IngestEvent → List (Text × Text) → List (Text × Text)
update_cursors [] cursors = cursors
update_cursors (event ∷ events) cursors = update_cursors events (update_cursor event cursors)

unfoldable pub ack : Text → Outbox → Outbox
ack batch_id o = elim (lookup batch_id o.unacked_batches) [
  | none ↦ o
  | some events ↦ record o {
    unacked_batches = delete batch_id o.unacked_batches;
    cursors = update_cursors events o.cursors;
  }
]

abbrev pub get_cursor : Text → Outbox → Option Text
get_cursor queue_name o = lookup queue_name o.cursors
