-- ===== src/Connector/Outbox/Tests.antt =====
-- Runs of the outbox, and its theorems at concrete calls.
use superbull.Common.{
  ℕ, ◌≡◌, refl, List, [], ◌∷◌, ◌++◌, none, some, true, Text, Text_discrete, codes, strip_prefix,
  lookup, insert, delete, arith, ℕ_discrete,
}
use superbull.Protocol.{IngestEvent}
use superbull.Connector.Outbox.StreamId.{is_stream_id, is_later}
use superbull.Connector.Outbox.{
  Options, Outbox, Effect, report_drop, empty, unacked_count, flush, enqueue, ack, get_cursor,
  set_transport, stream_id?, advances, advance_cursor, update_cursors, update_cursor, send_batch,
}
use superbull.Connector.Outbox.Pending.{IsValid}
use superbull.Connector.Outbox.Flush.{Flushed, flush-Flushed}
use superbull.Connector.Outbox.Capacity.{Enqueued, enqueue-Enqueued}
use superbull.Connector.Outbox.Cursor.{Reaches, ack-monotone}
use superbull.Connector.Outbox.History.{
  Call, enqueues, flushes, acks, attaches, Ledger, Balanced, run, entered,
}
use superbull.Connector.Outbox.Accounts.{run-empty-Balanced}

program : Unit {0}
unfolding Text_discrete ℕ_discrete strip_prefix lookup insert delete is_stream_id is_later empty
    unacked_count flush enqueue ack set_transport stream_id? advances advance_cursor update_cursors
    update_cursor send_batch
program = tt

abbrev event : Text → IngestEvent
event id = record {
  uuid = codes "mail:" ++ id;
  type = codes "job.completed";
  queue_name = codes "mail";
  ts = 5;
  job_name = none;
  job_id = none;
  duration_ms = none;
  wait_ms = none;
  failed_reason = none;
  counts = none;
  worker_count = none;
  oldest_waiting_ms = none;
}

abbrev first : IngestEvent
first = event (codes "10-0")

abbrev second : IngestEvent
second = event (codes "10-1")

abbrev third : IngestEvent
third = event (codes "11-0")

abbrev opts : Options
opts = record { batch_size = 2; max_batch_size = 2; max_buffered_events = 2 }

abbrev uuid_of : ℕ → Text
uuid_of i = i ∷ []

uuid_of-injective : (i j : ℕ) → uuid_of i ≡ uuid_of j → i ≡ j
uuid_of-injective i j e = ground arith

-- Two events on the wire, none buffered.
abbrev full : Outbox
full = record {
  buffer = [];
  unacked_batches = (uuid_of 0, first ∷ second ∷ []) ∷ [];
  cursors = (codes "mail", codes "9-0") ∷ [];
  has_transport = true;
  total_dropped = 0;
  minted = 1;
}

abbrev half_full : Outbox
half_full = record full { buffer = second ∷ []; unacked_batches = [] }

full-IsValid : IsValid uuid_of opts full
unfolding lookup Text_discrete
full-IsValid = record {
  fits = ((omega arith, omega arith), tt);
  fresh = λ i h. ground (arith, uuid_of-injective 0 i);
}

half_full-IsValid : IsValid uuid_of opts half_full
unfolding lookup
half_full-IsValid = record { fits = tt; fresh = λ i h. refl }

-- At the cap the oldest event goes, from the head of the batch that is on the wire.
enqueue_at_cap :
    enqueue uuid_of opts third full
    ≡ some (
      record full {
        buffer = third ∷ [];
        unacked_batches = (uuid_of 0, second ∷ []) ∷ [];
        total_dropped = 1;
      },
      report_drop 1 ∷ [],
    )
unfolding program
enqueue_at_cap = refl

ack_moves_cursor : get_cursor (codes "mail") (ack (uuid_of 0) full) ≡ some (codes "10-1")
unfolding program
ack_moves_cursor = refl

flush-Flushed_example :
    (r : Outbox × List Effect) × (flush uuid_of opts half_full ≡ some r)
    × Flushed uuid_of opts half_full r
flush-Flushed_example =
    flush-Flushed uuid_of opts uuid_of-injective (omega arith) half_full half_full-IsValid

enqueue-Enqueued_example :
    (r : Outbox × List Effect) × (enqueue uuid_of opts third full ≡ some r)
    × Enqueued uuid_of opts third full r.0
enqueue-Enqueued_example =
    enqueue-Enqueued uuid_of opts uuid_of-injective (omega arith) third full full-IsValid

ack-monotone_example : Reaches (codes "mail") (codes "9-0") (ack (uuid_of 0) full).cursors
unfolding program
ack-monotone_example = ack-monotone (uuid_of 0) full (codes "mail") (codes "9-0") refl

abbrev calls : List Call
calls =
    attaches true
    ∷ enqueues first
    ∷ enqueues second
    ∷ enqueues third
    ∷ acks (uuid_of 0)
    ∷ flushes
    ∷ []

run-empty-Balanced_example :
    (r : Outbox × Ledger) × (run uuid_of opts calls empty (record { acked = []; dropped = [] })
      ≡ some r)
    × Balanced uuid_of opts (entered calls) r.0 r.1
run-empty-Balanced_example = run-empty-Balanced uuid_of opts uuid_of-injective (omega arith) calls
