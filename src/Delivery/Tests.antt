-- ===== src/Delivery/Tests.antt =====
-- A frame that arrives twice, with both its acknowledgements.
use superbull.Common.{
  ℕ, ◌≡◌, List, [], ◌∷◌, some, true, Text, codes, length, filter, count, ◌+◌, All, arith,
}
use superbull.Connector.Outbox.{Options}
use superbull.Connector.Outbox.Pending.{pending}
use superbull.Gateway.{Session}
use superbull.Gateway
use superbull.Hub.Ingest.{has_uuid}
use superbull.Hub.Ingest.Batch.{IsValid}
use superbull.Hub.Fixtures.{db, secret, configured, failure}
use superbull.Delivery.{
  Delivery, Moment, adds, resends_now, attaches_now, acks_arrive, frame_arrives, start, frames_sent,
  call, carry, receive, step, run, given,
}
use superbull.Delivery.Exact.{run-exactly_once}

program : Unit {0}
unfolding frames_sent call carry receive step run given
program = tt

abbrev opts : Options
opts = record { batch_size = 1; max_batch_size = 2; max_buffered_events = 2 }

abbrev uuid_of : ℕ → Text
uuid_of i = i ∷ []

abbrev same : Text → Text
same text = text

abbrev row_of : Text → ℕ
row_of connector = 4

uuid_of-injective : (i j : ℕ) → uuid_of i ≡ uuid_of j → i ≡ j
uuid_of-injective i j e = ground arith

abbrev session : Session
session = record {
  connector_id = codes "a";
  project_id = codes "p";
  name = codes "worker";
  version = codes "1";
  queues = [];
  connected_at = 1;
}

abbrev twice : List Moment
twice =
    attaches_now true
    ∷ adds failure
    ∷ resends_now
    ∷ frame_arrives 0 90 Gateway.empty 0 session
    ∷ frame_arrives 1 95 Gateway.empty 0 session
    ∷ acks_arrive 0
    ∷ acks_arrive 1
    ∷ []

db-IsValid : IsValid db
db-IsValid = record {
  once = λ c u. omega arith;
  groups = record { rising = omega arith; once = λ c f. omega arith };
}

run-exactly_once_example :
    (d : Delivery) × (run uuid_of opts configured same secret row_of (codes "a") twice (start db)
      ≡ some d)
    × (count (λ e. true) (given twice)
        ≡ count (λ e. true) (pending d.outbox)
          + count (λ e. true) d.ledger.acked
          + count (λ e. true) d.ledger.dropped)
    × All (λ event. length (filter (has_uuid 4 event.uuid) d.hub.ingest_events) ≡ 1) d.ledger.acked
run-exactly_once_example =
    run-exactly_once uuid_of opts configured same secret row_of (codes "a") uuid_of-injective
      (omega arith) twice db (λ e. true) db-IsValid
