-- ===== src/Delivery.antt =====
-- The way of an event, from packages/connector/src/event-outbox.ts over the socket's handlers in
-- apps/gateway/src/handle-connector-connection.ts to apps/web/convex/ingest.ts and back: one
-- connector's outbox, the frames and acknowledgements that were ever sent, and the hub's database.
-- What was sent may arrive late, out of order, again and again, or never.
pub mod Kept
pub mod Outgoing
pub mod Stored
pub mod Exact
mod Tests
use superbull.Common.{
  ℕ, zero, suc, ◌+◌, List, [], ◌∷◌, ◌++◌, Option, none, some, Bool, true, false, Text,
}
use superbull.Protocol.{IngestEvent, EventsFrame}
use superbull.Protocol.Frames.{events, GatewayFrame, events_ack}
use superbull.Connector.Outbox.{Options, Outbox, flush, enqueue, resend_unacked, empty}
use superbull.Connector.Outbox
use superbull.Connector.Outbox.History.{
  Call, enqueues, flushes, resends, acks, attaches, Ledger, note,
}
use superbull.Connector.Outbox.History
use superbull.Gateway.{Session, Gateway, Effect, records, sends}
use superbull.Gateway.Connection.{handle_frame, on_recorded}
use superbull.Hub.Schema.{Db}
use superbull.Hub.Base.{ok, fail}
use superbull.Hub.Ingest.{record_batch}

pub record Delivery : Type 0 where
  pub outbox : Outbox
  pub ledger : Ledger
  pub wire : List EventsFrame
  pub acked : List Text
  pub hub : Db

-- What may happen: a call of the outbox; an acknowledgement that arrives; a frame that arrives on any
-- session of the connector, whatever else the gateway does; and a batch that anyone else records.
-- Frames and acknowledgements are named by their places.
pub data Moment : Type 0 where
  adds : IngestEvent → Moment
  flushes_now resends_now : Moment
  attaches_now : Bool → Moment
  acks_arrive : ℕ → Moment
  frame_arrives : ℕ → ℕ → Gateway → ℕ → Session → Moment
  others_record : ℕ → Text → ℕ → List IngestEvent → Moment

abbrev pub start : Db → Delivery
start db = record {
  outbox = empty;
  ledger = record { acked = []; dropped = [] };
  wire = [];
  acked = [];
  hub = db;
}

abbrev pub nth {ℓ} : {A : Type ℓ} → ℕ → List A → Option A
nth i [] = none
nth zero (x ∷ xs) = some x
nth (suc i) (x ∷ xs) = nth i xs

abbrev pub frames_of : List Outbox.Effect → List EventsFrame
frames_of [] = []
frames_of (Outbox.send f ∷ effects) = f ∷ frames_of effects
frames_of (Outbox.report_drop n ∷ effects) = frames_of effects

abbrev pub frames_out : Option (Outbox × List Outbox.Effect) → List EventsFrame
frames_out none = []
frames_out (some r) = frames_of r.1

-- The batches that a frame of the gateway acknowledges.
abbrev pub acks_of : List Effect → List Text
acks_of [] = []
acks_of (sends n (events_ack batch_id) ∷ effects) = batch_id ∷ acks_of effects
acks_of (_ ∷ effects) = acks_of effects

abbrev pub reply : List Effect → Delivery → Delivery
reply effects d = record d { acked = d.acked ++ acks_of effects }

module _ (random_uuid : ℕ → Text) (opts : Options) (configured : Option Text)
    (to_lower : Text → Text) (token : Text) (row_of : Text → ℕ) (connector : Text) where
  -- The frames that a call of the outbox hands to the transport.
  unfoldable pub frames_sent : Call → Outbox → List EventsFrame
  frames_sent (enqueues event) o = frames_out (enqueue random_uuid opts event o)
  frames_sent flushes o = frames_out (flush random_uuid opts o)
  frames_sent resends o = frames_of (resend_unacked o)
  frames_sent (acks batch_id) o = []
  frames_sent (attaches attached) o = []

  unfoldable pub call : Call → Delivery → Option Delivery
  call c d = elim (History.step random_uuid opts c d.outbox) [
    | none ↦ none
    | some o ↦ some (record d {
      outbox = o;
      ledger = note opts c d.outbox d.ledger;
      wire = d.wire ++ frames_sent c d.outbox;
    })
  ]

  -- A batch that the gateway hands to the hub, and what the gateway does once it is answered.
  unfoldable pub carry : ℕ → Gateway → List Effect → Delivery → Delivery
  carry now g (records n batch_id connector_id batch ∷ rest) d =
      carry now g rest
        (elim (record_batch configured to_lower now token (row_of connector_id) batch d.hub) [
          | fail why ↦ reply (on_recorded n batch_id false g).1 d
          | ok s ↦ reply (on_recorded n batch_id true g).1 (record d { hub = s.0 })
        ])
  carry now g (_ ∷ rest) d = carry now g rest d
  carry now g [] d = d

  unfoldable pub receive : ℕ → Gateway → ℕ → Session → EventsFrame → Delivery → Delivery
  receive now g n s f d =
      carry now g (handle_frame n (record s { connector_id = connector }) (some (events f)) g).1 d

  unfoldable pub step : Moment → Delivery → Option Delivery
  step (adds event) d = call (enqueues event) d
  step flushes_now d = call flushes d
  step resends_now d = call resends d
  step (attaches_now attached) d = call (attaches attached) d
  step (acks_arrive i) d = elim (nth i d.acked) [ none ↦ some d | some k ↦ call (acks k) d ]
  step (frame_arrives i now g n s) d = elim (nth i d.wire) [
    | none ↦ some d
    | some f ↦ some (receive now g n s f d)
  ]
  step (others_record now other c batch) d =
      elim (record_batch configured to_lower now other c batch d.hub) [
        | fail why ↦ some d
        | ok s ↦ some (record d { hub = s.0 })
      ]

  unfoldable pub run : List Moment → Delivery → Option Delivery
  run [] d = some d
  run (m ∷ moments) d = elim (step m d) [ none ↦ none | some d' ↦ run moments d' ]

-- The events that the outbox was given.
unfoldable pub given : List Moment → List IngestEvent
given [] = []
given (adds event ∷ moments) = event ∷ given moments
given (_ ∷ moments) = given moments
