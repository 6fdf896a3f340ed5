-- ===== src/Gateway/Connection.antt =====
-- apps/gateway/src/handle-connector-connection.ts: the handlers of one connector's socket, each from the
-- gateway to the gateway and what it does outside. `sha256` is `sha256Hex`, a frame is what
-- `parseConnectorFrame` returns, and `heartbeat` is `heartbeatIntervalMs`.
use superbull.Common.{
  ℕ, ◌-◌, ◌*◌, List, [], ◌∷◌, ◌++◌, Option, none, some, Bool, true, false, Text, codes, ltb,
  if◌then◌else◌,
}
use superbull.Protocol.Frames.{
  HelloFrame, ConnectorFrame, hello, response, events, ErrorCode, unauthorized, protocol_error,
  internal_error, hello_ack, hello_error, events_ack,
}
use superbull.Gateway.{
  Session, Phase, waiting, looking_up, attached, closed, done, unused, Socket, Gateway, Effect,
  sends, closes, terminates, pings, finds_connector, marks_connected, marks_disconnected, records,
  responded, with_socket, registered, set_session, is_current, delete_if_current, reject_answers,
  reject_all_pending_rpc, settle,
}

-- `ws.close(code)`: the socket is not open from then on.
abbrev pub shut : ℕ → Gateway → Gateway
shut n g = with_socket n (record (g.sockets n) { is_open = false }) g

abbrev pub set_phase : ℕ → Phase → Gateway → Gateway
set_phase n phase g = with_socket n (record (g.sockets n) { phase = phase }) g

abbrev pub fresh_socket : Socket
fresh_socket = record { phase = waiting; is_open = true; has_closed = false; last_pong_at = 0 }

-- A new connection. A number is not used again.
unfoldable pub handle_connector_connection : ℕ → Gateway → Gateway
handle_connector_connection n g = elim (g.sockets n).phase [
  | unused ↦ with_socket n fresh_socket g
  | _ ↦ g
]

-- An error for the connector, and the end of the socket.
abbrev pub refuse : ℕ → ErrorCode → Text → ℕ → Gateway → Gateway × List Effect
refuse n code message close_code g =
    (shut n (set_phase n done g), sends n (hello_error code message) ∷ closes n close_code ∷ [])

-- The timer of the first frame, which is cleared by it and by a close. It leaves the listener of the
-- first frame in place.
unfoldable pub on_hello_timeout : ℕ → Gateway → Gateway × List Effect
on_hello_timeout n g = elim (g.sockets n).phase [
  | waiting ↦ (
    shut n g,
    sends n (hello_error protocol_error (codes "timed out waiting for hello")) ∷ closes n 4002 ∷ [],
  )
  | _ ↦ (g, [])
]

-- `handleHello`, as far as the question to the hub.
unfoldable pub handle_hello :
    (Text → Text) → ℕ → Option ConnectorFrame → Gateway → Gateway × List Effect
handle_hello sha256 n (some (hello f)) g =
    (set_phase n (looking_up f) g, finds_connector n (sha256 f.token) ∷ [])
handle_hello sha256 n _ g = refuse n protocol_error (codes "expected hello frame") 4002 g

-- The hub's answer.
pub data Lookup : Type 0 where
  failed unknown : Lookup
  found : Text → Text → Lookup

abbrev pub session_of : HelloFrame → Text → Text → ℕ → Session
session_of f connector_id project_id now = record {
  connector_id = connector_id;
  project_id = project_id;
  name = f.name;
  version = f.version;
  queues = f.queues;
  connected_at = now;
}

-- The session that was registered before, if any, is closed.
abbrev pub replace : Option ℕ → Gateway → Gateway × List Effect
replace none g = (g, [])
replace (some m) g = (shut m g, closes m 4000 ∷ [])

abbrev pub attach_session_handlers : ℕ → Session → ℕ → Gateway → Gateway
attach_session_handlers n s now g =
    with_socket n (record (g.sockets n) { phase = attached s; last_pong_at = now }) g

unfoldable pub register : ℕ → ℕ → HelloFrame → Text → Text → ℕ → Gateway → Gateway × List Effect
register heartbeat n f connector_id project_id now g =
    let s = session_of f connector_id project_id now in
    let (g', replaced) = replace (registered connector_id g) (set_session connector_id n g) in
    (
      attach_session_handlers n s now g',
      replaced
          ++ sends n (hello_ack connector_id heartbeat)
            ∷ marks_connected connector_id s.version s.queues
            ∷ [],
    )

-- The rest of `handleHello`.
unfoldable pub resume_hello : ℕ → ℕ → HelloFrame → Lookup → ℕ → Gateway → Gateway × List Effect
resume_hello heartbeat n f failed now g = refuse n internal_error (codes "lookup failed") 4002 g
resume_hello heartbeat n f unknown now g =
    refuse n unauthorized (codes "invalid or unknown enrollment token") 4001 g
resume_hello heartbeat n f (found connector_id project_id) now g =
    register heartbeat n f connector_id project_id now g

unfoldable pub on_lookup : ℕ → ℕ → Lookup → ℕ → Gateway → Gateway × List Effect
on_lookup heartbeat n l now g = elim (g.sockets n).phase [
  | looking_up f ↦ resume_hello heartbeat n f l now g
  | _ ↦ (g, [])
]

-- A batch is handed to the hub; the acknowledgement waits for its answer.
unfoldable pub handle_frame : ℕ → Session → Option ConnectorFrame → Gateway → Gateway × List Effect
handle_frame n s none g = (g, [])
handle_frame n s (some (hello f)) g = (g, [])
handle_frame n s (some (response r)) g =
    settle n r.id
      (responded (record { status = r.status; body = r.body; content_type = r.content_type })) g
handle_frame n s (some (events e)) g = (g, records n e.batch_id s.connector_id e.events ∷ [])

unfoldable pub on_recorded : ℕ → Text → Bool → Gateway → Gateway × List Effect
on_recorded n batch_id true g = (g, sends n (events_ack batch_id) ∷ [])
on_recorded n batch_id false g = (g, [])

-- The listeners that are in place depend on the phase; a frame that comes while the hub is asked has
-- none.
unfoldable pub on_message :
    (Text → Text) → ℕ → Option ConnectorFrame → Gateway → Gateway × List Effect
on_message sha256 n frame g = elim (g.sockets n).phase [
  | waiting ↦ handle_hello sha256 n frame g
  | attached s ↦ handle_frame n s frame g
  | _ ↦ (g, [])
]

unfoldable pub on_pong : ℕ → ℕ → Gateway → Gateway
on_pong n now g = elim (g.sockets n).phase [
  | attached s ↦ with_socket n (record (g.sockets n) { last_pong_at = now }) g
  | _ ↦ g
]

unfoldable pub on_heartbeat : ℕ → ℕ → ℕ → Gateway → Gateway × List Effect
on_heartbeat heartbeat n now g = elim (g.sockets n).phase [
  | attached s ↦
      if ltb (heartbeat * 2) (now - (g.sockets n).last_pong_at)
      then (shut n g, terminates n ∷ [])
      else (g, pings n ∷ [])
  | _ ↦ (g, [])
]

-- The handler that a session adds.
unfoldable pub end_session : ℕ → Session → Gateway → Gateway × List Effect
end_session n s g = (
  delete_if_current s.connector_id n (reject_all_pending_rpc n g),
  reject_answers n g
      ++ (if is_current s.connector_id n g then marks_disconnected s.connector_id ∷ [] else []),
)

abbrev pub closed_phase : Phase → Phase
closed_phase waiting = done
closed_phase (attached s) = closed s
closed_phase phase = phase

abbrev pub mark_closed : ℕ → Gateway → Gateway
mark_closed n g =
    with_socket n
      (record (g.sockets n) {
        phase = closed_phase (g.sockets n).phase;
        is_open = false;
        has_closed = true;
      })
      g

-- 'close', for the listeners that are in place.
unfoldable pub on_close : ℕ → Gateway → Gateway × List Effect
on_close n g = elim (g.sockets n).has_closed [
  | true ↦ (g, [])
  | false ↦ elim (g.sockets n).phase [
    | attached s ↦ end_session n s (mark_closed n g)
    | _ ↦ (mark_closed n g, [])
  ]
]
