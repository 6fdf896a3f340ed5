-- ===== src/Connector/Connect.antt =====
-- packages/connector/src/connect.ts: the connection to the gateway, which is dialled again whenever it
-- is lost. A socket is the number of its `dial`. `random_uuid`, the outbox's, is not called here.
pub mod Backoff
pub mod Steps
pub mod Alive
pub mod Redial
mod Tests
use superbull.Common.{
  ℕ, zero, suc, ◌+◌, ◌-◌, ◌*◌, List, [], ◌∷◌, ◌++◌, Option, none, some, Bool, true, false, not,
  ◌&&◌, Text, codes, ltb, ◌==◌, if◌then◌else◌, min, ite, ℕ_discrete, map,
}
use superbull.Protocol.{EventsFrame}
use superbull.Protocol.Frames.{
  HelloFrame, ConnectorFrame, hello, response, events, GatewayFrame, hello_ack, hello_error,
  request, events_ack, ErrorCode, unauthorized, ResponseFrame, RequestFrame,
  connector_ping_timeout_ms,
}
use superbull.Connector.Outbox.{Outbox, set_transport, resend_unacked, ack}
use superbull.Connector.Outbox

abbrev pub backoff_base_ms : ℕ
backoff_base_ms = 1000

abbrev pub backoff_factor : ℕ
backoff_factor = 2

abbrev pub backoff_cap_ms : ℕ
backoff_cap_ms = 60000

pub record ConnectOptions : Type 0 where
  pub token : Text
  pub name : Text
  pub version : Text
  pub queues : List Text

-- `readyState`, where CONNECTING is only told from OPEN by the 'open' event, and `is_dialled` by the
-- socket's creation.
pub data ReadyState : Type 0 where
  unborn connecting opened closing closed : ReadyState

-- The variables of `connect`. A timer is the number of its `setTimeout`, and runs while it is in the
-- list; `transport` is the socket of the function that the outbox was given.
pub record Connection : Type 0 where
  pub stopped : Bool
  pub attempt : ℕ
  pub active_socket : Option ℕ
  pub reconnect_timer : Option ℕ
  pub timers : List ℕ
  pub timers_set : ℕ
  pub dialled : ℕ
  pub sockets : ℕ → ReadyState
  pub last_ping_at : ℕ → ℕ
  pub transport : Option ℕ
  pub outbox : Outbox

-- `waits` is the bound of a delay, which is anywhere below it.
pub data Effect : Type 0 where
  dials : ℕ → Effect
  sends : ℕ → ConnectorFrame → Effect
  terminates closes : ℕ → Effect
  waits : ℕ → Effect
  executes : ℕ → RequestFrame → Effect
  exits : ℕ → Effect

abbrev pub power : ℕ → ℕ → ℕ
power b zero = 1
power b (suc n) = b * power b n

-- The `cap` of `nextDelayMs`.
unfoldable pub delay_cap : ℕ → ℕ
delay_cap attempt = min backoff_cap_ms (backoff_base_ms * power backoff_factor attempt)

unfoldable pub schedule_reconnect : Connection → Connection × List Effect
schedule_reconnect c = if c.stopped then (c, []) else (
  record c {
    attempt = c.attempt + 1;
    reconnect_timer = some c.timers_set;
    timers = c.timers ++ c.timers_set ∷ [];
    timers_set = c.timers_set + 1;
  },
  waits (delay_cap c.attempt) ∷ [],
)

abbrev pub with_state : ℕ → ReadyState → Connection → Connection
with_state n state c = record c { sockets = λ m. ite (ℕ_discrete n m) state (c.sockets m) }

abbrev pub pinged : ℕ → ℕ → Connection → Connection
pinged n now c = record c { last_ping_at = λ m. ite (ℕ_discrete n m) now (c.last_ping_at m) }

unfoldable pub dial : ℕ → Connection → Connection × List Effect
dial now c = if c.stopped then (c, []) else (
  record (pinged c.dialled now (with_state c.dialled connecting c)) {
    active_socket = some c.dialled;
    dialled = c.dialled + 1;
  },
  dials c.dialled ∷ [],
)

abbrev pub remove : ℕ → List ℕ → List ℕ
remove k [] = []
remove k (x ∷ xs) = if x == k then xs else x ∷ remove k xs

abbrev pub has_timer : ℕ → List ℕ → Bool
has_timer k [] = false
has_timer k (x ∷ xs) = if x == k then true else has_timer k xs

-- The callback of `setTimeout`.
unfoldable pub on_timer : ℕ → ℕ → Connection → Connection × List Effect
on_timer k now c =
    if has_timer k c.timers then dial now (record c { timers = remove k c.timers }) else (c, [])

abbrev pub is_open : ReadyState → Bool
is_open opened = true
is_open _ = false

-- A socket that has not emitted 'close'.
abbrev pub is_alive : ReadyState → Bool
is_alive unborn = false
is_alive closed = false
is_alive _ = true

abbrev pub hello_of : ConnectOptions → HelloFrame
hello_of opts = record {
  token = opts.token;
  name = opts.name;
  version = opts.version;
  queues = opts.queues;
  capabilities = [];
}

unfoldable pub on_open : ConnectOptions → ℕ → Connection → Connection × List Effect
on_open opts n c = elim (c.sockets n) [
  | connecting ↦ (with_state n opened c, sends n (hello (hello_of opts)) ∷ [])
  | _ ↦ (c, [])
]

unfoldable pub on_ping : ℕ → ℕ → Connection → Connection
on_ping n now c = if is_open (c.sockets n) then pinged n now c else c

-- The interval of the watchdog, which the close clears.
unfoldable pub on_watchdog : ℕ → ℕ → Connection → Connection × List Effect
on_watchdog n now c =
    if is_alive (c.sockets n) && ltb connector_ping_timeout_ms (now - c.last_ping_at n)
    then (with_state n closing c, terminates n ∷ [])
    else (c, [])

-- What the outbox hands to the transport goes out if the transport's socket is open.
unfoldable pub transmit : Option ℕ → (ℕ → ReadyState) → List Outbox.Effect → List Effect
transmit transport sockets [] = []
transmit transport sockets (Outbox.report_drop n ∷ effects) = transmit transport sockets effects
transmit none sockets (Outbox.send f ∷ effects) = transmit none sockets effects
transmit (some n) sockets (Outbox.send f ∷ effects) =
    let rest = transmit (some n) sockets effects in
    if is_open (sockets n) then sends n (events f) ∷ rest else rest

unfoldable pub on_hello_ack : ℕ → ℕ → Connection → Connection × List Effect
on_hello_ack n now c =
    let c' : Connection = record (pinged n now c) {
      attempt = 0;
      transport = some n;
      outbox = set_transport true c.outbox;
    } in
    (c', transmit (some n) c.sockets (resend_unacked c'.outbox))

abbrev pub shut : ℕ → Connection → Connection
shut n c = with_state n closing c

-- The program leaves, if the gateway does not know the token.
unfoldable pub on_hello_error : ℕ → ErrorCode → Connection → Connection × List Effect
on_hello_error n unauthorized c = (shut n (record c { stopped = true }), closes n ∷ exits 1 ∷ [])
on_hello_error n _ c = (shut n c, closes n ∷ [])

abbrev pub handle_message : ℕ → ℕ → Option GatewayFrame → Connection → Connection × List Effect
handle_message n now none c = (c, [])
handle_message n now (some (hello_ack connector_id interval)) c = on_hello_ack n now c
handle_message n now (some (hello_error code message)) c = on_hello_error n code c
handle_message n now (some (request r)) c = (c, executes n r ∷ [])
handle_message n now (some (events_ack batch_id)) c =
    (record c { outbox = ack batch_id c.outbox }, [])

-- A closing socket may still get what is on its way.
abbrev pub hears : ReadyState → Bool
hears opened = true
hears closing = true
hears _ = false

unfoldable pub on_message : ℕ → ℕ → Option GatewayFrame → Connection → Connection × List Effect
on_message n now frame c = if hears (c.sockets n) then handle_message n now frame c else (c, [])

-- The promise of `executeRequest` is fulfilled.
unfoldable pub on_response : ℕ → ResponseFrame → Connection → Connection × List Effect
on_response n r c = if is_open (c.sockets n) then (c, sends n (response r) ∷ []) else (c, [])

abbrev pub is_socket : ℕ → Option ℕ → Bool
is_socket n none = false
is_socket n (some m) = m == n

abbrev pub detached : ℕ → Connection → Connection
detached n c = record (with_state n closed c) {
  transport = none;
  outbox = set_transport false c.outbox;
  active_socket = if is_socket n c.active_socket then none else c.active_socket;
}

-- 'close', which a socket emits once.
unfoldable pub on_close : ℕ → Connection → Connection × List Effect
on_close n c =
    if is_alive (c.sockets n)
    then (if c.stopped then (detached n c, []) else schedule_reconnect (detached n c))
    else (c, [])

abbrev pub clear_timer : Option ℕ → Connection → Connection
clear_timer none c = c
clear_timer (some k) c = record c { timers = remove k c.timers }

abbrev pub close_active : Option ℕ → Connection → Connection × List Effect
close_active none c = (c, [])
close_active (some n) c = (shut n c, closes n ∷ [])

unfoldable pub stop : Connection → Connection × List Effect
stop c = close_active c.active_socket (
    clear_timer c.reconnect_timer
      (record c { stopped = true; transport = none; outbox = set_transport false c.outbox }))
