-- ===== src/Connector/Connect/Steps.antt =====
-- packages/connector/src/connect.ts: any interleaving of what may happen to the connection.
use superbull.Common.{ℕ, List, [], ◌∷◌, Option, none, false}
use superbull.Protocol.Frames.{GatewayFrame, ResponseFrame}
use superbull.Connector.Outbox.{empty}
use superbull.Connector.Connect.{
  ConnectOptions, unborn, Connection, Effect, dial, on_timer, on_open, on_ping, on_watchdog,
  on_message, on_response, on_close, stop,
}

-- `fires` is a timer's callback; `stops` is a call of `stop`.
pub data Happening : Type 0 where
  fires : ℕ → ℕ → Happening
  opens : ℕ → Happening
  pings watches : ℕ → ℕ → Happening
  receives : ℕ → ℕ → Option GatewayFrame → Happening
  responds : ℕ → ResponseFrame → Happening
  closes_down : ℕ → Happening
  stops : Happening

module _ (opts : ConnectOptions) where
  unfoldable pub step : Happening → Connection → Connection × List Effect
  step (fires k now) c = on_timer k now c
  step (opens n) c = on_open opts n c
  step (pings n now) c = (on_ping n now c, [])
  step (watches n now) c = on_watchdog n now c
  step (receives n now frame) c = on_message n now frame c
  step (responds n r) c = on_response n r c
  step (closes_down n) c = on_close n c
  step stops c = stop c

  unfoldable pub run : List Happening → Connection → Connection
  run [] c = c
  run (h ∷ happenings) c = run happenings (step h c).0

abbrev pub fresh : Connection
fresh = record {
  stopped = false;
  attempt = 0;
  active_socket = none;
  reconnect_timer = none;
  timers = [];
  timers_set = 0;
  dialled = 0;
  sockets = λ n. unborn;
  last_ping_at = λ n. 0;
  transport = none;
  outbox = empty;
}

-- `connect` ends with the first `dial`.
abbrev pub connect : ℕ → Connection
connect now = (dial now fresh).0
