-- ===== src/Gateway/Steps.antt =====
-- apps/gateway: any interleaving of what may happen to the gateway. Each handler runs to its next
-- `await` before another does.
use superbull.Common.{ℕ, List, [], ◌∷◌, ◌++◌, Option, Bool, Text}
use superbull.Protocol.Frames.{ConnectorFrame, RpcRequest}
use superbull.Gateway.{Gateway, Effect}
use superbull.Gateway.Connection.{
  Lookup, handle_connector_connection, on_hello_timeout, on_message, on_lookup, on_recorded,
  on_pong, on_heartbeat, on_close,
}
use superbull.Gateway.Api.{handle_rpc, on_rpc_timeout, on_send_failed}

pub data Happening : Type 0 where
  connects hello_times_out : ℕ → Happening
  receives : ℕ → Option ConnectorFrame → Happening
  is_looked_up : ℕ → Lookup → ℕ → Happening
  is_recorded : ℕ → Text → Bool → Happening
  pongs beats : ℕ → ℕ → Happening
  socket_closes : ℕ → Happening
  calls_rpc : RpcRequest → Happening
  rpc_times_out send_fails : ℕ → Text → Happening

module _ (random_uuid : ℕ → Text) (sha256 : Text → Text) (heartbeat : ℕ) where
  unfoldable pub step : Happening → Gateway → Gateway × List Effect
  step (connects n) g = (handle_connector_connection n g, [])
  step (hello_times_out n) g = on_hello_timeout n g
  step (receives n frame) g = on_message sha256 n frame g
  step (is_looked_up n l now) g = on_lookup heartbeat n l now g
  step (is_recorded n batch_id recorded) g = on_recorded n batch_id recorded g
  step (pongs n now) g = (on_pong n now g, [])
  step (beats n now) g = on_heartbeat heartbeat n now g
  step (socket_closes n) g = on_close n g
  step (calls_rpc r) g = handle_rpc random_uuid r g
  step (rpc_times_out n id) g = on_rpc_timeout n id g
  step (send_fails n id) g = on_send_failed n id g

  unfoldable pub run : List Happening → Gateway → Gateway × List Effect
  run [] g = (g, [])
  run (h ∷ happenings) g =
      let (g', done) = step h g in let (g'', rest) = run happenings g' in (g'', done ++ rest)
