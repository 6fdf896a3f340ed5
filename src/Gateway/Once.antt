-- ===== src/Gateway/Once.antt =====
-- apps/gateway: any interleaving answers every call of the internal API once.
use superbull.Common.{ℕ, ◌≡◌, List, [], ◌∷◌, Text, ltb, if◌then◌else◌, count-append, arith}
use superbull.Gateway.{Gateway, empty}
use superbull.Gateway.Steps.{
  Happening, connects, hello_times_out, receives, is_looked_up, is_recorded, pongs, beats,
  socket_closes, calls_rpc, rpc_times_out, send_fails, step, run,
}
use superbull.Gateway.Answers.{
  is_answer, stands, Settles, settle-Settles, Quiet-Settles, connects-Quiet, hello_timeout-Quiet,
  recorded-Quiet, pong-Quiet, heartbeat-Quiet, handle_rpc-Settles, message-Settles,
  looked_up-Settles, close-Settles,
}

module _ (random_uuid : ℕ → Text) (sha256 : Text → Text) (heartbeat : ℕ) where
  step-Settles : (h : Happening) (g : Gateway) → Settles g (step random_uuid sha256 heartbeat h g)
  unfolding step
  step-Settles (connects n) g = Quiet-Settles g _ (connects-Quiet n g)
  step-Settles (hello_times_out n) g = Quiet-Settles g _ (hello_timeout-Quiet n g)
  step-Settles (receives n frame) g = message-Settles sha256 n frame g
  step-Settles (is_looked_up n l now) g = looked_up-Settles heartbeat n l now g
  step-Settles (is_recorded n b saved) g = Quiet-Settles g _ (recorded-Quiet n b saved g)
  step-Settles (pongs n now) g = Quiet-Settles g _ (pong-Quiet n now g)
  step-Settles (beats n now) g = Quiet-Settles g _ (heartbeat-Quiet heartbeat n now g)
  step-Settles (socket_closes n) g = close-Settles n g
  step-Settles (calls_rpc r) g = handle_rpc-Settles random_uuid r g
  step-Settles (rpc_times_out n id) g = settle-Settles n id _ g
  step-Settles (send_fails n id) g = settle-Settles n id _ g

  run-Settles :
      (happenings : List Happening) (g : Gateway)
      → Settles g (run random_uuid sha256 heartbeat happenings g)
  unfolding run
  run-Settles [] g k = omega arith
  run-Settles (h ∷ happenings) g k =
      let (g', effects) = step random_uuid sha256 heartbeat h g in
      let (g'', rest) = run random_uuid sha256 heartbeat happenings g' in
      omega (
        arith,
        step-Settles h g k,
        run-Settles happenings g' k,
        count-append (is_answer k) effects rest,
      )

  -- In any interleaving of connections, frames, answers of the hub, heartbeats, closes, timeouts and
  -- failed sends, every call of the internal API that was made either waits or has been answered, and
  -- that once: never both, never twice, and no call is answered that was not made.
  pub run-answers_once :
      (happenings : List Happening) (k : ℕ)
      → let (g, effects) = run random_uuid sha256 heartbeat happenings empty in
        stands k g effects ≡ (if ltb k g.calls then 1 else 0)
  run-answers_once happenings k = ground (arith, run-Settles happenings empty k)
