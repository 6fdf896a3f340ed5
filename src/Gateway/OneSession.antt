-- ===== src/Gateway/OneSession.antt =====
-- apps/gateway: any interleaving leaves a connector one open session at most.
use superbull.Common.{
  ℕ, ◌≡◌, refl, List, [], ◌∷◌, none, some, true, false, Text, ◌==◌, lookup-insert, arith,
}
use superbull.Protocol.Frames.{HelloFrame}
use superbull.Gateway.{Session, looking_up, attached, Gateway, empty, registered}
use superbull.Gateway.Connection.{found, register, resume_hello, on_lookup, on_close}
use superbull.Gateway.Api.{open_session}
use superbull.Gateway.Steps.{
  Happening, connects, hello_times_out, receives, is_looked_up, is_recorded, pongs, beats,
  socket_closes, calls_rpc, rpc_times_out, send_fails, step, run,
}
use superbull.Gateway.Current.{
  IsCurrent, connects-IsCurrent, hello_timeout-IsCurrent, lookup-IsCurrent, settle-IsCurrent,
  message-IsCurrent, recorded-IsCurrent, pong-IsCurrent, heartbeat-IsCurrent, close-IsCurrent,
  rpc-IsCurrent,
}

module _ (random_uuid : ℕ → Text) (sha256 : Text → Text) (heartbeat : ℕ) where
  step-IsCurrent :
      (h : Happening) (g : Gateway)
      → IsCurrent g
      → IsCurrent (step random_uuid sha256 heartbeat h g).0
  unfolding step
  step-IsCurrent (connects n) g c = connects-IsCurrent n g c
  step-IsCurrent (hello_times_out n) g c = hello_timeout-IsCurrent n g c
  step-IsCurrent (receives n frame) g c = message-IsCurrent sha256 n frame g c
  step-IsCurrent (is_looked_up n l now) g c = lookup-IsCurrent heartbeat n l now g c
  step-IsCurrent (is_recorded n b saved) g c = recorded-IsCurrent n b saved g c
  step-IsCurrent (pongs n now) g c = pong-IsCurrent n now g c
  step-IsCurrent (beats n now) g c = heartbeat-IsCurrent heartbeat n now g c
  step-IsCurrent (socket_closes n) g c = close-IsCurrent n g c
  step-IsCurrent (calls_rpc r) g c = rpc-IsCurrent random_uuid r g c
  step-IsCurrent (rpc_times_out n id) g c = settle-IsCurrent n id _ g c
  step-IsCurrent (send_fails n id) g c = settle-IsCurrent n id _ g c

  run-IsCurrent :
      (happenings : List Happening) (g : Gateway)
      → IsCurrent g
      → IsCurrent (run random_uuid sha256 heartbeat happenings g).0
  unfolding run
  run-IsCurrent [] g c = c
  run-IsCurrent (h ∷ happenings) g c =
      run-IsCurrent happenings (step random_uuid sha256 heartbeat h g).0 (step-IsCurrent h g c)

  -- After any interleaving, two open sessions of one connector are one session; it is the one that the
  -- registry has, so a call for the connector goes to it.
  pub run-one_session :
      (happenings : List Happening) (n m : ℕ) (s t : Session)
      → let g = (run random_uuid sha256 heartbeat happenings empty).0 in
        (g.sockets n).phase ≡ attached s
        → (g.sockets m).phase ≡ attached t
        → (g.sockets n).is_open ≡ true
        → (g.sockets m).is_open ≡ true
        → s.connector_id ≡ t.connector_id
        → (n ≡ m) × (open_session s.connector_id g ≡ some n)
  run-one_session happenings n m s t at_n at_m open_n open_m same =
      let c = run-IsCurrent happenings empty (λ k. refl) in ground (arith, c n, c m)

-- If a socket closes while the hub is asked about its hello, and the answer is then that the token is
-- known, the closed socket becomes the connector's registered session, and the open session that the
-- connector had is closed in its favour.
pub dead_session_registered :
    (heartbeat n m : ℕ) (f : HelloFrame) (id p : Text) (now : ℕ) (g : Gateway)
    → (g.sockets n).phase ≡ looking_up f
    → (g.sockets n).has_closed ≡ false
    → registered id g ≡ some m
    → (n == m) ≡ false
    → let (g', effects) = on_lookup heartbeat n (found id p) now (on_close n g).0 in
      (registered id g' ≡ some n)
      × ((g'.sockets n).is_open ≡ false)
      × ((g'.sockets n).has_closed ≡ true)
      × ((g'.sockets m).is_open ≡ false)
      × (open_session id g' ≡ none)
unfolding on_lookup on_close resume_hello register
dead_session_registered heartbeat n m f id p now g looking first before other =
    ground (arith, lookup-insert id id n g.registry)
