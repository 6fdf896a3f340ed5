-- ===== src/Connector/Connect/Tests.antt =====
-- A connection that is lost, and dialled again.
use superbull.Common.{
  ℕ, ◌≡◌, ◌≤◌, ◌*◌, min, refl, List, [], ◌∷◌, none, some, true, codes, ℕ_discrete,
}
use superbull.Protocol.Frames.{hello_ack, hello_error, unauthorized}
use superbull.Connector.Connect.{
  ConnectOptions, Connection, connecting, dials, dial, delay_cap, schedule_reconnect, on_timer,
  on_open, on_ping, on_watchdog, transmit, on_hello_ack, on_hello_error, on_message, on_response,
  on_close, stop,
}
use superbull.Connector.Connect.Steps.{
  Happening, fires, opens, receives, closes_down, stops, step, run, connect,
}
use superbull.Connector.Connect.Alive.{IsAlive, run-connect-IsAlive}
use superbull.Connector.Connect.Redial.{run-redials}
use superbull.Connector.Connect.Backoff.{delay_cap-bounds}

program : Unit {0}
unfolding ℕ_discrete dial delay_cap schedule_reconnect on_timer on_open on_ping on_watchdog transmit
    on_hello_ack on_hello_error on_message on_response on_close stop step run
program = tt

abbrev opts : ConnectOptions
opts = record { token = codes "t"; name = codes "worker"; version = codes "1"; queues = [] }

abbrev loses : List Happening
loses = opens 0 ∷ receives 0 5 (some (hello_ack (codes "a") 15000)) ∷ closes_down 0 ∷ []

abbrev lost : Connection
lost = run opts loses (connect 0)

lost_waits : (lost.attempt ≡ 1) × (lost.timers ≡ 0 ∷ []) × (lost.transport ≡ none)
unfolding ℕ_discrete dial schedule_reconnect on_open on_hello_ack on_message on_close step run
lost_waits = (refl, refl, refl)

abbrev ended : Connection
ended =
    run opts
      (opens 0 ∷ receives 0 5 (some (hello_error unauthorized [])) ∷ closes_down 0 ∷ fires 0 9 ∷ [])
      (connect 0)

ended_stays : (ended.stopped ≡ true) × (ended.timers ≡ []) × (ended.dialled ≡ 1)
unfolding ℕ_discrete dial schedule_reconnect on_timer on_open on_hello_error on_message on_close
    step run
ended_stays = (refl, refl, refl)

run-connect-IsAlive_example : IsAlive (run opts (fires 0 7 ∷ stops ∷ []) (connect 0))
run-connect-IsAlive_example = run-connect-IsAlive opts 0 (fires 0 7 ∷ stops ∷ [])

run-redials_example :
    (k : ℕ) × (lost.timers ≡ k ∷ [])
    × let (c', effects) = on_timer k 9 lost in
      (effects ≡ dials lost.dialled ∷ [])
      × (c'.active_socket ≡ some lost.dialled)
      × (c'.sockets lost.dialled ≡ connecting)
      × (c'.timers ≡ [])
unfolding ℕ_discrete dial schedule_reconnect on_open on_hello_ack on_message on_close step run
run-redials_example = run-redials opts 0 9 loses refl refl

delay_cap-bounds_example :
    (◌≤◌ 1000 (delay_cap 3))
    × (delay_cap 3 ≤ 60000)
    × (delay_cap 3 ≤ delay_cap 4)
    × (delay_cap 4 ≡ min 60000 (2 * delay_cap 3))
    × (delay_cap 9 ≡ 60000)
delay_cap-bounds_example = delay_cap-bounds 3
