-- ===== src/Connector/Connect/Redial.antt =====
-- packages/connector/src/connect.ts: a lost connection is dialled again.
use superbull.Common.{ℕ, ◌≡◌, refl, List, [], ◌∷◌, Option, none, some, true, false, arith}
use superbull.Connector.Connect.{ConnectOptions, connecting, dials, dial, on_timer}
use superbull.Connector.Connect.Steps.{Happening, run, connect}
use superbull.Connector.Connect.Alive.{fits, run-connect-IsAlive}

one_timer :
    (timer : Option ℕ) (timers : List ℕ)
    → fits none false timer timers ≡ true
    → (k : ℕ) × (timer ≡ some k) × (timers ≡ k ∷ [])
one_timer none timers h = absurd (ground arith)
one_timer (some k) [] h = absurd (ground arith)
one_timer (some k) (x ∷ []) h = (k, refl, ground arith)
one_timer (some k) (x ∷ y ∷ xs) h = absurd (ground arith)

-- The connector never gets stuck: at any time, unless it was stopped or is unauthorized, a lost
-- connection leaves one timer running, and when that fires a new socket is dialled, which is then the
-- live one.
pub run-redials :
    (opts : ConnectOptions) (now later : ℕ) (happenings : List Happening)
    → let c = run opts happenings (connect now) in
      c.active_socket ≡ none
      → c.stopped ≡ false
      → (k : ℕ) × (c.timers ≡ k ∷ [])
        × let (c', effects) = on_timer k later c in
          (effects ≡ dials c.dialled ∷ [])
          × (c'.active_socket ≡ some c.dialled)
          × (c'.sockets c.dialled ≡ connecting)
          × (c'.timers ≡ [])
unfolding on_timer dial
run-redials opts now later happenings idle running =
    let c = run opts happenings (connect now) in
    let i = run-connect-IsAlive opts now happenings in
    let (k, e, only) = one_timer c.reconnect_timer c.timers (ground (arith, i.waits)) in
    (k, only, ground (arith, only))
