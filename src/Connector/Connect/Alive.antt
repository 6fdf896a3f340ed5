-- ===== src/Connector/Connect/Alive.antt =====
-- packages/connector/src/connect.ts: there is one live socket or one timer.
use superbull.Common.{
  ℕ, ◌-◌, ◌≤◌, ◌≡◌, refl, sym, ap, ◌∙◌, List, [], ◌∷◌, Option, none, some, Bool, true, false, ◌&&◌,
  ltb, ◌==◌, if◌then◌else◌, arith, inl, inr, Bool-cases, Option-cases,
}
use superbull.Protocol.Frames.{
  GatewayFrame, ResponseFrame, hello_ack, hello_error, request, events_ack, ErrorCode,
  connector_ping_timeout_ms, unauthorized, protocol_error, internal_error,
}
use superbull.Connector.Outbox.{set_transport}
use superbull.Connector.Connect.{
  ConnectOptions, ReadyState, unborn, connecting, opened, closing, closed, Connection,
  schedule_reconnect, with_state, pinged, dial, remove, has_timer, on_timer, is_open, is_alive,
  on_open, on_ping, on_watchdog, on_hello_ack, on_hello_error, handle_message, hears, on_message,
  on_response, is_socket, detached, on_close, clear_timer, close_active, stop,
}
use superbull.Connector.Connect.Steps.{
  Happening, fires, opens, pings, watches, receives, responds, closes_down, stops, step, run, fresh,
  connect,
}

-- The active socket, whether all is stopped, the timer that `stop` clears, and the timers that run.
abbrev pub fits : Option ℕ → Bool → Option ℕ → List ℕ → Bool
fits (some n) stopped timer [] = true
fits none true timer [] = true
fits none false (some k) (j ∷ []) = j == k
fits _ _ _ _ = false

-- The live socket is the active one, and it alone may have the outbox's transport. While there is one no
-- timer runs; while there is none, one timer runs, the one that `stop` clears, unless all is stopped.
pub record IsAlive (c : Connection) : Type 0 where
  pub only : (n : ℕ) → is_alive (c.sockets n) ≡ is_socket n c.active_socket
  pub waits : fits c.active_socket c.stopped c.reconnect_timer c.timers ≡ true
  pub transport : (n : ℕ) → c.transport ≡ some n → c.active_socket ≡ some n
  pub unused : (n : ℕ) → c.dialled ≤ n → c.sockets n ≡ unborn

-- A live socket changes and stays alive.
with_state-IsAlive :
    (n : ℕ) (state : ReadyState) (c : Connection)
    → is_alive state ≡ true
    → is_alive (c.sockets n) ≡ true
    → IsAlive c
    → IsAlive (with_state n state c)
with_state-IsAlive n state c alive was i = record {
  only = λ m. ground (arith, i.only m);
  waits = i.waits;
  transport = i.transport;
  unused = λ m h. ground (arith, i.unused m h);
}

dial-IsAlive :
    (now : ℕ) (c : Connection)
    → c.active_socket ≡ none
    → c.stopped ≡ false
    → c.timers ≡ []
    → ((n : ℕ) → is_alive (c.sockets n) ≡ false)
    → ((n : ℕ) → c.dialled ≤ n → c.sockets n ≡ unborn)
    → c.transport ≡ none
    → IsAlive (dial now c).0
unfolding dial
dial-IsAlive now c idle running quiet dead unused detached = record {
  only = λ n. ground (arith, dead n);
  waits = ground arith;
  transport = λ n h. ground arith;
  unused = λ n h. ground (arith, unused n);
}

schedule-IsAlive :
    (c : Connection)
    → c.active_socket ≡ none
    → c.timers ≡ []
    → ((n : ℕ) → is_alive (c.sockets n) ≡ false)
    → ((n : ℕ) → c.dialled ≤ n → c.sockets n ≡ unborn)
    → c.transport ≡ none
    → IsAlive (schedule_reconnect c).0
unfolding schedule_reconnect
schedule-IsAlive c idle quiet dead unused detached = record {
  only = λ n. ground (arith, dead n);
  waits = ground arith;
  transport = λ n h. ground arith;
  unused = λ n h. ground (arith, unused n);
}

transport-idle : (c : Connection) → IsAlive c → c.active_socket ≡ none → c.transport ≡ none
transport-idle c i idle = elim (Option-cases c.transport) [
  | inl none_there ↦ none_there
  | inr (n, there) ↦ absurd (ground (arith, i.transport n there))
]

timer-IsAlive : (k now : ℕ) (c : Connection) → IsAlive c → IsAlive (on_timer k now c).0
unfolding on_timer
timer-IsAlive k now c i = elim (Bool-cases (has_timer k c.timers)) [
  | inr gone ↦ rw (on_timer, gone) i
  | inl set ↦
      rw (on_timer, set)
        (dial-IsAlive now (record c { timers = remove k c.timers }) (ground (arith, i.waits))
          (ground (arith, i.waits)) (ground (arith, i.waits))
          (λ n. ground (arith, i.only n, i.waits)) i.unused
          (transport-idle c i (ground (arith, i.waits))))
]

open-IsAlive :
    (opts : ConnectOptions) (n : ℕ) (c : Connection) → IsAlive c → IsAlive (on_open opts n c).0
unfolding on_open
open-IsAlive opts n c i = go (c.sockets n) refl
  where
    go : (state : ReadyState) → c.sockets n ≡ state → IsAlive (on_open opts n c).0
    go unborn e = rw (on_open, e) i
    go opened e = rw (on_open, e) i
    go closing e = rw (on_open, e) i
    go closed e = rw (on_open, e) i
    go connecting e = rw (on_open, e) (with_state-IsAlive n opened c refl (ground arith) i)

pinged-IsAlive : (n now : ℕ) (c : Connection) → IsAlive c → IsAlive (pinged n now c)
pinged-IsAlive n now c i = record {
  only = i.only;
  waits = i.waits;
  transport = i.transport;
  unused = i.unused;
}

ping-IsAlive : (n now : ℕ) (c : Connection) → IsAlive c → IsAlive (on_ping n now c)
unfolding on_ping
ping-IsAlive n now c i = elim (Bool-cases (is_open (c.sockets n))) [
  | inl here ↦ rw (on_ping, here) (pinged-IsAlive n now c i)
  | inr gone ↦ rw (on_ping, gone) i
]

watchdog-IsAlive : (n now : ℕ) (c : Connection) → IsAlive c → IsAlive (on_watchdog n now c).0
unfolding on_watchdog
watchdog-IsAlive n now c i =
    elim (Bool-cases
      (is_alive (c.sockets n) && ltb connector_ping_timeout_ms (now - c.last_ping_at n))) [
        | inl late ↦ rw (on_watchdog, late) (with_state-IsAlive n closing c refl (ground arith) i)
        | inr fine ↦ rw (on_watchdog, fine) i
      ]

ack-IsAlive :
    (n now : ℕ) (c : Connection)
    → is_alive (c.sockets n) ≡ true
    → IsAlive c
    → IsAlive (on_hello_ack n now c).0
unfolding on_hello_ack
ack-IsAlive n now c alive i = record {
  only = i.only;
  waits = i.waits;
  transport = λ m h. ground (arith, i.only n);
  unused = i.unused;
}

-- An end for good: with a live socket no timer runs.
stopped-IsAlive :
    (n : ℕ) (c : Connection)
    → is_alive (c.sockets n) ≡ true
    → IsAlive c
    → IsAlive (record c { stopped = true })
stopped-IsAlive n c alive i = record {
  only = i.only;
  waits = ground (arith, i.only n, i.waits);
  transport = i.transport;
  unused = i.unused;
}

error-IsAlive :
    (n : ℕ) (code : ErrorCode) (c : Connection)
    → is_alive (c.sockets n) ≡ true
    → IsAlive c
    → IsAlive (on_hello_error n code c).0
unfolding on_hello_error
error-IsAlive n unauthorized c alive i =
    with_state-IsAlive n closing (record c { stopped = true }) refl alive
      (stopped-IsAlive n c alive i)
error-IsAlive n protocol_error c alive i = with_state-IsAlive n closing c refl alive i
error-IsAlive n internal_error c alive i = with_state-IsAlive n closing c refl alive i

handle-IsAlive :
    (n now : ℕ) (frame : Option GatewayFrame) (c : Connection)
    → is_alive (c.sockets n) ≡ true
    → IsAlive c
    → IsAlive (handle_message n now frame c).0
handle-IsAlive n now none c alive i = i
handle-IsAlive n now (some (hello_ack id interval)) c alive i = ack-IsAlive n now c alive i
handle-IsAlive n now (some (hello_error code message)) c alive i = error-IsAlive n code c alive i
handle-IsAlive n now (some (request r)) c alive i = i
handle-IsAlive n now (some (events_ack batch_id)) c alive i = record {
  only = i.only;
  waits = i.waits;
  transport = i.transport;
  unused = i.unused;
}

message-IsAlive :
    (n now : ℕ) (frame : Option GatewayFrame) (c : Connection)
    → IsAlive c
    → IsAlive (on_message n now frame c).0
unfolding on_message
message-IsAlive n now frame c i = elim (Bool-cases (hears (c.sockets n))) [
  | inl here ↦ rw (on_message, here) (handle-IsAlive n now frame c (heard (c.sockets n) here) i)
  | inr gone ↦ rw (on_message, gone) i
]
  where
    heard : (state : ReadyState) → hears state ≡ true → is_alive state ≡ true
    heard unborn h = absurd (ground arith)
    heard connecting h = refl
    heard opened h = refl
    heard closing h = refl
    heard closed h = absurd (ground arith)

response-IsAlive :
    (n : ℕ) (r : ResponseFrame) (c : Connection) → IsAlive c → IsAlive (on_response n r c).0
unfolding on_response
response-IsAlive n r c i = elim (Bool-cases (is_open (c.sockets n))) [
  | inl here ↦ rw (on_response, here) i
  | inr gone ↦ rw (on_response, gone) i
]

-- The active socket has closed.
gone-IsAlive :
    (stopped : Bool) (c : Connection)
    → c.stopped ≡ stopped
    → c.active_socket ≡ none
    → c.timers ≡ []
    → ((n : ℕ) → is_alive (c.sockets n) ≡ false)
    → ((n : ℕ) → c.dialled ≤ n → c.sockets n ≡ unborn)
    → c.transport ≡ none
    → IsAlive (if stopped then (c, []) else schedule_reconnect c).0
gone-IsAlive false c e idle quiet dead unused detached =
    schedule-IsAlive c idle quiet dead unused detached
gone-IsAlive true c e idle quiet dead unused detached = record {
  only = λ n. ground (arith, dead n);
  waits = ground arith;
  transport = λ n h. ground arith;
  unused = unused;
}

close-IsAlive : (n : ℕ) (c : Connection) → IsAlive c → IsAlive (on_close n c).0
unfolding on_close
close-IsAlive n c i = elim (Bool-cases (is_alive (c.sockets n))) [
  | inr gone ↦ rw (on_close, gone) i
  | inl here ↦
      let idle : (detached n c).active_socket ≡ none = ground (arith, i.only n) in
      let dead : (m : ℕ) → is_alive ((detached n c).sockets m) ≡ false =
        λ m. ground (arith, i.only n, i.only m) in
      let unused : (m : ℕ) → c.dialled ≤ m → (detached n c).sockets m ≡ unborn =
        λ m h. ground (arith, i.unused m) in
      let quiet : c.timers ≡ [] = ground (arith, i.only n, i.waits) in
      rw (on_close, here) (gone-IsAlive c.stopped (detached n c) refl idle quiet dead unused refl)
]

fits-remove :
    (active : Option ℕ) (stopped : Bool) (k : ℕ) (timers : List ℕ)
    → fits active stopped (some k) timers ≡ true
    → fits active true (some k) (remove k timers) ≡ true
fits-remove (some n) stopped k [] h = refl
fits-remove (some n) stopped k (x ∷ xs) h = absurd (ground arith)
fits-remove none true k [] h = refl
fits-remove none true k (x ∷ xs) h = absurd (ground arith)
fits-remove none false k [] h = absurd (ground arith)
fits-remove none false k (x ∷ []) h = ground arith
fits-remove none false k (x ∷ y ∷ xs) h = absurd (ground arith)

-- `stop` with no live socket leaves no timer.
clear-IsAlive :
    (c : Connection)
    → IsAlive c
    → IsAlive (
        clear_timer c.reconnect_timer
          (record c { stopped = true; transport = none; outbox = set_transport false c.outbox }))
clear-IsAlive c i = go c.active_socket c.reconnect_timer refl refl
  where
    go :
        (active timer : Option ℕ)
        → c.active_socket ≡ active
        → c.reconnect_timer ≡ timer
        → IsAlive (
            clear_timer timer (record c {
              stopped = true;
              transport = none;
              outbox = set_transport false c.outbox;
            }))
    go active none e e' = record {
      only = i.only;
      waits = ground (arith, i.waits);
      transport = λ n h. absurd (ground arith);
      unused = i.unused;
    }
    go active (some k) e e' = record {
      only = i.only;
      waits =
          ap (λ t. fits c.active_socket true t (remove k c.timers)) e'
          ∙ fits-remove c.active_socket c.stopped k c.timers
              (ap (λ t. fits c.active_socket c.stopped t c.timers) (sym e') ∙ i.waits);
      transport = λ n h. absurd (ground arith);
      unused = i.unused;
    }

clear_timer-active_socket :
    (timer : Option ℕ) (c : Connection) → (clear_timer timer c).active_socket ≡ c.active_socket
clear_timer-active_socket none c = refl
clear_timer-active_socket (some k) c = refl

close_active-IsAlive :
    (active : Option ℕ) (c : Connection)
    → c.active_socket ≡ active
    → IsAlive c
    → IsAlive (close_active active c).0
close_active-IsAlive none c e i = i
close_active-IsAlive (some n) c e i =
    with_state-IsAlive n closing c refl (ground (arith, i.only n)) i

stop-IsAlive : (c : Connection) → IsAlive c → IsAlive (stop c).0
unfolding stop
stop-IsAlive c i =
    close_active-IsAlive c.active_socket _ (clear_timer-active_socket c.reconnect_timer _)
      (clear-IsAlive c i)

module _ (opts : ConnectOptions) where
  step-IsAlive : (h : Happening) (c : Connection) → IsAlive c → IsAlive (step opts h c).0
  unfolding step
  step-IsAlive (fires k now) c i = timer-IsAlive k now c i
  step-IsAlive (opens n) c i = open-IsAlive opts n c i
  step-IsAlive (pings n now) c i = ping-IsAlive n now c i
  step-IsAlive (watches n now) c i = watchdog-IsAlive n now c i
  step-IsAlive (receives n now frame) c i = message-IsAlive n now frame c i
  step-IsAlive (responds n r) c i = response-IsAlive n r c i
  step-IsAlive (closes_down n) c i = close-IsAlive n c i
  step-IsAlive stops c i = stop-IsAlive c i

  run-IsAlive :
      (happenings : List Happening) (c : Connection) → IsAlive c → IsAlive (run opts happenings c)
  unfolding run
  run-IsAlive [] c i = i
  run-IsAlive (h ∷ happenings) c i = run-IsAlive happenings (step opts h c).0 (step-IsAlive h c i)

connect-IsAlive : (now : ℕ) → IsAlive (connect now)
connect-IsAlive now = dial-IsAlive now fresh refl refl refl (λ n. refl) (λ n h. refl) refl

-- After any interleaving of timers, frames, pings, closes and calls of `stop`: one socket at most is alive,
-- the active one, and only it may be written to by the outbox; while it is alive no reconnection is
-- scheduled; and without it exactly one is, under the handle that `stop` clears, unless the connector
-- was stopped or is unauthorized.
pub run-connect-IsAlive :
    (opts : ConnectOptions) (now : ℕ) (happenings : List Happening)
    → IsAlive (run opts happenings (connect now))
run-connect-IsAlive opts now happenings =
    run-IsAlive opts happenings (connect now) (connect-IsAlive now)
