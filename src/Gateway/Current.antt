-- ===== src/Gateway/Current.antt =====
-- apps/gateway: what each handler does to the sessions and the registry.
use superbull.Common.{
  ℕ, ◌≡◌, refl, List, Option, none, some, Bool, true, false, not, ◌||◌, Text, ◌==◌, lookup,
  lookup-insert, lookup-delete_ne, arith, inl, inr, Bool-cases, Option-cases, find,
}
use superbull.Protocol.Frames.{HelloFrame, ConnectorFrame, hello, response, events, RpcRequest}
use superbull.Gateway.{
  Session, Phase, unused, waiting, done, looking_up, attached, closed, Socket, Gateway, with_socket,
  settle, Answer, is_rpc,
}
use superbull.Gateway.Connection.{
  Lookup, failed, unknown, found, handle_connector_connection, on_hello_timeout, handle_hello,
  register, resume_hello, on_lookup, handle_frame, on_recorded, on_message, on_pong, on_heartbeat,
  end_session, mark_closed, on_close,
}
use superbull.Gateway.Api.{open_session, handle_rpc}

-- An open session is the one that the registry has for its connector.
abbrev pub holds : List (Text × ℕ) → ℕ → Socket → Bool
holds registry n socket = elim socket.phase [
  | attached s ↦
      not socket.is_open
      || (elim (lookup s.connector_id registry) [ none ↦ false | some m ↦ m == n ])
  | _ ↦ true
]

abbrev pub IsCurrent : Gateway → Type 0
IsCurrent g = (n : ℕ) → holds g.registry n (g.sockets n) ≡ true

-- A change of one socket that the registry agrees with.
with_socket-IsCurrent :
    (n : ℕ) (socket : Socket) (g : Gateway)
    → holds g.registry n socket ≡ true
    → IsCurrent g
    → IsCurrent (with_socket n socket g)
with_socket-IsCurrent n socket g h c m = ground (arith, h, c m)

shut-holds :
    (registry : List (Text × ℕ)) (n : ℕ) (socket : Socket)
    → holds registry n (record socket { is_open = false }) ≡ true
shut-holds registry n socket = ground arith

pub connects-IsCurrent :
    (n : ℕ) (g : Gateway) → IsCurrent g → IsCurrent (handle_connector_connection n g)
unfolding handle_connector_connection
connects-IsCurrent n g c m = ground (arith, c m)

pub hello_timeout-IsCurrent :
    (n : ℕ) (g : Gateway) → IsCurrent g → IsCurrent (on_hello_timeout n g).0
unfolding on_hello_timeout
hello_timeout-IsCurrent n g c m = ground (arith, c m)

handle_hello-IsCurrent :
    (sha256 : Text → Text) (n : ℕ) (frame : Option ConnectorFrame) (g : Gateway)
    → IsCurrent g
    → IsCurrent (handle_hello sha256 n frame g).0
unfolding handle_hello
handle_hello-IsCurrent sha256 n none g c m = ground (arith, c m)
handle_hello-IsCurrent sha256 n (some (hello f)) g c m = ground (arith, c m)
handle_hello-IsCurrent sha256 n (some (response f)) g c m = ground (arith, c m)
handle_hello-IsCurrent sha256 n (some (events f)) g c m = ground (arith, c m)

-- The new session is the registered one, and the one before is closed.
register-IsCurrent :
    (heartbeat n : ℕ) (f : HelloFrame) (id p : Text) (now : ℕ) (g : Gateway)
    → IsCurrent g
    → IsCurrent (register heartbeat n f id p now g).0
unfolding register
register-IsCurrent heartbeat n f id p now g c m = elim (Bool-cases (n == m)) [
  | inl mine ↦
      let same : m ≡ n = ground arith in rw same (ground (arith, lookup-insert id id n g.registry))
  | inr other ↦ go (g.sockets m).phase refl other
]
  where
    go :
        (phase : Phase)
        → (g.sockets m).phase ≡ phase
        → (n == m) ≡ false
        → holds
            (register heartbeat n f id p now g).0.registry
            m
            ((register heartbeat n f id p now g).0.sockets m)
          ≡ true
    go unused e other = ground (arith, c m)
    go waiting e other = ground (arith, c m)
    go done e other = ground (arith, c m)
    go (looking_up f') e other = ground (arith, c m)
    go (closed s) e other = ground (arith, c m)
    go (attached s) e other = ground (arith, c m, lookup-insert id s.connector_id n g.registry)

resume-IsCurrent :
    (heartbeat n : ℕ) (f : HelloFrame) (l : Lookup) (now : ℕ) (g : Gateway)
    → IsCurrent g
    → IsCurrent (resume_hello heartbeat n f l now g).0
unfolding resume_hello
resume-IsCurrent heartbeat n f failed now g c m = ground (arith, c m)
resume-IsCurrent heartbeat n f unknown now g c m = ground (arith, c m)
resume-IsCurrent heartbeat n f (found id p) now g c m =
    register-IsCurrent heartbeat n f id p now g c m

pub lookup-IsCurrent :
    (heartbeat n : ℕ) (l : Lookup) (now : ℕ) (g : Gateway)
    → IsCurrent g
    → IsCurrent (on_lookup heartbeat n l now g).0
unfolding on_lookup
lookup-IsCurrent heartbeat n l now g c m = go (g.sockets n).phase refl
  where
    go :
        (phase : Phase)
        → (g.sockets n).phase ≡ phase
        → holds
            (on_lookup heartbeat n l now g).0.registry
            m
            ((on_lookup heartbeat n l now g).0.sockets m)
          ≡ true
    go unused e = rw (on_lookup, e) (c m)
    go waiting e = rw (on_lookup, e) (c m)
    go done e = rw (on_lookup, e) (c m)
    go (closed s) e = rw (on_lookup, e) (c m)
    go (attached s) e = rw (on_lookup, e) (c m)
    go (looking_up f) e = rw (on_lookup, e) (resume-IsCurrent heartbeat n f l now g c m)

pub settle-IsCurrent :
    (n : ℕ) (id : Text) (a : Answer) (g : Gateway) → IsCurrent g → IsCurrent (settle n id a g).0
unfolding settle
settle-IsCurrent n id a g c m = elim (Option-cases (find (is_rpc n id) g.pending)) [
  | inl nothing ↦ rw (settle, nothing) (c m)
  | inr (p, hit) ↦ rw (settle, hit) (c m)
]

frame-IsCurrent :
    (n : ℕ) (s : Session) (frame : Option ConnectorFrame) (g : Gateway)
    → IsCurrent g
    → IsCurrent (handle_frame n s frame g).0
unfolding handle_frame
frame-IsCurrent n s none g c m = c m
frame-IsCurrent n s (some (hello f)) g c m = c m
frame-IsCurrent n s (some (response r)) g c m = settle-IsCurrent n r.id _ g c m
frame-IsCurrent n s (some (events e)) g c m = c m

pub message-IsCurrent :
    (sha256 : Text → Text) (n : ℕ) (frame : Option ConnectorFrame) (g : Gateway)
    → IsCurrent g
    → IsCurrent (on_message sha256 n frame g).0
unfolding on_message
message-IsCurrent sha256 n frame g c m = go (g.sockets n).phase refl
  where
    go :
        (phase : Phase)
        → (g.sockets n).phase ≡ phase
        → holds
            (on_message sha256 n frame g).0.registry
            m
            ((on_message sha256 n frame g).0.sockets m)
          ≡ true
    go unused e = rw (on_message, e) (c m)
    go waiting e = rw (on_message, e) (handle_hello-IsCurrent sha256 n frame g c m)
    go done e = rw (on_message, e) (c m)
    go (closed s) e = rw (on_message, e) (c m)
    go (looking_up f) e = rw (on_message, e) (c m)
    go (attached s) e = rw (on_message, e) (frame-IsCurrent n s frame g c m)

pub recorded-IsCurrent :
    (n : ℕ) (b : Text) (saved : Bool) (g : Gateway)
    → IsCurrent g
    → IsCurrent (on_recorded n b saved g).0
unfolding on_recorded
recorded-IsCurrent n b true g c m = c m
recorded-IsCurrent n b false g c m = c m

pub pong-IsCurrent : (n now : ℕ) (g : Gateway) → IsCurrent g → IsCurrent (on_pong n now g)
unfolding on_pong
pong-IsCurrent n now g c m = ground (arith, c m)

pub heartbeat-IsCurrent :
    (heartbeat n now : ℕ) (g : Gateway) → IsCurrent g → IsCurrent (on_heartbeat heartbeat n now g).0
unfolding on_heartbeat
heartbeat-IsCurrent heartbeat n now g c m = ground (arith, c m)

-- A session that ends takes no other's place in the registry.
end_session-IsCurrent :
    (n : ℕ) (s : Session) (g : Gateway)
    → (g.sockets n).phase ≡ attached s
    → IsCurrent g
    → IsCurrent (end_session n s (mark_closed n g)).0
unfolding end_session
end_session-IsCurrent n s g here c m = elim (Bool-cases (n == m)) [
  | inl mine ↦ ground (arith, here)
  | inr other ↦ go (g.sockets m).phase refl other
]
  where
    go :
        (phase : Phase)
        → (g.sockets m).phase ≡ phase
        → (n == m) ≡ false
        → holds
            (end_session n s (mark_closed n g)).0.registry
            m
            ((end_session n s (mark_closed n g)).0.sockets m)
          ≡ true
    go unused e other = ground (arith, c m)
    go waiting e other = ground (arith, c m)
    go done e other = ground (arith, c m)
    go (looking_up f') e other = ground (arith, c m)
    go (closed t) e other = ground (arith, c m)
    go (attached t) e other =
        ground (arith, c m, lookup-delete_ne t.connector_id s.connector_id g.registry)

pub close-IsCurrent : (n : ℕ) (g : Gateway) → IsCurrent g → IsCurrent (on_close n g).0
unfolding on_close
close-IsCurrent n g c m = elim (Bool-cases (g.sockets n).has_closed) [
  | inl again ↦ rw (on_close, again) (c m)
  | inr first ↦ go (g.sockets n).phase refl first
]
  where
    go :
        (phase : Phase)
        → (g.sockets n).phase ≡ phase
        → (g.sockets n).has_closed ≡ false
        → holds (on_close n g).0.registry m ((on_close n g).0.sockets m) ≡ true
    go unused e first = ground (arith, c m)
    go waiting e first = ground (arith, c m)
    go done e first = ground (arith, c m)
    go (looking_up f) e first = ground (arith, c m)
    go (closed s) e first = ground (arith, c m)
    go (attached s) e first = rw (on_close, first, e) (end_session-IsCurrent n s g e c m)

pub rpc-IsCurrent :
    (random_uuid : ℕ → Text) (r : RpcRequest) (g : Gateway)
    → IsCurrent g
    → IsCurrent (handle_rpc random_uuid r g).0
unfolding handle_rpc
rpc-IsCurrent random_uuid r g c m = elim (Option-cases (open_session r.connector_id g)) [
  | inl nobody ↦ rw (handle_rpc, nobody) (c m)
  | inr (n, here) ↦ rw (handle_rpc, here) (c m)
]
