-- ===== src/Gateway/Answers.antt =====
-- apps/gateway: what each handler does to the calls that wait.
use superbull.Common.{
  ℕ, ◌+◌, ◌≡◌, refl, ap, List, [], ◌∷◌, Option, none, some, Bool, true, false, not, Text, ltb, ◌==◌,
  if◌then◌else◌, filter, count, count-append, find, map, arith, inl, inr, Bool-cases, Option-cases,
}
use superbull.Protocol.Frames.{HelloFrame, ConnectorFrame, RpcRequest, hello, response, events}
use superbull.Gateway.{
  Session, Phase, unused, waiting, done, looking_up, attached, closed, Gateway, Pending, Effect,
  answers, Answer, of_session, is_rpc, remove_first, settle, reject_answers, disconnected,
  delete_if_current, is_current, reject_all_pending_rpc, marks_disconnected,
}
use superbull.Gateway.Connection.{
  Lookup, failed, unknown, found, handle_connector_connection, on_hello_timeout, handle_hello,
  register, resume_hello, on_lookup, handle_frame, on_recorded, on_message, on_pong, on_heartbeat,
  end_session, on_close, mark_closed,
}
use superbull.Gateway.Api.{open_session, handle_rpc}

abbrev pub waits : ℕ → Pending → Bool
waits k p = p.call == k

abbrev pub is_answer : ℕ → Effect → Bool
is_answer k e = elim e [ answers call a ↦ call == k | _ ↦ false ]

-- How often a call stands for being answered: it waits, or it is answered among these.
abbrev pub stands : ℕ → Gateway → List Effect → ℕ
stands k g effects = count (waits k) g.pending + count (is_answer k) effects

abbrev pub once : ℕ → ℕ → ℕ
once k calls = if ltb k calls then 1 else 0

-- A step answers or keeps what waited, and what is called for the first time.
abbrev pub Settles : Gateway → Gateway × List Effect → Type 0
Settles g r =
    (k : ℕ) → stands k r.0 r.1 + once k g.calls ≡ count (waits k) g.pending + once k r.0.calls

remove_first-count :
    (k n : ℕ) (id : Text) (pending : List Pending) (p : Pending)
    → find (is_rpc n id) pending ≡ some p
    → count (waits k) (remove_first (is_rpc n id) pending) + (if p.call == k then 1 else 0)
      ≡ count (waits k) pending
remove_first-count k n id [] p h = absurd (ground arith)
remove_first-count k n id (x ∷ pending) p h = elim (Bool-cases (is_rpc n id x)) [
  | inl hit ↦ let same : x ≡ p = ground arith in rw hit (rw same (ground arith))
  | inr miss ↦ rw miss (ground (arith, remove_first-count k n id pending p (rw miss at h)))
]

pub settle-Settles : (n : ℕ) (id : Text) (a : Answer) (g : Gateway) → Settles g (settle n id a g)
unfolding settle
settle-Settles n id a g k = elim (Option-cases (find (is_rpc n id) g.pending)) [
  | inl nothing ↦ rw (settle, nothing) (omega arith)
  | inr (p, hit) ↦ rw (settle, hit) (ground (arith, remove_first-count k n id g.pending p hit))
]

reject-count :
    (k n : ℕ) (pending : List Pending)
    → count (waits k) (filter (λ p. not (of_session n p)) pending)
        + count
            (is_answer k)
            (map (λ p. answers p.call disconnected) (filter (of_session n) pending))
      ≡ count (waits k) pending
reject-count k n [] = refl
reject-count k n (p ∷ pending) = ground (arith, reject-count k n pending)

-- A step that has to do with no call.
pub record Quiet (g : Gateway) (r : Gateway × List Effect) : Type 0 where
  pub pending : r.0.pending ≡ g.pending
  pub calls : r.0.calls ≡ g.calls
  pub silent : (k : ℕ) → count (is_answer k) r.1 ≡ 0

pub Quiet-Settles : (g : Gateway) (r : Gateway × List Effect) → Quiet g r → Settles g r
Quiet-Settles g r q k =
    omega (arith, q.silent k, ap (count (waits k)) q.pending, ap (once k) q.calls)

pub connects-Quiet : (n : ℕ) (g : Gateway) → Quiet g (handle_connector_connection n g, [])
unfolding handle_connector_connection
connects-Quiet n g = record { pending = ground arith; calls = ground arith; silent = λ k. refl }

pub hello_timeout-Quiet : (n : ℕ) (g : Gateway) → Quiet g (on_hello_timeout n g)
unfolding on_hello_timeout
hello_timeout-Quiet n g = record {
  pending = ground arith;
  calls = ground arith;
  silent = λ k. ground arith;
}

handle_hello-Quiet :
    (sha256 : Text → Text) (n : ℕ) (frame : Option ConnectorFrame) (g : Gateway)
    → Quiet g (handle_hello sha256 n frame g)
unfolding handle_hello
handle_hello-Quiet sha256 n none g = record { pending = refl; calls = refl; silent = λ k. refl }
handle_hello-Quiet sha256 n (some (hello f)) g = record {
  pending = refl;
  calls = refl;
  silent = λ k. refl;
}
handle_hello-Quiet sha256 n (some (response f)) g = record {
  pending = refl;
  calls = refl;
  silent = λ k. refl;
}
handle_hello-Quiet sha256 n (some (events f)) g = record {
  pending = refl;
  calls = refl;
  silent = λ k. refl;
}

register-Quiet :
    (heartbeat n : ℕ) (f : HelloFrame) (c p : Text) (now : ℕ) (g : Gateway)
    → Quiet g (register heartbeat n f c p now g)
unfolding register
register-Quiet heartbeat n f c p now g = record {
  pending = ground arith;
  calls = ground arith;
  silent = λ k. ground arith;
}

lookup-Quiet :
    (heartbeat n : ℕ) (f : HelloFrame) (l : Lookup) (now : ℕ) (g : Gateway)
    → Quiet g (resume_hello heartbeat n f l now g)
unfolding resume_hello
lookup-Quiet heartbeat n f failed now g = record {
  pending = refl;
  calls = refl;
  silent = λ k. refl;
}
lookup-Quiet heartbeat n f unknown now g = record {
  pending = refl;
  calls = refl;
  silent = λ k. refl;
}
lookup-Quiet heartbeat n f (found c p) now g = register-Quiet heartbeat n f c p now g

pub recorded-Quiet :
    (n : ℕ) (b : Text) (saved : Bool) (g : Gateway) → Quiet g (on_recorded n b saved g)
unfolding on_recorded
recorded-Quiet n b true g = record { pending = refl; calls = refl; silent = λ k. refl }
recorded-Quiet n b false g = record { pending = refl; calls = refl; silent = λ k. refl }

pub pong-Quiet : (n now : ℕ) (g : Gateway) → Quiet g (on_pong n now g, [])
unfolding on_pong
pong-Quiet n now g = record { pending = ground arith; calls = ground arith; silent = λ k. refl }

pub heartbeat-Quiet : (heartbeat n now : ℕ) (g : Gateway) → Quiet g (on_heartbeat heartbeat n now g)
unfolding on_heartbeat
heartbeat-Quiet heartbeat n now g = record {
  pending = ground arith;
  calls = ground arith;
  silent = λ k. ground arith;
}

handle_frame-Settles :
    (n : ℕ) (s : Session) (frame : Option ConnectorFrame) (g : Gateway)
    → Settles g (handle_frame n s frame g)
unfolding handle_frame
handle_frame-Settles n s none g k = omega arith
handle_frame-Settles n s (some (hello f)) g k = omega arith
handle_frame-Settles n s (some (response r)) g k = settle-Settles n r.id _ g k
handle_frame-Settles n s (some (events e)) g k = omega arith

delete_if_current_lem :
    (c : Text) (n : ℕ) (g : Gateway)
    → ((delete_if_current c n g).pending ≡ g.pending) × ((delete_if_current c n g).calls ≡ g.calls)
delete_if_current_lem c n g = elim (Bool-cases (is_current c n g)) [
  | inl current ↦ rw current (refl, refl)
  | inr other ↦ rw other (refl, refl)
]

abbrev goodbye : Bool → Text → List Effect
goodbye current c = if current then marks_disconnected c ∷ [] else []

goodbye-silent : (k : ℕ) (current : Bool) (c : Text) → count (is_answer k) (goodbye current c) ≡ 0
goodbye-silent k true c = refl
goodbye-silent k false c = refl

end_session-Settles : (n : ℕ) (s : Session) (g : Gateway) → Settles g (end_session n s g)
unfolding end_session
end_session-Settles n s g k =
    let (pending, calls) = delete_if_current_lem s.connector_id n (reject_all_pending_rpc n g) in
    let current = is_current s.connector_id n g in
    omega (
      arith,
      reject-count k n g.pending,
      count-append (is_answer k) (reject_answers n g) (goodbye current s.connector_id),
      goodbye-silent k current s.connector_id,
      ap (count (waits k)) pending,
      ap (once k) calls,
    )

pub handle_rpc-Settles :
    (random_uuid : ℕ → Text) (r : RpcRequest) (g : Gateway) → Settles g (handle_rpc random_uuid r g)
unfolding handle_rpc
handle_rpc-Settles random_uuid r g k = elim (Option-cases (open_session r.connector_id g)) [
  | inl nobody ↦ rw (handle_rpc, nobody) (ground arith)
  | inr (n, here) ↦
      let p : Pending = record { socket = n; id = random_uuid g.calls; call = g.calls } in
      rw (handle_rpc, here) (ground (arith, count-append (waits k) g.pending (p ∷ [])))
]

pub message-Settles :
    (sha256 : Text → Text) (n : ℕ) (frame : Option ConnectorFrame) (g : Gateway)
    → Settles g (on_message sha256 n frame g)
unfolding on_message
message-Settles sha256 n frame g = go (g.sockets n).phase refl
  where
    go : (phase : Phase) → (g.sockets n).phase ≡ phase → Settles g (on_message sha256 n frame g)
    go unused e k = rw (on_message, e) (omega arith)
    go done e k = rw (on_message, e) (omega arith)
    go (looking_up f) e k = rw (on_message, e) (omega arith)
    go (closed s) e k = rw (on_message, e) (omega arith)
    go waiting e k = rw (on_message, e) (Quiet-Settles g _ (handle_hello-Quiet sha256 n frame g) k)
    go (attached s) e k = rw (on_message, e) (handle_frame-Settles n s frame g k)

pub looked_up-Settles :
    (heartbeat n : ℕ) (l : Lookup) (now : ℕ) (g : Gateway)
    → Settles g (on_lookup heartbeat n l now g)
unfolding on_lookup
looked_up-Settles heartbeat n l now g = go (g.sockets n).phase refl
  where
    go : (phase : Phase) → (g.sockets n).phase ≡ phase → Settles g (on_lookup heartbeat n l now g)
    go unused e k = rw (on_lookup, e) (omega arith)
    go done e k = rw (on_lookup, e) (omega arith)
    go waiting e k = rw (on_lookup, e) (omega arith)
    go (closed s) e k = rw (on_lookup, e) (omega arith)
    go (attached s) e k = rw (on_lookup, e) (omega arith)
    go (looking_up f) e k =
        rw (on_lookup, e) (Quiet-Settles g _ (lookup-Quiet heartbeat n f l now g) k)

pub close-Settles : (n : ℕ) (g : Gateway) → Settles g (on_close n g)
unfolding on_close
close-Settles n g k = elim (Bool-cases (g.sockets n).has_closed) [
  | inl again ↦ rw (on_close, again) (omega arith)
  | inr first ↦ go (g.sockets n).phase refl first
]
  where
    go :
        (phase : Phase)
        → (g.sockets n).phase ≡ phase
        → (g.sockets n).has_closed ≡ false
        → stands k (on_close n g).0 (on_close n g).1 + once k g.calls
          ≡ count (waits k) g.pending + once k (on_close n g).0.calls
    go unused e first = rw (on_close, first, e) (omega arith)
    go done e first = rw (on_close, first, e) (omega arith)
    go waiting e first = rw (on_close, first, e) (omega arith)
    go (closed s) e first = rw (on_close, first, e) (omega arith)
    go (looking_up f) e first = rw (on_close, first, e) (omega arith)
    go (attached s) e first = rw (on_close, first, e) (end_session-Settles n s (mark_closed n g) k)
