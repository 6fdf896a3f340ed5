-- ===== src/Gateway.antt =====
-- apps/gateway: what the gateway keeps. A socket is a number; it has at most one session, which its
-- number stands for, so that two sessions are the same object if they are of the same socket. The
-- sessions' `pendingRpc` maps are one list, each entry with its session.
pub mod Connection
pub mod Api
pub mod Steps
pub mod Answers
pub mod Once
pub mod Current
pub mod OneSession
pub mod Entry
mod Tests
use superbull.Common.{
  ℕ, List, [], ◌∷◌, Option, none, some, Bool, true, false, not, ◌&&◌, Text, text_eq, ◌==◌,
  if◌then◌else◌, filter, lookup, insert, delete, ite, ℕ_discrete, map, find,
}
use superbull.Protocol.{IngestEvent}
use superbull.Protocol.Frames.{HelloFrame, GatewayFrame, RpcResponse}

pub record Session : Type 0 where
  pub connector_id : Text
  pub project_id : Text
  pub name : Text
  pub version : Text
  pub queues : List Text
  pub connected_at : ℕ

-- How far the handlers of a socket have come. The handlers of a session are attached once the hub has
-- answered, and `done` is a socket whose first frame got no session.
pub data Phase : Type 0 where
  unused waiting done : Phase
  looking_up : HelloFrame → Phase
  attached : Session → Phase
  closed : Session → Phase

-- `is_open` is `readyState === OPEN`; a socket emits 'close' once.
pub record Socket : Type 0 where
  pub phase : Phase
  pub is_open : Bool
  pub has_closed : Bool
  pub last_pong_at : ℕ

pub record Pending : Type 0 where
  pub socket : ℕ
  pub id : Text
  pub call : ℕ

pub record Gateway : Type 0 where
  pub registry : List (Text × ℕ)
  pub sockets : ℕ → Socket
  pub pending : List Pending
  pub calls : ℕ

-- How a call of the internal API ends.
pub data Answer : Type 0 where
  responded : RpcResponse → Answer
  timed_out disconnected : Answer

pub data Effect : Type 0 where
  sends : ℕ → GatewayFrame → Effect
  closes : ℕ → ℕ → Effect
  terminates pings : ℕ → Effect
  finds_connector : ℕ → Text → Effect
  marks_connected : Text → Text → List Text → Effect
  marks_disconnected : Text → Effect
  records : ℕ → Text → Text → List IngestEvent → Effect
  answers : ℕ → Answer → Effect

abbrev pub empty : Gateway
empty = record {
  registry = [];
  sockets = λ n. record { phase = unused; is_open = false; has_closed = false; last_pong_at = 0 };
  pending = [];
  calls = 0;
}

abbrev pub with_socket : ℕ → Socket → Gateway → Gateway
with_socket n s g = record g { sockets = λ m. ite (ℕ_discrete n m) s (g.sockets m) }

-- `SessionRegistry`.
abbrev pub registered : Text → Gateway → Option ℕ
registered connector_id g = lookup connector_id g.registry

abbrev pub set_session : Text → ℕ → Gateway → Gateway
set_session connector_id n g = record g { registry = insert connector_id n g.registry }

abbrev pub is_current : Text → ℕ → Gateway → Bool
is_current connector_id n g = elim (registered connector_id g) [ none ↦ false | some m ↦ m == n ]

abbrev pub delete_if_current : Text → ℕ → Gateway → Gateway
delete_if_current connector_id n g =
    if is_current connector_id n g
    then record g { registry = delete connector_id g.registry }
    else g

abbrev pub of_session : ℕ → Pending → Bool
of_session n p = p.socket == n

abbrev pub is_rpc : ℕ → Text → Pending → Bool
is_rpc n id p = p.socket == n && text_eq p.id id

-- `rejectAllPendingRpc`, with the answers to the calls that waited.
abbrev pub reject_answers : ℕ → Gateway → List Effect
reject_answers n g = map (λ p. answers p.call disconnected) (filter (of_session n) g.pending)

abbrev pub reject_all_pending_rpc : ℕ → Gateway → Gateway
reject_all_pending_rpc n g = record g { pending = filter (λ p. not (of_session n p)) g.pending }

-- `delete` of a key, which a map has once.
abbrev pub remove_first : (Pending → Bool) → List Pending → List Pending
remove_first p [] = []
remove_first p (x ∷ xs) = if p x then xs else x ∷ remove_first p xs

-- `pendingRpc.get(id)` and, if there is one, `pendingRpc.delete(id)` and the answer.
unfoldable pub settle : ℕ → Text → Answer → Gateway → Gateway × List Effect
settle n id a g = elim (find (is_rpc n id) g.pending) [
  | none ↦ (g, [])
  | some p ↦ (record g { pending = remove_first (is_rpc n id) g.pending }, answers p.call a ∷ [])
]
