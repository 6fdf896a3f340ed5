-- ===== src/Gateway/Tests.antt =====
-- A connector that connects, is called, and loses its socket.
use superbull.Common.{
  ◌+◌, ◌-◌, ◌*◌, ◌/◌, ◌%◌, ◌<◌, ◌++◌, leb, Bool, ◌&&◌, ◌||◌, All, arith, inl, inr, Bool-cases, ℕ,
  ◌≡◌, refl, List, [], ◌∷◌, none, some, true, false, Text, Text_discrete, ℕ_discrete, codes,
  strip_prefix, lookup, insert, delete, ltb, if◌then◌else◌,
}
use superbull.Protocol.Frames.{HelloFrame, RpcRequest, ResponseFrame, hello, response}
use superbull.Gateway.{Gateway, Session, empty, settle, registered, Effect}
use superbull.Gateway.Connection.{
  found, handle_connector_connection, on_hello_timeout, handle_hello, register, resume_hello,
  on_lookup, handle_frame, on_recorded, on_message, on_pong, on_heartbeat, end_session, on_close,
  session_of,
}
use superbull.Gateway.Api.{
  open_session, handle_rpc, presented_token, is_authorized, HttpRequest, status, throws,
  route_authorized, route_status, match_status, id_before_status, read_body, route_rpc,
  handle_status, handle_internal_request,
}
use superbull.Gateway.Steps.{
  Happening, connects, receives, is_looked_up, socket_closes, calls_rpc, step, run,
}
use superbull.Gateway.Answers.{stands}
use superbull.Gateway.Once.{run-answers_once}
use superbull.Gateway.Entry.{handle_internal_request-guarded}
use superbull.Gateway.OneSession.{run-one_session, dead_session_registered}

program : Unit {0}
unfolding Text_discrete ℕ_discrete settle handle_connector_connection on_hello_timeout handle_hello
    register resume_hello on_lookup handle_frame on_recorded on_message on_pong on_heartbeat
    end_session on_close handle_rpc step run presented_token is_authorized route_authorized
    route_status match_status id_before_status read_body route_rpc handle_status
    handle_internal_request
program = tt

abbrev uuid : ℕ → Text
uuid n = n ∷ []

abbrev plain : Text → Text
plain text = text

abbrev greeting : HelloFrame
greeting = record {
  token = codes "t";
  name = codes "worker";
  version = codes "1";
  queues = [];
  capabilities = [];
}

abbrev agent : Text
agent = codes "a"

abbrev call : RpcRequest
call = record {
  connector_id = agent;
  method = codes "GET";
  path = [];
  search = [];
  body = none;
  content_type = none;
}

abbrev reply : ResponseFrame
reply = record { id = uuid 0; status = 200; body = []; content_type = none }

abbrev joins : ℕ → List Happening
joins n =
    connects n
    ∷ receives n (some (hello greeting))
    ∷ is_looked_up n (found agent (codes "p")) 10
    ∷ []

-- Two calls: one is answered, the other's socket closes.
abbrev served : List Happening
served =
    connects 0
    ∷ receives 0 (some (hello greeting))
    ∷ is_looked_up 0 (found agent (codes "p")) 10
    ∷ calls_rpc call
    ∷ calls_rpc call
    ∷ receives 0 (some (response reply))
    ∷ socket_closes 0
    ∷ []

abbrev end : Gateway × List Effect
end = run uuid plain 15000 served empty

both_answered : (end.0.calls ≡ 2) × (end.0.pending ≡ []) × (registered agent end.0 ≡ none)
unfolding Text_discrete ℕ_discrete settle handle_connector_connection handle_hello register
    resume_hello on_lookup handle_frame on_message end_session on_close handle_rpc step run lookup
    insert delete
both_answered = (refl, refl, refl)

run-answers_once_example :
    stands 1 (run uuid plain 15000 served empty).0 (run uuid plain 15000 served empty).1
    ≡ (if ltb 1 (run uuid plain 15000 served empty).0.calls then 1 else 0)
run-answers_once_example = run-answers_once uuid plain 15000 served 1

abbrev joined : Gateway
joined = (run uuid plain 15000 (joins 0) empty).0

abbrev session : Session
session = session_of greeting agent (codes "p") 10

run-one_session_example : (◌≡◌ {A = ℕ} 0 0) × (open_session agent joined ≡ some 0)
unfolding Text_discrete ℕ_discrete handle_connector_connection handle_hello register resume_hello
    on_lookup on_message step run lookup insert
run-one_session_example =
    run-one_session uuid plain 15000 (joins 0) 0 0 session session refl refl refl refl refl

-- A second socket of the connector says hello and closes before the hub has answered.
abbrev late : List Happening
late =
    connects 0
    ∷ receives 0 (some (hello greeting))
    ∷ is_looked_up 0 (found agent (codes "p")) 10
    ∷ connects 1
    ∷ receives 1 (some (hello greeting))
    ∷ []

abbrev asked : Gateway
asked = (run uuid plain 15000 late empty).0

dead_session_registered_example :
    let g' = (on_lookup 15000 1 (found agent (codes "p")) 20 (on_close 1 asked).0).0 in
    (registered agent g' ≡ some 1)
    × ((g'.sockets 1).is_open ≡ false)
    × ((g'.sockets 1).has_closed ≡ true)
    × ((g'.sockets 0).is_open ≡ false)
    × (open_session agent g' ≡ none)
unfolding Text_discrete ℕ_discrete handle_connector_connection handle_hello register resume_hello
    on_lookup on_message step run lookup insert
dead_session_registered_example =
    dead_session_registered 15000 1 0 greeting agent (codes "p") 20 asked refl refl refl refl

abbrev request : HttpRequest
request = record {
  method = codes "GET";
  pathname = codes "/internal/connectors/a/status";
  authorization = some (codes "Bearer key");
  chunks = [];
}

-- UTF-8 of UTF-16 units. A lone surrogate is written as U+FFFD.
abbrev is_high : ℕ → Bool
is_high c = leb 55296 c && ltb c 56320

abbrev is_low : ℕ → Bool
is_low c = leb 56320 c && ltb c 57344

abbrev code_point : ℕ → ℕ → ℕ
code_point c d = 65536 + (c - 55296) * 1024 + (d - 56320)

abbrev encode_pair : ℕ → List ℕ
encode_pair p =
    (240 + p / 262144) ∷ (128 + (p / 4096) % 64) ∷ (128 + (p / 64) % 64) ∷ (128 + p % 64) ∷ []

abbrev encode_unit : ℕ → List ℕ
encode_unit c =
    if ltb c 128
    then c ∷ []
    else if ltb c 2048
    then (192 + c / 64) ∷ (128 + c % 64) ∷ []
    else if is_high c || is_low c
    then 239 ∷ 191 ∷ 189 ∷ []
    else (224 + c / 4096) ∷ (128 + (c / 64) % 64) ∷ (128 + c % 64) ∷ []

unfoldable utf8 : Text → List ℕ
utf8 [] = []
utf8 (c ∷ []) = encode_unit c
utf8 (c ∷ d ∷ text) = elim (is_high c && is_low d) [
  | true ↦ encode_pair (code_point c d) ++ utf8 text
  | false ↦ encode_unit c ++ utf8 (d ∷ text)
]

-- No other text has the bytes of an ASCII text.
utf8-ascii : (text ascii : Text) → All (λ c. c < 128) ascii → utf8 text ≡ ascii → text ≡ ascii
unfolding utf8
utf8-ascii [] [] small h = refl
utf8-ascii [] (x ∷ ascii) small h = absurd (ground arith)
utf8-ascii (c ∷ []) [] small h = absurd (ground arith)
utf8-ascii (c ∷ []) (x ∷ ascii) small h = ground (arith, small.0)
utf8-ascii (c ∷ d ∷ text) [] small h = absurd (ground arith)
utf8-ascii (c ∷ d ∷ text) (x ∷ ascii) small h = elim (Bool-cases (ltb c 128)) [
  | inl one ↦ ground (arith, one, utf8-ascii (d ∷ text) ascii small.1)
  | inr more ↦ absurd (ground (arith, more, small.0))
]

-- "kéy" has one byte more than units.
wide_token_throws :
    handle_internal_request utf8
      (λ t. some t)
      (λ bytes. none)
      (codes "key")
      (record request { authorization = some (codes "Bearer k" ++ 233 ∷ b'y' ∷ []) })
    ≡ throws
unfolding Text_discrete strip_prefix presented_token is_authorized utf8 handle_internal_request
wide_token_throws = refl

handle_internal_request-guarded_example :
    handle_internal_request utf8 (λ t. some t) (λ bytes. none) (codes "key") request ≡ status agent
unfolding Text_discrete strip_prefix presented_token is_authorized route_authorized route_status
    match_status id_before_status utf8
handle_internal_request-guarded_example =
    handle_internal_request-guarded utf8 (λ t. some t) (λ bytes. none) (codes "key")
      (λ a. utf8-ascii a (codes "key") (omega arith, (omega arith, (omega arith, tt)))) request refl
      refl
