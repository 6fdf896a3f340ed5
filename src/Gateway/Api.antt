-- ===== src/Gateway/Api.antt =====
-- apps/gateway/src/internal-api.ts: the calls of the web app. `random_uuid n` is the n-th id of
-- `randomUUID`. Of a request the model has what the handler reads; `utf8` is `Buffer.from`, and
-- `decode` is `decodeURIComponent`, `none` when it throws.
use superbull.Common.{
  ℕ, ◌+◌, ◌*◌, List, [], ◌∷◌, ◌++◌, Option, none, some, Bool, true, false, not, ◌&&◌, Text, codes,
  text_eq, strip_prefix, is_empty, ltb, ◌==◌, if◌then◌else◌, length,
}
use superbull.Protocol.Frames.{RequestFrame, request, RpcRequest, ConnectorStatus}
use superbull.Gateway.{
  Phase, attached, Gateway, Effect, sends, answers, timed_out, disconnected, registered, settle,
}

abbrev pub max_body_bytes : ℕ
max_body_bytes = 10 * 1024 * 1024

abbrev pub request_of : RpcRequest → Text → RequestFrame
request_of r id = record {
  id = id;
  method = r.method;
  path = r.path;
  search = r.search;
  body = r.body;
  content_type = r.content_type;
}

-- The socket of the connector's session, if it is open.
abbrev pub open_session : Text → Gateway → Option ℕ
open_session connector_id g = elim (registered connector_id g) [
  | none ↦ none
  | some n ↦ if (g.sockets n).is_open then some n else none
]

-- `handleRpc`, once the body is parsed: the call is answered at once, or waits under a new id. As
-- `randomUUID` gives no id twice, `Map.set` adds an entry.
unfoldable pub handle_rpc : (ℕ → Text) → RpcRequest → Gateway → Gateway × List Effect
handle_rpc random_uuid r g =
    let call = g.calls in
    let id = random_uuid call in
    elim (open_session r.connector_id g) [
      | none ↦ (record g { calls = call + 1 }, answers call disconnected ∷ [])
      | some n ↦ (
        record g {
          pending = g.pending ++ record { socket = n; id = id; call = call } ∷ [];
          calls = call + 1;
        },
        sends n (request (request_of r id)) ∷ [],
      )
    ]

-- The timer of a call, which its answer clears; and the callback of a failed `send`.
abbrev pub on_rpc_timeout : ℕ → Text → Gateway → Gateway × List Effect
on_rpc_timeout n id g = settle n id timed_out g

abbrev pub on_send_failed : ℕ → Text → Gateway → Gateway × List Effect
on_send_failed n id g = settle n id disconnected g

abbrev pub no_status : ConnectorStatus
no_status = record {
  connected = false;
  connected_at = none;
  name = none;
  version = none;
  queues = [];
}

-- A registered socket has a session.
abbrev pub status_of : Phase → ConnectorStatus
status_of (attached s) = record {
  connected = true;
  connected_at = some s.connected_at;
  name = some s.name;
  version = some s.version;
  queues = s.queues;
}
status_of _ = no_status

unfoldable pub handle_status : Text → Gateway → ConnectorStatus
handle_status connector_id g = elim (open_session connector_id g) [
  | none ↦ no_status
  | some n ↦ status_of (g.sockets n).phase
]

-- HTTP.

pub record HttpRequest : Type 0 where
  pub method : Text
  pub pathname : Text
  pub authorization : Option Text
  pub chunks : List (List ℕ)

-- `none` when `timingSafeEqual` throws, as it does on buffers of two lengths.
abbrev pub timing_safe_equal : Text → Text → Option Bool
timing_safe_equal a b = if length a == length b then some (text_eq a b) else none

abbrev pub header_of : Option Text → Text
header_of none = []
header_of (some h) = h

unfoldable pub presented_token : Option Text → Text
presented_token authorization = elim (strip_prefix (codes "Bearer ") (header_of authorization)) [
  | none ↦ []
  | some rest ↦ rest
]

unfoldable pub is_authorized : (Text → List ℕ) → Option Text → Text → Option Bool
is_authorized utf8 authorization token =
    let presented = presented_token authorization in
    if not (length presented == length token)
    then some false
    else timing_safe_equal (utf8 presented) (utf8 token)

-- The loop of `readJsonBody`; `none` is "payload too large".
unfoldable pub read_body : ℕ → List (List ℕ) → Option (List ℕ)
read_body total [] = some []
read_body total (chunk ∷ chunks) =
    let rest = read_body (total + length chunk) chunks in
    if ltb max_body_bytes (total + length chunk)
    then none
    else elim rest [ none ↦ none | some bytes ↦ some (chunk ++ bytes) ]

-- `([^/]+)` and then "/status" to the end.
unfoldable pub id_before_status : Text → Option Text
id_before_status [] = none
id_before_status (c ∷ text) = elim (c == b'/') [
  | true ↦ if text_eq (c ∷ text) (codes "/status") then some [] else none
  | false ↦ elim (id_before_status text) [ none ↦ none | some id ↦ some (c ∷ id) ]
]

unfoldable pub match_status : Text → Option Text
match_status pathname = elim (strip_prefix (codes "/internal/connectors/") pathname) [
  | none ↦ none
  | some rest ↦ elim (id_before_status rest) [
    | none ↦ none
    | some id ↦ if is_empty id then none else some id
  ]
]

-- Where a request is led. `throws` is an error, which the server answers with 500.
pub data Route : Type 0 where
  health unauthorized too_large invalid not_found throws : Route
  rpc : RpcRequest → Route
  status : Text → Route

module _ (utf8 : Text → List ℕ) (decode : Text → Option Text) (parse : List ℕ → Option RpcRequest)
    (token : Text) where
  unfoldable pub route_rpc : List (List ℕ) → Route
  route_rpc chunks = elim (read_body 0 chunks) [
    | none ↦ too_large
    | some bytes ↦ elim (parse bytes) [ none ↦ invalid | some r ↦ rpc r ]
  ]

  unfoldable pub route_status : Text → Route
  route_status id = elim (decode id) [ none ↦ throws | some d ↦ status d ]

  unfoldable pub route_authorized : HttpRequest → Route
  unfolding route_rpc route_status
  route_authorized req =
      if text_eq req.method (codes "POST") && text_eq req.pathname (codes "/internal/rpc")
      then route_rpc req.chunks
      else if not (text_eq req.method (codes "GET"))
      then not_found
      else elim (match_status req.pathname) [ none ↦ not_found | some id ↦ route_status id ]

  unfoldable pub handle_internal_request : HttpRequest → Route
  unfolding route_authorized
  handle_internal_request req =
      if text_eq req.method (codes "GET") && text_eq req.pathname (codes "/healthz")
      then health
      else elim (is_authorized utf8 req.authorization token) [
        | none ↦ throws
        | some false ↦ unauthorized
        | some true ↦ route_authorized req
      ]
