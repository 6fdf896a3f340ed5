-- ===== src/Protocol/Frames.antt =====
-- packages/protocol/src/index.ts: the other frames, either way, and the gateway's internal HTTP API.
use superbull.Common.{ℕ, List, Option, Bool, Text}
use superbull.Protocol.{EventsFrame}

abbrev pub heartbeat_interval_ms : ℕ
heartbeat_interval_ms = 15000

abbrev pub connector_ping_timeout_ms : ℕ
connector_ping_timeout_ms = 45000

abbrev pub rpc_timeout_ms : ℕ
rpc_timeout_ms = 10000

pub record HelloFrame : Type 0 where
  pub token : Text
  pub name : Text
  pub version : Text
  pub queues : List Text
  pub capabilities : List Text

pub record ResponseFrame : Type 0 where
  pub id : Text
  pub status : ℕ
  pub body : Text
  pub content_type : Option Text

pub data ConnectorFrame : Type 0 where
  hello : HelloFrame → ConnectorFrame
  response : ResponseFrame → ConnectorFrame
  events : EventsFrame → ConnectorFrame

pub data ErrorCode : Type 0 where
  unauthorized protocol_error internal_error : ErrorCode

pub record RequestFrame : Type 0 where
  pub id : Text
  pub method : Text
  pub path : List Text
  pub search : Text
  pub body : Option Text
  pub content_type : Option Text

pub data GatewayFrame : Type 0 where
  hello_ack : Text → ℕ → GatewayFrame
  hello_error : ErrorCode → Text → GatewayFrame
  request : RequestFrame → GatewayFrame
  events_ack : Text → GatewayFrame

pub record RpcRequest : Type 0 where
  pub connector_id : Text
  pub method : Text
  pub path : List Text
  pub search : Text
  pub body : Option Text
  pub content_type : Option Text

pub record RpcResponse : Type 0 where
  pub status : ℕ
  pub body : Text
  pub content_type : Option Text

pub record ConnectorStatus : Type 0 where
  pub connected : Bool
  pub connected_at : Option ℕ
  pub name : Option Text
  pub version : Option Text
  pub queues : List Text
