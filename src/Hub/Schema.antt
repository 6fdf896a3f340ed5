-- ===== src/Hub/Schema.antt =====
-- apps/web/convex/schema.ts: the tables. A document's `id` is minted by the database, as is the
-- time of its creation where a function reads it. An optional field is an `Option`.
use superbull.Common.{ℕ, ℤ, List, Option, Text, Bool, []}

pub data Role : Type 0 where
  owner admin member : Role

pub record User : Type 0 where
  pub id : ℕ
  pub email : Option Text
  pub name : Option Text

pub record Project : Type 0 where
  pub id : ℕ
  pub name : Text
  pub slug : Text
  pub created_at : ℕ

pub record OAuthClient : Type 0 where
  pub id : ℕ
  pub client_id : Text
  pub name : Text
  pub redirect_uris : List Text

pub record AuthCode : Type 0 where
  pub id : ℕ
  pub code_hash : Text
  pub client_id : Text
  pub user_id : ℕ
  pub project_id : ℕ
  pub redirect_uri : Text
  pub code_challenge : Text
  pub scopes : List Text
  pub expires_at : ℕ
  pub used_at : Option ℕ

pub record OAuthToken : Type 0 where
  pub id : ℕ
  pub created : ℕ
  pub access_token_hash : Text
  pub refresh_token_hash : Text
  pub user_id : ℕ
  pub project_id : ℕ
  pub client_id : Text
  pub scopes : List Text
  pub expires_at : ℕ
  pub refresh_expires_at : ℕ
  pub revoked_at : Option ℕ

pub record Member : Type 0 where
  pub id : ℕ
  pub project_id : ℕ
  pub user_id : ℕ
  pub role : Role

pub record Invite : Type 0 where
  pub id : ℕ
  pub project_id : ℕ
  pub email : Text
  pub role : Role
  pub token_hash : Text
  pub invited_by : ℕ
  pub expires_at : ℕ
  pub accepted_at : Option ℕ

pub record Connector : Type 0 where
  pub id : ℕ
  pub project_id : ℕ
  pub name : Text
  pub token_hash : Option Text
  pub version : Option Text
  pub queues : Option (List Text)
  pub last_connected_at : Option ℕ
  pub last_disconnected_at : Option ℕ

pub record StoredEvent : Type 0 where
  pub id : ℕ
  pub created : ℕ
  pub project_id : ℕ
  pub connector_id : ℕ
  pub uuid : Text
  pub type : Text
  pub queue_name : Text
  pub job_name : Option Text
  pub job_id : Option Text
  pub ts : ℕ
  pub duration_ms : Option ℤ
  pub wait_ms : Option ℤ
  pub failed_reason : Option Text
  pub counts : Option (List (Text × ℕ))
  pub worker_count : Option ℕ
  pub oldest_waiting_ms : Option ℕ

pub data GroupState : Type 0 where
  opened resolved ignored : GroupState

pub record ErrorGroup : Type 0 where
  pub id : ℕ
  pub project_id : ℕ
  pub connector_id : ℕ
  pub fingerprint : Text
  pub queue_name : Text
  pub job_name : Option Text
  pub message : Text
  pub state : GroupState
  pub count : ℕ
  pub first_seen_ts : ℕ
  pub last_seen_ts : ℕ
  pub last_job_id : Option Text
  pub is_regression : Bool

pub data RuleType : Type 0 where
  failed_threshold stuck_queue worker_loss new_error_group : RuleType

pub record AlertRule : Type 0 where
  pub id : ℕ
  pub project_id : ℕ
  pub connector_id : Option ℕ
  pub type : RuleType
  pub queue_name : Option Text
  pub threshold : Option ℕ
  pub window_minutes : Option ℕ
  pub email : Text
  pub is_enabled : Bool

pub data FiringState : Type 0 where
  firing resolved : FiringState

pub record AlertState : Type 0 where
  pub id : ℕ
  pub rule_id : ℕ
  pub state : FiringState
  pub last_fired_ts : Option ℕ
  pub last_notified_ts : Option ℕ

pub record ApiKey : Type 0 where
  pub id : ℕ
  pub created : ℕ
  pub user_id : ℕ
  pub name : Text
  pub key_hash : Text
  pub key_prefix : Text
  pub last_used_at : Option ℕ
  pub revoked_at : Option ℕ

pub record Annotation : Type 0 where
  pub id : ℕ
  pub project_id : ℕ
  pub connector_id : ℕ
  pub label : Text
  pub ts : ℕ

pub data CardType : Type 0 where
  throughput latency totals heatmap : CardType

pub data Range : Type 0 where
  day week month : Range

pub record Card : Type 0 where
  pub type : CardType
  pub connector_id : Text
  pub queue_name : Option Text
  pub range : Range

pub record Dashboard : Type 0 where
  pub id : ℕ
  pub project_id : ℕ
  pub name : Text
  pub cards : List Card

pub record StatusPage : Type 0 where
  pub id : ℕ
  pub project_id : ℕ
  pub connector_id : ℕ
  pub slug : Text
  pub is_enabled : Bool
  pub title : Text
  pub logo_storage_id : Option ℕ
  pub queue_names : Option (List Text)

-- The tables, each in the order of insertion, and the next id to mint.
pub record Db : Type 0 where
  pub users : List User
  pub projects : List Project
  pub oauth_clients : List OAuthClient
  pub auth_codes : List AuthCode
  pub oauth_tokens : List OAuthToken
  pub members : List Member
  pub invites : List Invite
  pub connectors : List Connector
  pub ingest_events : List StoredEvent
  pub error_groups : List ErrorGroup
  pub alert_rules : List AlertRule
  pub alert_states : List AlertState
  pub api_keys : List ApiKey
  pub annotations : List Annotation
  pub dashboards : List Dashboard
  pub status_pages : List StatusPage
  pub next_id : ℕ

abbrev pub empty_db : Db
empty_db = record {
  users = [];
  projects = [];
  oauth_clients = [];
  auth_codes = [];
  oauth_tokens = [];
  members = [];
  invites = [];
  connectors = [];
  ingest_events = [];
  error_groups = [];
  alert_rules = [];
  alert_states = [];
  api_keys = [];
  annotations = [];
  dashboards = [];
  status_pages = [];
  next_id = 1;
}
