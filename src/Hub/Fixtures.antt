-- ===== src/Hub/Fixtures.antt =====
-- A small database for the tests of the hub: one project with one member, one connector, one OAuth
-- client, one open authorization code and one live token.
use superbull.Common.{[], ◌∷◌, Option, none, some, Text, codes}
use superbull.Protocol.{IngestEvent}
use superbull.Hub.Schema.{
  Db, User, Project, Member, Connector, OAuthClient, AuthCode, OAuthToken, owner, empty_db,
}

abbrev pub user : User
user = record { id = 1; email = some (codes "a@b.c"); name = none }

abbrev pub project : Project
project = record { id = 2; name = codes "Acme"; slug = codes "acme"; created_at = 1 }

abbrev pub seat : Member
seat = record { id = 3; project_id = 2; user_id = 1; role = owner }

abbrev pub agent : Connector
agent = record {
  id = 4;
  project_id = 2;
  name = codes "agent";
  token_hash = none;
  version = none;
  queues = none;
  last_connected_at = none;
  last_disconnected_at = none;
}

abbrev pub client : OAuthClient
client = record {
  id = 5;
  client_id = codes "app";
  name = codes "App";
  redirect_uris = codes "app:cb" ∷ [];
}

abbrev pub code : AuthCode
code = record {
  id = 6;
  code_hash = codes "c";
  client_id = codes "app";
  user_id = 1;
  project_id = 2;
  redirect_uri = codes "app:cb";
  code_challenge = codes "x";
  scopes = codes "mcp" ∷ [];
  expires_at = 1000;
  used_at = none;
}

abbrev pub live_token : OAuthToken
live_token = record {
  id = 7;
  created = 100;
  access_token_hash = codes "a";
  refresh_token_hash = codes "r";
  user_id = 1;
  project_id = 2;
  client_id = codes "app";
  scopes = codes "mcp" ∷ [];
  expires_at = 1000;
  refresh_expires_at = 2000;
  revoked_at = none;
}

abbrev pub db : Db
db = record empty_db {
  users = user ∷ [];
  projects = project ∷ [];
  members = seat ∷ [];
  connectors = agent ∷ [];
  oauth_clients = client ∷ [];
  auth_codes = code ∷ [];
  oauth_tokens = live_token ∷ [];
  next_id = 10;
}

-- The internal token, and an environment in which it is configured.
abbrev pub secret : Text
secret = codes "s3"

abbrev pub configured : Option Text
configured = some secret

abbrev pub failure : IngestEvent
failure = record {
  uuid = codes "mail:1-0";
  type = codes "job.failed";
  queue_name = codes "mail";
  ts = 50;
  job_name = none;
  job_id = none;
  duration_ms = none;
  wait_ms = none;
  failed_reason = some (codes "timeout 17");
  counts = none;
  worker_count = none;
  oldest_waiting_ms = none;
}
