-- ===== src/Hub/OAuth/Apps.antt =====
-- apps/web/convex/oauthProvider.ts: `listConnectedApps` and `getCurrentUserForAuthorize`. `show_id` is
-- the text of a document's id.
use superbull.Common.{
  ℕ, min, List, [], ◌∷◌, ◌++◌, Option, none, some, Bool, not, ◌&&◌, ◌||◌, Text, codes, ltb, ◌==◌,
  filter, find, lookup, insert, sort_down,
}
use superbull.Hub.Schema.{Db, OAuthToken, OAuthClient, Project}
use superbull.Hub.Base.{Result, ok, ◌>>=◌}
use superbull.Hub.Access.{require_user_id, require_user}
use superbull.Hub.OAuth.{is_revoked, find_client}

unfoldable pub get_current_user_for_authorize : Option ℕ → Db → Result (Option Text)
get_current_user_for_authorize auth db = do (user_id, user) ← require_user auth db; ok user.email

pub record ConnectedGrant : Type 0 where
  pub client_id : Text
  pub project_id : ℕ
  pub connected_at : ℕ
  pub has_active_token : Bool

pub record App : Type 0 where
  pub client_id : Text
  pub client_name : Text
  pub project_id : ℕ
  pub project_name : Text
  pub connected_at : ℕ

abbrev pub is_active : ℕ → OAuthToken → Bool
is_active now t = not (is_revoked t) && ltb now t.refresh_expires_at

-- What a token makes of its grant's entry.
abbrev pub joined : ℕ → OAuthToken → Option ConnectedGrant → ConnectedGrant
joined now t none = record {
  client_id = t.client_id;
  project_id = t.project_id;
  connected_at = t.created;
  has_active_token = is_active now t;
}
joined now t (some g) = record g {
  connected_at = min g.connected_at t.created;
  has_active_token = g.has_active_token || is_active now t;
}

module _ (show_id : ℕ → Text) where
  abbrev pub grant_id : OAuthToken → Text
  grant_id t = t.client_id ++ codes ":" ++ show_id t.project_id

  unfoldable pub collect_grants :
      ℕ → List OAuthToken → List (Text × ConnectedGrant) → List (Text × ConnectedGrant)
  collect_grants now [] grants = grants
  collect_grants now (t ∷ tokens) grants =
      collect_grants now tokens
        (insert (grant_id t) (joined now t (lookup (grant_id t) grants)) grants)

  unfoldable pub get_connected_grants : ℕ → List OAuthToken → List (Text × ConnectedGrant)
  unfolding collect_grants
  get_connected_grants now tokens =
      filter (λ e. e.1.has_active_token) (collect_grants now tokens [])

abbrev pub name_of : Option OAuthClient → Text
name_of none = codes "Unknown app"
name_of (some c) = c.name

abbrev pub project_name_of : Option Project → Text
project_name_of none = codes "Unknown project"
project_name_of (some p) = p.name

unfoldable pub apps_of : List (Text × ConnectedGrant) → Db → Result (List App)
apps_of [] db = ok []
apps_of ((grant_id, g) ∷ grants) db = do
  client ← find_client g.client_id db
  let app : App = record {
    client_id = g.client_id;
    client_name = name_of client;
    project_id = g.project_id;
    project_name = project_name_of (find (λ p. p.id == g.project_id) db.projects);
    connected_at = g.connected_at;
  }
  apps ← apps_of grants db
  ok (app ∷ apps)

unfoldable pub list_connected_apps : (ℕ → Text) → ℕ → Option ℕ → Db → Result (List App)
list_connected_apps show_id now auth db = do
  user_id ← require_user_id auth
  let tokens = filter (λ t. t.user_id == user_id) db.oauth_tokens
  apps ← apps_of (get_connected_grants show_id now tokens) db
  ok (sort_down (λ (a : App). a.connected_at) apps)
