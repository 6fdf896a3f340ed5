-- ===== src/Hub/Connectors/Tests.antt =====
-- A connector enrolled, and one deleted.
use superbull.Common.{
  ℕ, ◌≡◌, not, ◌&&◌, ◌==◌, if◌then◌else◌, refl, [], ◌∷◌, Text, Text_discrete, ℕ_discrete, codes,
}
use superbull.Hub.Schema.{Db, Connector}
use superbull.Hub.Access.{
  difference, tokens_match, has_valid_internal_token, require_user_id, require_user,
  require_project_member, require_role,
}
use superbull.Hub.Ingest.{new_row, normalize}
use superbull.Hub.Invites.{all_hex, guard_token_hash}
use superbull.Hub.Connectors.{delete_connector_children, new_connector, create_connector}
use superbull.Hub.Connectors.Cascade.{
  IsLinked, is_there, children, delete_connector_children-IsLinked,
}
use superbull.Hub.Fixtures.{db, agent, failure}

program : Unit {0}
unfolding Text_discrete ℕ_discrete difference tokens_match has_valid_internal_token require_user_id
    require_user require_project_member require_role all_hex guard_token_hash create_connector
program = tt

abbrev same : Text → Text
same text = text

abbrev hash : Text
hash = codes "0123456789abcdef0123456789abcdef0123456789abcdef0123456789abcdef"

abbrev created : Connector
created = new_connector 2 (codes "two") hash 10

abbrev enrolled : Db
enrolled = record db { connectors = agent ∷ created ∷ []; next_id = 11 }

abbrev busy : Db
busy = record enrolled { ingest_events = new_row 90 2 4 (normalize failure) 10 ∷ [] }

busy-IsLinked : IsLinked busy
unfolding new_row
busy-IsLinked = record { events = (refl, tt); groups = tt; annotations = tt; pages = tt }

delete_connector_children-IsLinked_example :
    let db' = delete_connector_children 4 busy in
    IsLinked db'
    × ((other : ℕ)
        → (is_there db' other ≡ (is_there busy other && not (4 == other)))
          × (children other db' ≡ (if 4 == other then ([], [], [], []) else children other busy)))
    × (db'.alert_rules ≡ busy.alert_rules)
delete_connector_children-IsLinked_example = delete_connector_children-IsLinked 4 busy busy-IsLinked
