-- ===== src/Hub/Access/Tests.antt =====
-- The guards at concrete callers.
use mathlib.Core.List.{Memᴰ}
use superbull.Common.{
  ℕ, ◌⊎◌, Option, none, ◌≡◌, ◌≢◌, ◌↔◌, refl, [], some, true, Text_discrete, codes, ℕ_discrete,
}
use superbull.Hub.Schema.{Db}
use superbull.Hub.Base.{fail, project_not_found, connector_not_found}
use superbull.Hub.Access.{
  Membership, has_valid_internal_token, require_user_id, require_user, require_project_member,
  require_project_member_by_slug, require_connector_member, require_connector_member_for_user,
}
use superbull.Hub.Access.Token.{has_valid_internal_token_iff}
use superbull.Hub.Access.Laws.{
  Authorised, require_project_member-Authorised, require_connector_member_for_user-Authorised,
  require_connector_member_tells,
}
use superbull.Hub.Fixtures.{user, project, seat, agent, db, configured}

program : Unit {0}
unfolding Text_discrete ℕ_discrete require_user_id require_user require_project_member
    require_project_member_by_slug require_connector_member require_connector_member_for_user
program = tt

abbrev mine : Membership
mine = record { user_id = 1; user = user; member = seat; project = project }

abbrev outsiders : Db
outsiders = record db { members = [] }

has_valid_internal_token_iff_example :
    (has_valid_internal_token configured (some (codes "s4")) ≡ true)
    ↔ ((configured ≡ some (codes "s4")) × (codes "s4" ≢ []))
has_valid_internal_token_iff_example = has_valid_internal_token_iff configured (codes "s4")

require_project_member-Authorised_example : Authorised 1 2 db mine
unfolding program
require_project_member-Authorised_example = require_project_member-Authorised 1 2 db mine refl

require_connector_member_for_user-Authorised_example :
    (agent.id ≡ 4)
    × Memᴰ agent db.connectors
    × ((◌≡◌ {A = Option ℕ} (some 2) none) ⊎ (some 2 ≡ some agent.project_id))
    × Authorised 1 2 db mine
unfolding program
require_connector_member_for_user-Authorised_example =
    require_connector_member_for_user-Authorised 1 4 (some 2) db
      (record { membership = mine; connector = agent }) refl

require_connector_member_tells_example :
    (require_connector_member (some 1) 4 outsiders ≡ fail project_not_found)
    × (require_connector_member_for_user 1 4 (some 2) outsiders ≡ fail connector_not_found)
unfolding program
require_connector_member_tells_example =
    require_connector_member_tells 1 4 (some 2) outsiders refl refl
