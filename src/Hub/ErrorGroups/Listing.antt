-- ===== src/Hub/ErrorGroups/Listing.antt =====
-- apps/web/convex/errors.ts: `listGroups`. An index is read backwards, 200 rows at most.
use superbull.Common.{
  ℕ, List, [], ◌∷◌, ◌++◌, Option, none, some, Bool, true, false, ◌&&◌, ◌==◌, if◌then◌else◌, filter,
  find, take, sort_by,
}
use superbull.Hub.Schema.{Db, ErrorGroup, GroupState, opened, resolved, ignored}
use superbull.Hub.Base.{Result, ok, ◌>>=◌}
use superbull.Hub.Access.{require_project_member}

abbrev pub same_state : GroupState → GroupState → Bool
same_state opened opened = true
same_state resolved resolved = true
same_state ignored ignored = true
same_state _ _ = false

-- `.order('desc')`
abbrev pub backwards {ℓ} : {A : Type ℓ} → List A → List A
backwards [] = []
backwards (x ∷ xs) = backwards xs ++ x ∷ []

unfoldable pub groups_of : ℕ → Option GroupState → Db → List ErrorGroup
groups_of connector_id none db = take 200 (
    backwards (
      sort_by (λ (g : ErrorGroup). g.last_seen_ts)
        (filter (λ g. g.connector_id == connector_id) db.error_groups)))
groups_of connector_id (some state) db = take 200 (
    backwards
      (filter (λ g. g.connector_id == connector_id && same_state g.state state) db.error_groups))

unfoldable pub list_groups : Option ℕ → ℕ → ℕ → Option GroupState → Db → Result (List ErrorGroup)
list_groups auth project_id connector_id state db = do
  m ← require_project_member auth project_id db
  ok (elim (find (λ c. c.id == connector_id) db.connectors) [
    | none ↦ []
    | some c ↦ if c.project_id == project_id then groups_of connector_id state db else []
  ])
