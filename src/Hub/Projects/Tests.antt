-- ===== src/Hub/Projects/Tests.antt =====
-- Slugs, a removed member, and a deleted project.
use superbull.Common.{
  ◌≡◌, ◌≢◌, refl, [], ◌∷◌, none, some, true, Text, Text_discrete, ℕ_discrete, codes, find, filter,
  any, arith,
}
use superbull.Hub.Schema.{Db, Project, Member, owner, member}
use superbull.Hub.Base.{ok}
use superbull.Hub.Access.{
  Membership, require_user_id, require_user, require_project_member, require_role,
}
use superbull.Hub.Connectors.{delete_connector_children}
use superbull.Hub.Projects.{
  dash_runs, strip_head, strip_end, slugify, has_slug, create_project, remove_found, remove_member,
  delete_connectors, delete_rules, delete_rows, delete_project, delete_project_as_owner,
  before_first, after_first, domain_of, project_name_for_profile,
}
use superbull.Hub.Projects.Slugs.{IsUnique, owns, create_project_lem}
use superbull.Hub.Projects.Owners.{is_owner, elsewhere, remove_member_lem}
use superbull.Hub.Projects.Erase.{IsMinted, erase, delete_project_as_owner_lem}
use superbull.Hub.Fixtures.{db, user, seat}

program : Unit {0}
unfolding Text_discrete ℕ_discrete require_user_id require_user require_project_member require_role
    dash_runs strip_head strip_end slugify delete_connector_children remove_found remove_member
    delete_connectors delete_rules delete_rows delete_project delete_project_as_owner before_first
    after_first domain_of project_name_for_profile
program = tt

abbrev same : Text → Text
same text = text

slugify_text : slugify same (codes "-my  first: project!") ≡ codes "my-first-project"
unfolding program
slugify_text = refl

profile_name :
    project_name_for_profile same same (some (codes "ann@acme.co.uk")) (some []) ≡ codes "acme"
unfolding program
profile_name = refl

db-IsUnique : IsUnique db
unfolding Text_discrete ℕ_discrete
db-IsUnique slug = ground arith

-- The name's slug is taken, so the project gets "acme-2".
create_project_lem_example :
    (db' : Db) × (p : Project) × (create_project same same 50 (some 1) (codes "acme") db
      ≡ ok (db', p))
    × (p.name ≡ codes "acme")
    × (find (has_slug p.slug) db.projects ≡ none)
    × IsUnique db'
    × (any (owns p.id 1) db'.members ≡ true)
unfolding require_user require_user_id
create_project_lem_example =
    create_project_lem same same 50 1 (codes "acme") db user refl refl db-IsUnique

abbrev guest : Member
guest = record { id = 8; project_id = 2; user_id = 7; role = member }

abbrev shared : Db
shared = record db { members = seat ∷ guest ∷ [] }

remove_member_lem_example :
    ((m : Membership) × (require_project_member (some 1) 2 shared ≡ ok m)
      × (m.member.role ≢ member))
    × (filter is_owner db.members ≡ filter is_owner shared.members)
    × (filter (elsewhere 2) db.members ≡ filter (elsewhere 2) shared.members)
unfolding program
remove_member_lem_example =
    remove_member_lem (some 1) 2 8 shared db (omega arith, (omega arith, omega arith)) refl

db-IsMinted : IsMinted db
db-IsMinted = record { connectors = (omega arith, omega arith); rules = omega arith }

delete_project_as_owner_lem_example :
    (m : Membership) × (require_project_member (some 1) 2 db ≡ ok m)
    × (m.member.role ≡ owner)
    × (codes "Acme" ≡ m.project.name)
    × (delete_project 2 db ≡ erase 2 db)
    × ((delete_project 2 db).auth_codes ≡ db.auth_codes)
    × ((delete_project 2 db).oauth_tokens ≡ db.oauth_tokens)
unfolding program
delete_project_as_owner_lem_example =
    delete_project_as_owner_lem same (some 1) 2 (codes "Acme") db (delete_project 2 db) db-IsMinted
      refl
