-- ===== src/Hub/Dashboards.antt =====
-- apps/web/convex/dashboards.ts: the saved dashboards of a project.
use superbull.Common.{
  ℕ, ◌+◌, List, [], ◌∷◌, ◌++◌, Option, none, some, Bool, not, Text, ◌==◌, if◌then◌else◌, filter,
  find,
}
use superbull.Hub.Schema.{Db, Card, Dashboard}
use superbull.Hub.Base.{Result, ok, ◌>>=◌, or_fail, patch_where, unknown_dashboard}
use superbull.Hub.Access.{require_project_member}

unfoldable pub list : Option ℕ → ℕ → Db → Result (List Dashboard)
list auth project_id db = do
  m ← require_project_member auth project_id db
  ok (filter (λ d. d.project_id == project_id) db.dashboards)

abbrev pub is_dashboard : ℕ → Dashboard → Bool
is_dashboard id d = d.id == id

-- The dashboard of an id, if it is the project's.
abbrev pub owned : ℕ → ℕ → Db → Option Dashboard
owned project_id id db = elim (find (is_dashboard id) db.dashboards) [
  | none ↦ none
  | some d ↦ if d.project_id == project_id then some d else none
]

unfoldable pub find_by_id : Option ℕ → ℕ → ℕ → Db → Result (Option Dashboard)
find_by_id auth project_id id db = do
  m ← require_project_member auth project_id db
  ok (owned project_id id db)

abbrev pub new_dashboard : ℕ → Text → List Card → ℕ → Dashboard
new_dashboard project_id name cards id = record {
  id = id;
  project_id = project_id;
  name = name;
  cards = cards;
}

unfoldable pub create : Option ℕ → ℕ → Text → List Card → Db → Result (Db × Dashboard)
create auth project_id name cards db = do
  m ← require_project_member auth project_id db
  let d = new_dashboard project_id name cards db.next_id
  ok (record db { dashboards = db.dashboards ++ d ∷ []; next_id = db.next_id + 1 }, d)

abbrev pub or_same {ℓ} : {A : Type ℓ} → Option A → A → A
or_same none a = a
or_same (some b) a = b

-- Both patches.
abbrev pub updated : Option Text → Option (List Card) → Dashboard → Dashboard
updated name cards d = record d { name = or_same name d.name; cards = or_same cards d.cards }

unfoldable pub update :
    Option ℕ → ℕ → ℕ → Option Text → Option (List Card) → Db → Result (Db × Dashboard)
update auth project_id id name cards db = do
  m ← require_project_member auth project_id db
  d ← or_fail (owned project_id id db) unknown_dashboard
  ok (
    record db { dashboards = patch_where (is_dashboard id) (updated name cards) db.dashboards },
    updated name cards d,
  )

unfoldable pub remove : Option ℕ → ℕ → ℕ → Db → Result Db
remove auth project_id id db = do
  m ← require_project_member auth project_id db
  ok (elim (owned project_id id db) [
    | none ↦ db
    | some d ↦ record db { dashboards = filter (λ e. not (is_dashboard id e)) db.dashboards }
  ])
