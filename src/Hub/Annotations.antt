-- ===== src/Hub/Annotations.antt =====
-- apps/web/convex/deployAnnotations.ts: marks on a connector's time line. An id that a caller names is `none`
-- where it is no id of the table.
use superbull.Common.{
  ℕ, ◌+◌, List, [], ◌∷◌, ◌++◌, Option, none, some, Bool, not, ◌&&◌, Text, leb, ◌==◌, if◌then◌else◌,
  filter, find, any, sort_by,
}
use superbull.Hub.Schema.{Db, Annotation}
use superbull.Hub.Base.{
  Result, ok, ◌>>=◌, ◌>>◌, or_fail, guard, unknown_connector, unknown_document,
}
use superbull.Hub.Access.{require_internal_token, require_project_member}
use superbull.Hub.ErrorGroups.Listing.{backwards}

-- The index of a connector, read backwards.
abbrev pub latest : (Annotation → Bool) → Db → List Annotation
latest p db = backwards (sort_by (λ (a : Annotation). a.ts) (filter p db.annotations))

abbrev pub marks : ℕ → Annotation → Bool
marks connector_id a = a.connector_id == connector_id

unfoldable pub list_between : ℕ → Option ℕ → Option ℕ → Db → List Annotation
list_between c (some from_ts) (some to_ts) db =
    latest (λ a. marks c a && leb from_ts a.ts && leb a.ts to_ts) db
list_between c (some from_ts) none db = latest (λ a. marks c a && leb from_ts a.ts) db
list_between c none (some to_ts) db = latest (λ a. marks c a && leb a.ts to_ts) db
list_between c none none db = latest (marks c) db

unfoldable pub list :
    Option Text → Text → Option ℕ → Option ℕ → Option ℕ → Db → Result (List Annotation)
list configured token connector_id from_ts to_ts db = do
  require_internal_token configured token
  ok (elim connector_id [ none ↦ [] | some c ↦ list_between c from_ts to_ts db ])

abbrev pub new_annotation : ℕ → ℕ → Text → ℕ → ℕ → Annotation
new_annotation project_id connector_id label ts id = record {
  id = id;
  project_id = project_id;
  connector_id = connector_id;
  label = label;
  ts = ts;
}

unfoldable pub create : Option Text → Text → Option ℕ → Text → ℕ → Db → Result (Db × Annotation)
create configured token connector_id label ts db = do
  require_internal_token configured token
  id ← or_fail connector_id unknown_connector
  c ← or_fail (find (λ c. c.id == id) db.connectors) unknown_connector
  let a = new_annotation c.project_id id label ts db.next_id
  ok (record db { annotations = db.annotations ++ a ∷ []; next_id = db.next_id + 1 }, a)

unfoldable pub list_by_project : Option ℕ → ℕ → ℕ → Db → Result (List Annotation)
list_by_project auth project_id connector_id db = do
  m ← require_project_member auth project_id db
  ok (elim (find (λ c. c.id == connector_id) db.connectors) [
    | none ↦ []
    | some c ↦ if c.project_id == project_id then latest (marks connector_id) db else []
  ])

-- `ctx.db.delete` throws on an id whose document is gone.
unfoldable pub delete : ℕ → Db → Result Db
delete id db = do
  guard (any (λ a. a.id == id) db.annotations) unknown_document
  ok (record db { annotations = filter (λ a. not (a.id == id)) db.annotations })

unfoldable pub remove : Option Text → Text → Option ℕ → Db → Result Db
remove configured token id db = do
  require_internal_token configured token
  elim id [ none ↦ ok db | some i ↦ delete i db ]
