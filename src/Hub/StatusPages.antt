-- ===== src/Hub/StatusPages.antt =====
-- apps/web/convex/statusPages.ts: a connector's public status page, and its uptime. A rate is its two
-- counts, and a day its start, which `toDateKey` prints.
pub mod Patch
pub mod Pages
pub mod Uptime
mod Tests
use superbull.Common.{
  ℕ, zero, suc, ◌+◌, ◌-◌, ◌*◌, ◌/◌, List, [], ◌∷◌, ◌++◌, map, Option, none, some, Bool, true, false,
  not, ◌&&◌, ◌||◌, Text, codes, text_eq, is_digit, is_empty, length, ltb, leb, ◌==◌, if◌then◌else◌,
  filter, find, take, or_before,
}
use superbull.Hub.Schema.{Db, StatusPage, StoredEvent, Connector}
use superbull.Hub.Base.{
  Result, ok, fail, ◌>>=◌, ◌>>◌, guard, or_fail, unique, patch_where, invalid_slug, slug_taken,
  unknown_connector, unknown_status_page, invalid_event_limit,
}
use superbull.Hub.Access.{require_project_member}

abbrev pub day_ms : ℕ
day_ms = 86400000

abbrev pub default_events_per_query : ℕ
default_events_per_query = 250

abbrev pub max_events_per_query : ℕ
max_events_per_query = 500

-- The class `[a-z0-9-]`.
abbrev pub is_slug_char : ℕ → Bool
is_slug_char c = is_digit c || (leb b'a' c && leb c b'z') || c == b'-'

unfoldable pub all_slug_chars : Text → Bool
all_slug_chars [] = true
all_slug_chars (c ∷ slug) = is_slug_char c && all_slug_chars slug

abbrev pub is_slug : Text → Bool
is_slug slug = leb 3 (length slug) && leb (length slug) 50 && all_slug_chars slug

abbrev pub has_slug : Text → StatusPage → Bool
has_slug slug p = text_eq p.slug slug

abbrev pub is_of : ℕ → StatusPage → Bool
is_of connector_id p = p.connector_id == connector_id

unfoldable pub get_by_connector : Option ℕ → ℕ → ℕ → Db → Result (Option StatusPage)
get_by_connector auth project_id connector_id db = do
  m ← require_project_member auth project_id db
  page ← unique (is_of connector_id) db.status_pages
  ok (elim page [ none ↦ none | some p ↦ if p.project_id == project_id then some p else none ])

pub record Fields : Type 0 where
  pub project_id : ℕ
  pub connector_id : ℕ
  pub slug : Text
  pub is_enabled : Bool
  pub title : Text
  pub queue_names : Option (List Text)

abbrev pub with_fields : Fields → StatusPage → StatusPage
with_fields f p = record p {
  project_id = f.project_id;
  connector_id = f.connector_id;
  slug = f.slug;
  is_enabled = f.is_enabled;
  title = f.title;
  queue_names = f.queue_names;
}

abbrev pub new_page : Fields → ℕ → StatusPage
new_page f id = record {
  id = id;
  project_id = f.project_id;
  connector_id = f.connector_id;
  slug = f.slug;
  is_enabled = f.is_enabled;
  title = f.title;
  logo_storage_id = none;
  queue_names = f.queue_names;
}

abbrev pub is_page : ℕ → StatusPage → Bool
is_page id p = p.id == id

unfoldable pub write_page : Fields → Option StatusPage → Db → Db × StatusPage
write_page f (some p) db = (
  record db { status_pages = patch_where (is_page p.id) (with_fields f) db.status_pages },
  with_fields f p,
)
write_page f none db = (
  record db {
    status_pages = db.status_pages ++ new_page f db.next_id ∷ [];
    next_id = db.next_id + 1;
  },
  new_page f db.next_id,
)

-- The page of the slug, else the connector's.
unfoldable pub existing_page : Fields → Option StatusPage → Db → Result (Option StatusPage)
existing_page f (some p) db = ok (some p)
existing_page f none db = unique (is_of f.connector_id) db.status_pages

abbrev pub is_other : ℕ → Option StatusPage → Bool
is_other connector_id none = false
is_other connector_id (some p) = not (p.connector_id == connector_id)

unfoldable pub upsert : Option ℕ → Fields → Db → Result (Db × StatusPage)
upsert auth f db = do
  m ← require_project_member auth f.project_id db
  guard (is_slug f.slug) invalid_slug
  c ← or_fail (find (λ c. c.id == f.connector_id) db.connectors) unknown_connector
  guard (c.project_id == f.project_id) unknown_connector
  by_slug ← unique (has_slug f.slug) db.status_pages
  guard (not (is_other f.connector_id by_slug)) slug_taken
  existing ← existing_page f by_slug db
  ok (write_page f existing db)

abbrev pub with_logo : ℕ → StatusPage → StatusPage
with_logo storage_id p = record p { logo_storage_id = some storage_id }

unfoldable pub set_logo : Option ℕ → ℕ → ℕ → ℕ → Db → Result (Db × StatusPage)
set_logo auth project_id config_id storage_id db = do
  m ← require_project_member auth project_id db
  p ← or_fail (find (is_page config_id) db.status_pages) unknown_status_page
  guard (p.project_id == project_id) unknown_status_page
  ok (
    record db {
      status_pages = patch_where (is_page config_id) (with_logo storage_id) db.status_pages;
    },
    with_logo storage_id p,
  )

-- What anyone may read.
pub record PublicPage : Type 0 where
  pub title : Text
  pub logo_url : Option Text
  pub queues : List Text

abbrev pub or_none : Option (List Text) → List Text
or_none none = []
or_none (some names) = names

abbrev pub logo_of : (ℕ → Option Text) → Option ℕ → Option Text
logo_of get_url none = none
logo_of get_url (some id) = get_url id

-- `get_url` is the storage's.
abbrev pub public_page : (ℕ → Option Text) → Option StatusPage → Option PublicPage
public_page get_url none = none
public_page get_url (some p) =
    if p.is_enabled
    then some (record {
      title = p.title;
      logo_url = logo_of get_url p.logo_storage_id;
      queues = or_none p.queue_names;
    })
    else none

unfoldable pub get_public_page : (ℕ → Option Text) → Text → Db → Result (Option PublicPage)
get_public_page get_url slug db = do
  page ← unique (has_slug slug) db.status_pages
  ok (public_page get_url page)

-- `upload_url` is the storage's answer.
unfoldable pub generate_logo_upload_url : Text → Option ℕ → ℕ → Db → Result Text
generate_logo_upload_url upload_url auth project_id db = do
  m ← require_project_member auth project_id db
  ok upload_url
