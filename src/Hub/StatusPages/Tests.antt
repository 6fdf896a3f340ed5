-- ===== src/Hub/StatusPages/Tests.antt =====
-- A page that is made, and renamed.
use superbull.Common.{
  ℕ, ◌≡◌, refl, [], ◌∷◌, none, some, true, Text, Text_discrete, ℕ_discrete, codes, arith, count,
  ◌*◌, ◌&&◌,
}
use superbull.Hub.Schema.{Db, StatusPage, StoredEvent}
use superbull.Hub.Access.{require_user_id, require_user, require_project_member}
use superbull.Hub.StatusPages.{
  Fields, new_page, with_fields, all_slug_chars, get_by_connector, write_page, existing_page,
  upsert, set_logo, get_public_page,
}
use superbull.Hub.StatusPages.Pages.{IsValid, Written, upsert-Written}
use superbull.Hub.Ingest.{new_row, normalize}
use superbull.Hub.StatusPages.{day_ms}
use superbull.Hub.StatusPages.Uptime.{
  empty_buckets, note_event, note_events, bucket_events_by_day, rate_or_null,
  bucket_connector_events, bucket_queue_events, get_event_limit, uptime_of, get_public_uptime,
}
use superbull.Hub.StatusPages.Uptime.Counted.{
  is_completed, is_failed, in_window, bucket_events_by_day-rate,
}
use superbull.Hub.Fixtures.{db, failure}

program : Unit {0}
unfolding Text_discrete ℕ_discrete require_user_id require_user require_project_member
    all_slug_chars get_by_connector write_page existing_page upsert set_logo get_public_page
    empty_buckets note_event note_events bucket_events_by_day bucket_connector_events
    bucket_queue_events get_event_limit uptime_of get_public_uptime
program = tt

abbrev fields : Text → Fields
fields slug = record {
  project_id = 2;
  connector_id = 4;
  slug = slug;
  is_enabled = true;
  title = codes "Acme";
  queue_names = none;
}

abbrev made : StatusPage
made = new_page (fields (codes "acme")) 10

abbrev paged : Db
paged = record db { status_pages = made ∷ []; next_id = 11 }

paged-IsValid : IsValid paged
paged-IsValid = record {
  rising = omega arith;
  slugs = λ slug. ground arith;
  connectors = λ c. ground arith;
}

abbrev renamed : StatusPage
renamed = with_fields (fields (codes "acme-2")) made

upsert-Written_example :
    Written (fields (codes "acme-2")) paged (record paged { status_pages = renamed ∷ [] }, renamed)
unfolding program
upsert-Written_example =
    upsert-Written (some 1) (fields (codes "acme-2")) paged
      (record paged { status_pages = renamed ∷ [] }, renamed) paged-IsValid refl

abbrev finished : ℕ → StoredEvent
finished ts = new_row 90 2 4 (normalize (record failure { ts = ts })) 10

-- Three failures, two of them within the two days.
bucket_events_by_day-rate_example :
    (bucket_events_by_day
      (finished 86400000 ∷ finished 200000000 ∷ finished 300000000 ∷ [])
      (1 * day_ms)
      (2 * day_ms)).rate
    ≡ rate_or_null
        (count
          (λ e. in_window (1 * day_ms) (2 * day_ms) e && is_completed e)
          (finished 86400000 ∷ finished 200000000 ∷ finished 300000000 ∷ []))
        (count
          (λ e. in_window (1 * day_ms) (2 * day_ms) e && is_failed e)
          (finished 86400000 ∷ finished 200000000 ∷ finished 300000000 ∷ []))
bucket_events_by_day-rate_example =
    bucket_events_by_day-rate (finished 86400000 ∷ finished 200000000 ∷ finished 300000000 ∷ []) 1 2
      (omega arith)
