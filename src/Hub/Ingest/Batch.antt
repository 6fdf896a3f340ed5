-- ===== src/Hub/Ingest/Batch.antt =====
-- apps/web/convex/ingest.ts: `recordBatch` stores each event once, however often a batch arrives.
use superbull.Common.{
  ℕ, ◌+◌, ◌≤◌, ◌≡◌, refl, sym, ap, ◌∙◌, List, [], ◌∷◌, ◌++◌, append_assoc, append-nil, map, Option,
  none, some, Bool, true, ◌&&◌, Text, text_eq, ◌==◌, filter, filter-append, find, any, any-append,
  any_of_find, find_of_any, filter_of_find, length, length-append, All, arith, inl, inr, Bool-cases,
  Option-cases,
}
use superbull.Protocol.{IngestEvent}
use superbull.Hub.Schema.{Db, StoredEvent, ErrorGroup, Connector}
use superbull.Hub.Base.{Result, ok, Rising-mono}
use superbull.Hub.Access.{require_internal_token, has_valid_internal_token}
use superbull.Hub.ErrorGroups.{Failed}
use superbull.Hub.ErrorGroups.Upsert
use superbull.Hub.ErrorGroups.Upsert.{upsert_error_group_lem, upsert_error_group_frame}
use superbull.Hub.Ingest.{
  NormalizedEvent, Tally, has_uuid, failure_reason, new_row, insert_row, track_failure,
  insert_event, insert_events, normalize, all_fit_args, record_batch,
}

-- One row for a connector and uuid, and the error groups in order.
pub record IsValid (db : Db) : Type 0 where
  pub once : (c : ℕ) (u : Text) → length (filter (has_uuid c u) db.ingest_events) ≤ 1
  pub groups : Upsert.IsValid db

abbrev pub is_stored : ℕ → Text → Db → Bool
is_stored c u db = any (has_uuid c u) db.ingest_events

-- What a run over `events` from `s` to `s'` has done.
pub record Inserted (connector_id : ℕ) (events : List NormalizedEvent) (s s' : Db × Tally)
    : Type 0 where
  pub news : List StoredEvent
  pub appended : s'.0.ingest_events ≡ s.0.ingest_events ++ news
  pub accepted : s'.1.accepted ≡ s.1.accepted + length news
  pub counted : s'.1.accepted + s'.1.deduped ≡ s.1.accepted + s.1.deduped + length events
  pub stored : All (λ e. is_stored connector_id e.uuid s'.0 ≡ true) events
  pub connectors : s'.0.connectors ≡ s.0.connectors
  pub valid : IsValid s'.0

insert_row-IsValid :
    (now p c : ℕ) (e : NormalizedEvent) (db : Db)
    → IsValid db
    → find (has_uuid c e.uuid) db.ingest_events ≡ none
    → IsValid (insert_row now p c e db)
unfolding insert_row
insert_row-IsValid now p c e db v new = record {
  once = λ c' u.
      let row = new_row now p c e db.next_id in
      elim (Bool-cases (c == c' && text_eq e.uuid u)) [
        | inl mine ↦
            let same_c : c' ≡ c = ground arith in
            let same_u : u ≡ e.uuid = ground arith in
            rw (filter-append (has_uuid c' u) db.ingest_events (row ∷ [])) (
              rw (same_c, same_u)
                (rw (filter_of_find (has_uuid c e.uuid) db.ingest_events new) (ground arith)))
        | inr other ↦ ground (
          arith,
          filter-append (has_uuid c' u) db.ingest_events (row ∷ []),
          length-append (filter (has_uuid c' u) db.ingest_events) [],
          v.once c' u,
        )
      ];
  groups = record {
    rising =
        Rising-mono (λ (g : ErrorGroup). g.id) 0 db.next_id (db.next_id + 1) db.error_groups
          (omega arith) v.groups.rising;
    once = v.groups.once;
  };
}

-- Tracking a failure never throws on a valid database, and leaves the events alone.
track_failure_lem :
    (to_lower : Text → Text) (p c : ℕ) (e : NormalizedEvent) (db : Db)
    → IsValid db
    → (db' : Db) × (track_failure to_lower p c e db ≡ ok db')
      × IsValid db'
      × (db'.ingest_events ≡ db.ingest_events)
      × (db'.connectors ≡ db.connectors)
unfolding track_failure
track_failure_lem to_lower p c e db v = elim (Option-cases (failure_reason e)) [
  | inl nothing ↦ (db, rw (nothing, track_failure) refl, v, refl, refl)
  | inr (reason, failed) ↦
      let f : Failed = record {
        project_id = p;
        connector_id = c;
        queue_name = e.queue_name;
        job_name = e.job_name;
        job_id = e.job_id;
        message = reason;
        ts = e.ts;
      } in
      let (db', h, g, _) = upsert_error_group_lem to_lower f db v.groups in
      let (same, connectors) = upsert_error_group_frame to_lower f db db' h in
      (
        db',
        rw (failed, track_failure) h,
        record { once = λ c' u. rw same (v.once c' u); groups = g },
        same,
        connectors,
      )
]

insert_row_lem :
    (now p c : ℕ) (e : NormalizedEvent) (db : Db)
    → ((insert_row now p c e db).ingest_events
        ≡ db.ingest_events ++ new_row now p c e db.next_id ∷ [])
      × ((insert_row now p c e db).connectors ≡ db.connectors)
unfolding insert_row
insert_row_lem now p c e db = (refl, refl)

find_row :
    (now p c : ℕ) (e : NormalizedEvent) (id : ℕ) (rows : List StoredEvent)
    → any (has_uuid c e.uuid) (rows ++ new_row now p c e id ∷ []) ≡ true
unfolding new_row
find_row now p c e id rows =
    ground (arith, any-append (has_uuid c e.uuid) rows (new_row now p c e id ∷ []))

module _ (to_lower : Text → Text) (now p c : ℕ) where
  insert_event-Inserted :
      (e : NormalizedEvent) (db : Db) (t : Tally)
      → IsValid db
      → (s' : Db × Tally) × (insert_event to_lower now p c e (db, t) ≡ ok s')
        × Inserted c (e ∷ []) (db, t) s'
  unfolding insert_event
  insert_event-Inserted e db t v = elim (Option-cases (find (has_uuid c e.uuid) db.ingest_events)) [
    | inr (x, old) ↦ (
      (db, record t { deduped = t.deduped + 1 }),
      rw (old, insert_event) refl,
      record {
        news = [];
        appended = sym (append-nil db.ingest_events);
        accepted = omega arith;
        counted = omega arith;
        stored = (any_of_find (has_uuid c e.uuid) db.ingest_events x old, tt);
        connectors = refl;
        valid = v;
      },
    )
    | inl new ↦
        let row = new_row now p c e db.next_id in
        let (db', h, v', same, connectors) =
          track_failure_lem to_lower p c e (insert_row now p c e db)
            (insert_row-IsValid now p c e db v new) in
        (
          (db', record t { accepted = t.accepted + 1 }),
          rw (new, insert_event, h) refl,
          record {
            news = row ∷ [];
            appended = same ∙ (insert_row_lem now p c e db).0;
            accepted = omega arith;
            counted = omega arith;
            stored = (
              rw (same, (insert_row_lem now p c e db).0)
                  (find_row now p c e db.next_id db.ingest_events),
              tt,
            );
            connectors = connectors ∙ (insert_row_lem now p c e db).1;
            valid = v';
          },
        )
  ]

  Inserted-cons :
      (e : NormalizedEvent) (events : List NormalizedEvent) (s s₁ s₂ : Db × Tally)
      → Inserted c (e ∷ []) s s₁
      → Inserted c events s₁ s₂
      → Inserted c (e ∷ events) s s₂
  Inserted-cons e events s s₁ s₂ a b = record {
    news = a.news ++ b.news;
    appended =
        b.appended
        ∙ ap (λ rows. rows ++ b.news) a.appended
        ∙ append_assoc s.0.ingest_events a.news b.news;
    accepted = omega (arith, a.accepted, b.accepted, length-append a.news b.news);
    counted = omega (arith, a.counted, b.counted);
    stored = (
      rw (b.appended, any-append (has_uuid c e.uuid) s₁.0.ingest_events b.news, a.stored.0) refl,
      b.stored,
    );
    connectors = b.connectors ∙ a.connectors;
    valid = b.valid;
  }

  insert_events-Inserted :
      (events : List NormalizedEvent) (s : Db × Tally)
      → IsValid s.0
      → (s' : Db × Tally) × (insert_events to_lower now p c events s ≡ ok s')
        × Inserted c events s s'
  unfolding insert_events
  insert_events-Inserted [] s v = (
    s,
    refl,
    record {
      news = [];
      appended = sym (append-nil s.0.ingest_events);
      accepted = omega arith;
      counted = omega arith;
      stored = tt;
      connectors = refl;
      valid = v;
    },
  )
  insert_events-Inserted (e ∷ events) s v =
      let (s₁, h, a) = insert_event-Inserted e s.0 s.1 v in
      let (s₂, k, b) = insert_events-Inserted events s₁ a.valid in
      (s₂, rw h k, Inserted-cons e events s s₁ s₂ a b)

  -- Events that are stored already change nothing but the count.
  insert_events_stored :
      (events : List NormalizedEvent) (db : Db) (t : Tally)
      → All (λ e. is_stored c e.uuid db ≡ true) events
      → insert_events to_lower now p c events (db, t)
        ≡ ok (db, record t { deduped = t.deduped + length events })
  unfolding insert_events insert_event
  insert_events_stored [] db t h = ground arith
  insert_events_stored (e ∷ events) db t h =
      let (x, old) = find_of_any (has_uuid c e.uuid) db.ingest_events h.0 in
      rw (old, insert_event)
        (insert_events_stored events db (record t { deduped = t.deduped + 1 }) h.1 ∙ ground arith)

abbrev tally : Db → ℕ → Result (Db × Tally)
tally db n = ok (db, record { accepted = 0; deduped = n })

none_before :
    (events : List IngestEvent) → 0 + length (map normalize events) ≡ length (map normalize events)
none_before events = omega arith

module _ (configured : Option Text) (to_lower : Text → Text) (token : Text) where
  -- On a valid database a well-formed batch of a known connector, sent with the internal token, is
  -- recorded: rows are only appended, as many as the answer says were accepted; each event counts
  -- as accepted or as a duplicate; each is stored afterwards; and the database stays valid, so no
  -- event is stored twice.
  pub record_batch-Inserted :
      (now connector_id : ℕ) (events : List IngestEvent) (db : Db) (connector : Connector)
      → IsValid db
      → has_valid_internal_token configured (some token) ≡ true
      → all_fit_args events ≡ true
      → find (λ d. d.id == connector_id) db.connectors ≡ some connector
      → (s : Db × Tally) × (record_batch configured to_lower now token connector_id events db
          ≡ ok s)
        × Inserted connector_id (map normalize events) (db, record { accepted = 0; deduped = 0 }) s
  unfolding record_batch require_internal_token
  record_batch-Inserted now connector_id events db connector v a fit known =
      let (s, h, i) =
        insert_events-Inserted to_lower now connector.project_id connector_id (map normalize events)
          (db, record { accepted = 0; deduped = 0 }) v in
      (s, rw (fit, a, known) h, i)

  -- What a recorded batch rests on.
  pub recorded_only :
      (now connector_id : ℕ) (events : List IngestEvent) (db : Db) (s : Db × Tally)
      → record_batch configured to_lower now token connector_id events db ≡ ok s
      → (connector : Connector) × (all_fit_args events ≡ true)
        × (has_valid_internal_token configured (some token) ≡ true)
        × (find (λ d. d.id == connector_id) db.connectors ≡ some connector)
  unfolding record_batch require_internal_token
  recorded_only now connector_id events db s h =
      elim (Option-cases (find (λ d. d.id == connector_id) db.connectors)) [
        | inl unknown ↦ absurd (ground arith)
        | inr (connector, known) ↦ (connector, ground arith, ground arith, known)
      ]

  again_of :
      (later connector_id : ℕ) (events : List IngestEvent) (db : Db) (connector : Connector)
      → all_fit_args events ≡ true
      → has_valid_internal_token configured (some token) ≡ true
      → find (λ d. d.id == connector_id) db.connectors ≡ some connector
      → All (λ e. is_stored connector_id e.uuid db ≡ true) (map normalize events)
      → record_batch configured to_lower later token connector_id events db
        ≡ ok (db, record { accepted = 0; deduped = length (map normalize events) })
  unfolding record_batch require_internal_token
  again_of later connector_id events db connector fit a known stored =
      rw (fit, a, known)
        (insert_events_stored to_lower later connector.project_id connector_id
            (map normalize events) db (record { accepted = 0; deduped = 0 }) stored
          ∙ ap (tally db) (none_before events))

  -- Delivery may be repeated: a batch that was recorded, sent again at any later time, is answered
  -- with every event a duplicate, and changes nothing.
  pub record_batch_again :
      (now later connector_id : ℕ) (events : List IngestEvent) (db db' : Db) (t : Tally)
      → IsValid db
      → record_batch configured to_lower now token connector_id events db ≡ ok (db', t)
      → record_batch configured to_lower later token connector_id events db'
        ≡ ok (db', record { accepted = 0; deduped = length (map normalize events) })
  record_batch_again now later connector_id events db db' t v h =
      let (connector, fit, a, known) = recorded_only now connector_id events db (db', t) h in
      let (s, e, i) = record_batch-Inserted now connector_id events db connector v a fit known in
      let same : s.0 ≡ db' = ground arith in
      let is_it : Connector → Bool = λ d. d.id == connector_id in
      let known' : find is_it db'.connectors ≡ some connector =
        ap (λ d. find is_it d.connectors) (sym same) ∙ ap (find is_it) i.connectors ∙ known in
      let stored : All (λ e. is_stored connector_id e.uuid db' ≡ true) (map normalize events) =
        rw same at i.stored in
      again_of later connector_id events db' connector fit a known' stored
