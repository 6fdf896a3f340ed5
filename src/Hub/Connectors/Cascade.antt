-- ===== src/Hub/Connectors/Cascade.antt =====
-- apps/web/convex/connectors.ts: what hangs on a connector goes with it.
use superbull.Common.{
  ℕ, ◌≡◌, refl, ◌∙◌, List, [], ◌∷◌, Bool, true, false, not, ◌&&◌, if◌then◌else◌, ◌==◌, filter, any,
  All, arith, inl, inr, Bool-cases,
}
use superbull.Hub.Schema.{Db, Connector, StoredEvent, ErrorGroup, Annotation, StatusPage}
use superbull.Hub.Connectors.{delete_connector_children}

abbrev pub is_there : Db → ℕ → Bool
is_there db connector_id = any (λ c. c.id == connector_id) db.connectors

-- Every event, error group, annotation and status page is of a connector that is there.
pub record IsLinked (db : Db) : Type 0 where
  pub events : All (λ e. is_there db e.connector_id ≡ true) db.ingest_events
  pub groups : All (λ g. is_there db g.connector_id ≡ true) db.error_groups
  pub annotations : All (λ a. is_there db a.connector_id ≡ true) db.annotations
  pub pages : All (λ s. is_there db s.connector_id ≡ true) db.status_pages

any-filter_other :
    (id other : ℕ) (connectors : List Connector)
    → (id == other) ≡ false
    → any (λ c. c.id == other) (filter (λ c. not (c.id == id)) connectors)
      ≡ any (λ c. c.id == other) connectors
any-filter_other id other [] h = refl
any-filter_other id other (c ∷ connectors) h = ground (arith, any-filter_other id other connectors)

linked_rows {ℓ} :
    {A : Type ℓ} (of : A → ℕ) (id : ℕ) (connectors : List Connector) (rows : List A)
    → All (λ x. any (λ c. c.id == of x) connectors ≡ true) rows
    → All
        (λ x. any (λ c. c.id == of x) (filter (λ c. not (c.id == id)) connectors) ≡ true)
        (filter (λ x. not (of x == id)) rows)
linked_rows of id connectors [] h = tt
linked_rows of id connectors (x ∷ rows) h = elim (Bool-cases (of x == id)) [
  | inl gone ↦ rw gone (linked_rows of id connectors rows h.1)
  | inr kept ↦ rw kept (
    any-filter_other id (of x) connectors (ground arith) ∙ h.0,
    linked_rows of id connectors rows h.1,
  )
]

any-filter_gone :
    (id : ℕ) (connectors : List Connector)
    → any (λ c. c.id == id) (filter (λ c. not (c.id == id)) connectors) ≡ false
any-filter_gone id [] = refl
any-filter_gone id (c ∷ connectors) = ground (arith, any-filter_gone id connectors)

other_rows {ℓ} :
    {A : Type ℓ} (of : A → ℕ) (id other : ℕ) (rows : List A)
    → (id == other) ≡ false
    → filter (λ x. of x == other) (filter (λ x. not (of x == id)) rows)
      ≡ filter (λ x. of x == other) rows
other_rows of id other [] h = refl
other_rows of id other (x ∷ rows) h = ground (arith, other_rows of id other rows)

-- What a connector has in the four tables.
abbrev pub children :
    ℕ → Db → List StoredEvent × List ErrorGroup × List Annotation × List StatusPage
children c db = (
  filter (λ (e : StoredEvent). e.connector_id == c) db.ingest_events,
  filter (λ (g : ErrorGroup). g.connector_id == c) db.error_groups,
  filter (λ (a : Annotation). a.connector_id == c) db.annotations,
  filter (λ (s : StatusPage). s.connector_id == c) db.status_pages,
)

gone_rows {ℓ} :
    {A : Type ℓ} (of : A → ℕ) (id : ℕ) (rows : List A)
    → filter (λ x. of x == id) (filter (λ x. not (of x == id)) rows) ≡ []
gone_rows of id [] = refl
gone_rows of id (x ∷ rows) = ground (arith, gone_rows of id rows)

deleted-IsLinked :
    (connector_id : ℕ) (db : Db)
    → IsLinked db
    → IsLinked (delete_connector_children connector_id db)
unfolding delete_connector_children
deleted-IsLinked connector_id db l = record {
  events =
      linked_rows (λ (e : StoredEvent). e.connector_id) connector_id db.connectors db.ingest_events
        l.events;
  groups =
      linked_rows (λ (g : ErrorGroup). g.connector_id) connector_id db.connectors db.error_groups
        l.groups;
  annotations =
      linked_rows (λ (a : Annotation). a.connector_id) connector_id db.connectors db.annotations
        l.annotations;
  pages =
      linked_rows (λ (s : StatusPage). s.connector_id) connector_id db.connectors db.status_pages
        l.pages;
}

deleted-is_there :
    (connector_id other : ℕ) (db : Db)
    → is_there (delete_connector_children connector_id db) other
      ≡ (is_there db other && not (connector_id == other))
unfolding delete_connector_children
deleted-is_there connector_id other db = elim (Bool-cases (connector_id == other)) [
  | inl mine ↦
      let same : other ≡ connector_id = ground arith in
      rw same (ground (arith, any-filter_gone connector_id db.connectors))
  | inr kept ↦ ground (arith, kept, any-filter_other connector_id other db.connectors)
]

deleted-children :
    (connector_id other : ℕ) (db : Db)
    → children other (delete_connector_children connector_id db)
      ≡ (if connector_id == other then ([], [], [], []) else children other db)
unfolding delete_connector_children
deleted-children connector_id other db = elim (Bool-cases (connector_id == other)) [
  | inl mine ↦
      let same : other ≡ connector_id = ground arith in
      rw same (
        rw
          (
            gone_rows (λ (e : StoredEvent). e.connector_id) connector_id db.ingest_events,
            gone_rows (λ (g : ErrorGroup). g.connector_id) connector_id db.error_groups,
            gone_rows (λ (a : Annotation). a.connector_id) connector_id db.annotations,
            gone_rows (λ (s : StatusPage). s.connector_id) connector_id db.status_pages,
          )
          (ground arith))
  | inr kept ↦
      rw
        (
          kept,
          other_rows (λ (e : StoredEvent). e.connector_id) connector_id other db.ingest_events kept,
          other_rows (λ (g : ErrorGroup). g.connector_id) connector_id other db.error_groups kept,
          other_rows (λ (a : Annotation). a.connector_id) connector_id other db.annotations kept,
          other_rows (λ (s : StatusPage). s.connector_id) connector_id other db.status_pages kept,
        )
        refl
]

-- On a database where every event, error group, annotation and status page is of a connector that is
-- there, so it is after the deletion of a connector with its children. The connector is gone with all of
-- these that were its own, and every other connector stays with all of its own. The alert rules stay as they
-- were, those that name the deleted connector too.
pub delete_connector_children-IsLinked :
    (connector_id : ℕ) (db : Db)
    → IsLinked db
    → let db' = delete_connector_children connector_id db in
      IsLinked db'
      × ((other : ℕ)
          → (is_there db' other ≡ (is_there db other && not (connector_id == other)))
            × (children other db'
                ≡ (if connector_id == other then ([], [], [], []) else children other db)))
      × (db'.alert_rules ≡ db.alert_rules)
unfolding delete_connector_children
delete_connector_children-IsLinked connector_id db l = (
  deleted-IsLinked connector_id db l,
  λ other. (deleted-is_there connector_id other db, deleted-children connector_id other db),
  refl,
)
