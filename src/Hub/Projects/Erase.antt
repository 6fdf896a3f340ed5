-- ===== src/Hub/Projects/Erase.antt =====
-- apps/web/convex/projects.ts: the deletion of a project, loop after loop, against the database without
-- the project.
use superbull.Common.{
  ℕ, ◌≡◌, refl, ap, ◌∙◌, List, [], ◌∷◌, Option, Bool, not, ◌||◌, Text, text_eq, ◌==◌, filter,
  filter_all, any, arith,
}
use superbull.Hub.Schema.{Db, Connector, AlertRule, owner}
use superbull.Hub.Base.{ok, guard, ok_of_bind, Rising, ids_of, filter-ids_of, name_mismatch}
use superbull.Hub.Access.{Membership, require_project_member, require_role}
use superbull.Hub.Connectors.{delete_connector_children, of_project}
use superbull.Hub.Projects.{
  delete_connectors, delete_rule, delete_rules, rules_of, delete_rows, delete_project,
  delete_project_as_owner,
}

-- Two filters by an id, one after the other, are one.
filter_ids {ℓ} :
    {A : Type ℓ} (of : A → ℕ) (n : ℕ) (g : ℕ → Bool) (rows : List A)
    → filter (λ x. not (g (of x))) (filter (λ x. not (of x == n)) rows)
      ≡ filter (λ x. not (n == of x || g (of x))) rows
filter_ids of n g [] = refl
filter_ids of n g (x ∷ rows) = ground (arith, filter_ids of n g rows)

module _ (gone : ℕ → Bool) where
  abbrev without_connectors : Db → Db
  without_connectors db = record db {
    ingest_events = filter (λ e. not (gone e.connector_id)) db.ingest_events;
    error_groups = filter (λ g. not (gone g.connector_id)) db.error_groups;
    annotations = filter (λ a. not (gone a.connector_id)) db.annotations;
    status_pages = filter (λ s. not (gone s.connector_id)) db.status_pages;
    connectors = filter (λ c. not (gone c.id)) db.connectors;
  }

  abbrev without_rules : Db → Db
  without_rules db = record db {
    alert_states = filter (λ s. not (gone s.rule_id)) db.alert_states;
    alert_rules = filter (λ r. not (gone r.id)) db.alert_rules;
  }

abbrev listed : List Connector → ℕ → Bool
listed connectors n = any (λ d. d.id == n) connectors

abbrev listed_rule : List AlertRule → ℕ → Bool
listed_rule rules n = any (λ d. d.id == n) rules

delete_connectors_lem :
    (connectors : List Connector) (db : Db)
    → delete_connectors connectors db ≡ without_connectors (listed connectors) db
unfolding delete_connectors delete_connector_children
delete_connectors_lem [] db =
    rw
      (
        filter_all _ (λ e. refl) db.ingest_events,
        filter_all _ (λ g. refl) db.error_groups,
        filter_all _ (λ a. refl) db.annotations,
        filter_all _ (λ s. refl) db.status_pages,
        filter_all _ (λ c. refl) db.connectors,
      )
      refl
delete_connectors_lem (c ∷ connectors) db =
    delete_connectors_lem connectors (delete_connector_children c.id db)
    ∙ rw
        (
          filter_ids (λ e. e.connector_id) c.id (listed connectors) db.ingest_events,
          filter_ids (λ g. g.connector_id) c.id (listed connectors) db.error_groups,
          filter_ids (λ a. a.connector_id) c.id (listed connectors) db.annotations,
          filter_ids (λ s. s.connector_id) c.id (listed connectors) db.status_pages,
          filter_ids (λ d. d.id) c.id (listed connectors) db.connectors,
        )
        refl

delete_rules_lem :
    (rules : List AlertRule) (db : Db)
    → delete_rules rules db ≡ without_rules (listed_rule rules) db
unfolding delete_rules delete_rule
delete_rules_lem [] db =
    rw (filter_all _ (λ s. refl) db.alert_states, filter_all _ (λ r. refl) db.alert_rules) refl
delete_rules_lem (r ∷ rules) db =
    delete_rules_lem rules (delete_rule r.id db)
    ∙ rw
        (
          filter_ids (λ s. s.rule_id) r.id (listed_rule rules) db.alert_states,
          filter_ids (λ q. q.id) r.id (listed_rule rules) db.alert_rules,
        )
        refl

-- What a deletion leaves. A table that is not named keeps its rows.
abbrev pub erase : ℕ → Db → Db
erase p db =
    let connector_gone = ids_of (λ (c : Connector). c.id) (λ c. c.project_id == p) db.connectors in
    let rule_gone = ids_of (λ (r : AlertRule). r.id) (λ r. r.project_id == p) db.alert_rules in
    record db {
      ingest_events = filter (λ e. not (connector_gone e.connector_id)) db.ingest_events;
      error_groups = filter (λ g. not (connector_gone g.connector_id)) db.error_groups;
      annotations = filter (λ a. not (connector_gone a.connector_id)) db.annotations;
      status_pages = filter (λ s. not (connector_gone s.connector_id)) db.status_pages;
      connectors = filter (λ c. not (c.project_id == p)) db.connectors;
      alert_states = filter (λ s. not (rule_gone s.rule_id)) db.alert_states;
      alert_rules = filter (λ r. not (r.project_id == p)) db.alert_rules;
      dashboards = filter (λ d. not (d.project_id == p)) db.dashboards;
      invites = filter (λ i. not (i.project_id == p)) db.invites;
      members = filter (λ m. not (m.project_id == p)) db.members;
      projects = filter (λ q. not (q.id == p)) db.projects;
    }

-- Ids as the database mints them.
pub record IsMinted (db : Db) : Type 0 where
  pub connectors : Rising (λ (c : Connector). c.id) 0 db.next_id db.connectors
  pub rules : Rising (λ (r : AlertRule). r.id) 0 db.next_id db.alert_rules

delete_project_lem : (p : ℕ) (db : Db) → IsMinted db → delete_project p db ≡ erase p db
unfolding delete_project delete_rows
delete_project_lem p db i = rw (delete_connectors_lem (filter (of_project p) db.connectors) db) (
    rw (delete_rules_lem (rules_of p db) _) (
      rw
        (
          filter-ids_of (λ (c : Connector). c.id) (of_project p) 0 db.next_id db.connectors
              i.connectors,
          filter-ids_of (λ (r : AlertRule). r.id) (λ r. r.project_id == p) 0 db.next_id
              db.alert_rules i.rules,
        )
        refl))

-- A project is deleted only by an owner of it who gives its name. The deletion, table after table and
-- row after row, then leaves exactly the rows that are not of the project in the tables of projects,
-- members, invites, connectors, alert rules and dashboards, and in those of events, error groups,
-- annotations, status pages and alert states the rows that are not of one of its connectors or rules.
-- The authorization codes and the OAuth tokens stay, those of the project too.
pub delete_project_as_owner_lem :
    (trim : Text → Text) (auth : Option ℕ) (p : ℕ) (name : Text) (db db' : Db)
    → IsMinted db
    → delete_project_as_owner trim auth p name db ≡ ok db'
    → (m : Membership) × (require_project_member auth p db ≡ ok m)
      × (m.member.role ≡ owner)
      × (trim name ≡ m.project.name)
      × (db' ≡ erase p db)
      × (db'.auth_codes ≡ db.auth_codes)
      × (db'.oauth_tokens ≡ db.oauth_tokens)
unfolding delete_project_as_owner require_role
delete_project_as_owner_lem trim auth p name db db' i h =
    let (m, e, h₁) = ok_of_bind (require_project_member auth p db) _ _ h in
    let (u, allowed, h₂) = ok_of_bind (require_role m.member (owner ∷ [])) _ _ h₁ in
    let (v, same, h₃) =
      ok_of_bind (guard (text_eq (trim name) m.project.name) name_mismatch) _ _ h₂ in
    let deleted : db' ≡ delete_project p db = ground arith in
    let erased = deleted ∙ delete_project_lem p db i in
    (
      m,
      e,
      ground (arith, allowed),
      ground (arith, same),
      erased,
      ap (λ d. d.auth_codes) erased,
      ap (λ d. d.oauth_tokens) erased,
    )
