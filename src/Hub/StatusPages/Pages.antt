-- ===== src/Hub/StatusPages/Pages.antt =====
-- apps/web/convex/statusPages.ts: a slug and a connector have one page each.
use superbull.Common.{
  ℕ, ◌≤◌, ◌≡◌, refl, ap, ◌∙◌, List, [], ◌∷◌, Option, none, some, Bool, true, false, not, ◌||◌, all,
  append-nil, Text, text_eq, ◌==◌, if◌then◌else◌, filter, filter-append, filter_one, count,
  count-append, find, arith, inl, inr, Bool-cases, Option-cases,
}
use mathlib.Core.Option
use superbull.Hub.Schema.{Db, StatusPage}
use superbull.Hub.Base.{
  ok, patch_where, unique, at_most_one-some, find-patch_where, Rising, Rising-append,
  Rising-patch_where, Result-cases,
}
use superbull.Hub.Access.{require_project_member}
use superbull.Hub.StatusPages.{
  Fields, with_fields, new_page, is_page, has_slug, is_of, is_other, write_page, existing_page,
  upsert,
}
use superbull.Hub.StatusPages.Patch.{
  id_of, one_if, find_page, patch-count, patch-others, free-held, own-held, filter_hit,
  at_most_one-none,
}

pub record IsValid (db : Db) : Type 0 where
  pub rising : Rising id_of 0 db.next_id db.status_pages
  pub slugs : (slug : Text) → count (λ p. text_eq p.slug slug) db.status_pages ≤ 1
  pub connectors : (c : ℕ) → count (λ p. p.connector_id == c) db.status_pages ≤ 1

-- The page that was written is the one of its slug and of its connector, with the fields that were given;
-- before, no page had the slug, or the connector's own did; and every other page is as it was.
pub record Written (f : Fields) (db : Db) (r : Db × StatusPage) : Type 0 where
  pub valid : IsValid r.0
  pub by_slug : filter (λ p. text_eq p.slug f.slug) r.0.status_pages ≡ r.1 ∷ []
  pub by_connector : filter (λ p. p.connector_id == f.connector_id) r.0.status_pages ≡ r.1 ∷ []
  pub shown :
      (r.1.title ≡ f.title) × (r.1.is_enabled ≡ f.is_enabled) × (r.1.queue_names ≡ f.queue_names)
  pub held :
      all (λ p. not (text_eq p.slug f.slug) || p.connector_id == f.connector_id) db.status_pages
      ≡ true
  pub others :
      filter (λ p. not (p.connector_id == f.connector_id)) r.0.status_pages
      ≡ filter (λ p. not (p.connector_id == f.connector_id)) db.status_pages

module _ (f : Fields) (db : Db) (v : IsValid db) where
  module _ (q : StatusPage → Bool) (e : StatusPage) (only : filter q db.status_pages ≡ e ∷ [])
      (of_connector : e.connector_id ≡ f.connector_id)
      (slug_free : count (has_slug f.slug) db.status_pages ≤ one_if (text_eq e.slug f.slug))
      (held : all (λ p. not (has_slug f.slug p) || is_of f.connector_id p) db.status_pages
        ≡ true) where
    abbrev after : List StatusPage
    after = patch_where (is_page e.id) (with_fields f) db.status_pages

    after-found : find (is_page e.id) after ≡ some (with_fields f e)
    after-found =
        find-patch_where (is_page e.id) (is_page e.id) (with_fields f) (λ p. refl) db.status_pages
        ∙ ap (Option.map (λ p. if is_page e.id p then with_fields f p else p))
            (find_page 0 db.next_id q db.status_pages e v.rising only)
        ∙ ground arith

    after-slugs : (slug : Text) → count (has_slug slug) after ≤ 1
    after-slugs slug =
        let counted =
          patch-count (has_slug slug) q (with_fields f) 0 db.next_id db.status_pages e v.rising
            only in
        elim (Bool-cases (text_eq f.slug slug)) [
          | inl mine ↦
              let same : slug ≡ f.slug = ground arith in
              rw same (ground (arith, rw same at counted, slug_free))
          | inr other ↦ ground (arith, counted, other, v.slugs slug)
        ]

    after-connectors : (c : ℕ) → count (is_of c) after ≤ 1
    after-connectors c = ground (
      arith,
      patch-count (is_of c) q (with_fields f) 0 db.next_id db.status_pages e v.rising only,
      of_connector,
      v.connectors c,
    )

    old-Written : Written f db (write_page f (some e) db)
    unfolding write_page
    old-Written = record {
      valid = record {
        rising =
            Rising-patch_where id_of (is_page e.id) (with_fields f) (λ p. refl) 0 db.next_id
              db.status_pages v.rising;
        slugs = after-slugs;
        connectors = after-connectors;
      };
      by_slug =
          filter_one (has_slug f.slug) (is_page e.id) after (with_fields f e) after-found
            (ground arith) (after-slugs f.slug);
      by_connector =
          filter_one (is_of f.connector_id) (is_page e.id) after (with_fields f e) after-found
            (ground arith) (after-connectors f.connector_id);
      shown = (refl, refl, refl);
      held = held;
      others = patch-others f 0 db.next_id q db.status_pages e v.rising only of_connector;
    }

  new-Written :
      filter (has_slug f.slug) db.status_pages ≡ []
      → filter (is_of f.connector_id) db.status_pages ≡ []
      → Written f db (write_page f none db)
  unfolding write_page
  new-Written no_slug no_page =
      let p = new_page f db.next_id in
      record {
        valid = record {
          rising = Rising-append id_of 0 db.next_id db.status_pages p v.rising refl;
          slugs = λ slug. elim (Bool-cases (text_eq f.slug slug)) [
            | inl mine ↦
                let same : slug ≡ f.slug = ground arith in
                rw same
                  (ground (arith, count-append (has_slug f.slug) db.status_pages (p ∷ []), no_slug))
            | inr other ↦
                ground (
                  arith,
                  count-append (has_slug slug) db.status_pages (p ∷ []),
                  v.slugs slug,
                  other,
                )
          ];
          connectors = λ c. elim (Bool-cases (f.connector_id == c)) [
            | inl mine ↦
                let same : c ≡ f.connector_id = ground arith in
                rw same (
                  ground
                    (arith, count-append (is_of f.connector_id) db.status_pages (p ∷ []), no_page))
            | inr other ↦
                ground
                  (arith, count-append (is_of c) db.status_pages (p ∷ []), v.connectors c, other)
          ];
        };
        by_slug =
            rw (filter-append (has_slug f.slug) db.status_pages (p ∷ []), no_slug) (ground arith);
        by_connector =
            rw (filter-append (is_of f.connector_id) db.status_pages (p ∷ []), no_page)
              (ground arith);
        shown = (refl, refl, refl);
        held = free-held f db.status_pages no_slug;
        others =
            filter-append (λ s. not (s.connector_id == f.connector_id)) db.status_pages (p ∷ [])
            ∙ ground (
              arith,
              append-nil (filter (λ s. not (s.connector_id == f.connector_id)) db.status_pages),
            );
      }

upserted_only :
    (auth : Option ℕ) (f : Fields) (db : Db) (r : Db × StatusPage)
    → upsert auth f db ≡ ok r
    → (by_slug : Option StatusPage) × (existing : Option StatusPage) × (unique
          (has_slug f.slug)
          db.status_pages
        ≡ ok by_slug)
      × (is_other f.connector_id by_slug ≡ false)
      × (existing_page f by_slug db ≡ ok existing)
      × (write_page f existing db ≡ r)
unfolding upsert
upserted_only auth f db r h = elim (Result-cases (require_project_member auth f.project_id db)) [
  | inr (why, stranger) ↦ absurd (ground arith)
  | inl (m, member) ↦ elim (Option-cases (find (λ c. c.id == f.connector_id) db.connectors)) [
    | inl unknown ↦ absurd (ground arith)
    | inr (c, known) ↦ elim (Result-cases (unique (has_slug f.slug) db.status_pages)) [
      | inr (why, twice) ↦ absurd (ground arith)
      | inl (by_slug, found) ↦ elim (Result-cases (existing_page f by_slug db)) [
        | inr (why, twice) ↦ absurd (ground arith)
        | inl (existing, e) ↦ (by_slug, existing, found, ground arith, e, ground arith)
      ]
    ]
  ]
]

-- What an upsert returns is, from then on, the one page of its slug and the one page of its connector,
-- with the title, the queues and the switch that were given. No public link changes hands: before, the slug
-- was free or was the connector's own, and the pages of all other connectors are as they were. Every slug
-- and every connector still has one page at most.
pub upsert-Written :
    (auth : Option ℕ) (f : Fields) (db : Db) (r : Db × StatusPage)
    → IsValid db
    → upsert auth f db ≡ ok r
    → Written f db r
unfolding existing_page
upsert-Written auth f db r v h =
    let (by_slug, existing, found, mine, e, written) = upserted_only auth f db r h in
    rw⁻¹ written (go by_slug existing found mine e)
  where
    go :
        (by_slug existing : Option StatusPage)
        → unique (has_slug f.slug) db.status_pages ≡ ok by_slug
        → is_other f.connector_id by_slug ≡ false
        → existing_page f by_slug db ≡ ok existing
        → Written f db (write_page f existing db)
    go (some p) none found mine e = absurd (ground arith)
    go (some p) (some p') found mine e =
        let same : p' ≡ p = ground arith in
        let only = at_most_one-some (filter (has_slug f.slug) db.status_pages) p found in
        rw same (
          old-Written f db v (has_slug f.slug) p only (ground arith)
            (ground (arith, filter_hit (has_slug f.slug) db.status_pages p only, v.slugs f.slug))
            (own-held f db.status_pages p only (ground arith)))
    go none none found mine e = new-Written f db v (at_most_one-none _ found) (at_most_one-none _ e)
    go none (some p) found mine e =
        let only = at_most_one-some (filter (is_of f.connector_id) db.status_pages) p e in
        old-Written f db v (is_of f.connector_id) p only
          (ground (arith, filter_hit (is_of f.connector_id) db.status_pages p only))
          (ground (arith, at_most_one-none (filter (has_slug f.slug) db.status_pages) found))
          (free-held f db.status_pages
            (at_most_one-none (filter (has_slug f.slug) db.status_pages) found))
