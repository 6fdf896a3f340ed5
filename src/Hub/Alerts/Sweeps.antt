-- ===== src/Hub/Alerts/Sweeps.antt =====
-- apps/web/convex/alerts.ts: sweep after sweep of `evaluate`.
use superbull.Common.{
  ℕ, max, ◌≡◌, refl, sym, List, [], ◌∷◌, ◌++◌, Option, none, some, Bool, true, false, not, ◌==◌,
  Text, filter, filter-append, arith, inl, inr, Bool-cases,
}
use superbull.Hub.Schema.{Db, AlertRule, firing, resolved}
use superbull.Hub.Base.{Result, ok, ◌>>=◌, Rising-mono}
use superbull.Hub.Access.{has_valid_internal_token, require_internal_token}
use superbull.Hub.Alerts.Status.{Status, compute_rule_status}
use superbull.Hub.Alerts.Evaluate.{NotifyEntry, push_entry, window_start, evaluate_rules, evaluate}
use superbull.Hub.Alerts.Edges.{IsValid, id_of, flag, differs, Applied, evaluate_rule-Applied}

abbrev of_rule : ℕ → NotifyEntry → Bool
of_rule q e = e.rule_id == q

abbrev fires : NotifyEntry → Bool
fires e = elim e.kind [ firing ↦ true | resolved ↦ false ]

-- Notifications of one rule that lead from firing or not to firing or not, each to the other.
abbrev pub Alternates : Bool → List NotifyEntry → Bool → Type 0
Alternates before [] after = after ≡ before
Alternates before (e ∷ entries) after =
    (fires e ≡ not before) × Alternates (not before) entries after

Alternates-append :
    (a b c : Bool) (xs ys : List NotifyEntry)
    → Alternates a xs b
    → Alternates b ys c
    → Alternates a (xs ++ ys) c
Alternates-append a b c [] ys h k = rw (sym h) k
Alternates-append a b c (e ∷ xs) ys h k = (h.0, Alternates-append (not a) b c xs ys h.1 k)

-- For every rule, the notifications among these entries.
abbrev pub Alternating : Db → List NotifyEntry → Db → Type 0
Alternating db entries db' =
    (q : ℕ) → Alternates (flag q db) (filter (of_rule q) entries) (flag q db')

entry-Alternating :
    (r : AlertRule) (db : Db) (v : IsValid db) (status : Status) (db' : Db)
    (entry : Option NotifyEntry)
    → Applied r db v status db' entry
    → Alternating db (push_entry entry []) db'
entry-Alternating r db v status db' entry a q =
    elim (Bool-cases (differs (flag r.id db) status.firing)) [
      | inl change ↦
          rw (a.told, a.flags q)
            (elim (Bool-cases (r.id == q)) [
              | inl mine ↦ let same : q ≡ r.id = ground arith in rw same (ground arith)
              | inr other ↦ ground arith
            ])
      | inr quiet ↦
          rw (a.told, a.flags q)
            (elim (Bool-cases (r.id == q)) [
              | inl mine ↦ let same : q ≡ r.id = ground arith in rw same (ground arith)
              | inr other ↦ ground arith
            ])
    ]

push-Alternating :
    (q : ℕ) (entry : Option NotifyEntry) (entries : List NotifyEntry) (a b c : Db)
    → Alternates (flag q a) (filter (of_rule q) (push_entry entry [])) (flag q b)
    → Alternates (flag q b) (filter (of_rule q) entries) (flag q c)
    → Alternates (flag q a) (filter (of_rule q) (push_entry entry entries)) (flag q c)
push-Alternating q none entries a b c h k = rw (sym h) k
push-Alternating q (some e) entries a b c h k = rw (filter-append (of_rule q) (e ∷ []) entries) (
    Alternates-append (flag q a) (flag q b) (flag q c) (filter (of_rule q) (e ∷ []))
      (filter (of_rule q) entries) h k)

evaluate_rules-Alternating :
    (now : ℕ) (rules : List AlertRule) (db : Db)
    → IsValid db
    → (db' : Db) × (entries : List NotifyEntry) × (evaluate_rules now rules db ≡ ok (db', entries))
      × IsValid db'
      × Alternating db entries db'
unfolding evaluate_rules
evaluate_rules-Alternating now [] db v = (db, [], refl, v, λ q. refl)
evaluate_rules-Alternating now (r ∷ rules) db v =
    let (d, entry, e, a) = evaluate_rule-Applied r db v now in
    let (db', entries, f, w, k) = evaluate_rules-Alternating now rules d a.valid in
    let first =
      entry-Alternating r db v (compute_rule_status r (window_start now r) db) d entry a in
    (
      db',
      push_entry entry entries,
      rw (e, f) refl,
      w,
      λ q. push-Alternating q entry entries db d db' (first q) (k q),
    )

-- What the world looks like when a sweep starts: everything but the states may have changed since
-- the last one.
abbrev pub with_states : Db → Db → Db
with_states db world = record world {
  alert_states = db.alert_states;
  next_id = max db.next_id world.next_id;
}

with_states-IsValid : (db world : Db) → IsValid db → IsValid (with_states db world)
with_states-IsValid db world v = record {
  rising =
      Rising-mono id_of 0 db.next_id (max db.next_id world.next_id) db.alert_states (omega arith)
        v.rising;
  once = v.once;
}

-- Sweeps at given times over given worlds, the states carried along: the last database, and every
-- entry in order.
unfoldable pub sweeps : Option Text → Text → List (ℕ × Db) → Db → Result (Db × List NotifyEntry)
sweeps configured token [] db = ok (db, [])
sweeps configured token ((now, world) ∷ worlds) db = do
  (db', n, entries) ← evaluate configured now token (with_states db world)
  (db'', rest) ← sweeps configured token worlds db'
  ok (db'', entries ++ rest)

module _ (configured : Option Text) (token : Text) where
  -- With the internal token, and valid states to start with, any number of sweeps goes through,
  -- whatever else changes between them; and the notifications of each rule alternate between firing
  -- and resolved, from what the rule was before to what it is after.
  pub sweeps-Alternating :
      (worlds : List (ℕ × Db)) (db : Db)
      → IsValid db
      → has_valid_internal_token configured (some token) ≡ true
      → (db' : Db) × (entries : List NotifyEntry) × (sweeps configured token worlds db
          ≡ ok (db', entries))
        × Alternating db entries db'
  unfolding sweeps evaluate require_internal_token
  sweeps-Alternating [] db v a = (db, [], refl, λ q. refl)
  sweeps-Alternating ((now, world) ∷ worlds) db v a =
      let (d, entries, e, w, k) =
        evaluate_rules-Alternating now (filter (λ r. r.is_enabled) world.alert_rules)
          (with_states db world) (with_states-IsValid db world v) in
      let (db', rest, f, l) = sweeps-Alternating worlds d w a in
      (
        db',
        entries ++ rest,
        rw (a, e, f) refl,
        λ q. rw (filter-append (of_rule q) entries rest) (
            Alternates-append (flag q db) (flag q d) (flag q db') (filter (of_rule q) entries)
              (filter (of_rule q) rest) (k q) (l q)),
      )
