-- ===== src/Delivery/Kept.antt =====
-- packages/connector/src/event-outbox.ts: what was said of a batch when it was sent stays true while
-- the outbox keeps the batch.
use superbull.Common.{
  ℕ, ◌≤◌, ◌≡◌, ◌≢◌, refl, ap, List, [], ◌∷◌, ◌++◌, Option, none, some, Bool, true, false, Text,
  tail, lookup, delete, lookup-append_none, lookup-delete-none, ◌⊎◌, All_mono, all, all-tail, All,
  All-append, arith, inl, inr, ◌&&◌,
}
use superbull.Protocol.{IngestEvent, EventsFrame}
use superbull.Connector.Outbox.{Outbox, Effect, send, report_drop}
use superbull.Delivery.{frames_of}
use superbull.Connector.Outbox.Pending.{Batches}

abbrev is_none : Option (List IngestEvent) → Bool
is_none none = true
is_none (some x) = false

-- A key stands once.
abbrev pub is_map : Batches → Bool
is_map [] = true
is_map ((k, x) ∷ m) = is_none (lookup k m) && is_map m

pub is_map-delete : (k : Text) (m : Batches) → is_map m ≡ true → is_map (delete k m) ≡ true
unfolding delete lookup
is_map-delete k [] h = refl
is_map-delete k ((j, x) ∷ m) h = ground (arith, is_map-delete k m, lookup-delete-none j k m)

pub is_map-append :
    (k : Text) (x : List IngestEvent) (m : Batches)
    → lookup k m ≡ none
    → is_map m ≡ true
    → is_map (m ++ (k, x) ∷ []) ≡ true
unfolding lookup
is_map-append k x [] e h = refl
is_map-append k x ((j, y) ∷ m) e h = ground (arith, is_map-append k x m, lookup-append_none j k x m)

-- Each entry is found by its key.
pub is_map-lookup : (m : Batches) → is_map m ≡ true → All (λ b. lookup b.0 m ≡ some b.1) m
unfolding lookup
is_map-lookup [] h = tt
is_map-lookup ((k, x) ∷ m) h = (
  ground arith,
  All_mono (λ b. lookup b.0 m ≡ some b.1) (λ b. lookup b.0 ((k, x) ∷ m) ≡ some b.1) m
      (λ b e. go b.0 b.1 e (ground arith)) (is_map-lookup m (ground arith)),
)
  where
    go :
        (j : Text) (y : List IngestEvent)
        → lookup j m ≡ some y
        → lookup k m ≡ none
        → lookup j ((k, x) ∷ m) ≡ some y
    go j y e new = ground arith

pub frames_of-append : (xs ys : List Effect) → frames_of (xs ++ ys) ≡ frames_of xs ++ frames_of ys
frames_of-append [] ys = refl
frames_of-append (send f ∷ xs) ys = ap (◌∷◌ f) (frames_of-append xs ys)
frames_of-append (report_drop n ∷ xs) ys = frames_of-append xs ys

-- What holds of a batch holds of what is left of it.
abbrev pub IsClosed : (List IngestEvent → Type 0) → Type 0
IsClosed P = (batch : List IngestEvent) → P batch → P (tail batch)

-- Among the events of the frame.
abbrev pub Within : List IngestEvent → List IngestEvent → Type 0
Within whole part = (p : IngestEvent → Bool) → all p whole ≡ true → all p part ≡ true

pub Within-IsClosed : (whole : List IngestEvent) → IsClosed (Within whole)
Within-IsClosed whole batch w p h = all-tail p batch (w p h)

module _ (random_uuid : ℕ → Text) where
  -- `P` holds of the batch `k`, as long as the outbox keeps it; the id does not come again.
  pub record Guarded (P : List IngestEvent → Type 0) (k : Text) (o : Outbox) : Type 0 where
    pub old : (i : ℕ) → o.minted ≤ i → k ≢ random_uuid i
    pub kept : (batch : List IngestEvent) → lookup k o.unacked_batches ≡ some batch → P batch

  abbrev pub Covers : Outbox → EventsFrame → Type 0
  Covers o f = Guarded (Within f.events) f.batch_id o

  -- What a call leaves true, and of what it sends.
  pub record Kept (o : Outbox) (r : Outbox × List EventsFrame) : Type 1 where
    pub map : is_map r.0.unacked_batches ≡ true
    pub guards :
        (P : List IngestEvent → Type 0) (k : Text) → IsClosed P → Guarded P k o → Guarded P k r.0
    pub covered : All (Covers r.0) r.1

  pub Kept-trans :
      (o : Outbox) (r r' : Outbox × List EventsFrame)
      → Kept o r
      → Kept r.0 r'
      → Kept o (r'.0, r.1 ++ r'.1)
  Kept-trans o r r' a b = record {
    map = b.map;
    guards = λ P k c g. b.guards P k c (a.guards P k c g);
    covered =
        All-append (Covers r'.0) r.1 r'.1
          (All_mono (Covers r.0) (Covers r'.0) r.1
            (λ f g. b.guards (Within f.events) f.batch_id (Within-IsClosed f.events) g) a.covered)
          b.covered;
  }

  -- A call that adds no batch and sends nothing.
  pub quiet-Kept :
      (o o' : Outbox)
      → is_map o'.unacked_batches ≡ true
      → o'.minted ≡ o.minted
      → ((k : Text) (batch : List IngestEvent)
          → lookup k o'.unacked_batches ≡ some batch
          → (lookup k o.unacked_batches ≡ some batch)
            ⊎ ((whole : List IngestEvent) × (lookup k o.unacked_batches ≡ some whole)
                × (batch ≡ tail whole)))
      → Kept o (o', [])
  quiet-Kept o o' m same from = record {
    map = m;
    guards = λ P k c g. record {
      old = λ i h. g.old i (omega (arith, same));
      kept = λ batch e. elim (from k batch e) [
        | inl as_before ↦ g.kept batch as_before
        | inr (whole, was, shorter) ↦ rw shorter (c whole (g.kept whole was))
      ];
    };
    covered = tt;
  }
