-- ===== src/Connector/Outbox/Capacity.antt =====
-- packages/connector/src/event-outbox.ts: the cap on buffered and unacknowledged events.
use superbull.Common.{
  ℕ, ◌+◌, ◌≤◌, ◌<◌, ◌≡◌, refl, ◌∙◌, List, [], ◌∷◌, ◌++◌, append_assoc, none, some, Text, length,
  tail, ltb, leb, if◌then◌else◌, lookup, delete, lookup-delete-none, length-append, arith, All,
  Bool-cases, inl, inr,
}
use superbull.Protocol.{IngestEvent}
use superbull.Connector.Outbox.{Options, Outbox, Effect, total_count, drop_oldest, admit, enqueue}
use superbull.Connector.Outbox.Pending.{
  Batches, events_of, pending, total_count-length, FitsFrame, IsValid,
}
use superbull.Connector.Outbox.Flush.{flush-Flushed}

-- The queue that the outbox promises: one event in, and past the cap the oldest out.
abbrev pub bounded_push : ℕ → IngestEvent → List IngestEvent → List IngestEvent
bounded_push cap event queue =
    if ltb cap (length (queue ++ event ∷ []))
    then tail (queue ++ event ∷ [])
    else queue ++ event ∷ []

pub length-bounded_push :
    (cap : ℕ) (event : IngestEvent) (queue : List IngestEvent)
    → length queue ≤ cap
    → length (bounded_push cap event queue) ≤ cap
length-bounded_push cap event [] h = ground arith
length-bounded_push cap event (x ∷ queue) h = ground (arith, length-append queue (event ∷ []))

lookup-shortened :
    (k j : Text) (events events' : List IngestEvent) (rest : Batches)
    → lookup k ((j, events) ∷ rest) ≡ none
    → lookup k ((j, events') ∷ rest) ≡ none
unfolding lookup
lookup-shortened k j events events' rest h = ground arith

module _ (random_uuid : ℕ → Text) (opts : Options) where
  drop_oldest-pending :
      (o : Outbox) → IsValid random_uuid opts o → pending (drop_oldest o) ≡ tail (pending o)
  unfolding drop_oldest pending events_of delete
  drop_oldest-pending o v = go o.unacked_batches refl
    where
      go : (b : Batches) → o.unacked_batches ≡ b → pending (drop_oldest o) ≡ tail (pending o)
      go [] e = ground arith
      go ((k, []) ∷ rest) e = absurd (ground arith)
      go ((k, x ∷ []) ∷ rest) e = ground arith
      go ((k, x ∷ y ∷ events) ∷ rest) e = ground arith

  drop_oldest-fits :
      (o : Outbox)
      → IsValid random_uuid opts o
      → All (FitsFrame opts.max_batch_size) (drop_oldest o).unacked_batches
  unfolding drop_oldest delete
  drop_oldest-fits o v = go o.unacked_batches refl
    where
      go :
          (b : Batches)
          → o.unacked_batches ≡ b
          → All (FitsFrame opts.max_batch_size) (drop_oldest o).unacked_batches
      go [] e = ground arith
      go ((k, []) ∷ rest) e = absurd (ground arith)
      go ((k, x ∷ []) ∷ rest) e = ground arith
      go ((k, x ∷ y ∷ events) ∷ rest) e = ground arith

  drop_oldest-fresh :
      (o : Outbox) (k : Text)
      → lookup k o.unacked_batches ≡ none
      → lookup k (drop_oldest o).unacked_batches ≡ none
  unfolding drop_oldest
  drop_oldest-fresh o k h = go o.unacked_batches refl
    where
      go : (b : Batches) → o.unacked_batches ≡ b → lookup k (drop_oldest o).unacked_batches ≡ none
      go [] e = ground arith
      go ((j, events) ∷ rest) e = ground (
        arith,
        lookup-delete-none k j o.unacked_batches,
        lookup-shortened k j events (tail events) rest,
      )

  drop_oldest-minted : (o : Outbox) → (drop_oldest o).minted ≡ o.minted
  unfolding drop_oldest
  drop_oldest-minted o = ground arith

  drop_oldest-IsValid :
      (o : Outbox) → IsValid random_uuid opts o → IsValid random_uuid opts (drop_oldest o)
  drop_oldest-IsValid o v = record {
    fits = drop_oldest-fits o v;
    fresh = λ i h. drop_oldest-fresh o (random_uuid i) (v.fresh i (rw (← drop_oldest-minted o) h));
  }

  drop_oldest-quiet :
      (o : Outbox)
      → ((drop_oldest o).cursors ≡ o.cursors) × ((drop_oldest o).has_transport ≡ o.has_transport)
  unfolding drop_oldest
  drop_oldest-quiet o = ground arith

  pub admit-IsValid :
      (event : IngestEvent) (o : Outbox)
      → IsValid random_uuid opts o
      → IsValid random_uuid opts (admit opts event o).0
  unfolding admit
  admit-IsValid event o v =
      let o' : Outbox = record o { buffer = o.buffer ++ event ∷ [] } in
      let v' : IsValid random_uuid opts o' = record { fits = v.fits; fresh = v.fresh } in
      let kept = drop_oldest-IsValid o' v' in
      elim (Bool-cases (ltb opts.max_buffered_events (total_count o'))) [
        | inl full ↦ rw full (record { fits = kept.fits; fresh = kept.fresh })
        | inr room ↦ rw room v'
      ]

  pub admit-pending :
      (event : IngestEvent) (o : Outbox)
      → IsValid random_uuid opts o
      → pending (admit opts event o).0 ≡ bounded_push opts.max_buffered_events event (pending o)
  unfolding admit pending
  admit-pending event o v =
      let o' : Outbox = record o { buffer = o.buffer ++ event ∷ [] } in
      let v' : IsValid random_uuid opts o' = record { fits = v.fits; fresh = v.fresh } in
      ground (
        arith,
        total_count-length o',
        append_assoc (events_of o.unacked_batches) o.buffer (event ∷ []),
        drop_oldest-pending o' v',
      )

  pub admit-quiet :
      (event : IngestEvent) (o : Outbox)
      → ((admit opts event o).0.cursors ≡ o.cursors)
        × ((admit opts event o).0.has_transport ≡ o.has_transport)
  unfolding admit
  admit-quiet event o =
      ground (arith, drop_oldest-quiet (record o { buffer = o.buffer ++ event ∷ [] }))

  pub admit-dropped :
      (event : IngestEvent) (o : Outbox)
      → (admit opts event o).0.total_dropped ≡ (
          if ltb opts.max_buffered_events (length (pending o ++ event ∷ []))
          then o.total_dropped + 1
          else o.total_dropped)
  unfolding admit pending
  admit-dropped event o =
      let o' : Outbox = record o { buffer = o.buffer ++ event ∷ [] } in
      ground (
        arith,
        total_count-length o',
        append_assoc (events_of o.unacked_batches) o.buffer (event ∷ []),
      )

-- What `enqueue` promises.
pub record Enqueued (random_uuid : ℕ → Text) (opts : Options) (event : IngestEvent) (o o' : Outbox)
    : Type 0 where
  pub valid : IsValid random_uuid opts o'
  pub pushed : pending o' ≡ bounded_push opts.max_buffered_events event (pending o)
  pub cursors : o'.cursors ≡ o.cursors
  pub transport : o'.has_transport ≡ o.has_transport
  pub dropped : o'.total_dropped ≡ (
      if ltb opts.max_buffered_events (length (pending o ++ event ∷ []))
      then o.total_dropped + 1
      else o.total_dropped)
  pub drained : 0 < opts.batch_size → length o'.buffer < opts.batch_size

module _ (random_uuid : ℕ → Text) (opts : Options)
    (injective : (i j : ℕ) → random_uuid i ≡ random_uuid j → i ≡ j)
    (positive : 0 < opts.max_batch_size) where
  -- On a valid outbox, with a positive frame limit and ids that never repeat, `enqueue` returns;
  -- the undelivered events are then those of the bounded queue with the new event at the end (the
  -- oldest one gone if the cap was passed), the outbox is valid, the cursors are unchanged, and
  -- fewer than `batch_size` events are left in the buffer.
  pub enqueue-Enqueued :
      (event : IngestEvent) (o : Outbox)
      → IsValid random_uuid opts o
      → (r : Outbox × List Effect) × (enqueue random_uuid opts event o ≡ some r)
        × Enqueued random_uuid opts event o r.0
  unfolding enqueue
  enqueue-Enqueued event o v =
      let o' = (admit opts event o).0 in
      let v' = admit-IsValid random_uuid opts event o v in
      let pushed = admit-pending random_uuid opts event o v in
      let quiet = admit-quiet random_uuid opts event o in
      elim (Bool-cases (leb opts.batch_size (length o'.buffer))) [
        | inl due ↦
            let (r, e, f) = flush-Flushed random_uuid opts injective positive o' v' in
            (
              (r.0, (admit opts event o).1 ++ r.1),
              rw (due, e),
              record {
                valid = f.valid;
                pushed = f.same ∙ pushed;
                cursors = f.cursors ∙ quiet.0;
                transport = f.transport ∙ quiet.1;
                dropped = f.dropped ∙ admit-dropped random_uuid opts event o;
                drained = λ h. rw f.emptied h;
              },
            )
        | inr early ↦ (
          admit opts event o,
          rw early,
          record {
            valid = v';
            pushed = pushed;
            cursors = quiet.0;
            transport = quiet.1;
            dropped = admit-dropped random_uuid opts event o;
            drained = λ h. ground arith;
          },
        )
      ]
