-- ===== src/Connector/Outbox/Pending.antt =====
-- packages/connector/src/event-outbox.ts: the outbox as one queue of undelivered events.
use superbull.Common.{
  ℕ, ◌≤◌, ◌<◌, ◌≡◌, refl, sym, List, [], ◌∷◌, ◌++◌, append-nil, append_assoc, none, Text, length,
  take, min, lookup, insert_new, lookup-append_none, length-append, length-take, length-drop,
  take-append-drop, arith, All, All-append,
}
use superbull.Protocol.{IngestEvent}
use superbull.Connector.Outbox.{Options, Outbox, unacked_count, total_count, flush_chunk}

abbrev pub Batches : Type 0
Batches = List (Text × List IngestEvent)

-- The events of the batches, in order.
unfoldable pub events_of : Batches → List IngestEvent
events_of [] = []
events_of ((_, events) ∷ batches) = events ++ events_of batches

-- Oldest first: what is not yet acknowledged.
unfoldable pub pending : Outbox → List IngestEvent
pending o = events_of o.unacked_batches ++ o.buffer

pub events_of-append : (xs ys : Batches) → events_of (xs ++ ys) ≡ events_of xs ++ events_of ys
unfolding events_of
events_of-append [] ys = refl
events_of-append ((k, events) ∷ xs) ys =
    rw (events_of-append xs ys) (sym (append_assoc events (events_of xs) (events_of ys)))

unacked_count-length : (xs : Batches) → unacked_count xs ≡ length (events_of xs)
unfolding events_of unacked_count
unacked_count-length [] = refl
unacked_count-length ((k, events) ∷ xs) =
    omega (arith, unacked_count-length xs, length-append events (events_of xs))

pub total_count-length : (o : Outbox) → total_count o ≡ length (pending o)
unfolding total_count pending
total_count-length o = omega (
  arith,
  unacked_count-length o.unacked_batches,
  length-append (events_of o.unacked_batches) o.buffer,
)

-- A batch that may be on the wire: it holds an event, and no more than a frame may.
abbrev pub FitsFrame : ℕ → Text × List IngestEvent → Type 0
FitsFrame limit (_, events) = (0 < length events) × (length events ≤ limit)

module _ (random_uuid : ℕ → Text) (opts : Options) where
  pub record IsValid (o : Outbox) : Type 0 where
    pub fits : All (FitsFrame opts.max_batch_size) o.unacked_batches
    pub fresh : (i : ℕ) → o.minted ≤ i → lookup (random_uuid i) o.unacked_batches ≡ none

module _ (random_uuid : ℕ → Text) (opts : Options)
    (injective : (i j : ℕ) → random_uuid i ≡ random_uuid j → i ≡ j)
    (positive : 0 < opts.max_batch_size) where
  abbrev pub Valid : Outbox → Type 0
  Valid = IsValid random_uuid opts

  -- The chunk goes from the buffer to the end of the batches.
  pub flush_chunk-batches :
      (o : Outbox)
      → Valid o
      → (flush_chunk random_uuid opts o).0.unacked_batches
        ≡ o.unacked_batches
          ++ (random_uuid o.minted, take (min opts.max_batch_size (length o.buffer)) o.buffer) ∷ []
  unfolding flush_chunk
  flush_chunk-batches o v = insert_new _ _ o.unacked_batches (v.fresh o.minted (omega arith))

  pub flush_chunk-pending :
      (o : Outbox) → Valid o → pending (flush_chunk random_uuid opts o).0 ≡ pending o
  unfolding pending events_of flush_chunk
  flush_chunk-pending o v =
      let n = min opts.max_batch_size (length o.buffer) in
      rw (insert_new _ _ o.unacked_batches (v.fresh o.minted (omega arith))) (
        rw (events_of-append o.unacked_batches ((random_uuid o.minted, take n o.buffer) ∷ []))
          (simp (append_assoc, append-nil, take-append-drop) refl))

  pub flush_chunk-IsValid :
      (o : Outbox) → 0 < length o.buffer → Valid o → Valid (flush_chunk random_uuid opts o).0
  unfolding flush_chunk
  flush_chunk-IsValid o h v = record {
    fits = rw (insert_new _ _ o.unacked_batches (v.fresh o.minted (omega arith))) (
        All-append _ o.unacked_batches _ v.fits (
          (
            omega (arith, length-take (min opts.max_batch_size (length o.buffer)) o.buffer),
            omega (arith, length-take (min opts.max_batch_size (length o.buffer)) o.buffer),
          ),
          tt,
        ));
    fresh = λ i hi. rw (insert_new _ _ o.unacked_batches (v.fresh o.minted (omega arith))) (
        lookup-append_none _ _ _ o.unacked_batches (v.fresh i (omega arith))
          (λ e. absurd (omega (arith, injective o.minted i e))));
  }

  pub flush_chunk-shrinks :
      (o : Outbox)
      → 0 < length o.buffer
      → length (flush_chunk random_uuid opts o).0.buffer < length o.buffer
  unfolding flush_chunk
  flush_chunk-shrinks o h =
      omega (arith, length-drop (min opts.max_batch_size (length o.buffer)) o.buffer)
