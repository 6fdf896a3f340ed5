-- ===== src/Connector/Outbox/Accounts.antt =====
-- packages/connector/src/event-outbox.ts: no event is lost or made up, whatever is called.
use superbull.Common.{
  ℕ, ◌+◌, ◌≤◌, ◌<◌, ◌≡◌, refl, ap, ◌∙◌, List, [], ◌∷◌, ◌++◌, append_assoc, append-nil, some, Bool,
  Text, length, length-append, count, count-append, take, tail, ltb, if◌then◌else◌, lookup, delete,
  lookup-delete-none, All, arith, Option-cases, inl, inr,
}
use superbull.Protocol.{IngestEvent}
use superbull.Connector.Outbox.{Options, Outbox, empty, ack, set_transport}
use superbull.Connector.Outbox.Pending.{Batches, events_of, pending, FitsFrame, IsValid}
use superbull.Connector.Outbox.Flush.{flush-Flushed}
use superbull.Connector.Outbox.Capacity.{bounded_push, length-bounded_push, enqueue-Enqueued}
use superbull.Connector.Outbox.History.{
  Call, enqueues, flushes, resends, acks, attaches, step, Ledger, note, run, entered, Balanced,
}

count-events_of-delete :
    (p : IngestEvent → Bool) (k : Text) (m : Batches) (events : List IngestEvent)
    → lookup k m ≡ some events
    → count p (events_of m) ≡ count p events + count p (events_of (delete k m))
unfolding lookup delete events_of
count-events_of-delete p k [] events h = absurd (ground arith)
count-events_of-delete p k ((j, x) ∷ m) events h = ground (
  arith,
  count-append p x (events_of m),
  count-append p x (events_of (delete k m)),
  count-events_of-delete p k m events,
)

length-events_of-delete :
    (k : Text) (m : Batches) → length (events_of (delete k m)) ≤ length (events_of m)
unfolding delete events_of
length-events_of-delete k [] = omega arith
length-events_of-delete k ((j, x) ∷ m) = ground (
  arith,
  length-append x (events_of m),
  length-append x (events_of (delete k m)),
  length-events_of-delete k m,
)

fits-delete :
    (limit : ℕ) (k : Text) (m : Batches)
    → All (FitsFrame limit) m
    → All (FitsFrame limit) (delete k m)
unfolding delete
fits-delete limit k [] h = tt
fits-delete limit k ((j, x) ∷ m) h = ground (arith, fits-delete limit k m h.1)

count-tail :
    (p : IngestEvent → Bool) (xs : List IngestEvent)
    → count p xs ≡ count p (tail xs) + count p (take 1 xs)
count-tail p [] = refl
count-tail p (x ∷ xs) = ground arith

length-take-append :
    (xs : List IngestEvent) (event : IngestEvent) → length (take 1 (xs ++ event ∷ [])) ≡ 1
length-take-append [] event = refl
length-take-append (x ∷ xs) event = refl

module _ (random_uuid : ℕ → Text) (opts : Options) where
  ack-IsValid :
      (k : Text) (o : Outbox) → IsValid random_uuid opts o → IsValid random_uuid opts (ack k o)
  unfolding ack
  ack-IsValid k o v = elim (Option-cases (lookup k o.unacked_batches)) [
    | inl unknown ↦ rw (unknown, ack) v
    | inr (events, found) ↦
        rw (found, ack)
          (record {
            fits = fits-delete opts.max_batch_size k o.unacked_batches v.fits;
            fresh = λ i h. lookup-delete-none (random_uuid i) k o.unacked_batches (v.fresh i h);
          })
  ]

  ack-Balanced :
      (k : Text) (came : List IngestEvent) (o : Outbox) (l : Ledger)
      → Balanced random_uuid opts came o l
      → Balanced random_uuid opts came (ack k o) (note opts (acks k) o l)
  unfolding ack note pending
  ack-Balanced k came o l b = elim (Option-cases (lookup k o.unacked_batches)) [
    | inl unknown ↦ rw (unknown, ack, note) b
    | inr (events, found) ↦ record {
      valid = ack-IsValid k o b.valid;
      bounded = ground (
        arith,
        length-append (events_of o.unacked_batches) o.buffer,
        length-append (events_of (delete k o.unacked_batches)) o.buffer,
        length-events_of-delete k o.unacked_batches,
        b.bounded,
      );
      balance = λ p. ground (
        arith,
        count-append p (events_of o.unacked_batches) o.buffer,
        count-append p (events_of (delete k o.unacked_batches)) o.buffer,
        count-append p l.acked events,
        count-events_of-delete p k o.unacked_batches events found,
        b.balance p,
      );
      tally = ground (arith, b.tally);
    }
  ]

  count-bounded_push :
      (p : IngestEvent → Bool) (event : IngestEvent) (o : Outbox) (l : Ledger)
      → count p (bounded_push opts.max_buffered_events event (pending o))
          + count p (note opts (enqueues event) o l).dropped
        ≡ count p (pending o) + count p (event ∷ []) + count p l.dropped
  unfolding note
  count-bounded_push p event o l = ground (
    arith,
    count-append p (pending o) (event ∷ []),
    count-tail p (pending o ++ event ∷ []),
    count-append p l.dropped (take 1 (pending o ++ event ∷ [])),
  )

  note-tally :
      (event : IngestEvent) (o : Outbox) (l : Ledger)
      → ((note opts (enqueues event) o l).acked ≡ l.acked)
        × (length (note opts (enqueues event) o l).dropped ≡ (
            if ltb opts.max_buffered_events (length (pending o ++ event ∷ []))
            then length l.dropped + 1
            else length l.dropped))
  unfolding note
  note-tally event o l = ground (
    arith,
    length-append l.dropped (take 1 (pending o ++ event ∷ [])),
    length-take-append (pending o) event,
  )

module _ (random_uuid : ℕ → Text) (opts : Options)
    (injective : (i j : ℕ) → random_uuid i ≡ random_uuid j → i ≡ j)
    (positive : 0 < opts.max_batch_size) where
  abbrev Books : List IngestEvent → Outbox → Ledger → Type 0
  Books = Balanced random_uuid opts

  enqueue-Balanced :
      (event : IngestEvent) (came : List IngestEvent) (o : Outbox) (l : Ledger)
      → Books came o l
      → (o' : Outbox) × (step random_uuid opts (enqueues event) o ≡ some o')
        × Books (came ++ event ∷ []) o' (note opts (enqueues event) o l)
  unfolding step
  enqueue-Balanced event came o l b =
      let (r, e, q) = enqueue-Enqueued random_uuid opts injective positive event o b.valid in
      (
        r.0,
        rw e,
        record {
          valid = q.valid;
          bounded =
              rw q.pushed
                (length-bounded_push opts.max_buffered_events event (pending o) b.bounded);
          balance = λ p. rw q.pushed (
              omega (
                arith,
                count-append p came (event ∷ []),
                count-bounded_push random_uuid opts p event o l,
                b.balance p,
                ap (count p) (note-tally random_uuid opts event o l).0,
              ));
          tally = ground (arith, q.dropped, b.tally, (note-tally random_uuid opts event o l).1);
        },
      )

  flush-Balanced :
      (came : List IngestEvent) (o : Outbox) (l : Ledger)
      → Books came o l
      → (o' : Outbox) × (step random_uuid opts flushes o ≡ some o') × Books came o' l
  unfolding step
  flush-Balanced came o l b =
      let (r, e, f) = flush-Flushed random_uuid opts injective positive o b.valid in
      (
        r.0,
        rw e,
        record {
          valid = f.valid;
          bounded = rw f.same b.bounded;
          balance = λ p. rw f.same (b.balance p);
          tally = f.dropped ∙ b.tally;
        },
      )

  pub step-Balanced :
      (c : Call) (came : List IngestEvent) (o : Outbox) (l : Ledger)
      → Books came o l
      → (o' : Outbox) × (step random_uuid opts c o ≡ some o')
        × Books (came ++ entered (c ∷ [])) o' (note opts c o l)
  unfolding entered
  step-Balanced (enqueues event) came o l b = enqueue-Balanced event came o l b
  step-Balanced flushes came o l b =
      let (o', e, b') = flush-Balanced came o l b in (o', e, unfold note in rw (append-nil came) b')
  step-Balanced resends came o l b = (o, unfold step in refl, unfold note in rw (append-nil came) b)
  step-Balanced (acks k) came o l b = (
    ack k o,
    unfold step in refl,
    rw (append-nil came) (ack-Balanced random_uuid opts k came o l b),
  )
  step-Balanced (attaches attached) came o l b = (
    set_transport attached o,
    unfold step in refl,
    unfold note set_transport in
        rw (append-nil came) (record {
          valid = record { fits = b.valid.fits; fresh = b.valid.fresh };
          bounded = unfold pending in b.bounded;
          balance = unfold pending in b.balance;
          tally = b.tally;
        }),
  )

  entered-cons :
      (c : Call) (calls : List Call) → entered (c ∷ calls) ≡ entered (c ∷ []) ++ entered calls
  unfolding entered
  entered-cons (enqueues event) calls = refl
  entered-cons _ calls = refl

  run-Balanced :
      (calls : List Call) (came : List IngestEvent) (o : Outbox) (l : Ledger)
      → Books came o l
      → (r : Outbox × Ledger) × (run random_uuid opts calls o l ≡ some r)
        × Books (came ++ entered calls) r.0 r.1
  unfolding run
  run-Balanced [] came o l b = ((o, l), refl, unfold entered in rw (append-nil came) b)
  run-Balanced (c ∷ calls) came o l b =
      let (o', e, b') = step-Balanced c came o l b in
      let (r, e', b'') = run-Balanced calls (came ++ entered (c ∷ [])) o' (note opts c o l) b' in
      (
        r,
        rw (e, run) e',
        rw (entered-cons c calls)
            (rw (append_assoc came (entered (c ∷ [])) (entered calls)) at b''),
      )

  -- From the empty outbox, with a positive frame limit and ids that never repeat, every sequence
  -- of calls runs to its end, and the books balance: each event that was enqueued is undelivered,
  -- acknowledged or dropped (counted under any test), the undelivered ones are within the cap, and
  -- the drop count is the number of dropped events.
  pub run-empty-Balanced :
      (calls : List Call)
      → (r : Outbox × Ledger) × (run random_uuid opts calls empty
            (record { acked = []; dropped = [] })
          ≡ some r)
        × Balanced random_uuid opts (entered calls) r.0 r.1
  unfolding empty pending events_of lookup
  run-empty-Balanced calls =
      run-Balanced calls [] empty (record { acked = []; dropped = [] })
        (record {
          valid = record { fits = tt; fresh = λ i h. refl };
          bounded = omega arith;
          balance = λ p. refl;
          tally = refl;
        })
