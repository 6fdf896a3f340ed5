-- ===== src/Delivery/Exact.antt =====
-- The way of an event: whatever is lost, repeated or late, an acknowledged event is stored once.
use superbull.Common.{
  ℕ, zero, suc, ◌+◌, ◌<◌, ◌≡◌, refl, List, [], ◌∷◌, ◌++◌, append-nil, append_assoc, Option, some,
  Bool, true, Text, All, All-append, All_mono, all, all-append, all-tail, all_mono, arith, inl, inr,
  Option-cases, filter, length, count, lookup,
}
use superbull.Protocol.{IngestEvent, EventsFrame}
use superbull.Connector.Outbox.{Options, Outbox, empty}
use superbull.Connector.Outbox.Pending.{pending, events_of}
use superbull.Connector.Outbox.History.{
  Call, enqueues, flushes, resends, acks, attaches, note, entered, Balanced,
}
use superbull.Connector.Outbox.Accounts.{step-Balanced}
use superbull.Gateway.{Session, Gateway}
use superbull.Gateway.Connection.{handle_frame, on_recorded}
use superbull.Hub.Schema.{Db}
use superbull.Hub.Base.{Result-cases}
use superbull.Hub.Ingest.{has_uuid, record_batch}
use superbull.Hub.Ingest.Batch.{IsValid}
use superbull.Delivery.{
  Delivery, Moment, adds, flushes_now, resends_now, attaches_now, acks_arrive, frame_arrives,
  others_record, start, nth, call, carry, receive, step, run, given,
}
use superbull.Delivery.Kept.{is_map, Within, Guarded, Covers, Within-IsClosed}
use superbull.Delivery.Outgoing.{call-Kept}
use superbull.Delivery.Stored.{has, Recorded, record_batch-Recorded, stored_once}

All-nth :
    {A : Type 0} (P : A → Type 0) (i : ℕ) (xs : List A) (x : A) → All P xs → nth i xs ≡ some x → P x
All-nth P i [] x h e = absurd (ground arith)
All-nth P zero (y ∷ xs) x h e = let same : y ≡ x = ground arith in rw⁻¹ same h.0
All-nth P (suc i) (y ∷ xs) x h e = All-nth P i xs x h.1 e

module _ (random_uuid : ℕ → Text) (opts : Options) (configured : Option Text)
    (to_lower : Text → Text) (token : Text) (row_of : Text → ℕ) (connector : Text)
    (injective : (i j : ℕ) → random_uuid i ≡ random_uuid j → i ≡ j)
    (positive : 0 < opts.max_batch_size) where
  abbrev IsStored : Db → List IngestEvent → Type 0
  IsStored db batch = all (has (row_of connector) db) batch ≡ true

  -- A batch with an acknowledgement on its way is stored.
  abbrev Backed : Db → Outbox → Text → Type 0
  Backed db o k = Guarded random_uuid (IsStored db) k o

  pub record Sound (came : List IngestEvent) (d : Delivery) : Type 0 where
    pub books : Balanced random_uuid opts came d.outbox d.ledger
    pub keys : is_map d.outbox.unacked_batches ≡ true
    pub wire : All (Covers random_uuid d.outbox) d.wire
    pub backed : All (Backed d.hub d.outbox) d.acked
    pub stored : IsStored d.hub d.ledger.acked
    pub hub : IsValid d.hub

  call-Sound :
      (c : Call) (came : List IngestEvent) (d : Delivery)
      → Sound came d
      → IsStored d.hub (note opts c d.outbox d.ledger).acked
      → (d' : Delivery) × (call random_uuid opts configured to_lower token row_of connector c d
          ≡ some d')
        × Sound (came ++ entered (c ∷ [])) d'
  unfolding call
  call-Sound c came d s stored =
      let (o, e, books) =
        step-Balanced random_uuid opts injective positive c came d.outbox d.ledger s.books in
      let k =
        call-Kept random_uuid opts injective positive configured to_lower token row_of connector c
          d.outbox o s.books.valid s.keys e in
      (
        _,
        rw (call, e),
        record {
          books = books;
          keys = k.map;
          wire =
              All-append (Covers random_uuid o) d.wire _
                (All_mono (Covers random_uuid d.outbox) (Covers random_uuid o) d.wire
                  (λ f g. k.guards (Within f.events) f.batch_id (Within-IsClosed f.events) g)
                  s.wire)
                k.covered;
          backed =
              All_mono (Backed d.hub d.outbox) (Backed d.hub o) d.acked
                (λ id g.
                  k.guards (IsStored d.hub) id
                    (λ batch. all-tail (has (row_of connector) d.hub) batch) g)
                s.backed;
          stored = stored;
          hub = s.hub;
        },
      )

  ack-stored :
      (k : Text) (came : List IngestEvent) (d : Delivery)
      → Sound came d
      → Backed d.hub d.outbox k
      → IsStored d.hub (note opts (acks k) d.outbox d.ledger).acked
  unfolding note
  ack-stored k came d s b = elim (Option-cases (lookup k d.outbox.unacked_batches)) [
    | inl unknown ↦ rw (unknown, note) s.stored
    | inr (batch, found) ↦
        rw (found, note)
          (ground (
            arith,
            all-append (has (row_of connector) d.hub) d.ledger.acked batch,
            s.stored,
            b.kept batch found,
          ))
  ]

  -- A batch is recorded, by anyone.
  Recorded-Sound :
      (c : ℕ) (batch came : List IngestEvent) (d : Delivery) (db : Db)
      → Sound came d
      → Recorded c batch d.hub db
      → Sound came (record d { hub = db })
  Recorded-Sound c batch came d db s r = record {
    books = s.books;
    keys = s.keys;
    wire = s.wire;
    backed =
        All_mono (Backed d.hub d.outbox) (Backed db d.outbox) d.acked
          (λ k g. record {
            old = g.old;
            kept = λ b e. all_mono _ _ b (r.stays (row_of connector)) (g.kept b e);
          })
          s.backed;
    stored = all_mono _ _ d.ledger.acked (r.stays (row_of connector)) s.stored;
    hub = r.valid;
  }

  -- A frame arrives: the hub records it or refuses it, and it is acknowledged if recorded.
  receive-Sound :
      (now : ℕ) (g : Gateway) (n : ℕ) (session : Session) (f : EventsFrame)
      (came : List IngestEvent) (d : Delivery)
      → Sound came d
      → Covers random_uuid d.outbox f
      → Sound came
          (receive random_uuid opts configured to_lower token row_of connector now g n session f d)
  unfolding receive carry handle_frame on_recorded
  receive-Sound now g n session f came d s covers =
      elim (Result-cases
        (record_batch configured to_lower now token (row_of connector) f.events d.hub)) [
          | inr (why, refused) ↦ rw (receive, carry, refused, append-nil d.acked) s
          | inl (t, recorded) ↦
              let r =
                record_batch-Recorded configured to_lower token now (row_of connector) f.events
                  d.hub t s.hub recorded in
              let s' = Recorded-Sound (row_of connector) f.events came d t.0 s r in
              rw (receive, carry, recorded)
                (record {
                  books = s'.books;
                  keys = s'.keys;
                  wire = s'.wire;
                  backed = All-append (Backed t.0 d.outbox) d.acked (f.batch_id ∷ []) s'.backed (
                    record {
                      old = covers.old;
                      kept = λ batch e. covers.kept batch e (has (row_of connector) t.0) r.stored;
                    },
                    tt,
                  );
                  stored = s'.stored;
                  hub = s'.hub;
                })
        ]

  step-Sound :
      (m : Moment) (came : List IngestEvent) (d : Delivery)
      → Sound came d
      → (d' : Delivery) × (step random_uuid opts configured to_lower token row_of connector m d
          ≡ some d')
        × Sound (came ++ given (m ∷ [])) d'
  unfolding step given entered note
  step-Sound (adds event) came d s = call-Sound (enqueues event) came d s (ground (arith, s.stored))
  step-Sound flushes_now came d s = call-Sound flushes came d s s.stored
  step-Sound resends_now came d s = call-Sound resends came d s s.stored
  step-Sound (attaches_now attached) came d s = call-Sound (attaches attached) came d s s.stored
  step-Sound (acks_arrive i) came d s = elim (Option-cases (nth i d.acked)) [
    | inl nothing ↦ (d, rw (step, nothing) refl, rw (append-nil came) s)
    | inr (k, here) ↦
        let b = All-nth (Backed d.hub d.outbox) i d.acked k s.backed here in
        let (d', e, s') = call-Sound (acks k) came d s (ack-stored k came d s b) in
        (d', rw (step, here) e, s')
  ]
  step-Sound (frame_arrives i now g n session) came d s = elim (Option-cases (nth i d.wire)) [
    | inl nothing ↦ (d, rw (step, nothing) refl, rw (append-nil came) s)
    | inr (f, here) ↦ (
      receive random_uuid opts configured to_lower token row_of connector now g n session f d,
      rw (step, here) refl,
      rw (append-nil came) (
          receive-Sound now g n session f came d s
            (All-nth (Covers random_uuid d.outbox) i d.wire f s.wire here)),
    )
  ]
  step-Sound (others_record now other c batch) came d s =
      elim (Result-cases (record_batch configured to_lower now other c batch d.hub)) [
        | inr (why, refused) ↦ (d, rw (step, refused) refl, rw (append-nil came) s)
        | inl (t, recorded) ↦ (
          record d { hub = t.0 },
          rw (step, recorded) refl,
          rw (append-nil came) (
              Recorded-Sound c batch came d t.0 s (
                record_batch-Recorded configured to_lower other now c batch d.hub t s.hub
                  recorded)),
        )
      ]

  given-cons :
      (m : Moment) (moments : List Moment) → given (m ∷ moments) ≡ given (m ∷ []) ++ given moments
  unfolding given
  given-cons (adds event) moments = refl
  given-cons _ moments = refl

  run-Sound :
      (moments : List Moment) (came : List IngestEvent) (d : Delivery)
      → Sound came d
      → (d' : Delivery) × (run random_uuid opts configured to_lower token row_of connector moments d
          ≡ some d')
        × Sound (came ++ given moments) d'
  unfolding run
  run-Sound [] came d s = (d, refl, unfold given in rw (append-nil came) s)
  run-Sound (m ∷ moments) came d s =
      let (d', e, s') = step-Sound m came d s in
      let (d'', e', s'') = run-Sound moments (came ++ given (m ∷ [])) d' s' in
      (
        d'',
        rw (run, e) e',
        rw (given-cons m moments) (rw (append_assoc came (given (m ∷ [])) (given moments)) at s''),
      )

  all_once :
      (db : Db) (batch : List IngestEvent)
      → IsValid db
      → IsStored db batch
      → All
          (λ event. length (filter (has_uuid (row_of connector) event.uuid) db.ingest_events) ≡ 1)
          batch
  all_once db [] v h = tt
  all_once db (event ∷ batch) v h =
      (stored_once (row_of connector) db event v (ground arith), all_once db batch v (ground arith))

  -- However the frames and acknowledgements between a connector and the hub are lost, delayed, repeated
  -- or reordered, whenever the outbox is flushed, resends or drops at its cap, and whatever else is
  -- recorded in between: every run goes to its end; each event that the outbox was given is undelivered,
  -- dropped or acknowledged, as often as it was given (counted under any test); and each acknowledged event is stored, under its
  -- connector, exactly once. This rests on a valid database at the start, ids that do not repeat and a
  -- positive frame limit.
  pub run-exactly_once :
      (moments : List Moment) (db : Db) (p : IngestEvent → Bool)
      → IsValid db
      → (d : Delivery) × (run random_uuid opts configured to_lower token row_of connector moments
            (start db)
          ≡ some d)
        × (count p (given moments)
            ≡ count p (pending d.outbox) + count p d.ledger.acked + count p d.ledger.dropped)
        × All
            (λ event.
              length (filter (has_uuid (row_of connector) event.uuid) d.hub.ingest_events) ≡ 1)
            d.ledger.acked
  unfolding empty pending events_of lookup
  run-exactly_once moments db p v =
      let (d, e, s) = run-Sound moments [] (start db) (record {
        books = record {
          valid = record { fits = tt; fresh = λ i h. refl };
          bounded = omega arith;
          balance = λ p. refl;
          tally = refl;
        };
        keys = refl;
        wire = tt;
        backed = tt;
        stored = refl;
        hub = v;
      }) in
      (d, e, s.books.balance p, all_once d.hub d.ledger.acked s.hub s.stored)
