-- ===== src/Delivery/Outgoing.antt =====
-- packages/connector/src/event-outbox.ts: what each call of the outbox keeps and sends.
use superbull.Common.{
  ℕ, zero, suc, ◌+◌, ◌<◌, ◌≡◌, refl, List, [], ◌∷◌, ◌++◌, Option, some, Bool, true, false, Text,
  Text_discrete, length, take, tail, is_empty, min, lookup, delete, insert_new, leb, ltb,
  if◌then◌else◌, All, arith, inl, inr, ◌⊎◌, Bool-cases, Option-cases, lookup-insert, append-nil,
}
use superbull.Protocol.{IngestEvent, EventsFrame}
use superbull.Connector.Outbox.{
  Options, Outbox, Effect, send, drop_oldest, send_batch, flush_chunk, flush_loop, flush, admit,
  enqueue, resend_batches, resend_unacked, ack, set_transport, total_count,
}
use superbull.Connector.Outbox.Pending.{Batches, IsValid, flush_chunk-IsValid}
use superbull.Connector.Outbox.Capacity.{admit-IsValid}
use superbull.Connector.Outbox.History
use superbull.Connector.Outbox.History.{Call, enqueues, flushes, resends, acks, attaches}
use superbull.Delivery.{frames_of, frames_sent}
use superbull.Delivery.Kept.{
  is_map, is_map-delete, is_map-append, is_map-lookup, frames_of-append, Covers, Kept, Kept-trans,
  quiet-Kept,
}

-- What a batch of the new ones was.
abbrev Before : Batches → Text → List IngestEvent → Type 0
Before m k batch =
    (lookup k m ≡ some batch)
    ⊎ ((whole : List IngestEvent) × (lookup k m ≡ some whole) × (batch ≡ tail whole))

drop_oldest-Before :
    (o : Outbox) (k : Text) (batch : List IngestEvent)
    → is_map o.unacked_batches ≡ true
    → lookup k (drop_oldest o).unacked_batches ≡ some batch
    → Before o.unacked_batches k batch
unfolding drop_oldest lookup delete
drop_oldest-Before o k batch m = go o.unacked_batches refl m
  where
    go :
        (b : Batches)
        → o.unacked_batches ≡ b
        → is_map b ≡ true
        → lookup k (drop_oldest o).unacked_batches ≡ some batch
        → Before o.unacked_batches k batch
    go [] e m h = inl (ground arith)
    go ((j, []) ∷ rest) e m h = inl (ground arith)
    go ((j, x ∷ []) ∷ rest) e m h = inl (ground arith)
    go ((j, x ∷ y ∷ events) ∷ rest) e m h = elim (Text_discrete j k) [
      | yes mine ↦ inr (x ∷ y ∷ events, ground arith, ground arith)
      | no other ↦ inl (ground arith)
    ]

drop_oldest-is_map :
    (o : Outbox) → is_map o.unacked_batches ≡ true → is_map (drop_oldest o).unacked_batches ≡ true
unfolding drop_oldest
drop_oldest-is_map o m = go o.unacked_batches refl m
  where
    go :
        (b : Batches)
        → o.unacked_batches ≡ b
        → is_map b ≡ true
        → is_map (drop_oldest o).unacked_batches ≡ true
    go [] e m = ground arith
    go ((j, []) ∷ rest) e m = ground (arith, is_map-delete j ((j, []) ∷ rest) m)
    go ((j, x ∷ []) ∷ rest) e m = ground (arith, is_map-delete j ((j, x ∷ []) ∷ rest) m)
    go ((j, x ∷ y ∷ events) ∷ rest) e m = ground arith

drop_oldest-minted : (o : Outbox) → (drop_oldest o).minted ≡ o.minted
unfolding drop_oldest
drop_oldest-minted o = ground arith

lookup-delete-some :
    (k j : Text) (batch : List IngestEvent) (m : Batches)
    → is_map m ≡ true
    → lookup k (delete j m) ≡ some batch
    → lookup k m ≡ some batch
unfolding lookup delete
lookup-delete-some k j batch [] u h = h
lookup-delete-some k j batch ((i, x) ∷ m) u h = ground (arith, lookup-delete-some k j batch m)

-- A frame that goes out if a transport is attached.
maybe_sent :
    (attached : Bool) (f : EventsFrame) (rest : List Effect) (P : EventsFrame → Type 0)
    → P f
    → All P (frames_of rest)
    → All P (frames_of ((if attached then send f ∷ [] else []) ++ rest))
maybe_sent true f rest P here later = (here, later)
maybe_sent false f rest P here later = later

module _ (random_uuid : ℕ → Text) (opts : Options) where
  admit-Kept :
      (event : IngestEvent) (o : Outbox)
      → is_map o.unacked_batches ≡ true
      → Kept random_uuid o ((admit opts event o).0, frames_of (admit opts event o).1)
  unfolding admit
  admit-Kept event o m =
      let o' : Outbox = record o { buffer = o.buffer ++ event ∷ [] } in
      elim (Bool-cases (ltb opts.max_buffered_events (total_count o'))) [
        | inl full ↦ rw full (
            quiet-Kept random_uuid o
              (record (drop_oldest o') { total_dropped = o.total_dropped + 1 })
              (drop_oldest-is_map o' m) (drop_oldest-minted o')
              (λ k batch h. drop_oldest-Before o' k batch m h))
        | inr room ↦ rw room (quiet-Kept random_uuid o o' m refl (λ k batch h. inl h))
      ]

  ack-Kept :
      (k : Text) (o : Outbox) → is_map o.unacked_batches ≡ true → Kept random_uuid o (ack k o, [])
  unfolding ack
  ack-Kept k o m = elim (Option-cases (lookup k o.unacked_batches)) [
    | inl unknown ↦ rw (unknown, ack) (quiet-Kept random_uuid o o m refl (λ j batch h. inl h))
    | inr (events, found) ↦
        rw (found, ack)
          (quiet-Kept random_uuid o _ (is_map-delete k o.unacked_batches m) refl
            (λ j batch h. inl (lookup-delete-some j k batch o.unacked_batches m h)))
  ]

  -- Each batch is sent as it is.
  resend_batches-Covers :
      (o : Outbox) (batches : Batches)
      → IsValid random_uuid opts o
      → All (λ b. lookup b.0 o.unacked_batches ≡ some b.1) batches
      → All (Covers random_uuid o) (frames_of (resend_batches o batches))
  unfolding resend_batches send_batch
  resend_batches-Covers o [] v h = tt
  resend_batches-Covers o ((k, batch) ∷ batches) v h =
      let here : Covers random_uuid o (record { batch_id = k; events = batch }) = record {
        old = λ i hi same. absurd (ground (arith, v.fresh i hi, h.0));
        kept = λ now e p hp. ground (arith, h.0);
      } in
      maybe_sent o.has_transport _ _ (Covers random_uuid o) here
        (resend_batches-Covers o batches v h.1)

  resend-Kept :
      (o : Outbox)
      → IsValid random_uuid opts o
      → is_map o.unacked_batches ≡ true
      → Kept random_uuid o (o, frames_of (resend_unacked o))
  unfolding resend_unacked
  resend-Kept o v m = record {
    map = m;
    guards = λ P k c g. g;
    covered = resend_batches-Covers o o.unacked_batches v (is_map-lookup o.unacked_batches m);
  }

module _ (random_uuid : ℕ → Text) (opts : Options)
    (injective : (i j : ℕ) → random_uuid i ≡ random_uuid j → i ≡ j)
    (positive : 0 < opts.max_batch_size) where
  flush_chunk-Kept :
      (o : Outbox)
      → IsValid random_uuid opts o
      → is_map o.unacked_batches ≡ true
      → Kept random_uuid o
          ((flush_chunk random_uuid opts o).0, frames_of (flush_chunk random_uuid opts o).1)
  unfolding flush_chunk send_batch
  flush_chunk-Kept o v m =
      let chunk = take (min opts.max_batch_size (length o.buffer)) o.buffer in
      let id = random_uuid o.minted in
      let o' = (flush_chunk random_uuid opts o).0 in
      record {
        map =
            rw (insert_new id chunk o.unacked_batches (v.fresh o.minted (omega arith)))
              (is_map-append id chunk o.unacked_batches (v.fresh o.minted (omega arith)) m);
        guards = λ P k c g. record {
          old = λ i h. g.old i (omega arith);
          kept = λ batch e.
              g.kept batch
                (ground (arith, g.old o.minted, lookup-insert id k chunk o.unacked_batches));
        };
        covered = rw⁻¹ (append-nil (send_batch o' id chunk)) (
            maybe_sent o.has_transport (record { batch_id = id; events = chunk }) []
              (Covers random_uuid o')
              (record {
                old = λ i h same. absurd (omega (arith, injective o.minted i same));
                kept = λ batch e p hp. ground (arith, lookup-insert id id chunk o.unacked_batches);
              })
              tt);
      }

  flush_loop-Kept :
      (fuel : ℕ) (o : Outbox) (r : Outbox × List Effect)
      → IsValid random_uuid opts o
      → is_map o.unacked_batches ≡ true
      → flush_loop random_uuid opts fuel o ≡ some r
      → Kept random_uuid o (r.0, frames_of r.1)
  unfolding flush_loop
  flush_loop-Kept zero o r v m h = absurd (ground arith)
  flush_loop-Kept (suc fuel) o r v m h =
      let (o', sent) = flush_chunk random_uuid opts o in
      elim (Bool-cases (is_empty o.buffer)) [
        | inl done ↦
            let same : (o, []) ≡ r = ground arith in
            rw⁻¹ same (quiet-Kept random_uuid o o m refl (λ k batch e. inl e))
        | inr more ↦ elim (Option-cases (flush_loop random_uuid opts fuel o')) [
          | inl out ↦ absurd (ground arith)
          | inr (r', rest) ↦
              let here : 0 < length o.buffer = ground arith in
              let first = flush_chunk-Kept o v m in
              let same : (r'.0, sent ++ r'.1) ≡ r = ground arith in
              rw⁻¹ same (
                rw (frames_of-append sent r'.1) (
                  Kept-trans random_uuid o (o', frames_of sent) (r'.0, frames_of r'.1) first
                    (flush_loop-Kept fuel o' r'
                      (flush_chunk-IsValid random_uuid opts injective positive o here v) first.map
                      rest)))
        ]
      ]

  flush-Kept :
      (o : Outbox) (r : Outbox × List Effect)
      → IsValid random_uuid opts o
      → is_map o.unacked_batches ≡ true
      → flush random_uuid opts o ≡ some r
      → Kept random_uuid o (r.0, frames_of r.1)
  unfolding flush
  flush-Kept o r v m h = flush_loop-Kept (suc (length o.buffer)) o r v m h

  enqueue-Kept :
      (event : IngestEvent) (o : Outbox) (r : Outbox × List Effect)
      → IsValid random_uuid opts o
      → is_map o.unacked_batches ≡ true
      → enqueue random_uuid opts event o ≡ some r
      → Kept random_uuid o (r.0, frames_of r.1)
  unfolding enqueue
  enqueue-Kept event o r v m h =
      let (o', reported) = admit opts event o in
      let first = admit-Kept random_uuid opts event o m in
      elim (Bool-cases (leb opts.batch_size (length o'.buffer))) [
        | inr room ↦ let same : (o', reported) ≡ r = ground arith in rw⁻¹ same first
        | inl due ↦ elim (Option-cases (flush random_uuid opts o')) [
          | inl out ↦ absurd (ground arith)
          | inr (r', rest) ↦
              let same : (r'.0, reported ++ r'.1) ≡ r = ground arith in
              rw⁻¹ same (
                rw (frames_of-append reported r'.1) (
                  Kept-trans random_uuid o (o', frames_of reported) (r'.0, frames_of r'.1) first
                    (flush-Kept o' r' (admit-IsValid random_uuid opts event o v) first.map rest)))
        ]
      ]

  pub call-Kept :
      (configured : Option Text) (to_lower : Text → Text) (token : Text) (row_of : Text → ℕ)
      (connector : Text) (c : Call) (o o' : Outbox)
      → IsValid random_uuid opts o
      → is_map o.unacked_batches ≡ true
      → History.step random_uuid opts c o ≡ some o'
      → Kept random_uuid o
          (o', frames_sent random_uuid opts configured to_lower token row_of connector c o)
  unfolding frames_sent History.step
  call-Kept configured to_lower token row_of connector (enqueues event) o o' v m h =
      elim (Option-cases (enqueue random_uuid opts event o)) [
        | inl out ↦ absurd (ground arith)
        | inr (r, e) ↦
            let same : r.0 ≡ o' = ground arith in rw⁻¹ same (rw e (enqueue-Kept event o r v m e))
      ]
  call-Kept configured to_lower token row_of connector flushes o o' v m h =
      elim (Option-cases (flush random_uuid opts o)) [
        | inl out ↦ absurd (ground arith)
        | inr (r, e) ↦ let same : r.0 ≡ o' = ground arith in rw⁻¹ same (rw e (flush-Kept o r v m e))
      ]
  call-Kept configured to_lower token row_of connector resends o o' v m h =
      let same : o ≡ o' = ground arith in rw⁻¹ same (resend-Kept random_uuid opts o v m)
  call-Kept configured to_lower token row_of connector (acks k) o o' v m h =
      let same : ack k o ≡ o' = ground arith in rw⁻¹ same (ack-Kept random_uuid opts k o m)
  call-Kept configured to_lower token row_of connector (attaches attached) o o' v m h =
      let same : set_transport attached o ≡ o' = ground arith in
      rw⁻¹ same (
        unfold set_transport in
        quiet-Kept random_uuid o (set_transport attached o) m refl (λ k batch e. inl e))
