-- ===== src/Connector/Outbox/Flush.antt =====
-- packages/connector/src/event-outbox.ts: the loop of `flush`.
use superbull.Common.{
  ℕ, zero, suc, ◌<◌, ◌≡◌, refl, sym, ap, ◌∙◌, List, [], ◌∷◌, ◌++◌, append-nil, append_assoc, some,
  Text, length, take, is_empty, min, arith, Bool-cases, inl, inr,
}
use superbull.Protocol.{IngestEvent}
use superbull.Connector.Outbox.{
  Options, Outbox, Effect, send_batch, resend_batches, flush_chunk, flush_loop, flush,
}
use superbull.Connector.Outbox.Pending.{
  Batches, pending, IsValid, flush_chunk-batches, flush_chunk-pending, flush_chunk-IsValid,
  flush_chunk-shrinks,
}

resend_batches-congr :
    (o o' : Outbox) (batches : Batches)
    → o'.has_transport ≡ o.has_transport
    → resend_batches o' batches ≡ resend_batches o batches
unfolding resend_batches
resend_batches-congr o o' [] e = refl
resend_batches-congr o o' ((k, events) ∷ batches) e = rw (resend_batches-congr o o' batches e, e)

-- What a flush does: the buffer's events go into new batches at the end, each handed to the
-- transport in order where one is attached, and nothing else changes.
pub record Flushed (random_uuid : ℕ → Text) (opts : Options) (o : Outbox) (r : Outbox × List Effect)
    : Type 0 where
  pub news : Batches
  pub appended : r.0.unacked_batches ≡ o.unacked_batches ++ news
  pub sent : r.1 ≡ resend_batches o news
  pub emptied : r.0.buffer ≡ []
  pub same : pending r.0 ≡ pending o
  pub valid : IsValid random_uuid opts r.0
  pub cursors : r.0.cursors ≡ o.cursors
  pub transport : r.0.has_transport ≡ o.has_transport
  pub dropped : r.0.total_dropped ≡ o.total_dropped

module _ (random_uuid : ℕ → Text) (opts : Options)
    (injective : (i j : ℕ) → random_uuid i ≡ random_uuid j → i ≡ j)
    (positive : 0 < opts.max_batch_size) where
  Flushed-nothing :
      (o : Outbox) → IsValid random_uuid opts o → o.buffer ≡ [] → Flushed random_uuid opts o (o, [])
  unfolding resend_batches
  Flushed-nothing o v e = record {
    news = [];
    appended = sym (append-nil o.unacked_batches);
    sent = refl;
    emptied = e;
    same = refl;
    valid = v;
    cursors = refl;
    transport = refl;
    dropped = refl;
  }

  Flushed-chunk :
      (o : Outbox) {r : Outbox × List Effect}
      → 0 < length o.buffer
      → IsValid random_uuid opts o
      → Flushed random_uuid opts (flush_chunk random_uuid opts o).0 r
      → Flushed random_uuid opts o (r.0, (flush_chunk random_uuid opts o).1 ++ r.1)
  unfolding resend_batches flush_chunk
  Flushed-chunk o {r} h v f =
      let batch : Text × List IngestEvent =
        (random_uuid o.minted, take (min opts.max_batch_size (length o.buffer)) o.buffer) in
      let o' = (flush_chunk random_uuid opts o).0 in
      record {
        news = batch ∷ f.news;
        appended =
            f.appended
            ∙ ap (λ b. b ++ f.news) (flush_chunk-batches random_uuid opts injective positive o v)
            ∙ append_assoc o.unacked_batches (batch ∷ []) f.news;
        sent =
            ap (◌++◌ (send_batch o' batch.0 batch.1))
              (f.sent ∙ resend_batches-congr o o' f.news refl);
        emptied = f.emptied;
        same = f.same ∙ flush_chunk-pending random_uuid opts injective positive o v;
        valid = f.valid;
        cursors = f.cursors;
        transport = f.transport;
        dropped = f.dropped;
      }

  flush_loop-Flushed :
      (fuel : ℕ) (o : Outbox)
      → length o.buffer < fuel
      → IsValid random_uuid opts o
      → (r : Outbox × List Effect) × (flush_loop random_uuid opts fuel o ≡ some r)
        × Flushed random_uuid opts o r
  unfolding flush_loop
  flush_loop-Flushed zero o h v = absurd (omega arith)
  flush_loop-Flushed (suc fuel) o h v = elim (Bool-cases (is_empty o.buffer)) [
    | inl done ↦ ((o, []), rw done, Flushed-nothing o v (ground arith))
    | inr more ↦
        let here : 0 < length o.buffer = ground arith in
        let o' = (flush_chunk random_uuid opts o).0 in
        let (r, e, f) =
          flush_loop-Flushed fuel o'
            (omega (arith, flush_chunk-shrinks random_uuid opts injective positive o here))
            (flush_chunk-IsValid random_uuid opts injective positive o here v) in
        ((r.0, (flush_chunk random_uuid opts o).1 ++ r.1), rw (more, e), Flushed-chunk o here v f)
  ]

  -- With a positive batch size the loop of `flush` ends, on any valid outbox: the buffer is empty,
  -- its events stand in new batches behind the old ones, in order, each batch fits a frame and was
  -- handed to an attached transport, and cursors and drop count are as before.
  pub flush-Flushed :
      (o : Outbox)
      → IsValid random_uuid opts o
      → (r : Outbox × List Effect) × (flush random_uuid opts o ≡ some r)
        × Flushed random_uuid opts o r
  unfolding flush
  flush-Flushed o v = flush_loop-Flushed (suc (length o.buffer)) o (omega arith) v
