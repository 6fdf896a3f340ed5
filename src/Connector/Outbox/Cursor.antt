-- ===== src/Connector/Outbox/Cursor.antt =====
-- packages/connector/src/event-outbox.ts: the cursor of a queue, which moves at an acknowledgement.
use superbull.Common.{
  ◌≡◌, refl, ap, ◌⊎◌, inl, inr, List, [], ◌∷◌, ◌++◌, none, some, true, false, Text, Text_discrete,
  ite, lookup, lookup-insert, if◌then◌else◌, arith, Bool-cases, Option-cases,
}
use superbull.Protocol.{IngestEvent}
use superbull.Connector.Outbox.StreamId.{is_later}
use superbull.Connector.Outbox.{
  Outbox, stream_id?, advances, advance_cursor, update_cursor, update_cursors, ack, get_cursor,
}

-- The stream id `a` is not behind `b`.
abbrev pub AtLeast : Text → Text → Type 0
AtLeast a b = is_later b a ≡ false

AtLeast-refl : (a : Text) → AtLeast a a
unfolding is_later
AtLeast-refl a = ground arith

AtLeast-trans : (a b c : Text) → AtLeast a b → AtLeast b c → AtLeast a c
unfolding is_later
AtLeast-trans a b c h k = ground arith

AtLeast-later : (a b : Text) → is_later a b ≡ true → AtLeast a b
unfolding is_later
AtLeast-later a b h = ground arith

AtLeast-nothing : (a : Text) → AtLeast a []
unfolding is_later
AtLeast-nothing a = ground arith

-- The cursor that a queue has is not behind `id`.
abbrev pub Reaches : Text → Text → List (Text × Text) → Type 0
Reaches queue_name id cursors = (c : Text) × (lookup queue_name cursors ≡ some c) × AtLeast c id

advance_cursor-lookup :
    (q j id : Text) (m : List (Text × Text))
    → lookup j (advance_cursor q id m)
      ≡ ite
          (Text_discrete q j)
          (if advances id (lookup q m) then some id else lookup q m)
          (lookup j m)
unfolding advance_cursor
advance_cursor-lookup q j id m = ground (arith, lookup-insert q j id m)

-- What does not advance a cursor is not ahead of it.
not-advances : (id c : Text) → advances id (some c) ≡ false → AtLeast c id
unfolding advances
not-advances id c h = ground arith

advances-none : (id : Text) → advances id none ≡ true
unfolding advances
advances-none id = refl

advances-AtLeast : (id c : Text) → advances id (some c) ≡ true → AtLeast id c
unfolding advances
advances-AtLeast id [] h = AtLeast-nothing id
advances-AtLeast id (x ∷ c) h = AtLeast-later id (x ∷ c) (ground arith)

module _ (q id : Text) (m : List (Text × Text)) where
  advance_cursor-Reaches : Reaches q id (advance_cursor q id m)
  advance_cursor-Reaches = elim (Option-cases (lookup q m)) [
    | inl new ↦
        (id, ground (arith, advance_cursor-lookup q q id m, advances-none id), AtLeast-refl id)
    | inr (c, old) ↦ elim (Bool-cases (advances id (some c))) [
      | inl go ↦ (id, ground (arith, advance_cursor-lookup q q id m), AtLeast-refl id)
      | inr stay ↦ (c, ground (arith, advance_cursor-lookup q q id m), not-advances id c stay)
    ]
  ]

  advance_cursor-keeps : (j s : Text) → Reaches j s m → Reaches j s (advance_cursor q id m)
  advance_cursor-keeps j s (c, at, over) = elim (Text_discrete q j) [
    | yes same ↦ elim (Bool-cases (advances id (some c))) [
      | inl go ↦ (
        id,
        ground (arith, advance_cursor-lookup q j id m),
        AtLeast-trans id c s (advances-AtLeast id c go) over,
      )
      | inr stay ↦ (c, ground (arith, advance_cursor-lookup q j id m), over)
    ]
    | no other ↦ (c, ground (arith, advance_cursor-lookup q j id m), over)
  ]

update_cursor-keeps :
    (e : IngestEvent) (m : List (Text × Text)) (q id : Text)
    → Reaches q id m
    → Reaches q id (update_cursor e m)
unfolding update_cursor
update_cursor-keeps e m q id h = elim (Option-cases (stream_id? e)) [
  | inl nothing ↦ rw (nothing, update_cursor) h
  | inr (s, found) ↦ rw (found, update_cursor) (advance_cursor-keeps e.queue_name s m q id h)
]

update_cursors-keeps :
    (events : List IngestEvent) (m : List (Text × Text)) (q id : Text)
    → Reaches q id m
    → Reaches q id (update_cursors events m)
unfolding update_cursors
update_cursors-keeps [] m q id h = h
update_cursors-keeps (e ∷ events) m q id h =
    update_cursors-keeps events (update_cursor e m) q id (update_cursor-keeps e m q id h)

update_cursors-Reaches :
    (before after : List IngestEvent) (e : IngestEvent) (id : Text) (m : List (Text × Text))
    → stream_id? e ≡ some id
    → Reaches e.queue_name id (update_cursors (before ++ e ∷ after) m)
unfolding update_cursors update_cursor
update_cursors-Reaches [] after e id m found =
    update_cursors-keeps after (update_cursor e m) e.queue_name id
      (rw (found, update_cursor) (advance_cursor-Reaches e.queue_name id m))
update_cursors-Reaches (x ∷ before) after e id m found =
    update_cursors-Reaches before after e id (update_cursor x m) found

-- Where a cursor comes from: an event of the list, for that queue.
pub record From (q c : Text) (events : List IngestEvent) : Type 0 where
  pub before : List IngestEvent
  pub event : IngestEvent
  pub after : List IngestEvent
  pub place : events ≡ before ++ event ∷ after
  pub id : stream_id? event ≡ some c
  pub queue : event.queue_name ≡ q

update_cursor-source :
    (e : IngestEvent) (m : List (Text × Text)) (q c : Text)
    → lookup q (update_cursor e m) ≡ some c
    → (lookup q m ≡ some c) ⊎ ((stream_id? e ≡ some c) × (e.queue_name ≡ q))
unfolding update_cursor
update_cursor-source e m q c h = elim (Option-cases (stream_id? e)) [
  | inl nothing ↦ ground arith
  | inr (s, found) ↦ ground (arith, advance_cursor-lookup e.queue_name q s m)
]

From-cons :
    (q c : Text) (x : IngestEvent) (events : List IngestEvent)
    → From q c events
    → From q c (x ∷ events)
From-cons q c x events f = record {
  before = x ∷ f.before;
  event = f.event;
  after = f.after;
  place = ap (◌∷◌ x) f.place;
  id = f.id;
  queue = f.queue;
}

update_cursors-source :
    (events : List IngestEvent) (m : List (Text × Text)) (q c : Text)
    → lookup q (update_cursors events m) ≡ some c
    → (lookup q m ≡ some c) ⊎ From q c events
unfolding update_cursors
update_cursors-source [] m q c h = inl h
update_cursors-source (e ∷ events) m q c h =
    elim (update_cursors-source events (update_cursor e m) q c h) [
      | inr f ↦ inr (From-cons q c e events f)
      | inl here ↦ elim (update_cursor-source e m q c here) [
        | inl old ↦ inl old
        | inr (id, queue) ↦ inr (record {
          before = [];
          event = e;
          after = events;
          place = refl;
          id = id;
          queue = queue;
        })
      ]
    ]

module _ (batch_id : Text) (o : Outbox) where
  -- No acknowledgement moves the cursor of a queue back: where there is one, there is one after,
  -- at the same stream id or a later one.
  pub ack-monotone : (q c : Text) → get_cursor q o ≡ some c → Reaches q c (ack batch_id o).cursors
  unfolding ack
  ack-monotone q c at = elim (Option-cases (lookup batch_id o.unacked_batches)) [
    | inl unknown ↦ rw (unknown, ack) (c, at, AtLeast-refl c)
    | inr (events, found) ↦
        rw (found, ack) (update_cursors-keeps events o.cursors q c (c, at, AtLeast-refl c))
  ]

  -- Once a batch is acknowledged, the cursor of each of its terminal events' queues has reached
  -- that event's stream id.
  pub ack-Reaches :
      (before after : List IngestEvent) (e : IngestEvent) (id : Text)
      → lookup batch_id o.unacked_batches ≡ some (before ++ e ∷ after)
      → stream_id? e ≡ some id
      → Reaches e.queue_name id (ack batch_id o).cursors
  unfolding ack
  ack-Reaches before after e id found h =
      rw (found, ack) (update_cursors-Reaches before after e id o.cursors h)

  -- After an acknowledgement, the cursor of a queue is the one that it had, or the stream id of a
  -- terminal event of the acknowledged batch, for that queue.
  pub ack-source :
      (q c : Text)
      → get_cursor q (ack batch_id o) ≡ some c
      → (get_cursor q o ≡ some c)
        ⊎ ((events : List IngestEvent) × (lookup batch_id o.unacked_batches ≡ some events)
            × From q c events)
  unfolding ack
  ack-source q c h = elim (Option-cases (lookup batch_id o.unacked_batches)) [
    | inl unknown ↦ inl (ground arith)
    | inr (events, found) ↦ elim (update_cursors-source events o.cursors q c (ground arith)) [
      | inl old ↦ inl old
      | inr f ↦ inr (events, found, f)
    ]
  ]
