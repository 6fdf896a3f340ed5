-- ===== src/Connector/Outbox/StreamId.antt =====
-- packages/connector/src/event-outbox.ts: Redis stream ids, "<ms>-<seq>".
use superbull.Common.{
  ℕ, ◌+◌, ◌-◌, ◌*◌, [], ◌∷◌, Bool, true, false, Text, is_digit, is_empty, ltb, ◌==◌, not, ◌&&◌, ◌≡◌,
  refl, if◌then◌else◌, codes,
}

-- The text behind its leading digits.
unfoldable pub after_digits : Text → Text
after_digits [] = []
after_digits (c ∷ text) = if is_digit c then after_digits text else c ∷ text

-- `\d+$`
unfoldable pub is_digits : Text → Bool
unfolding after_digits
is_digits text = not (is_empty text) && is_empty (after_digits text)

-- `-\d+$`
unfoldable pub is_dash_digits : Text → Bool
unfolding is_digits
is_dash_digits [] = false
is_dash_digits (c ∷ text) = c == b'-' && is_digits text

-- `^\d+-\d+$`
unfoldable pub is_stream_id : Text → Bool
unfolding is_dash_digits after_digits
is_stream_id [] = false
is_stream_id (c ∷ text) = is_digit c && is_dash_digits (after_digits text)

-- `Number` of the digits up to the next dash, behind the value read so far.
unfoldable pub number_from : ℕ → Text → ℕ
number_from acc [] = acc
number_from acc (c ∷ text) = elim (c == b'-') [
  | true ↦ acc
  | false ↦ number_from (acc * 10 + (c - b'0')) text
]

-- The text behind the first dash.
unfoldable pub after_dash : Text → Text
after_dash [] = []
after_dash (c ∷ text) = if c == b'-' then text else after_dash text

-- `compareStreamIds(a, b) > 0`, on two stream ids.
unfoldable pub is_later : Text → Text → Bool
unfolding number_from after_dash
is_later a b =
    let a_ms = number_from 0 a in
    let b_ms = number_from 0 b in
    if not (a_ms == b_ms)
    then ltb b_ms a_ms
    else ltb (number_from 0 (after_dash b)) (number_from 0 (after_dash a))

later_by_seq : is_later (codes "10-9") (codes "10-10") ≡ false
unfolding is_later
later_by_seq = refl

later_by_ms : is_later (codes "11-0") (codes "10-10") ≡ true
unfolding is_later
later_by_ms = refl

a_stream_id : is_stream_id (codes "1700-0") ≡ true
unfolding is_stream_id
a_stream_id = refl

no_stream_id : is_stream_id (codes "1700-0x") ≡ false
unfolding is_stream_id
no_stream_id = refl
