-- ===== src/Hub/ErrorGroups/Fingerprint.antt =====
-- apps/web/convex/errors.ts: what a fingerprint keeps of a message.
use superbull.Common.{
  ℕ, zero, suc, ◌≤◌, ◌≡◌, refl, [], ◌∷◌, false, Text, is_digit, length, length-take, take, All,
  arith,
}
use superbull.Hub.ErrorGroups.{replace_all, match_run, normalize_fingerprint_message}

abbrev pub IsPlain : ℕ → Type 0
IsPlain c = is_digit c ≡ false

no_match-IsPlain : (c : ℕ) (text : Text) → match_run is_digit 1 (c ∷ text) ≡ 0 → IsPlain c
unfolding match_run
no_match-IsPlain c text h = ground arith

replace_all-IsPlain :
    (skip : ℕ) (text : Text) → All IsPlain (replace_all (match_run is_digit 1) skip text)
unfolding replace_all
replace_all-IsPlain skip [] = tt
replace_all-IsPlain (suc skip) (c ∷ text) = replace_all-IsPlain skip text
replace_all-IsPlain zero (c ∷ text) =
    go (match_run is_digit 1 (c ∷ text)) refl (replace_all-IsPlain zero text)
      (λ k. replace_all-IsPlain k text)
  where
    go :
        (n : ℕ)
        → match_run is_digit 1 (c ∷ text) ≡ n
        → All IsPlain (replace_all (match_run is_digit 1) zero text)
        → ((k : ℕ) → All IsPlain (replace_all (match_run is_digit 1) k text))
        → All IsPlain (replace_all (match_run is_digit 1) zero (c ∷ text))
    go zero e h k = rw (e, replace_all) (no_match-IsPlain c text e, h)
    go (suc n) e h k = rw (e, replace_all) (refl, k n)

All-take : (n : ℕ) (text : Text) → All IsPlain text → All IsPlain (take n text)
All-take zero text h = tt
All-take (suc n) [] h = tt
All-take (suc n) (c ∷ text) h = (h.0, All-take n text h.1)

cut_bounds :
    (text : Text)
    → let cut = take 200 (replace_all (match_run is_digit 1) 0 text) in
      All IsPlain cut × (length cut ≤ 200)
cut_bounds text = (
  All-take 200 _ (replace_all-IsPlain 0 text),
  omega (arith, length-take 200 (replace_all (match_run is_digit 1) 0 text)),
)

-- A normalized message has no digit, and at most 200 characters.
pub normalize_fingerprint_message_bounds :
    (to_lower : Text → Text) (message : Text)
    → All IsPlain (normalize_fingerprint_message to_lower message)
      × (length (normalize_fingerprint_message to_lower message) ≤ 200)
unfolding normalize_fingerprint_message
normalize_fingerprint_message_bounds to_lower message = cut_bounds _
