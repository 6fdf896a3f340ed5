-- ===== src/Gateway/Entry.antt =====
-- apps/gateway/src/internal-api.ts: who gets past `handleInternalRequest`.
use superbull.Common.{
  strip_prefix, strip_prefix-append, is_empty, ◌++◌, [], ◌∷◌, refl, sym, Option-cases, ℕ, ◌≡◌, List,
  Option, none, some, Bool, true, false, not, ◌&&◌, Text, codes, text_eq, ◌==◌, if◌then◌else◌,
  length, arith, inl, inr, Bool-cases, Text_discrete,
}
use superbull.Gateway.Api.{
  timing_safe_equal, presented_token, is_authorized, unauthorized, throws, route_authorized,
  HttpRequest, handle_internal_request,
}
use superbull.Protocol.Frames.{RpcRequest}

abbrev pub is_health : HttpRequest → Bool
is_health req = text_eq req.method (codes "GET") && text_eq req.pathname (codes "/healthz")

strip_prefix-only :
    (prefix text rest : Text) → strip_prefix prefix text ≡ some rest → text ≡ prefix ++ rest
unfolding strip_prefix
strip_prefix-only [] text rest h = ground arith
strip_prefix-only (p ∷ prefix) [] rest h = absurd (ground arith)
strip_prefix-only (p ∷ prefix) (c ∷ text) rest h =
    ground (arith, strip_prefix-only prefix text rest)

-- The Authorization header is "Bearer " and the token.
abbrev pub presents : Text → Option Text → Bool
presents token none = false
presents token (some header) = text_eq header (codes "Bearer " ++ token)

nothing_stripped : strip_prefix (codes "Bearer ") [] ≡ none
unfolding strip_prefix
nothing_stripped = refl

-- The token is read out of the header exactly if the header presents it.
presented_token-presents :
    (token : Text) (authorization : Option Text)
    → is_empty token ≡ false
    → text_eq (presented_token authorization) token ≡ presents token authorization
unfolding presented_token
presented_token-presents [] authorization h = absurd (ground arith)
presented_token-presents (t ∷ token) none h = ground (arith, nothing_stripped)
presented_token-presents (t ∷ token) (some header) h =
    elim (Option-cases (strip_prefix (codes "Bearer ") header)) [
      | inl other ↦ elim (Text_discrete header (codes "Bearer " ++ t ∷ token)) [
        | yes same ↦
            let found = strip_prefix-append (codes "Bearer ") (t ∷ token) in
            absurd (ground (arith, other, rw (sym same) at found))
        | no differs ↦ ground (arith, other, differs)
      ]
      | inr (rest, stripped) ↦
          let split = strip_prefix-only (codes "Bearer ") header rest stripped in
          ground (arith, stripped, split)
    ]

module _ (utf8 : Text → List ℕ) (decode : Text → Option Text) (parse : List ℕ → Option RpcRequest)
    (token : Text) (only : (a : Text) → utf8 a ≡ utf8 token → a ≡ token) where
  compared :
      (presented : Text)
      → (length presented == length token) ≡ true
      → timing_safe_equal (utf8 presented) (utf8 token) ≡ (
          if text_eq presented token
          then some true
          else if length (utf8 presented) == length (utf8 token)
          then some false
          else none)
  compared presented h = elim (Text_discrete presented token) [
    | yes same ↦ ground (arith, same)
    | no other ↦ ground (arith, only presented, other)
  ]

  -- Let the configured token be no empty text, and let no other text have its UTF-8 bytes, as is so for
  -- one without lone surrogates and replacement characters. Then, apart from the health check, a request
  -- gets past the token check if and only if its Authorization header is "Bearer " and the token. Any other
  -- request is unauthorized, except that one whose token has as many UTF-16 units and another number of
  -- UTF-8 bytes makes the handler throw.
  pub handle_internal_request-guarded :
      (req : HttpRequest)
      → is_health req ≡ false
      → is_empty token ≡ false
      → let presented = presented_token req.authorization in
        handle_internal_request utf8 decode parse token req ≡ (
          if presents token req.authorization
          then route_authorized utf8 decode parse token req
          else if (length presented == length token)
              && not (length (utf8 presented) == length (utf8 token))
          then throws
          else unauthorized)
  unfolding handle_internal_request is_authorized
  handle_internal_request-guarded req h full =
      let presented = presented_token req.authorization in
      let read = presented_token-presents token req.authorization full in
      elim (Bool-cases (length presented == length token)) [
        | inl same ↦
            rw (handle_internal_request, is_authorized, h, same, compared presented same)
              (ground (arith, read))
        | inr other ↦ rw (handle_internal_request, is_authorized, h, other) (ground (arith, read))
      ]
