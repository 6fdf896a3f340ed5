-- ===== src/Connector/Execute.antt =====
-- packages/connector/src/execute-request.ts: a request frame is led to a handler of the board's API,
-- and what that returns or throws becomes the response. Of the handlers, the JSON printer and the error
-- handler, which come from elsewhere, the model has what they return.
pub mod Paths
mod Tests
use superbull.Common.{
  ℕ, zero, suc, List, [], ◌∷◌, ◌++◌, Option, none, some, Bool, true, false, not, Text, codes,
  text_eq, is_empty, tail, length, ◌==◌, if◌then◌else◌, filter, insert,
}
use superbull.Protocol.Frames.{RequestFrame, ResponseFrame}

-- `text.split(sep)`.
abbrev pub cons_first : ℕ → List Text → List Text
cons_first c [] = (c ∷ []) ∷ []
cons_first c (t ∷ ts) = (c ∷ t) ∷ ts

unfoldable pub split_on : ℕ → Text → List Text
split_on sep [] = [] ∷ []
split_on sep (c ∷ text) = elim (c == sep) [
  | true ↦ [] ∷ split_on sep text
  | false ↦ cons_first c (split_on sep text)
]

-- `routePattern.split('/').filter(Boolean)`.
unfoldable pub segments : Text → List Text
segments pattern = filter (λ s. not (is_empty s)) (split_on b'/' pattern)

abbrev pub is_param : Text → Bool
is_param [] = false
is_param (c ∷ segment) = c == b':'

abbrev pub first : List Text → Text
first [] = []
first (s ∷ path) = s

-- The loop of `matchRoute`; `params` is an object.
unfoldable pub match_segments :
    List Text → List Text → List (Text × Text) → Option (List (Text × Text))
match_segments [] path params = some params
match_segments (p ∷ pattern) path params = elim (is_param p) [
  | true ↦ match_segments pattern (tail path) (insert (tail p) (first path) params)
  | false ↦ if text_eq p (first path) then match_segments pattern (tail path) params else none
]

unfoldable pub match_route : Text → List Text → Option (List (Text × Text))
match_route route path =
    if length (segments route) == length path then match_segments (segments route) path [] else none

pub record AppControllerRoute {ℓ} (Handler : Type ℓ) : Type ℓ where
  pub method : Text
  pub route : Text
  pub handler : Handler

module _ {ℓ} {Handler : Type ℓ} where
  unfoldable pub find_route :
      List (AppControllerRoute Handler)
      → Text
      → List Text
      → Option (AppControllerRoute Handler × List (Text × Text))
  find_route [] method path = none
  find_route (r ∷ routes) method path =
      let rest = find_route routes method path in
      if not (text_eq r.method method)
      then rest
      else elim (match_route r.route path) [ none ↦ rest | some params ↦ some (r, params) ]

module _ (Json : Type 0) where
  pub record HandlerResponse : Type 0 where
    pub status : Option ℕ
    pub body : Option Json
    pub content_type : Option Text

  -- What a handler does; `true` is an `Error`, which the error handler takes.
  pub data Outcome : Type 0 where
    returns : HandlerResponse → Outcome
    throws : Bool → Text → Outcome

abbrev pub status_or : Option ℕ → ℕ
status_or none = 200
status_or (some status) = status

abbrev pub type_or : Option Text → Text
type_or none = codes "application/json"
type_or (some content_type) = content_type

abbrev pub or_null {ℓ} : {A : Type ℓ} → A → Option A → A
or_null null none = null
or_null null (some a) = a

module _ {Json : Type 0} (stringify : Json → Text) (null : Json) (error_body : Text → Json) where
  unfoldable pub respond : Text → HandlerResponse Json → ResponseFrame
  respond id r =
      if status_or r.status == 204
      then record { id = id; status = 204; body = []; content_type = none }
      else record {
        id = id;
        status = status_or r.status;
        body = stringify (or_null null r.body);
        content_type = some (type_or r.content_type);
      }

  module _ {Handler : Type 0} (to_lower : Text → Text)
      (error_handler : Option (Text → HandlerResponse Json))
      (call : Handler → RequestFrame → List (Text × Text) → Outcome Json) where
    -- `none` when `handle` throws.
    abbrev pub settled : Text → Outcome Json → Option ResponseFrame
    settled id (returns r) = some (respond id r)
    settled id (throws false message) = none
    settled id (throws true message) = elim error_handler [
      | none ↦ none
      | some h ↦ some (respond id (h message))
    ]

    unfoldable pub handle : List (AppControllerRoute Handler) → RequestFrame → Option ResponseFrame
    handle routes frame = elim (find_route routes (to_lower frame.method) frame.path) [
      | none ↦ some (
          respond frame.id (record {
            status = some 404;
            body = some (error_body (codes "route not found"));
            content_type = none;
          }))
      | some (r, params) ↦ settled frame.id (call r.handler frame params)
    ]

    unfoldable pub execute_request :
        List (AppControllerRoute Handler) → RequestFrame → ResponseFrame
    execute_request routes frame = elim (handle routes frame) [
      | some response ↦ response
      | none ↦ record {
        id = frame.id;
        status = 500;
        body = stringify (error_body (codes "internal error"));
        content_type = some (codes "application/json");
      }
    ]
