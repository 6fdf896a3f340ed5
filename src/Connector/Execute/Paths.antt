-- ===== src/Connector/Execute/Paths.antt =====
-- packages/connector/src/execute-request.ts: a path that fills a route's pattern is led to it, with the
-- parameters that it was filled with.
use superbull.Common.{
  ◌≡◌, refl, sym, List, [], ◌∷◌, Option, none, some, Bool, true, false, ◌&&◌, ◌||◌, Text, text_eq,
  tail, length, ◌==◌, if◌then◌else◌, map, any, find, lookup, insert, lookup-insert, arith, inl, inr,
  Bool-cases, Option-cases,
}
use superbull.Connector.Execute.{
  segments, is_param, match_segments, match_route, AppControllerRoute, find_route,
}

-- The pattern with a value for each parameter.
abbrev pub fill : List Text → (Text → Text) → List Text
fill pattern value = map (λ p. if is_param p then value (tail p) else p) pattern

abbrev pub names_param : Text → Text → Bool
names_param name p = is_param p && text_eq (tail p) name

-- What is found under a name, among the filled ones and those before.
abbrev pub found_under : Text → List Text → (Text → Text) → Option Text → Option Text
found_under name pattern value before =
    if any (names_param name) pattern then some (value name) else before

match_segments-fill :
    (pattern : List Text) (value : Text → Text) (name : Text) (params : List (Text × Text))
    → (filled : List (Text × Text)) × (match_segments pattern (fill pattern value) params
        ≡ some filled)
      × (lookup name filled ≡ found_under name pattern value (lookup name params))
unfolding match_segments
match_segments-fill [] value name params = (params, refl, refl)
match_segments-fill (p ∷ pattern) value name params = elim (Bool-cases (is_param p)) [
  | inl here ↦
      let (filled, e, h) =
        match_segments-fill pattern value name (insert (tail p) (value (tail p)) params) in
      (
        filled,
        rw (here, match_segments, here) e,
        ground (arith, h, here, lookup-insert (tail p) name (value (tail p)) params),
      )
  | inr fixed ↦
      let (filled, e, h) = match_segments-fill pattern value name params in
      (filled, rw (fixed, match_segments, fixed) (ground (arith, e)), ground (arith, h, fixed))
]

abbrev pub is_some : {A : Type 0} → Option A → Bool
is_some none = false
is_some (some a) = true

length-map : {A B : Type 0} (f : A → B) (xs : List A) → length (map f xs) ≡ length xs
length-map f [] = refl
length-map f (x ∷ xs) = omega (arith, length-map f xs)

-- A path that fills a route's pattern is matched by it, whatever the values, and the parameters that come
-- back are the pattern's names, each with the value that the path was filled with, and no other.
pub match_route-fill :
    (route : Text) (value : Text → Text) (name : Text)
    → (params : List (Text × Text)) × (match_route route (fill (segments route) value)
        ≡ some params)
      × (lookup name params
          ≡ (if any (names_param name) (segments route) then some (value name) else none))
unfolding match_route lookup
match_route-fill route value name =
    let (params, e, h) = match_segments-fill (segments route) value name [] in
    (
      params,
      ground
          (arith, e, length-map (λ p. if is_param p then value (tail p) else p) (segments route)),
      h,
    )

-- A route matches only a path that has its fixed segments, in their places.
abbrev pub fits : List Text → List Text → Bool
fits [] [] = true
fits (p ∷ pattern) (s ∷ path) = (is_param p || text_eq p s) && fits pattern path
fits _ _ = false

match_segments-fits :
    (pattern path : List Text) (params : List (Text × Text))
    → length pattern ≡ length path
    → fits pattern path ≡ is_some (match_segments pattern path params)
unfolding match_segments
match_segments-fits [] [] params h = refl
match_segments-fits [] (s ∷ path) params h = absurd (omega arith)
match_segments-fits (p ∷ pattern) [] params h = absurd (omega arith)
match_segments-fits (p ∷ pattern) (s ∷ path) params h = elim (Bool-cases (is_param p)) [
  | inl here ↦
      rw (here, match_segments)
        (match_segments-fits pattern path (insert (tail p) s params) (omega (arith, h)))
  | inr fixed ↦ elim (Bool-cases (text_eq p s)) [
    | inl same ↦
        rw (fixed, match_segments, same)
          (match_segments-fits pattern path params (omega (arith, h)))
    | inr other ↦ rw (fixed, match_segments, other) refl
  ]
]

fits-length : (pattern path : List Text) → fits pattern path ≡ true → length pattern ≡ length path
fits-length [] [] h = refl
fits-length [] (s ∷ path) h = absurd (ground arith)
fits-length (p ∷ pattern) [] h = absurd (ground arith)
fits-length (p ∷ pattern) (s ∷ path) h = omega (arith, fits-length pattern path (ground arith))

-- A route matches a path if and only if they have as many segments and agree in every one that is not a
-- parameter.
pub match_route-fits :
    (route : Text) (path : List Text)
    → is_some (match_route route path) ≡ fits (segments route) path
unfolding match_route
match_route-fits route path = elim (Bool-cases (length (segments route) == length path)) [
  | inl same ↦
      rw (match_route, same) (sym (match_segments-fits (segments route) path [] (ground arith)))
  | inr other ↦
      rw (match_route, other)
        (elim (Bool-cases (fits (segments route) path)) [
          | inl fine ↦ absurd (ground (arith, fits-length (segments route) path fine))
          | inr unfit ↦ sym unfit
        ])
]

module _ {Handler : Type 0} (method : Text) (path : List Text) where
  abbrev pub accepts : AppControllerRoute Handler → Bool
  accepts r = text_eq r.method method && fits (segments r.route) path

  abbrev pub route_of :
      Option (AppControllerRoute Handler × List (Text × Text)) → Option (AppControllerRoute Handler)
  route_of none = none
  route_of (some (r, params)) = some r

  -- The search leads a request to the first route of the table, in its order, of that method and with a
  -- pattern that agrees with the path segment by segment, and to none if there is no such route.
  pub find_route-find :
      (routes : List (AppControllerRoute Handler))
      → route_of (find_route routes method path) ≡ find accepts routes
  unfolding find_route
  find_route-find [] = refl
  find_route-find (r ∷ routes) = elim (Bool-cases (text_eq r.method method)) [
    | inr other ↦ rw (find_route, other) (find_route-find routes)
    | inl same ↦ elim (Option-cases (match_route r.route path)) [
      | inl nothing ↦
          rw (find_route, same, nothing)
            (ground (arith, nothing, match_route-fits r.route path, find_route-find routes))
      | inr (params, hit) ↦
          rw (find_route, same, hit) (ground (arith, hit, match_route-fits r.route path))
    ]
  ]
