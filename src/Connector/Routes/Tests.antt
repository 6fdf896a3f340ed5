-- ===== src/Connector/Routes/Tests.antt =====
-- Each route of the table is reached.
use superbull.Common.{
  ◌≡◌, refl, none, some, Bool, true, false, Text, Text_discrete, ℕ_discrete, codes, text_eq, all,
  insert,
}
use superbull.Connector.Execute.{
  split_on, segments, match_segments, match_route, AppControllerRoute, find_route,
}
use superbull.Connector.Execute.Paths.{fill}
use superbull.Connector.Routes.{Handler, app_routes}

abbrev value : Text → Text
value name = codes "7"

-- The first route for the filled path is this one.
abbrev is_reached : AppControllerRoute Handler → Bool
is_reached r = elim (find_route app_routes r.method (fill (segments r.route) value)) [
  | none ↦ false
  | some (r', params) ↦ text_eq r'.route r.route
]

all_reached : all is_reached app_routes ≡ true
unfolding Text_discrete ℕ_discrete split_on segments match_segments match_route find_route insert
all_reached = refl
