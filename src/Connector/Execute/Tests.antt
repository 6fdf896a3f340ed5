-- ===== src/Connector/Execute/Tests.antt =====
-- A request of the board's API, led to its handler.
use superbull.Common.{
  ◌≡◌, refl, List, [], ◌∷◌, none, some, Text, Text_discrete, ℕ_discrete, codes, text_eq, any,
  if◌then◌else◌, lookup,
}
use superbull.Connector.Execute.{
  split_on, segments, match_segments, match_route, find_route, respond, handle, execute_request,
}
use superbull.Connector.Execute.Paths.{fill, names_param, route_of, match_route-fill}
use superbull.Connector.Routes.{app_routes, retry_job}

program : Unit {0}
unfolding Text_discrete ℕ_discrete split_on segments match_segments match_route find_route respond
    handle execute_request
program = tt

-- The queue and the job of a path.
abbrev named : Text → Text
named name = if text_eq name (codes "queueName") then codes "mail" else codes "7"

abbrev pattern : Text
pattern = codes "/api/queues/:queueName/:jobId/retry"

abbrev path : List Text
path = codes "api" ∷ codes "queues" ∷ codes "mail" ∷ codes "7" ∷ codes "retry" ∷ []

retried :
    (route_of (codes "put") path (find_route app_routes (codes "put") path))
    ≡ some (record { method = codes "put"; route = pattern; handler = retry_job })
unfolding Text_discrete ℕ_discrete split_on segments match_segments match_route find_route
retried = refl

match_route-fill_example :
    (params : List (Text × Text)) × (match_route pattern (fill (segments pattern) named)
      ≡ some params)
    × (lookup (codes "jobId") params ≡ (
        if any (names_param (codes "jobId")) (segments pattern)
        then some (named (codes "jobId"))
        else none))
match_route-fill_example = match_route-fill pattern named (codes "jobId")
