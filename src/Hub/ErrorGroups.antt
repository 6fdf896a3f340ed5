-- ===== src/Hub/ErrorGroups.antt =====
-- apps/web/convex/errors.ts: failed jobs grouped by a fingerprint of their message. The runtime's
-- `toLowerCase` is the parameter `to_lower`.
pub mod Fingerprint
pub mod Upsert
pub mod Listing
mod Tests
use superbull.Common.{
  ℕ, zero, suc, ◌+◌, List, [], ◌∷◌, ◌++◌, Option, none, some, Bool, true, false, not, ◌&&◌, ◌||◌,
  Text, codes, text_eq, is_digit, leb, ltb, ◌==◌, if◌then◌else◌, take, find,
}
use superbull.Hub.Schema.{Db, ErrorGroup, GroupState, opened, resolved, ignored}
use superbull.Hub.Base.{
  Result, ok, fail, ◌>>=◌, ◌>>◌, guard, or_fail, unique, patch_where, unknown_group,
}
use superbull.Hub.Access.{require_project_member}

-- `message.split('\n')[0]`
unfoldable pub first_line : Text → Text
first_line [] = []
first_line (c ∷ text) = elim (c == 10) [ true ↦ [] | false ↦ c ∷ first_line text ]

-- `text.replace(pattern, '#')` for a global pattern. `match` gives the length of the match at the
-- head of a text, 0 for none; `skip` counts what is left of the match that is being passed over.
unfoldable pub replace_all : (Text → ℕ) → ℕ → Text → Text
replace_all match skip [] = []
replace_all match (suc skip) (c ∷ text) = replace_all match skip text
replace_all match zero (c ∷ text) = elim (match (c ∷ text)) [
  | zero ↦ c ∷ replace_all match zero text
  | suc rest ↦ b'#' ∷ replace_all match rest text
]

abbrev pub is_hex : ℕ → Bool
is_hex c = is_digit c || (leb b'a' c && leb c b'f')

-- How many characters at the head are of a class.
unfoldable pub run_length : (ℕ → Bool) → Text → ℕ
run_length p [] = 0
run_length p (c ∷ text) = if p c then suc (run_length p text) else 0

-- A class, at least `least` times, as often as it can.
unfoldable pub match_run : (ℕ → Bool) → ℕ → Text → ℕ
unfolding run_length
match_run p least text = if leb least (run_length p text) then run_length p text else 0

-- Groups of hexadecimal digits of the given sizes, a dash between each two.
unfoldable pub has_groups : List ℕ → Text → Bool
has_groups [] text = true
has_groups (zero ∷ []) text = true
has_groups (zero ∷ n ∷ sizes) [] = false
has_groups (zero ∷ n ∷ sizes) (c ∷ text) = c == b'-' && has_groups (n ∷ sizes) text
has_groups (suc n ∷ sizes) [] = false
has_groups (suc n ∷ sizes) (c ∷ text) = is_hex c && has_groups (n ∷ sizes) text

unfoldable pub match_uuid : Text → ℕ
unfolding has_groups
match_uuid text = if has_groups (8 ∷ 4 ∷ 4 ∷ 4 ∷ 12 ∷ []) text then 36 else 0

unfoldable pub normalize_fingerprint_message : (Text → Text) → Text → Text
normalize_fingerprint_message to_lower message =
    let lower = to_lower (first_line message) in
    let without_uuids = replace_all match_uuid 0 lower in
    let without_hex = replace_all (match_run is_hex 8) 0 without_uuids in
    let without_digits = replace_all (match_run is_digit 1) 0 without_hex in take 200 without_digits

unfoldable pub compute_fingerprint : (Text → Text) → Text → Text → Text
compute_fingerprint to_lower message queue_name =
    normalize_fingerprint_message to_lower message ++ codes ":" ++ queue_name

pub record Failed : Type 0 where
  pub project_id : ℕ
  pub connector_id : ℕ
  pub queue_name : Text
  pub job_name : Option Text
  pub job_id : Option Text
  pub message : Text
  pub ts : ℕ

abbrev pub has_key : ℕ → Text → ErrorGroup → Bool
has_key connector_id fingerprint g =
    g.connector_id == connector_id && text_eq g.fingerprint fingerprint

abbrev pub is_resolved : GroupState → Bool
is_resolved resolved = true
is_resolved _ = false

-- The patch for one more failure: a resolved group opens again, as a regression.
unfoldable pub bump : Failed → ErrorGroup → ErrorGroup
bump f g = record g {
  count = g.count + 1;
  last_seen_ts = f.ts;
  last_job_id = f.job_id;
  state = if is_resolved g.state then opened else g.state;
  is_regression = if is_resolved g.state then true else g.is_regression;
}

unfoldable pub new_group : Failed → Text → ℕ → ErrorGroup
new_group f fingerprint id = record {
  id = id;
  project_id = f.project_id;
  connector_id = f.connector_id;
  fingerprint = fingerprint;
  queue_name = f.queue_name;
  job_name = f.job_name;
  message = f.message;
  state = opened;
  count = 1;
  first_seen_ts = f.ts;
  last_seen_ts = f.ts;
  last_job_id = f.job_id;
  is_regression = false;
}

-- The write, once the query has returned.
unfoldable pub write_group : Failed → Text → Option ErrorGroup → Db → Db
write_group f fingerprint (some g) db = record db {
  error_groups = patch_where (λ x. x.id == g.id) (bump f) db.error_groups;
}
write_group f fingerprint none db = record db {
  error_groups = db.error_groups ++ new_group f fingerprint db.next_id ∷ [];
  next_id = db.next_id + 1;
}

unfoldable pub upsert_error_group : (Text → Text) → Failed → Db → Result Db
upsert_error_group to_lower f db = do
  let fingerprint = compute_fingerprint to_lower f.message f.queue_name
  existing ← unique (has_key f.connector_id fingerprint) db.error_groups
  ok (write_group f fingerprint existing db)

unfoldable pub get_group : Option ℕ → ℕ → ℕ → Db → Result (Option ErrorGroup)
get_group auth project_id group_id db = do
  m ← require_project_member auth project_id db
  ok (elim (find (λ g. g.id == group_id) db.error_groups) [
    | none ↦ none
    | some g ↦ if g.project_id == project_id then some g else none
  ])

abbrev pub set_state : GroupState → ErrorGroup → ErrorGroup
set_state state g = record g {
  state = state;
  is_regression = if is_resolved state then false else g.is_regression;
}

unfoldable pub set_group_state :
    Option ℕ → ℕ → ℕ → GroupState → Db → Result (Db × Option ErrorGroup)
set_group_state auth project_id group_id state db = do
  m ← require_project_member auth project_id db
  g ← or_fail (find (λ g. g.id == group_id) db.error_groups) unknown_group
  guard (g.project_id == project_id) unknown_group
  let groups = patch_where (λ g. g.id == group_id) (set_state state) db.error_groups
  ok (record db { error_groups = groups }, find (λ g. g.id == group_id) groups)
