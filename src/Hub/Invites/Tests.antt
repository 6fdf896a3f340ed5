-- ===== src/Hub/Invites/Tests.antt =====
-- An invite that is accepted, and presented again.
use superbull.Common.{◌≡◌, refl, [], ◌∷◌, none, some, Text, Text_discrete, ℕ_discrete, codes, arith}
use superbull.Hub.Schema.{Db, Invite, member}
use superbull.Hub.Base.{fail, invite_not_found}
use superbull.Hub.Access.{require_user_id, require_user}
use superbull.Hub.Invites.{add_member, mark_accepted, accept}
use superbull.Hub.Invites.Accept.{Accepted, accept_once}
use superbull.Hub.Fixtures.{db, user, project}

program : Unit {0}
unfolding Text_discrete ℕ_discrete require_user_id require_user add_member mark_accepted accept
program = tt

abbrev same : Text → Text
same text = text

abbrev invite : Invite
invite = record {
  id = 8;
  project_id = 2;
  email = codes "a@b.c";
  role = member;
  token_hash = codes "t";
  invited_by = 1;
  expires_at = 1000;
  accepted_at = none;
}

abbrev invited : Db
invited = record db { invites = invite ∷ []; members = [] }

abbrev joined : Db
joined = mark_accepted 500 invite (add_member invite 1 invited)

accept_once_example :
    Accepted same 500 1 (codes "t") invited joined project
    × (accept same 600 (some 1) (codes "t") joined ≡ fail invite_not_found)
unfolding program
accept_once_example =
    accept_once same 500 600 1 1 (codes "t") invited joined project user (omega arith) refl refl
