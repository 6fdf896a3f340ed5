-- ===== src/Hub/Invites/Accept.antt =====
-- apps/web/convex/invites.ts: an invite is accepted once.
use superbull.Common.{
  ℕ, ◌<◌, ◌≡◌, refl, ◌∙◌, ◌⊎◌, inl, inr, [], ◌∷◌, none, some, true, false, Text, truthy,
  truthy-some, ◌==◌, find, arith, Option-cases,
}
use superbull.Hub.Schema.{Db, User, Project, Member, Invite}
use superbull.Hub.Base.{
  ok, fail, guard, or_fail, ok_of_bind, find-patch_where, find-append, find_sound, invite_not_found,
  other_email, project_not_found,
}
use superbull.Hub.Access.{member_of, require_user}
use superbull.Hub.Invites.{
  has_token, find_live, may_accept, new_member, add_member, accept_at, mark_accepted, accept,
}

-- What an acceptance by a user has rested on and has done.
pub record Accepted (to_lower : Text → Text) (now user_id : ℕ) (token_hash : Text) (db db' : Db)
    (project : Project) : Type 0 where
  pub invite : Invite
  pub user : User
  pub caller : find (λ u. u.id == user_id) db.users ≡ some user
  pub found : find (has_token token_hash) db.invites ≡ some invite
  pub unused : truthy invite.accepted_at ≡ false
  pub unexpired : now < invite.expires_at
  pub addressee : may_accept to_lower user invite ≡ true
  pub seat : Member
  pub seated : find (member_of invite.project_id user_id) db'.members ≡ some seat
  pub role :
      (find (member_of invite.project_id user_id) db.members ≡ some seat)
      ⊎ (seat.role ≡ invite.role)
  pub place : project.id ≡ invite.project_id
  pub marked : find (has_token token_hash) db'.invites ≡ some (accept_at now invite)

add_member_lem :
    (i : Invite) (user_id now : ℕ) (db : Db)
    → (m : Member) × (find
          (member_of i.project_id user_id)
          (mark_accepted now i (add_member i user_id db)).members
        ≡ some m)
      × ((find (member_of i.project_id user_id) db.members ≡ some m) ⊎ (m.role ≡ i.role))
unfolding add_member mark_accepted
add_member_lem i user_id now db =
    elim (Option-cases (find (member_of i.project_id user_id) db.members)) [
      | inr (m, old) ↦ (m, rw (old, add_member) old, inl old)
      | inl new ↦
          let m = new_member i user_id db.next_id in
          (
            m,
            rw (new, add_member)
                (find-append (member_of i.project_id user_id) db.members (m ∷ [])
                  ∙ ground (arith, new)),
            inr refl,
          )
    ]

add_member-invites :
    (i : Invite) (user_id : ℕ) (db : Db) → (add_member i user_id db).invites ≡ db.invites
unfolding add_member
add_member-invites i user_id db =
    elim (Option-cases (find (member_of i.project_id user_id) db.members)) [
      | inr (m, old) ↦ rw (old, add_member) refl
      | inl new ↦ rw (new, add_member) refl
    ]

mark_accepted-find :
    (now user_id : ℕ) (token_hash : Text) (i : Invite) (db : Db)
    → find (has_token token_hash) db.invites ≡ some i
    → find (has_token token_hash) (mark_accepted now i (add_member i user_id db)).invites
      ≡ some (accept_at now i)
unfolding mark_accepted
mark_accepted-find now user_id token_hash i db h = rw (add_member-invites i user_id db) (
    find-patch_where (has_token token_hash) (λ j. j.id == i.id) (accept_at now) (λ x. refl)
      db.invites
    ∙ ground (arith, h))

find_live-some :
    (now : ℕ) (token_hash : Text) (db : Db) (i : Invite)
    → find_live now token_hash db ≡ some i
    → (find (has_token token_hash) db.invites ≡ some i)
      × (truthy i.accepted_at ≡ false)
      × (now < i.expires_at)
find_live-some now token_hash db i h =
    elim (Option-cases (find (has_token token_hash) db.invites)) [
      | inl nothing ↦ absurd (ground arith)
      | inr (j, found) ↦ (ground arith, ground arith, ground arith)
    ]

require_user-some :
    (user_id : ℕ) (db : Db) (r : ℕ × User)
    → require_user (some user_id) db ≡ ok r
    → (r.0 ≡ user_id) × (find (λ u. u.id == user_id) db.users ≡ some r.1)
unfolding require_user
require_user-some user_id db r h = elim (Option-cases (find (λ u. u.id == user_id) db.users)) [
  | inl nobody ↦ absurd (ground arith)
  | inr (u, found) ↦ (ground arith, ground arith)
]

abbrev joined : ℕ → ℕ → Invite → Db → Db
joined now user_id i db = mark_accepted now i (add_member i user_id db)

accept_steps :
    (to_lower : Text → Text) (now user_id : ℕ) (token_hash : Text) (db db' : Db) (project : Project)
    → accept to_lower now (some user_id) token_hash db ≡ ok (db', project)
    → (u : User) × (i : Invite) × (find (λ v. v.id == user_id) db.users ≡ some u)
      × (find_live now token_hash db ≡ some i)
      × (may_accept to_lower u i ≡ true)
      × (db' ≡ joined now user_id i db)
      × (project.id ≡ i.project_id)
unfolding accept
accept_steps to_lower now user_id token_hash db db' project h =
    let (r, e, h₁) = ok_of_bind (require_user (some user_id) db) _ _ h in
    let (self, user) = require_user-some user_id db r e in
    let (i, live, h₂) =
      ok_of_bind (or_fail (find_live now token_hash db) invite_not_found) _ _ h₁ in
    let (t, may, h₃) = ok_of_bind (guard (may_accept to_lower r.1 i) other_email) _ _ h₂ in
    let (p, place, h₄) =
      ok_of_bind
        (or_fail (find (λ p. p.id == i.project_id) (joined now r.0 i db).projects)
          project_not_found)
        _ _ h₃ in
    (
      r.1,
      i,
      user,
      ground arith,
      ground arith,
      ground (arith, self),
      ground (arith, find_sound (λ p. p.id == i.project_id) (joined now r.0 i db).projects p),
    )

-- An acceptance that goes through, at a time that is not 0: the invite of that token was not accepted, not expired, and sent
-- to the caller's address (if the caller has one); afterwards the caller has a seat in the invite's
-- project, the one held before or one of the invite's role; and whichever known user presents the token
-- again is told that there is no such invite.
pub accept_once :
    (to_lower : Text → Text) (now later user_id other : ℕ) (token_hash : Text) (db db' : Db)
    (project : Project) (v : User)
    → 0 < now
    → accept to_lower now (some user_id) token_hash db ≡ ok (db', project)
    → find (λ u. u.id == other) db'.users ≡ some v
    → Accepted to_lower now user_id token_hash db db' project
      × (accept to_lower later (some other) token_hash db' ≡ fail invite_not_found)
unfolding accept require_user
accept_once to_lower now later user_id other token_hash db db' project v h e known =
    let (u, i, user, live, may, same, place) =
      accept_steps to_lower now user_id token_hash db db' project e in
    let (found, unused, unexpired) = find_live-some now token_hash db i live in
    let (m, seated, role) = add_member_lem i user_id now db in
    let marked : find (has_token token_hash) db'.invites ≡ some (accept_at now i) =
      rw same (mark_accepted-find now user_id token_hash i db found) in
    let gone : find_live later token_hash db' ≡ none =
      rw (find_live, marked) (ground (arith, truthy-some h)) in
    (
      record {
        invite = i;
        user = u;
        caller = user;
        found = found;
        unused = unused;
        unexpired = unexpired;
        addressee = may;
        seat = m;
        seated = rw same seated;
        role = role;
        place = place;
        marked = marked;
      },
      rw (known, gone) refl,
    )
