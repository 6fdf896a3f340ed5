-- ===== src/Hub/Connectors/Enrollment.antt =====
-- apps/web/convex/connectors.ts: an enrollment token leads to the connector that it was made for.
use superbull.Common.{
  ℕ, ◌≡◌, refl, ap, ◌∙◌, [], ◌∷◌, ◌++◌, Option, none, some, true, false, not, Text, is_empty,
  filter, filter-append, arith,
}
use superbull.Hub.Schema.{Db, Connector, owner, admin, member}
use superbull.Hub.Base.{ok, guard, ok_of_bind, connector_name_required}
use superbull.Hub.Access.{
  Membership, has_valid_internal_token, require_internal_token, require_project_member,
  require_role,
}
use superbull.Hub.Invites.{guard_token_hash}
use superbull.Hub.Connectors.{
  new_connector, create_connector, has_enrollment, find_by_enrollment_token_hash,
}

-- Where no connector has a token hash yet, a connector that is created with it is what the gateway finds
-- by that hash, and only then: it belongs to a project that its creator is a member of, and has a name
-- that is not blank.
pub create_connector-find :
    (trim : Text → Text) (configured : Option Text) (token : Text) (auth : Option ℕ) (p : ℕ)
    (name token_hash : Text) (db db' : Db) (c : Connector)
    → has_valid_internal_token configured (some token) ≡ true
    → filter (has_enrollment token_hash) db.connectors ≡ []
    → create_connector trim auth p name token_hash db ≡ ok (db', c)
    → (find_by_enrollment_token_hash configured token token_hash db ≡ ok none)
      × (find_by_enrollment_token_hash configured token token_hash db' ≡ ok (some c))
      × (c.project_id ≡ p)
      × (is_empty c.name ≡ false)
      × ((m : Membership) × (require_project_member auth p db ≡ ok m))
unfolding create_connector find_by_enrollment_token_hash require_internal_token
create_connector-find trim configured token auth p name token_hash db db' c a free h =
    let (m, e, h₁) = ok_of_bind (require_project_member auth p db) _ _ h in
    let (u, _, h₂) = ok_of_bind (require_role m.member (owner ∷ admin ∷ member ∷ [])) _ _ h₁ in
    let (v, named, h₃) =
      ok_of_bind (guard (not (is_empty (trim name))) connector_name_required) _ _ h₂ in
    let (w, _, h₄) = ok_of_bind (guard_token_hash token_hash) _ _ h₃ in
    let made : c ≡ new_connector p (trim name) token_hash db.next_id = ground arith in
    let rows : db'.connectors ≡ db.connectors ++ c ∷ [] = ground arith in
    let mine : has_enrollment token_hash c ≡ true = rw made (ground arith) in
    let found : filter (has_enrollment token_hash) db'.connectors ≡ c ∷ [] =
      ap (filter (has_enrollment token_hash)) rows
      ∙ filter-append (has_enrollment token_hash) db.connectors (c ∷ [])
      ∙ ground (arith, free, mine) in
    (
      rw (a, free) refl,
      rw (a, found) refl,
      ground (arith, made),
      ground (arith, made, named),
      (m, e),
    )
