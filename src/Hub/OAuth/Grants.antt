-- ===== src/Hub/OAuth/Grants.antt =====
-- apps/web/convex/oauthProvider.ts: revoking every token of a grant, and no other.
use superbull.Common.{ℕ, ◌<◌, ◌≡◌, refl, List, [], ◌∷◌, true, not, ◌||◌, ◌&&◌, filter, All, arith}
use superbull.Hub.Schema.{Db, OAuthToken}
use superbull.Hub.Base.{patch_where}
use superbull.Hub.OAuth.{Grant, of_grant, is_revoked, revoke_at, revoke_grant_family}

-- No token of the grant is left that is not revoked.
abbrev pub IsRevoked : Grant → List OAuthToken → Type 0
IsRevoked g tokens = All (λ t. (not (of_grant g t) || is_revoked t) ≡ true) tokens

abbrev pub others : Grant → List OAuthToken → List OAuthToken
others g tokens = filter (λ t. not (of_grant g t)) tokens

patch-IsRevoked :
    (now : ℕ) (g : Grant) (tokens : List OAuthToken)
    → 0 < now
    → IsRevoked g (patch_where (λ t. of_grant g t && not (is_revoked t)) (revoke_at now) tokens)
patch-IsRevoked now g [] h = tt
patch-IsRevoked now g (t ∷ tokens) h = (ground arith, patch-IsRevoked now g tokens h)

patch-others :
    (now : ℕ) (g : Grant) (tokens : List OAuthToken)
    → others g (patch_where (λ t. of_grant g t && not (is_revoked t)) (revoke_at now) tokens)
      ≡ others g tokens
patch-others now g [] = refl
patch-others now g (t ∷ tokens) = ground (arith, patch-others now g tokens)

-- After `revokeGrantFamily`, at a time that is not 0, every token of the grant is revoked, and the
-- tokens of other grants are the ones before, in order.
pub revoke_grant_family_lem :
    (now : ℕ) (g : Grant) (db : Db)
    → 0 < now
    → IsRevoked g (revoke_grant_family now g db).oauth_tokens
      × (others g (revoke_grant_family now g db).oauth_tokens ≡ others g db.oauth_tokens)
unfolding revoke_grant_family
revoke_grant_family_lem now g db h =
    (patch-IsRevoked now g db.oauth_tokens h, patch-others now g db.oauth_tokens)
