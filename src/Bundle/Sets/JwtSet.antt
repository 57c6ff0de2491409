-- ===== src/Bundle/Sets/JwtSet.antt =====
-- bundle/jwtbundle/set.go: the set of
-- the package, on the operations that the sets share.
use go_spiffe.Prelude.{Result, ℕ, Bool, Option, List}
use go_spiffe.Spiffeid.Identifier.{TrustDomain}
use go_spiffe.Bundle.Jwt
use go_spiffe.Bundle.Set

abbrev pub trust_domain_of : Jwt.Bundle → TrustDomain
trust_domain_of b = b.trust_domain

unfoldable pub new_set : List (Option Jwt.Bundle) → Set.Set Jwt.Bundle
new_set bundles = Set.new_set trust_domain_of bundles

unfoldable pub add : Option Jwt.Bundle → Set.Set Jwt.Bundle → Set.Set Jwt.Bundle
add bundle s = Set.add trust_domain_of bundle s

unfoldable pub remove : TrustDomain → Set.Set Jwt.Bundle → Set.Set Jwt.Bundle
remove trust_domain s = Set.remove trust_domain s

unfoldable pub has_bundle : TrustDomain → Set.Set Jwt.Bundle → Bool
has_bundle trust_domain s = Set.has_bundle trust_domain s

unfoldable pub get : TrustDomain → Set.Set Jwt.Bundle → Option Jwt.Bundle
get trust_domain s = Set.get trust_domain s

unfoldable pub bundles : Set.Set Jwt.Bundle → List Jwt.Bundle
bundles s = Set.bundles trust_domain_of s

unfoldable pub len : Set.Set Jwt.Bundle → ℕ
len s = Set.len s

unfoldable pub get_jwt_bundle_for_trust_domain :
    TrustDomain → Set.Set Jwt.Bundle → Result Set.SetError Jwt.Bundle
get_jwt_bundle_for_trust_domain trust_domain s = Set.get_bundle_for_trust_domain trust_domain s
