-- ===== src/Bundle/Sets/SpiffeSet.antt =====
-- bundle/spiffebundle/set.go: the set of
-- the package, on the operations that the sets share.
use go_spiffe.Prelude.{Result, ℕ, Bool, Option, List}
use go_spiffe.Spiffeid.Identifier.{TrustDomain}
use go_spiffe.Bundle.X509
use go_spiffe.Bundle.Jwt
use go_spiffe.Bundle.Wit
use go_spiffe.Bundle.Spiffe
use go_spiffe.Bundle.Set

abbrev pub trust_domain_of : Spiffe.Bundle → TrustDomain
trust_domain_of b = b.trust_domain

unfoldable pub new_set : List (Option Spiffe.Bundle) → Set.Set Spiffe.Bundle
new_set bundles = Set.new_set trust_domain_of bundles

unfoldable pub add : Option Spiffe.Bundle → Set.Set Spiffe.Bundle → Set.Set Spiffe.Bundle
add bundle s = Set.add trust_domain_of bundle s

unfoldable pub remove : TrustDomain → Set.Set Spiffe.Bundle → Set.Set Spiffe.Bundle
remove trust_domain s = Set.remove trust_domain s

unfoldable pub has_bundle : TrustDomain → Set.Set Spiffe.Bundle → Bool
has_bundle trust_domain s = Set.has_bundle trust_domain s

unfoldable pub get : TrustDomain → Set.Set Spiffe.Bundle → Option Spiffe.Bundle
get trust_domain s = Set.get trust_domain s

unfoldable pub bundles : Set.Set Spiffe.Bundle → List Spiffe.Bundle
bundles s = Set.bundles trust_domain_of s

unfoldable pub len : Set.Set Spiffe.Bundle → ℕ
len s = Set.len s

unfoldable pub get_bundle_for_trust_domain :
    TrustDomain → Set.Set Spiffe.Bundle → Result Set.SetError Spiffe.Bundle
get_bundle_for_trust_domain trust_domain s = Set.get_bundle_for_trust_domain trust_domain s

unfoldable pub get_x509_bundle_for_trust_domain :
    TrustDomain → Set.Set Spiffe.Bundle → Result Set.SetError X509.Bundle
get_x509_bundle_for_trust_domain trust_domain s =
    Set.found trust_domain Spiffe.x509_bundle (Set.get trust_domain s)

unfoldable pub get_jwt_bundle_for_trust_domain :
    TrustDomain → Set.Set Spiffe.Bundle → Result Set.SetError Jwt.Bundle
get_jwt_bundle_for_trust_domain trust_domain s =
    Set.found trust_domain Spiffe.jwt_bundle (Set.get trust_domain s)

unfoldable pub get_wit_bundle_for_trust_domain :
    TrustDomain → Set.Set Spiffe.Bundle → Result Set.SetError Wit.Bundle
get_wit_bundle_for_trust_domain trust_domain s =
    Set.found trust_domain Spiffe.wit_bundle (Set.get trust_domain s)
