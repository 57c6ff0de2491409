-- ===== src/Bundle/Sets/X509Set.antt =====
-- bundle/x509bundle/set.go: the set of
-- the package, on the operations that the sets share.
use go_spiffe.Prelude.{Result, ℕ, Bool, Option, List}
use go_spiffe.Spiffeid.Identifier.{TrustDomain}
use go_spiffe.Bundle.X509
use go_spiffe.Bundle.Set

abbrev pub trust_domain_of : X509.Bundle → TrustDomain
trust_domain_of b = b.trust_domain

unfoldable pub new_set : List (Option X509.Bundle) → Set.Set X509.Bundle
new_set bundles = Set.new_set trust_domain_of bundles

unfoldable pub add : Option X509.Bundle → Set.Set X509.Bundle → Set.Set X509.Bundle
add bundle s = Set.add trust_domain_of bundle s

unfoldable pub remove : TrustDomain → Set.Set X509.Bundle → Set.Set X509.Bundle
remove trust_domain s = Set.remove trust_domain s

unfoldable pub has_bundle : TrustDomain → Set.Set X509.Bundle → Bool
has_bundle trust_domain s = Set.has_bundle trust_domain s

unfoldable pub get : TrustDomain → Set.Set X509.Bundle → Option X509.Bundle
get trust_domain s = Set.get trust_domain s

unfoldable pub bundles : Set.Set X509.Bundle → List X509.Bundle
bundles s = Set.bundles trust_domain_of s

unfoldable pub len : Set.Set X509.Bundle → ℕ
len s = Set.len s

unfoldable pub get_x509_bundle_for_trust_domain :
    TrustDomain → Set.Set X509.Bundle → Result Set.SetError X509.Bundle
get_x509_bundle_for_trust_domain trust_domain s = Set.get_bundle_for_trust_domain trust_domain s
