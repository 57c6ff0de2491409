-- ===== src/Bundle/Sets/WitSet.antt =====
-- exp/bundle/witbundle/set.go: the set of
-- the package, on the operations that the sets share.
use go_spiffe.Prelude.{Result, ℕ, Bool, Option, List}
use go_spiffe.Spiffeid.Identifier.{TrustDomain}
use go_spiffe.Bundle.Wit
use go_spiffe.Bundle.Set

abbrev pub trust_domain_of : Wit.Bundle → TrustDomain
trust_domain_of b = b.trust_domain

unfoldable pub new_set : List (Option Wit.Bundle) → Set.Set Wit.Bundle
new_set bundles = Set.new_set trust_domain_of bundles

unfoldable pub add : Option Wit.Bundle → Set.Set Wit.Bundle → Set.Set Wit.Bundle
add bundle s = Set.add trust_domain_of bundle s

unfoldable pub remove : TrustDomain → Set.Set Wit.Bundle → Set.Set Wit.Bundle
remove trust_domain s = Set.remove trust_domain s

unfoldable pub has_bundle : TrustDomain → Set.Set Wit.Bundle → Bool
has_bundle trust_domain s = Set.has_bundle trust_domain s

unfoldable pub get : TrustDomain → Set.Set Wit.Bundle → Option Wit.Bundle
get trust_domain s = Set.get trust_domain s

unfoldable pub bundles : Set.Set Wit.Bundle → List Wit.Bundle
bundles s = Set.bundles trust_domain_of s

unfoldable pub len : Set.Set Wit.Bundle → ℕ
len s = Set.len s

unfoldable pub get_wit_bundle_for_trust_domain :
    TrustDomain → Set.Set Wit.Bundle → Result Set.SetError Wit.Bundle
get_wit_bundle_for_trust_domain trust_domain s = Set.get_bundle_for_trust_domain trust_domain s
