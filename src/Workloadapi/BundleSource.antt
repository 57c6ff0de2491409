-- ===== src/Workloadapi/BundleSource.antt =====
-- workloadapi/bundlesource.go: the source's state and methods; its locks make each method one step. What
-- the watcher of the source does is in Watcher.antt.
pub mod Replace
pub mod Laws
use go_spiffe.Prelude.{
  ltb, leb, ◌==◌, if◌then◌else◌, ==_iff, Bool-cases, Option-cases, &&-eq-true, eq_of_iff_true,
  length, take, drop, all, All, length-append, drop-append, take-append, take-length, all-append,
  append-left_cancel, Result, ok, err, ◌>>=◌, ◌>>◌, map_err, >>=-eq-ok, >>-eq-ok, Result-cases,
  Bytes, bytes_eq, bytes_eq_iff, is_empty, has_prefix, contains, slice, has_prefix-append,
  eq-append_of_has_prefix, slice-append, ℕ, zero, suc, ◌+◌, ◌-◌, ◌*◌, ◌/◌, ◌%◌, ◌^◌, ◌≤◌, ◌<◌, ◌≡◌,
  refl, sym, ap, ◌∙◌, ◌≢◌, ◌↔◌, ◌⊎◌, inl, inr, Bool, true, false, not, ◌&&◌, ◌||◌, Option, none,
  some, List, [], ◌∷◌, ◌++◌, map, append-nil, append_assoc, arith, ok-injective, err-injective,
  Bytes-cases, or_nil, codes, map_err-eq-ok, if-eq-ok, required, required-eq-ok, check-eq-ok,
}
use go_spiffe.GoMap.{GoMap, lookup, has, put, delete}
use go_spiffe.X509.{Certificate}
use go_spiffe.Crypto.{Keys}
use go_spiffe.Spiffeid.Identifier.{TrustDomain}
use go_spiffe.Bundle.X509
use go_spiffe.Bundle.Jwt
use go_spiffe.Bundle.Spiffe
use go_spiffe.Bundle.Set.{trust_domain_key}
use go_spiffe.Bundle.Set
use go_spiffe.Bundle.Sets.X509Set
use go_spiffe.Bundle.Sets.JwtSet
use go_spiffe.Workloadapi.Response.{X509Context}

pub record BundleSource : Type 0 where
  pub x509_authorities : GoMap TrustDomain (List Certificate)
  pub jwt_authorities : GoMap TrustDomain Keys
  pub closed : Bool

pub data SourceError : Type 0 where
  source_is_closed : SourceError
  no_spiffe_bundle : TrustDomain → SourceError
  no_x509_bundle : TrustDomain → SourceError
  no_jwt_bundle : TrustDomain → SourceError

-- the state that `NewBundleSource` starts with
unfoldable pub new_bundle_source : BundleSource
new_bundle_source = record { x509_authorities = []; jwt_authorities = []; closed = false }

-- `Close`, up to the watcher's
unfoldable pub close : BundleSource → BundleSource
close s = record s { closed = true }

unfoldable pub check_closed : BundleSource → Result SourceError (Unit {0})
check_closed s = if s.closed then err source_is_closed else ok tt

module _ {B V : Type 0} (trust_domain_of : B → TrustDomain) (authorities_of : B → V) where
  -- the first loop: the trust domains that it meets, and the map
  unfoldable pub put_bundles :
      List B
      → GoMap TrustDomain (Unit {0})
      → GoMap TrustDomain V
      → GoMap TrustDomain (Unit {0}) × GoMap TrustDomain V
  put_bundles [] trust_domains authorities = (trust_domains, authorities)
  put_bundles (b ∷ bundles) trust_domains authorities =
      put_bundles bundles (put (trust_domain_of b) tt trust_domains)
        (put (trust_domain_of b) (authorities_of b) authorities)

-- the second loop, over the keys of the map
unfoldable pub delete_others :
    {V : Type 0}
    → GoMap TrustDomain (Unit {0})
    → GoMap TrustDomain V
    → GoMap TrustDomain V
    → GoMap TrustDomain V
delete_others trust_domains [] authorities = authorities
delete_others trust_domains ((existing, v) ∷ entries) authorities =
    let kept = delete_others trust_domains entries authorities in
    let deleted = delete_others trust_domains entries (delete existing authorities) in
    if has existing trust_domains then kept else deleted

-- the two loops
unfoldable pub replace :
    {B V : Type 0}
    → (B → TrustDomain)
    → (B → V)
    → List B
    → GoMap TrustDomain V
    → GoMap TrustDomain V
unfolding put_bundles delete_others
replace trust_domain_of authorities_of bundles authorities =
    let (trust_domains, added) =
      put_bundles trust_domain_of authorities_of bundles [] authorities in
    delete_others trust_domains added added

unfoldable pub set_x509_context : X509Context → BundleSource → BundleSource
unfolding replace
set_x509_context x509_context s = record s {
  x509_authorities =
      replace X509Set.trust_domain_of X509.x509_authorities (X509Set.bundles x509_context.bundles)
        s.x509_authorities;
}

unfoldable pub set_jwt_bundles : Set.Set Jwt.Bundle → BundleSource → BundleSource
unfolding replace
set_jwt_bundles bundles s = record s {
  jwt_authorities =
      replace JwtSet.trust_domain_of Jwt.jwt_authorities (JwtSet.bundles bundles) s.jwt_authorities;
}

-- `if hasX509Authorities`, `if hasJWTAuthorities`
unfoldable pub set_x509_authorities_of : Option (List Certificate) → Spiffe.Bundle → Spiffe.Bundle
set_x509_authorities_of none b = b
set_x509_authorities_of (some authorities) b = Spiffe.set_x509_authorities authorities b

unfoldable pub set_jwt_authorities_of : Option Keys → Spiffe.Bundle → Spiffe.Bundle
set_jwt_authorities_of none b = b
set_jwt_authorities_of (some authorities) b = Spiffe.set_jwt_authorities authorities b

-- the rest of `GetBundleForTrustDomain`, on what the maps have
unfoldable pub bundle_of :
    TrustDomain → Option (List Certificate) → Option Keys → Result SourceError Spiffe.Bundle
unfolding set_x509_authorities_of set_jwt_authorities_of
bundle_of td none none = err (no_spiffe_bundle td)
bundle_of td x509 jwt =
    ok (set_jwt_authorities_of jwt (set_x509_authorities_of x509 (Spiffe.new td)))

unfoldable pub get_bundle_for_trust_domain :
    TrustDomain → BundleSource → Result SourceError Spiffe.Bundle
unfolding check_closed bundle_of
get_bundle_for_trust_domain td s = do
  check_closed s
  bundle_of td (lookup td s.x509_authorities) (lookup td s.jwt_authorities)

unfoldable pub get_x509_bundle_for_trust_domain :
    TrustDomain → BundleSource → Result SourceError X509.Bundle
unfolding check_closed
get_x509_bundle_for_trust_domain td s = do
  check_closed s
  authorities ← required (no_x509_bundle td) (lookup td s.x509_authorities)
  ok (X509.from_x509_authorities td authorities)

unfoldable pub get_jwt_bundle_for_trust_domain :
    TrustDomain → BundleSource → Result SourceError Jwt.Bundle
unfolding check_closed
get_jwt_bundle_for_trust_domain td s = do
  check_closed s
  authorities ← required (no_jwt_bundle td) (lookup td s.jwt_authorities)
  ok (Jwt.from_jwt_authorities td authorities)
