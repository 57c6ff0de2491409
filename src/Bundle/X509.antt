-- ===== src/Bundle/X509.antt =====
-- bundle/x509bundle/bundle.go. A bundle's lock makes each method one step; the state that a method leaves
-- is its result here. Files.antt has what it reads and writes by package pemutil;
-- `x509.ParseCertificates` is a parameter.
pub mod Laws
pub mod Files
use go_spiffe.Prelude.{
  ◌>>=◌, ◌==◌, if◌then◌else◌, length, Result, ok, err, map_err, Bytes, Bool, true, false, not, ◌&&◌,
  Option, none, some, List, [], ◌∷◌, is_empty,
}
use go_spiffe.Spiffeid.Identifier.{TrustDomain, trust_domain_eq}
use go_spiffe.X509.{
  Certificate, copy_x509_authorities, certs_equal, has_authority, add_authority, remove_authority,
}

pub record Bundle : Type 0 where
  pub trust_domain : TrustDomain
  pub x509_authorities : List Certificate

-- the errors that `wrapX509bundleErr` wraps
pub data BundleError (E : Type 0) : Type 0 where
  cannot_load : E → BundleError E
  cannot_read : E → BundleError E
  cannot_parse : E → BundleError E
  no_bundle_found : TrustDomain → BundleError E

unfoldable pub new : TrustDomain → Bundle
new trust_domain = record { trust_domain = trust_domain; x509_authorities = [] }

unfoldable pub from_x509_authorities : TrustDomain → List Certificate → Bundle
from_x509_authorities trust_domain authorities = record {
  trust_domain = trust_domain;
  x509_authorities = copy_x509_authorities authorities;
}

unfoldable pub x509_authorities : Bundle → List Certificate
x509_authorities b = copy_x509_authorities b.x509_authorities

unfoldable pub add_x509_authority : Certificate → Bundle → Bundle
add_x509_authority cert b = record b { x509_authorities = add_authority cert b.x509_authorities }

unfoldable pub remove_x509_authority : Certificate → Bundle → Bundle
remove_x509_authority cert b = record b {
  x509_authorities = remove_authority cert b.x509_authorities;
}

unfoldable pub has_x509_authority : Certificate → Bundle → Bool
has_x509_authority cert b = has_authority cert b.x509_authorities

unfoldable pub set_x509_authorities : List Certificate → Bundle → Bundle
set_x509_authorities authorities b = record b {
  x509_authorities = copy_x509_authorities authorities;
}

unfoldable pub is_empty_bundle : Bundle → Bool
is_empty_bundle b = length b.x509_authorities == 0

unfoldable pub clone : Bundle → Bundle
clone b = from_x509_authorities b.trust_domain b.x509_authorities

-- `b.Equal(other)` on two pointers, which may be nil
unfoldable pub equal_bundle : Option Bundle → Option Bundle → Bool
equal_bundle none none = true
equal_bundle none (some other) = false
equal_bundle (some b) none = false
equal_bundle (some b) (some other) =
    trust_domain_eq b.trust_domain other.trust_domain
    && certs_equal b.x509_authorities other.x509_authorities

-- `for _, cert := range certs { bundle.AddX509Authority(cert) }`
unfoldable pub add_all : List Certificate → Bundle → Bundle
add_all [] b = b
add_all (cert ∷ certs) b = add_all certs (add_x509_authority cert b)

unfoldable pub get_x509_bundle_for_trust_domain :
    {E : Type 0} → Bundle → TrustDomain → Result (BundleError E) Bundle
get_x509_bundle_for_trust_domain b trust_domain =
    if not (trust_domain_eq b.trust_domain trust_domain)
    then err (no_bundle_found trust_domain)
    else ok b

module _ {E : Type 0} (parse_certificates : Bytes → Result E (List Certificate)) where
  -- over `x509.ParseCertificates`
  unfoldable pub parse_raw : TrustDomain → Bytes → Result (BundleError E) Bundle
  parse_raw trust_domain bytes = if is_empty bytes then ok (new trust_domain) else do
    certs ← map_err cannot_parse (parse_certificates bytes)
    ok (add_all certs (new trust_domain))
