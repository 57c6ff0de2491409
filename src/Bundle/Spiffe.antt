-- ===== src/Bundle/Spiffe.antt =====
-- bundle/spiffebundle/bundle.go: the state and its accessors. A lock makes each method one step. A
-- refresh hint is a `time.Duration`, a sequence number a uint64; a nil pointer is `none`.
pub mod Document
pub mod Written
pub mod ReadBack
pub mod RoundTrip
pub mod Parts
use go_spiffe.Prelude.{
  ◌==◌, if◌then◌else◌, length, Result, ok, err, Bytes, is_empty, ℕ, Bool, true, false, not, ◌&&◌,
  Option, none, some, List, [],
}
use go_spiffe.GoMap.{lookup, has, put, delete, bytes_key}
use go_spiffe.GoTime.{ℤ, pos, negsuc}
use go_spiffe.Spiffeid.Identifier.{TrustDomain, trust_domain_eq}
use go_spiffe.Crypto.{PublicKey, Keys, copy_jwt_authorities, jwt_authorities_equal}
use go_spiffe.X509.{
  Certificate, copy_x509_authorities, certs_equal, has_authority, add_authority, remove_authority,
}
use go_spiffe.Bundle.Jwks.{AddError, empty_key_id}
use go_spiffe.Bundle.X509
use go_spiffe.Bundle.Jwt
use go_spiffe.Bundle.Wit

pub record Bundle : Type 0 where
  pub trust_domain : TrustDomain
  pub refresh_hint : Option ℤ
  pub sequence_number : Option ℕ
  pub jwt_authorities : Keys
  pub wit_authorities : Keys
  pub x509_authorities : List Certificate

unfoldable pub new : TrustDomain → Bundle
new trust_domain = record {
  trust_domain = trust_domain;
  refresh_hint = none;
  sequence_number = none;
  jwt_authorities = [];
  wit_authorities = [];
  x509_authorities = [];
}

unfoldable pub from_x509_bundle : X509.Bundle → Bundle
from_x509_bundle b = record (new b.trust_domain) { x509_authorities = X509.x509_authorities b }

unfoldable pub from_jwt_bundle : Jwt.Bundle → Bundle
from_jwt_bundle b = record (new b.trust_domain) { jwt_authorities = Jwt.jwt_authorities b }

unfoldable pub from_wit_bundle : Wit.Bundle → Bundle
from_wit_bundle b = record (new b.trust_domain) { wit_authorities = Wit.wit_authorities b }

unfoldable pub from_x509_authorities : TrustDomain → List Certificate → Bundle
from_x509_authorities td certs = record (new td) { x509_authorities = copy_x509_authorities certs }

unfoldable pub from_jwt_authorities : TrustDomain → Keys → Bundle
from_jwt_authorities td keys = record (new td) { jwt_authorities = copy_jwt_authorities keys }

unfoldable pub from_wit_authorities : TrustDomain → Keys → Bundle
from_wit_authorities td keys = record (new td) { wit_authorities = copy_jwt_authorities keys }

unfoldable pub x509_authorities : Bundle → List Certificate
x509_authorities b = copy_x509_authorities b.x509_authorities

unfoldable pub add_x509_authority : Certificate → Bundle → Bundle
add_x509_authority cert b = record b { x509_authorities = add_authority cert b.x509_authorities }

unfoldable pub remove_x509_authority : Certificate → Bundle → Bundle
remove_x509_authority cert b = record b {
  x509_authorities = remove_authority cert b.x509_authorities;
}

unfoldable pub has_x509_authority : Certificate → Bundle → Bool
has_x509_authority cert b = has_authority cert b.x509_authorities

unfoldable pub set_x509_authorities : List Certificate → Bundle → Bundle
set_x509_authorities certs b = record b { x509_authorities = copy_x509_authorities certs }

unfoldable pub jwt_authorities : Bundle → Keys
jwt_authorities b = copy_jwt_authorities b.jwt_authorities

unfoldable pub find_jwt_authority : Bytes → Bundle → Option PublicKey
find_jwt_authority key_id b = lookup key_id b.jwt_authorities

unfoldable pub has_jwt_authority : Bytes → Bundle → Bool
has_jwt_authority key_id b = has key_id b.jwt_authorities

unfoldable pub add_jwt_authority : Bytes → PublicKey → Bundle → Result AddError Bundle
add_jwt_authority key_id key b =
    if is_empty key_id
    then err empty_key_id
    else ok (record b { jwt_authorities = put key_id key b.jwt_authorities })

unfoldable pub remove_jwt_authority : Bytes → Bundle → Bundle
remove_jwt_authority key_id b = record b { jwt_authorities = delete key_id b.jwt_authorities }

unfoldable pub set_jwt_authorities : Keys → Bundle → Bundle
set_jwt_authorities keys b = record b { jwt_authorities = copy_jwt_authorities keys }

unfoldable pub wit_authorities : Bundle → Keys
wit_authorities b = copy_jwt_authorities b.wit_authorities

unfoldable pub find_wit_authority : Bytes → Bundle → Option PublicKey
find_wit_authority key_id b = lookup key_id b.wit_authorities

unfoldable pub has_wit_authority : Bytes → Bundle → Bool
has_wit_authority key_id b = has key_id b.wit_authorities

unfoldable pub add_wit_authority : Bytes → PublicKey → Bundle → Result AddError Bundle
add_wit_authority key_id key b =
    if is_empty key_id
    then err empty_key_id
    else ok (record b { wit_authorities = put key_id key b.wit_authorities })

unfoldable pub remove_wit_authority : Bytes → Bundle → Bundle
remove_wit_authority key_id b = record b { wit_authorities = delete key_id b.wit_authorities }

unfoldable pub set_wit_authorities : Keys → Bundle → Bundle
set_wit_authorities keys b = record b { wit_authorities = copy_jwt_authorities keys }

unfoldable pub is_empty_bundle : Bundle → Bool
is_empty_bundle b =
    (length b.x509_authorities == 0 && length b.jwt_authorities == 0)
    && length b.wit_authorities == 0

-- the value, zero if there is none, and whether there is one
unfoldable pub get_refresh_hint : Bundle → ℤ × Bool
get_refresh_hint b = elim b.refresh_hint [ none ↦ (pos 0, false) | some hint ↦ (hint, true) ]

unfoldable pub set_refresh_hint : ℤ → Bundle → Bundle
set_refresh_hint hint b = record b { refresh_hint = some hint }

unfoldable pub clear_refresh_hint : Bundle → Bundle
clear_refresh_hint b = record b { refresh_hint = none }

unfoldable pub get_sequence_number : Bundle → ℕ × Bool
get_sequence_number b = elim b.sequence_number [ none ↦ (0, false) | some n ↦ (n, true) ]

unfoldable pub set_sequence_number : ℕ → Bundle → Bundle
set_sequence_number n b = record b { sequence_number = some n }

unfoldable pub clear_sequence_number : Bundle → Bundle
clear_sequence_number b = record b { sequence_number = none }

unfoldable pub copy_refresh_hint : Option ℤ → Option ℤ
copy_refresh_hint none = none
copy_refresh_hint (some hint) = some hint

unfoldable pub copy_sequence_number : Option ℕ → Option ℕ
copy_sequence_number none = none
copy_sequence_number (some n) = some n

unfoldable pub clone : Bundle → Bundle
clone b = record {
  trust_domain = b.trust_domain;
  refresh_hint = copy_refresh_hint b.refresh_hint;
  sequence_number = copy_sequence_number b.sequence_number;
  jwt_authorities = copy_jwt_authorities b.jwt_authorities;
  wit_authorities = copy_jwt_authorities b.wit_authorities;
  x509_authorities = copy_x509_authorities b.x509_authorities;
}

unfoldable pub x509_bundle : Bundle → X509.Bundle
x509_bundle b = X509.from_x509_authorities b.trust_domain b.x509_authorities

unfoldable pub jwt_bundle : Bundle → Jwt.Bundle
jwt_bundle b = Jwt.from_jwt_authorities b.trust_domain b.jwt_authorities

unfoldable pub wit_bundle : Bundle → Wit.Bundle
wit_bundle b = Wit.from_wit_authorities b.trust_domain b.wit_authorities

unfoldable pub int_eq : ℤ → ℤ → Bool
int_eq (pos a) (pos b) = a == b
int_eq (negsuc a) (negsuc b) = a == b
int_eq _ _ = false

unfoldable pub refresh_hint_equal : Option ℤ → Option ℤ → Bool
refresh_hint_equal none none = true
refresh_hint_equal (some a) (some b) = int_eq a b
refresh_hint_equal _ _ = false

unfoldable pub sequence_number_equal : Option ℕ → Option ℕ → Bool
sequence_number_equal none none = true
sequence_number_equal (some a) (some b) = a == b
sequence_number_equal _ _ = false

-- `b.Equal(other)` on two pointers, which may be nil
unfoldable pub equal_bundle : Option Bundle → Option Bundle → Bool
equal_bundle (some b) (some other) =
    trust_domain_eq b.trust_domain other.trust_domain
    && (refresh_hint_equal b.refresh_hint other.refresh_hint
        && (sequence_number_equal b.sequence_number other.sequence_number
            && (jwt_authorities_equal b.jwt_authorities other.jwt_authorities
                && (jwt_authorities_equal b.wit_authorities other.wit_authorities
                    && certs_equal b.x509_authorities other.x509_authorities))))
equal_bundle none none = true
equal_bundle _ _ = false

-- "no SPIFFE bundle for trust domain", and so on for the other kinds
pub data NoBundle : Type 0 where
  no_bundle : TrustDomain → NoBundle

unfoldable pub get_bundle_for_trust_domain : Bundle → TrustDomain → Result NoBundle Bundle
get_bundle_for_trust_domain b td =
    if not (trust_domain_eq b.trust_domain td) then err (no_bundle td) else ok b

unfoldable pub get_x509_bundle_for_trust_domain : Bundle → TrustDomain → Result NoBundle X509.Bundle
get_x509_bundle_for_trust_domain b td =
    if not (trust_domain_eq b.trust_domain td) then err (no_bundle td) else ok (x509_bundle b)

unfoldable pub get_jwt_bundle_for_trust_domain : Bundle → TrustDomain → Result NoBundle Jwt.Bundle
get_jwt_bundle_for_trust_domain b td =
    if not (trust_domain_eq b.trust_domain td) then err (no_bundle td) else ok (jwt_bundle b)

unfoldable pub get_wit_bundle_for_trust_domain : Bundle → TrustDomain → Result NoBundle Wit.Bundle
get_wit_bundle_for_trust_domain b td =
    if not (trust_domain_eq b.trust_domain td) then err (no_bundle td) else ok (wit_bundle b)
