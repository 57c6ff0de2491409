-- ===== src/Bundle/Wit.antt =====
-- exp/bundle/witbundle/bundle.go. A lock makes each method one step. The encoded form of a JWKS document, and
-- its encoder and decoder, are parameters.
pub mod AsJwt
use go_spiffe.Prelude.{
  ◌>>=◌, ◌==◌, if◌then◌else◌, length, Result, ok, err, map_err, Bytes, is_empty, ℕ, ◌+◌, Bool, true,
  false, not, ◌&&◌, Option, none, some, List, [], ◌∷◌,
}
use go_spiffe.GoMap.{lookup, has, put, delete, bytes_key}
use go_spiffe.Spiffeid.Identifier.{TrustDomain, trust_domain_eq}
use go_spiffe.Crypto.{PublicKey, Keys, copy_jwt_authorities, jwt_authorities_equal}
use go_spiffe.Bundle.Jwks.{AddError, empty_key_id, JsonWebKey, plain_key}

-- "wit-svid"
abbrev pub wit_svid_use : Bytes
wit_svid_use = b'w' ∷ b'i' ∷ b't' ∷ b'-' ∷ b's' ∷ b'v' ∷ b'i' ∷ b'd' ∷ []

pub record Bundle : Type 0 where
  pub trust_domain : TrustDomain
  pub wit_authorities : Keys

-- the errors that `wrapErr` wraps
pub data BundleError (E : Type 0) : Type 0 where
  cannot_read : E → BundleError E
  cannot_parse : E → BundleError E
  error_adding_authority : ℕ → BundleError E
  no_wit_bundle : TrustDomain → BundleError E

unfoldable pub new : TrustDomain → Bundle
new trust_domain = record { trust_domain = trust_domain; wit_authorities = [] }

unfoldable pub from_wit_authorities : TrustDomain → Keys → Bundle
from_wit_authorities trust_domain authorities = record {
  trust_domain = trust_domain;
  wit_authorities = copy_jwt_authorities authorities;
}

unfoldable pub wit_authorities : Bundle → Keys
wit_authorities b = copy_jwt_authorities b.wit_authorities

unfoldable pub find_wit_authority : Bytes → Bundle → Option PublicKey
find_wit_authority key_id b = lookup key_id b.wit_authorities

unfoldable pub has_wit_authority : Bytes → Bundle → Bool
has_wit_authority key_id b = has key_id b.wit_authorities

unfoldable pub add_wit_authority : Bytes → PublicKey → Bundle → Result AddError Bundle
add_wit_authority key_id authority b =
    if is_empty key_id
    then err empty_key_id
    else ok (record b { wit_authorities = put key_id authority b.wit_authorities })

unfoldable pub remove_wit_authority : Bytes → Bundle → Bundle
remove_wit_authority key_id b = record b { wit_authorities = delete key_id b.wit_authorities }

unfoldable pub set_wit_authorities : Keys → Bundle → Bundle
set_wit_authorities authorities b = record b { wit_authorities = copy_jwt_authorities authorities }

unfoldable pub is_empty_bundle : Bundle → Bool
is_empty_bundle b = length b.wit_authorities == 0

unfoldable pub clone : Bundle → Bundle
clone b = from_wit_authorities b.trust_domain b.wit_authorities

-- `b.Equal(other)` on two pointers, which may be nil
unfoldable pub equal_bundle : Option Bundle → Option Bundle → Bool
equal_bundle none none = true
equal_bundle none (some other) = false
equal_bundle (some b) none = false
equal_bundle (some b) (some other) =
    trust_domain_eq b.trust_domain other.trust_domain
    && jwt_authorities_equal b.wit_authorities other.wit_authorities

unfoldable pub get_wit_bundle_for_trust_domain :
    {E : Type 0} → Bundle → TrustDomain → Result (BundleError E) Bundle
get_wit_bundle_for_trust_domain b trust_domain =
    if not (trust_domain_eq b.trust_domain trust_domain)
    then err (no_wit_bundle trust_domain)
    else ok b

-- the loop of `Parse`, at entry `i`
unfoldable pub add_keys :
    {E : Type 0} → ℕ → List JsonWebKey → Bundle → Result (BundleError E) Bundle
add_keys i [] b = ok b
add_keys i (key ∷ keys) b = do
  b' ← map_err (λ e. error_adding_authority i) (add_wit_authority key.key_id key.key b)
  add_keys (i + 1) keys b'

-- the loop of `Marshal`
unfoldable pub keys_of : Keys → List JsonWebKey
keys_of [] = []
keys_of ((key_id, authority) ∷ rest) =
    record (plain_key key_id authority) { use_of = wit_svid_use } ∷ keys_of rest

module _ {E Json : Type 0} (unmarshal_keys : Json → Result E (List JsonWebKey)) where
  unfoldable pub parse : TrustDomain → Json → Result (BundleError E) Bundle
  parse trust_domain json = do
    keys ← map_err cannot_parse (unmarshal_keys json)
    add_keys 0 keys (new trust_domain)

  -- on what `os.ReadFile` returned
  unfoldable pub load : TrustDomain → Result E Json → Result (BundleError E) Bundle
  load trust_domain contents = do json ← map_err cannot_read contents; parse trust_domain json

  -- on what `io.ReadAll` returned
  unfoldable pub read : TrustDomain → Result E Json → Result (BundleError E) Bundle
  read trust_domain contents = do json ← map_err cannot_read contents; parse trust_domain json

unfoldable pub marshal :
    {E Json : Type 0} → (List JsonWebKey → Result E Json) → Bundle → Result E Json
marshal marshal_keys b = marshal_keys (keys_of b.wit_authorities)
