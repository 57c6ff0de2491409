-- ===== src/Bundle/Spiffe/Document.antt =====
-- `Parse` and `Marshal` of bundle/spiffebundle/bundle.go. The JSON encoding is a parameter; a document
-- with no "keys", or null, has none.
use go_spiffe.Prelude.{
  if◌then◌else◌, length, Result, ok, err, ◌>>=◌, map_err, Bytes, bytes_eq, ℕ, ◌+◌, Option, none,
  some, List, [], ◌∷◌, ◌++◌,
}
use go_spiffe.GoTime.{ℤ, seconds_to_duration, add_almost_second, div_second}
use go_spiffe.Spiffeid.Identifier.{TrustDomain}
use go_spiffe.Crypto.{Keys}
use go_spiffe.X509.{Certificate}
use go_spiffe.Bundle.Jwks.{JsonWebKey, AddError, plain_key}
use go_spiffe.Bundle.Spiffe.{
  Bundle, new, add_x509_authority, add_jwt_authority, add_wit_authority, set_refresh_hint,
  set_sequence_number,
}

-- "x509-svid", "jwt-svid", "wit-svid"
abbrev pub x509_svid_use : Bytes
x509_svid_use = b'x' ∷ b'5' ∷ b'0' ∷ b'9' ∷ b'-' ∷ b's' ∷ b'v' ∷ b'i' ∷ b'd' ∷ []

abbrev pub jwt_svid_use : Bytes
jwt_svid_use = b'j' ∷ b'w' ∷ b't' ∷ b'-' ∷ b's' ∷ b'v' ∷ b'i' ∷ b'd' ∷ []

abbrev pub wit_svid_use : Bytes
wit_svid_use = b'w' ∷ b'i' ∷ b't' ∷ b'-' ∷ b's' ∷ b'v' ∷ b'i' ∷ b'd' ∷ []

-- `bundleDoc`
pub record BundleDoc : Type 0 where
  pub keys : Option (List JsonWebKey)
  pub sequence_number : Option ℕ
  pub refresh_hint : Option ℤ

-- the errors that `wrapSpiffebundleErr` wraps; the numbers are the entry, and how many were found
pub data ParseError (E : Type 0) : Type 0 where
  cannot_read : E → ParseError E
  cannot_parse : E → ParseError E
  no_authorities_found : ParseError E
  expected_single_certificate : ℕ → ℕ → ParseError E
  error_adding_jwt : ℕ → AddError → ParseError E
  error_adding_wit : ℕ → AddError → ParseError E

-- `len(key.Certificates) != 1`, and `key.Certificates[0]` otherwise
unfoldable pub add_certificates :
    {E : Type 0} → ℕ → List Certificate → Bundle → Result (ParseError E) Bundle
add_certificates i (cert ∷ []) b = ok (add_x509_authority cert b)
add_certificates i certs b = err (expected_single_certificate i (length certs))

-- the `switch` of the loop, at entry `i`; a key of another use is passed over
unfoldable pub add_key : {E : Type 0} → ℕ → JsonWebKey → Bundle → Result (ParseError E) Bundle
unfolding add_certificates
add_key i key b =
    if bytes_eq key.use_of x509_svid_use
    then add_certificates i key.certificates b
    else if bytes_eq key.use_of jwt_svid_use
    then map_err (error_adding_jwt i) (add_jwt_authority key.key_id key.key b)
    else if bytes_eq key.use_of wit_svid_use
    then map_err (error_adding_wit i) (add_wit_authority key.key_id key.key b)
    else ok b

unfoldable pub add_keys : {E : Type 0} → ℕ → List JsonWebKey → Bundle → Result (ParseError E) Bundle
add_keys i [] b = ok b
add_keys i (key ∷ keys) b = do b' ← add_key i key b; add_keys (i + 1) keys b'

abbrev pub set_hint : Option ℤ → Bundle → Bundle
set_hint none b = b
set_hint (some hint) b = set_refresh_hint (seconds_to_duration hint) b

abbrev pub set_number : Option ℕ → Bundle → Bundle
set_number none b = b
set_number (some n) b = set_sequence_number n b

-- what `Parse` does with the decoded document
unfoldable pub from_document : {E : Type 0} → TrustDomain → BundleDoc → Result (ParseError E) Bundle
from_document td jwks =
    let bundle = set_number jwks.sequence_number (set_hint jwks.refresh_hint (new td)) in
    elim jwks.keys [ none ↦ err no_authorities_found | some keys ↦ add_keys 0 keys bundle ]

module _ {E Json : Type 0} (unmarshal : Json → Result E BundleDoc) where
  unfoldable pub parse : TrustDomain → Json → Result (ParseError E) Bundle
  parse td json = do jwks ← map_err cannot_parse (unmarshal json); from_document td jwks

  -- on what `os.ReadFile` returned
  unfoldable pub load : TrustDomain → Result E Json → Result (ParseError E) Bundle
  load td contents = do json ← map_err cannot_read contents; parse td json

  -- on what `io.ReadAll` returned
  unfoldable pub read : TrustDomain → Result E Json → Result (ParseError E) Bundle
  read td contents = do json ← map_err cannot_read contents; parse td json

-- `append` to a slice that is nil at first
abbrev pub append_key : Option (List JsonWebKey) → JsonWebKey → Option (List JsonWebKey)
append_key none key = some (key ∷ [])
append_key (some keys) key = some (keys ++ key ∷ [])

abbrev pub x509_key : Certificate → JsonWebKey
x509_key cert = record (plain_key [] cert.public_key) {
  certificates = cert ∷ [];
  use_of = x509_svid_use;
}

-- the three loops of `Marshal`
unfoldable pub marshal_x509 : Option (List JsonWebKey) → List Certificate → Option (List JsonWebKey)
marshal_x509 keys [] = keys
marshal_x509 keys (cert ∷ certs) = marshal_x509 (append_key keys (x509_key cert)) certs

unfoldable pub marshal_keys : Bytes → Option (List JsonWebKey) → Keys → Option (List JsonWebKey)
marshal_keys use_of keys [] = keys
marshal_keys use_of keys ((key_id, key) ∷ rest) =
    marshal_keys use_of (append_key keys (record (plain_key key_id key) { use_of = use_of })) rest

-- `int64((*b.refreshHint + (time.Second - 1)) / time.Second)`, of a hint that is set
abbrev pub written_hint : Option ℤ → Option ℤ
written_hint none = none
written_hint (some hint) = some (div_second (add_almost_second hint))

unfoldable pub document : Bundle → BundleDoc
unfolding marshal_x509 marshal_keys
document b = record {
  keys =
      marshal_keys wit_svid_use
        (marshal_keys jwt_svid_use (marshal_x509 none b.x509_authorities) b.jwt_authorities)
        b.wit_authorities;
  sequence_number = b.sequence_number;
  refresh_hint = written_hint b.refresh_hint;
}

unfoldable pub marshal : {E Json : Type 0} → (BundleDoc → Result E Json) → Bundle → Result E Json
marshal encode b = encode (document b)
