-- ===== src/Svid/X509Svid.antt =====
-- svid/x509svid/svid.go; Files.antt has what it reads and writes by package pemutil. The DER parsers and
-- encoders, and how `net/url` prints a URL, are parameters; a private key of the standard library is its public key.
pub mod Checks
pub mod Laws
pub mod Files
pub mod RoundTrip
pub mod Verify
use go_spiffe.Prelude.{
  ltb, leb, ◌==◌, if◌then◌else◌, ==_iff, Bool-cases, Option-cases, &&-eq-true, eq_of_iff_true,
  length, take, drop, all, All, length-append, drop-append, take-append, take-length, all-append,
  append-left_cancel, Result, ok, err, ◌>>=◌, ◌>>◌, map_err, >>=-eq-ok, >>-eq-ok, Result-cases,
  Bytes, bytes_eq, bytes_eq_iff, is_empty, has_prefix, contains, slice, has_prefix-append,
  eq-append_of_has_prefix, slice-append, ℕ, zero, suc, ◌+◌, ◌-◌, ◌*◌, ◌/◌, ◌%◌, ◌^◌, ◌≤◌, ◌<◌, ◌≡◌,
  refl, sym, ap, ◌∙◌, ◌≢◌, ◌↔◌, ◌⊎◌, inl, inr, Bool, true, false, not, ◌&&◌, ◌||◌, Option, none,
  some, List, [], ◌∷◌, ◌++◌, map, append-nil, append_assoc, arith, ok-injective, err-injective,
  Bytes-cases, or_nil, codes,
}
use go_spiffe.Spiffeid.Charset.{Error, Build}
use go_spiffe.Spiffeid.Identifier.{SpiffeId, path}
use go_spiffe.Spiffeid.Uri.{Url, from_uri}
use go_spiffe.Crypto.{
  PublicKey, RsaKey, EcdsaKey, rsa, ecdsa, ed25519, other, rsa_public_key_equal,
  ecdsa_public_key_equal,
}
use go_spiffe.X509.{Certificate, concat_raw_certs_from_certs}

-- `crypto.PrivateKey`, an interface: the types that the code tells apart, and all others
pub data PrivateKey : Type 0 where
  rsa_private : RsaKey → PrivateKey
  ecdsa_private : EcdsaKey → PrivateKey
  ed25519_private : Bytes → PrivateKey
  other_private : ℕ → PrivateKey

-- "certificate contains no URI SAN", "... more than one URI SAN", and the errors of `FromURI`
pub data IdError : Type 0 where
  no_uri_san more_than_one_uri_san : IdError
  not_an_id : Error → IdError

pub data CertificateError : Type 0 where
  no_certificates_found : CertificateError
  cannot_get_leaf_id : IdError → CertificateError
  leaf_without_path leaf_is_ca : CertificateError
  leaf_without_digital_signature leaf_with_cert_sign leaf_with_crl_sign : CertificateError
  signing_not_ca signing_without_cert_sign : CertificateError

pub data KeyError : Type 0 where
  no_private_key_found unsupported_private_key key_does_not_match expected_signer : KeyError

pub data SvidError (E : Type 0) : Type 0 where
  certificate_validation_failed : CertificateError → SvidError E
  private_key_validation_failed : KeyError → SvidError E
  cannot_parse_certificate : E → SvidError E
  cannot_parse_private_key : E → SvidError E
  no_certificates_to_marshal : SvidError E
  cannot_encode_private_key : E → SvidError E
  cannot_read_certificate_file : E → SvidError E
  cannot_read_key_file : E → SvidError E

-- `SVID`
pub record Svid : Type 0 where
  pub id : SpiffeId
  pub certificates : List Certificate
  pub private_key : PrivateKey
  pub hint : Bytes

-- `x509.KeyUsageDigitalSignature`, `x509.KeyUsageCertSign`, `x509.KeyUsageCRLSign`
abbrev pub digital_signature : ℕ
digital_signature = 1

abbrev pub cert_sign : ℕ
cert_sign = 32

abbrev pub crl_sign : ℕ
crl_sign = 64

-- whether `usage & bit` is not zero, for a power of two
unfoldable pub usage_set : ℕ → ℕ → Bool
usage_set usage bit = (usage / bit) % 2 == 1

unfoldable pub validate_key_usage : Certificate → Result CertificateError (Unit {0})
unfolding usage_set
validate_key_usage leaf =
    if not (usage_set leaf.key_usage digital_signature)
    then err leaf_without_digital_signature
    else if usage_set leaf.key_usage cert_sign
    then err leaf_with_cert_sign
    else if usage_set leaf.key_usage crl_sign
    then err leaf_with_crl_sign
    else ok tt

unfoldable pub validate_signing_certificates : List Certificate → Result CertificateError (Unit {0})
validate_signing_certificates [] = ok tt
validate_signing_certificates (cert ∷ certs) =
    let later = validate_signing_certificates certs in
    if not cert.is_ca
    then err signing_not_ca
    else if not (usage_set cert.key_usage cert_sign)
    then err signing_without_cert_sign
    else later

unfoldable pub key_matches : PrivateKey → PublicKey → Result KeyError Bool
key_matches (rsa_private a) (rsa b) = ok (rsa_public_key_equal a b)
key_matches (rsa_private a) b = ok false
key_matches (ecdsa_private a) (ecdsa b) = ok (ecdsa_public_key_equal a b)
key_matches (ecdsa_private a) b = ok false
key_matches (ed25519_private a) (ed25519 b) = ok (bytes_eq a b)
key_matches (ed25519_private a) b = ok false
key_matches (other_private a) b = err unsupported_private_key

-- `privateKey.(crypto.Signer)`: the three types implement it
abbrev pub signer_of : PrivateKey → Result KeyError PrivateKey
signer_of (other_private a) = err expected_signer
signer_of key = ok key

-- on a key that may be nil
unfoldable pub validate_private_key : Option PrivateKey → Certificate → Result KeyError PrivateKey
validate_private_key none leaf = err no_private_key_found
validate_private_key (some key) leaf = do
  matched ← key_matches key leaf.public_key
  if not matched then err key_does_not_match else signer_of key

module _ (build : Build) (url_string : Url → Bytes) where
  -- `IDFromCert`, of verify.go, on the URIs of the certificate
  abbrev pub id_from_uris : List Url → Result IdError SpiffeId
  id_from_uris [] = err no_uri_san
  id_from_uris (uri ∷ []) = map_err not_an_id (from_uri url_string build uri)
  id_from_uris (uri ∷ other_uri ∷ uris) = err more_than_one_uri_san

  unfoldable pub id_from_cert : Certificate → Result IdError SpiffeId
  id_from_cert cert = id_from_uris cert.uris

  unfoldable pub validate_leaf_certificate : Certificate → Result CertificateError SpiffeId
  validate_leaf_certificate leaf = do
    leaf_id ← map_err cannot_get_leaf_id (id_from_cert leaf)
    if is_empty (path leaf_id)
        then err leaf_without_path
        else if leaf.is_ca
        then err leaf_is_ca
        else (validate_key_usage leaf >> ok leaf_id)

  unfoldable pub validate_certificates : List Certificate → Result CertificateError SpiffeId
  validate_certificates [] = err no_certificates_found
  validate_certificates (leaf ∷ signing_certs) = do
    leaf_id ← validate_leaf_certificate leaf
    validate_signing_certificates signing_certs >> ok leaf_id

  -- `certificates[0]` is there when the certificates are validated
  unfoldable pub new_svid :
      {E : Type 0} → List Certificate → Option PrivateKey → Result (SvidError E) Svid
  new_svid [] private_key = err (certificate_validation_failed no_certificates_found)
  new_svid (leaf ∷ signing_certs) private_key = do
    spiffe_id ← map_err certificate_validation_failed (validate_certificates (leaf ∷ signing_certs))
    signer ← map_err private_key_validation_failed (validate_private_key private_key leaf)
    ok (record {
      id = spiffe_id;
      certificates = leaf ∷ signing_certs;
      private_key = signer;
      hint = [];
    })

  -- with the parsers of crypto/x509
  unfoldable pub parse_raw :
      {E : Type 0}
      → (Bytes → Result E (List Certificate))
      → (Bytes → Result E (Option PrivateKey))
      → Bytes
      → Bytes
      → Result (SvidError E) Svid
  parse_raw parse_certificates parse_private_key cert_bytes key_bytes = do
    certificates ← map_err cannot_parse_certificate (parse_certificates cert_bytes)
    private_key ← map_err cannot_parse_private_key (parse_private_key key_bytes)
    new_svid certificates private_key

unfoldable pub marshal_raw :
    {E : Type 0} → (PrivateKey → Result E Bytes) → Svid → Result (SvidError E) (Bytes × Bytes)
marshal_raw marshal_private_key s = do
  key ← map_err cannot_encode_private_key (marshal_private_key s.private_key)
  if length s.certificates == 0
      then err no_certificates_to_marshal
      else ok (concat_raw_certs_from_certs s.certificates, key)

unfoldable pub get_x509_svid : {E : Type 0} → Svid → Result (SvidError E) Svid
get_x509_svid s = ok s
