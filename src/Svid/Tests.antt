-- ===== src/Svid/Tests.antt =====
-- X509-SVIDs on concrete certificates.
use go_spiffe.Prelude.{
  if◌then◌else◌, Result, ok, Bytes, bytes_eq, has_prefix, ℕ, ◌≡◌, refl, ◌↔◌, true, false, some,
  List, [], ◌∷◌, ◌++◌, codes,
}
use go_spiffe.Spiffeid.Charset.{standard, is_valid_trust_domain_char, is_valid_path_segment_char}
use go_spiffe.Spiffeid.Paths.{validate_path}
use go_spiffe.Spiffeid.Identifier.{SpiffeId, TrustDomain, from_string, path}
use go_spiffe.Spiffeid.Uri.{Url, zero_url, from_uri}
use go_spiffe.Crypto.{EcdsaKey, ecdsa, ecdsa_public_key_equal}
use go_spiffe.X509.{Certificate}
use go_spiffe.Bundle.X509
use go_spiffe.Svid.X509Svid.{
  ecdsa_private, Svid, new_svid, usage_set, key_matches, validate_key_usage,
  validate_signing_certificates, validate_private_key, validate_leaf_certificate,
  validate_certificates, id_from_cert,
}
use go_spiffe.Svid.X509Svid.Laws.{IsSvidOf, new_svid_iff}
use go_spiffe.Svid.X509Svid.Files.{parse, marshal}
use go_spiffe.Svid.X509Svid.RoundTrip.{parse-marshal_svid}
use go_spiffe.Pem.{Codec, encode_certificates, encode_pkcs8_private_key}
use go_spiffe.Pem.Tests.{small, small-Shortens, small-ReadsBack_cert, small-ReadsBack_key}
use go_spiffe.Svid.X509Svid.Verify.{verify, with_time, IsVerified, verify_iff, Chains}

abbrev print_url : Url → Bytes
print_url u = (u.scheme ++ codes "://") ++ (u.host ++ u.path)

abbrev uri : Url
uri = record zero_url { scheme = codes "spiffe"; host = codes "a.test"; path = codes "/web" }

abbrev web : SpiffeId
web = record { id = codes "spiffe://a.test/web"; pathidx = 15 }

abbrev key : EcdsaKey
key = record { curve = 256; x = 3; y = 5 }

abbrev leaf : Certificate
leaf = record {
  raw = 1 ∷ [];
  uris = uri ∷ [];
  is_ca = false;
  key_usage = 1;
  public_key = ecdsa key;
}

abbrev intermediate : Certificate
intermediate = record {
  raw = 2 ∷ [];
  uris = [];
  is_ca = true;
  key_usage = 32;
  public_key = ecdsa key;
}

abbrev chain : List Certificate
chain = leaf ∷ intermediate ∷ []

abbrev web_svid : Svid
web_svid = record { id = web; certificates = chain; private_key = ecdsa_private key; hint = [] }

makes : new_svid standard print_url {E = ℕ} chain (some (ecdsa_private key)) ≡ ok web_svid
unfolding new_svid validate_certificates validate_leaf_certificate id_from_cert from_uri from_string
    has_prefix is_valid_trust_domain_char validate_path is_valid_path_segment_char bytes_eq path
    validate_key_usage validate_signing_certificates validate_private_key key_matches
    ecdsa_public_key_equal usage_set
makes = refl

new_svid_iff_example :
    (new_svid standard print_url {E = ℕ} chain (some (ecdsa_private key)) ≡ ok web_svid)
    ↔ IsSvidOf standard print_url chain (some (ecdsa_private key)) web_svid
new_svid_iff_example = new_svid_iff standard print_url chain (some (ecdsa_private key)) web_svid

-- the PEM encoding of Pem.Tests, with parsers that know these certificates and this key
abbrev codec : Codec ℕ
codec = record small {
  parse_certificate = λ raw. if bytes_eq raw (1 ∷ []) then ok leaf else ok intermediate;
}

writes : marshal codec web_svid ≡ ok (0 ∷ 1 ∷ 1 ∷ 0 ∷ 1 ∷ 2 ∷ [], 1 ∷ 1 ∷ 7 ∷ [])
unfolding marshal encode_certificates encode_pkcs8_private_key bytes_eq
writes = refl

parse-marshal_svid_example :
    (parse codec standard print_url (0 ∷ 1 ∷ 1 ∷ 0 ∷ 1 ∷ 2 ∷ []) (1 ∷ 1 ∷ 7 ∷ [])
      ≡ some (ok web_svid))
    ↔ IsSvidOf standard print_url chain (some (ecdsa_private key)) web_svid
unfolding bytes_eq
parse-marshal_svid_example =
    parse-marshal_svid codec standard print_url small-Shortens small-ReadsBack_cert
      small-ReadsBack_key web_svid web_svid (refl, (refl, tt)) (λ der h. refl) writes

abbrev source : TrustDomain → Result ℕ X509.Bundle
source td = ok (X509.from_x509_authorities td (intermediate ∷ []))

abbrev find_chains : List Certificate → List Certificate → ℕ → Certificate → Result ℕ Chains
find_chains roots rest now cert = ok ((cert ∷ roots) ∷ [])

verify_iff_example :
    (verify standard print_url find_chains chain (some source) (with_time 5 ∷ [])
      ≡ (web, ok (chain ∷ [])))
    ↔ IsVerified standard print_url find_chains leaf (intermediate ∷ []) source 5 web (chain ∷ [])
verify_iff_example =
    verify_iff standard print_url find_chains leaf (intermediate ∷ []) source 5 web (chain ∷ [])
