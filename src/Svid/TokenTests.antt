-- ===== src/Svid/TokenTests.antt =====
-- JWT-SVIDs and WIT-SVIDs on a concrete signature library, whose tokens are their bytes.
use go_spiffe.Prelude.{
  ltb, if◌then◌else◌, Result, ok, err, Bytes, bytes_eq, has_prefix, ℕ, ◌≡◌, refl, ◌↔◌, Option, none,
  some, List, [], ◌∷◌, codes,
}
use go_spiffe.Spiffeid.Charset.{standard, is_valid_trust_domain_char, is_valid_path_segment_char}
use go_spiffe.Spiffeid.Paths.{validate_path}
use go_spiffe.Spiffeid.Identifier.{SpiffeId, TrustDomain, from_string}
use go_spiffe.Crypto.{PublicKey, other}
use go_spiffe.GoMap.{lookup}
use go_spiffe.Bundle.Jwt
use go_spiffe.Bundle.Wit
use go_spiffe.Svid.Jose.{
  Fields, text, object, no_fields, field, lookup_field, Claims, ClaimsError, expired, public_jwk,
  Jose,
}
use go_spiffe.Svid.JwtSvid
use go_spiffe.Svid.WitSvid

abbrev web : SpiffeId
web = record { id = codes "spiffe://a.test/web"; pathidx = 15 }

abbrev td : TrustDomain
td = record { name = codes "a.test" }

-- the claims of a token, whose first byte is its expiry
abbrev token_claims : List Bytes → Bytes → Result ℕ Claims
token_claims audience [] = err 1
token_claims audience (expiry ∷ bytes) = ok (record {
  subject = codes "spiffe://a.test/web";
  audience = audience;
  expiry = some expiry;
  not_before = none;
})

abbrev before : ℕ → Option ℕ → Result ClaimsError (Unit {0})
before now none = ok tt
before now (some expiry) = if ltb now expiry then ok tt else err expired

abbrev public_key : PublicKey
public_key = other 5

-- `{"jwk": {"alg": "ES256"}}`
abbrev cnf : Fields
cnf = field (codes "jwk") (object (field (codes "alg") (text (codes "ES256")) no_fields)) no_fields

abbrev small_jose : List Bytes → Bytes → Jose Bytes ℕ
small_jose audience type_header = record {
  parse_signed = λ algorithms token. ok token;
  key_id = λ token. codes "k";
  header_type = λ token. some (text type_header);
  unsafe_claims = token_claims audience;
  unsafe_claims_map = λ token. ok (field (codes "cnf") (object cnf) no_fields);
  verified_claims_map = λ key token. ok no_fields;
  validate = λ expected now claims. before now claims.expiry;
  validate_with_leeway = λ now claims. before now claims.expiry;
  marshal_json = λ fields. ok [];
  unmarshal_jwk = λ bytes. ok (public_jwk public_key);
}

abbrev jwt_bundle : Jwt.Bundle
jwt_bundle = record { trust_domain = td; jwt_authorities = (codes "k", other 1) ∷ [] }

abbrev wit_bundle : Wit.Bundle
wit_bundle = record { trust_domain = td; wit_authorities = (codes "k", other 1) ∷ [] }

abbrev jwt_bundles : JwtSvid.Source ℕ
jwt_bundles asked = ok jwt_bundle

abbrev wit_bundles : WitSvid.Source ℕ
wit_bundles asked = ok wit_bundle

abbrev aud : List Bytes
aud = codes "server" ∷ []

abbrev jwt_svid : JwtSvid.Svid
jwt_svid = record {
  id = web;
  audience = aud;
  expiry = 9;
  claims = no_fields;
  hint = [];
  token = 9 ∷ [];
}

abbrev wit_svid : WitSvid.Svid
wit_svid = record {
  id = web;
  expiry = 9;
  public_key = public_key;
  key_id = codes "k";
  private_key = none;
  hint = [];
  token = 9 ∷ [];
}

validates_jwt :
    JwtSvid.parse_and_validate standard (small_jose aud (codes "JWT")) (9 ∷ []) jwt_bundles aud 5
    ≡ ok jwt_svid
unfolding JwtSvid.parse_and_validate bytes_eq from_string has_prefix is_valid_trust_domain_char
    validate_path is_valid_path_segment_char Jwt.find_jwt_authority lookup
validates_jwt = refl

refuses_expired_jwt :
    JwtSvid.parse_and_validate standard (small_jose aud (codes "JWT")) (9 ∷ []) jwt_bundles aud 9
    ≡ err JwtSvid.token_has_expired
unfolding JwtSvid.parse_and_validate bytes_eq from_string has_prefix is_valid_trust_domain_char
    validate_path is_valid_path_segment_char Jwt.find_jwt_authority lookup
refuses_expired_jwt = refl

validates_wit :
    WitSvid.parse_and_validate standard (small_jose [] (codes "wit+jwt")) (9 ∷ []) wit_bundles 5
    ≡ ok wit_svid
unfolding WitSvid.parse_and_validate bytes_eq from_string has_prefix is_valid_trust_domain_char
    validate_path is_valid_path_segment_char Wit.find_wit_authority lookup lookup_field
    WitSvid.contains_bytes WitSvid.type_text
validates_wit = refl

parse_and_validate_jwt_iff_example :
    (JwtSvid.parse_and_validate standard (small_jose aud (codes "JWT")) (9 ∷ []) jwt_bundles aud 5
      ≡ ok jwt_svid)
    ↔ JwtSvid.Laws.IsParsed standard
        (small_jose aud (codes "JWT"))
        (9 ∷ [])
        aud
        5
        (JwtSvid.Laws.IsVerifiedBy standard (small_jose aud (codes "JWT")) jwt_bundles)
        jwt_svid
parse_and_validate_jwt_iff_example =
    JwtSvid.Laws.parse_and_validate_jwt_iff standard (small_jose aud (codes "JWT")) (9 ∷ [])
      jwt_bundles aud 5 jwt_svid

parse_and_validate_wit_iff_example :
    (WitSvid.parse_and_validate standard (small_jose [] (codes "wit+jwt")) (9 ∷ []) wit_bundles 5
      ≡ ok wit_svid)
    ↔ WitSvid.Laws.IsParsed standard
        (small_jose [] (codes "wit+jwt"))
        (9 ∷ [])
        5
        (WitSvid.Laws.IsSignedFor standard (small_jose [] (codes "wit+jwt")) wit_bundles)
        wit_svid
parse_and_validate_wit_iff_example =
    WitSvid.Laws.parse_and_validate_wit_iff standard (small_jose [] (codes "wit+jwt")) (9 ∷ [])
      wit_bundles 5 wit_svid
