-- ===== src/Svid/WitSvid/Laws.antt =====
-- When `ParseAndValidate` returns a WIT-SVID.
use go_spiffe.Prelude.{
  ltb, if◌then◌else◌, length, Result, ok, err, map_err, >>=-eq-ok, >>-eq-ok, Bytes, bytes_eq,
  is_empty, ℕ, ◌≡◌, refl, sym, ap, ◌∙◌, ◌↔◌, Bool, true, false, not, none, some, [], arith,
  ok-injective, codes, map_err-eq-ok, required, required-eq-ok, check-eq-ok,
}
use go_spiffe.Spiffeid.Charset.{Build}
use go_spiffe.Spiffeid.Identifier.{TrustDomain, from_string, trust_domain}
use go_spiffe.Crypto.{PublicKey}
use go_spiffe.Bundle.Wit
use go_spiffe.Svid.Jose.{
  Json, Fields, text, object, lookup_field, Claims, Jwk, public_jwk, Jose,
  allowed_signature_algorithms,
}
use go_spiffe.Svid.WitSvid.{
  time_error, unable_to_parse_jwk, bad_key, unable_to_marshal_jwk, invalid_subject,
  audience_present, alg_not_supported, missing_expiry, alg_not_a_string, missing_subject,
  missing_alg, unable_to_parse_claims, jwk_not_an_object, signature_verification_failed,
  missing_jwk, missing_key_id, cnf_not_an_object, bad_header_type, no_authority_found,
  unable_to_parse, no_bundle_found, as_object, missing_cnf, as_text, type_text, as_public,
  parse_and_validate, contains_bytes, extract_cnf_jwk, verify_signature, Source, Svid, WitError,
  KeyError, parse,
}

as_object-eq-ok :
    {E : Type 0} (e : KeyError E) (json : Json) {fields : Fields}
    → as_object e json ≡ ok fields
    → json ≡ object fields
as_object-eq-ok e (object f) h = ap object (ok-injective h)
as_object-eq-ok e json h = absurd cc

as_text-eq-ok :
    {E : Type 0} (e : KeyError E) (json : Json) {t : Bytes} → as_text e json ≡ ok t → json ≡ text t
as_text-eq-ok e (text s) h = ap text (ok-injective h)
as_text-eq-ok e json h = absurd cc

as_public-eq-ok :
    {E : Type 0} (jwk : Jwk) {key : PublicKey}
    → as_public {E = E} jwk ≡ ok key
    → jwk ≡ public_jwk key
as_public-eq-ok (public_jwk k) h = ap public_jwk (ok-injective h)
as_public-eq-ok jwk h = absurd cc

not-eq-false : (b : Bool) → not b ≡ false → b ≡ true
not-eq-false b h = ground arith

module _ {Token E : Type 0} (build : Build) (jose : Jose Token E) where
  -- The claim `cnf` is an object with an object `jwk`, whose `alg` is allowed and which reads as a
  -- public key.
  pub record IsKeyOf (claims : Fields) (key : PublicKey) : Type 0 where
    pub cnf : Fields
    pub jwk : Fields
    pub alg : Bytes
    pub encoded : Bytes
    pub cnf_is : lookup_field (codes "cnf") claims ≡ some (object cnf)
    pub jwk_is : lookup_field (codes "jwk") cnf ≡ some (object jwk)
    pub alg_is : lookup_field (codes "alg") jwk ≡ some (text alg)
    pub alg_allowed : contains_bytes allowed_signature_algorithms alg ≡ true
    pub encodes : jose.marshal_json jwk ≡ ok encoded
    pub decodes : jose.unmarshal_jwk encoded ≡ ok (public_jwk key)

  extract_cnf_jwk_iff :
      (claims : Fields) (key : PublicKey)
      → (extract_cnf_jwk build jose claims ≡ ok key) ↔ IsKeyOf claims key
  unfolding extract_cnf_jwk
  extract_cnf_jwk_iff claims key = (
    λ h.
        let (c, p1, h1) =
          >>=-eq-ok (required missing_cnf (lookup_field (codes "cnf") claims)) _ h in
        let (cnf, p2, h2) = >>=-eq-ok (as_object cnf_not_an_object c) _ h1 in
        let (j, p3, h3) = >>=-eq-ok (required missing_jwk (lookup_field (codes "jwk") cnf)) _ h2 in
        let (jwk, p4, h4) = >>=-eq-ok (as_object jwk_not_an_object j) _ h3 in
        let (a, p5, h5) = >>=-eq-ok (required missing_alg (lookup_field (codes "alg") jwk)) _ h4 in
        let (alg, p6, h6) = >>=-eq-ok (as_text alg_not_a_string a) _ h5 in
        let (t, h7) =
          >>-eq-ok
            (if not (contains_bytes allowed_signature_algorithms alg)
              then err (alg_not_supported alg)
              else ok tt)
            _ h6 in
        let (encoded, p7, h8) =
          >>=-eq-ok (map_err unable_to_marshal_jwk (jose.marshal_json jwk)) _ h7 in
        let (k, p8, h9) =
          >>=-eq-ok (map_err unable_to_parse_jwk (jose.unmarshal_jwk encoded)) _ h8 in
        record {
          cnf = cnf;
          jwk = jwk;
          alg = alg;
          encoded = encoded;
          cnf_is =
              required-eq-ok missing_cnf _ p1 ∙ ap some (as_object-eq-ok cnf_not_an_object c p2);
          jwk_is =
              required-eq-ok missing_jwk _ p3 ∙ ap some (as_object-eq-ok jwk_not_an_object j p4);
          alg_is = required-eq-ok missing_alg _ p5 ∙ ap some (as_text-eq-ok alg_not_a_string a p6);
          alg_allowed = not-eq-false _ (check-eq-ok _ (alg_not_supported alg) t);
          encodes = map_err-eq-ok unable_to_marshal_jwk _ p7;
          decodes = map_err-eq-ok unable_to_parse_jwk _ p8 ∙ ap ok (as_public-eq-ok k h9);
        },
    λ h. rw (h.cnf_is, h.jwk_is, h.alg_is, h.alg_allowed, h.encodes, h.decodes) refl,
  )

  -- The signature of the token is verified with the authority of that key ID in the bundle of the trust
  -- domain.
  pub record IsSignedFor {F : Type 0} (bundles : Source F) (tok : Token) (td : TrustDomain)
      (key_id : Bytes) : Type 0 where
    pub bundle : Wit.Bundle
    pub authority : PublicKey
    pub dummy : Fields
    pub bundle_is : bundles td ≡ ok bundle
    pub authority_is : Wit.find_wit_authority key_id bundle ≡ some authority
    pub verified : jose.verified_claims_map authority tok ≡ ok dummy

  verify_signature_iff :
      {F : Type 0} (bundles : Source F) (tok : Token) (td : TrustDomain) (key_id : Bytes)
      → (verify_signature build jose bundles tok td key_id ≡ ok tt)
        ↔ IsSignedFor bundles tok td key_id
  unfolding verify_signature
  verify_signature_iff bundles tok td key_id = (
    λ h.
        let (b, p1, h1) = >>=-eq-ok (map_err (λ _. no_bundle_found td) (bundles td)) _ h in
        let (a, p2, h2) =
          >>=-eq-ok (required (no_authority_found key_id td) (Wit.find_wit_authority key_id b)) _
            h1 in
        let (d, p3, h3) =
          >>=-eq-ok (map_err signature_verification_failed (jose.verified_claims_map a tok)) _ h2 in
        record {
          bundle = b;
          authority = a;
          dummy = d;
          bundle_is = map_err-eq-ok (λ _. no_bundle_found td) _ p1;
          authority_is = required-eq-ok (no_authority_found key_id td) _ p2;
          verified = map_err-eq-ok signature_verification_failed _ p3;
        },
    λ h. rw (h.bundle_is, h.authority_is, h.verified) refl,
  )

  -- What `parse` asks of a token for the SVID that it makes of it, and of its signature.
  pub record IsParsed (token : Bytes) (now : ℕ) (Signed : Token → TrustDomain → Bytes → Type 0)
      (s : Svid) : Type 0 where
    pub tok : Token
    pub claims : Claims
    pub raw_claims : Fields
    pub parsed : jose.parse_signed allowed_signature_algorithms token ≡ ok tok
    pub header_ok : bytes_eq (type_text (jose.header_type tok)) (codes "wit+jwt") ≡ true
    pub key_id_set : is_empty (jose.key_id tok) ≡ false
    pub claims_are : jose.unsafe_claims tok ≡ ok claims
    pub subject_set : is_empty claims.subject ≡ false
    pub expiry_is : claims.expiry ≡ some s.expiry
    pub no_audience : ltb 0 (length claims.audience) ≡ false
    pub id_is : from_string build claims.subject ≡ ok s.id
    pub raw_claims_are : jose.unsafe_claims_map tok ≡ ok raw_claims
    pub key_is : IsKeyOf raw_claims s.public_key
    pub time_valid : jose.validate_with_leeway now claims ≡ ok tt
    pub signed : Signed tok (trust_domain s.id) (jose.key_id tok)
    pub key_id_is : s.key_id ≡ jose.key_id tok
    pub no_private_key : s.private_key ≡ none
    pub no_hint : s.hint ≡ []
    pub token_is : s.token ≡ token

  module _ (token : Bytes) (now : ℕ)
      (verify : Token → TrustDomain → Bytes → Result (WitError E) (Unit {0}))
      (Signed : Token → TrustDomain → Bytes → Type 0)
      (verify_iff : (tok : Token) (td : TrustDomain) (key_id : Bytes)
        → (verify tok td key_id ≡ ok tt) ↔ Signed tok td key_id) where
    IsParsed-of_parse :
        (s : Svid) → parse build jose token now verify ≡ ok s → IsParsed token now Signed s
    unfolding parse
    IsParsed-of_parse s h =
        let (tok, p1, h1) =
          >>=-eq-ok
            (map_err (λ _. unable_to_parse) (jose.parse_signed allowed_signature_algorithms token))
            _ h in
        let (t1, h2) =
          >>-eq-ok
            (if not (bytes_eq (type_text (jose.header_type tok)) (codes "wit+jwt"))
              then err (bad_header_type (type_text (jose.header_type tok)))
              else ok tt)
            _ h1 in
        let (t2, h3) =
          >>-eq-ok (if is_empty (jose.key_id tok) then err missing_key_id else ok tt) _ h2 in
        let (claims, p2, h4) =
          >>=-eq-ok (map_err unable_to_parse_claims (jose.unsafe_claims tok)) _ h3 in
        let (t3, h5) =
          >>-eq-ok (if is_empty claims.subject then err missing_subject else ok tt) _ h4 in
        let (expiry, p3, h6) = >>=-eq-ok (required missing_expiry claims.expiry) _ h5 in
        let (t4, h7) =
          >>-eq-ok (if ltb 0 (length claims.audience) then err audience_present else ok tt) _ h6 in
        let (id, p4, h8) =
          >>=-eq-ok (map_err invalid_subject (from_string build claims.subject)) _ h7 in
        let (raw, p5, h9) =
          >>=-eq-ok (map_err unable_to_parse_claims (jose.unsafe_claims_map tok)) _ h8 in
        let (key, p6, h10) = >>=-eq-ok (map_err bad_key (extract_cnf_jwk build jose raw)) _ h9 in
        let (t5, h11) =
          >>-eq-ok (map_err time_error (jose.validate_with_leeway now claims)) _ h10 in
        let (t6, h12) = >>-eq-ok (verify tok (trust_domain id) (jose.key_id tok)) _ h11 in
        rw (← ok-injective h12) (record {
          tok = tok;
          claims = claims;
          raw_claims = raw;
          parsed = map_err-eq-ok (λ _. unable_to_parse) _ p1;
          header_ok =
              not-eq-false _
                (check-eq-ok _ (bad_header_type (type_text (jose.header_type tok))) t1);
          key_id_set = check-eq-ok (is_empty (jose.key_id tok)) missing_key_id t2;
          claims_are = map_err-eq-ok unable_to_parse_claims _ p2;
          subject_set = check-eq-ok (is_empty claims.subject) missing_subject t3;
          expiry_is = required-eq-ok missing_expiry claims.expiry p3;
          no_audience = check-eq-ok (ltb 0 (length claims.audience)) audience_present t4;
          id_is = map_err-eq-ok invalid_subject _ p4;
          raw_claims_are = map_err-eq-ok unable_to_parse_claims _ p5;
          key_is = (extract_cnf_jwk_iff raw key).0 (map_err-eq-ok bad_key _ p6);
          time_valid = map_err-eq-ok time_error _ t5;
          signed = (verify_iff tok (trust_domain id) (jose.key_id tok)).0 t6;
          key_id_is = refl;
          no_private_key = refl;
          no_hint = refl;
          token_is = refl;
        })

    parse-IsParsed :
        (s : Svid) → IsParsed token now Signed s → parse build jose token now verify ≡ ok s
    unfolding parse
    parse-IsParsed s h =
        rw
          (
            h.parsed,
            h.header_ok,
            h.key_id_set,
            h.claims_are,
            h.time_valid,
            h.subject_set,
            h.no_audience,
            h.id_is,
            h.raw_claims_are,
            (extract_cnf_jwk_iff h.raw_claims s.public_key).1 h.key_is,
            (verify_iff h.tok (trust_domain s.id) (jose.key_id h.tok)).1 h.signed,
            h.expiry_is,
          )
          (ap ok (λ i. record {
            id = s.id;
            expiry = s.expiry;
            public_key = s.public_key;
            key_id = (sym h.key_id_is) i;
            private_key = (sym h.no_private_key) i;
            hint = (sym h.no_hint) i;
            token = (sym h.token_is) i;
          }))

  -- `ParseAndValidate` returns a WIT-SVID if and only if the token can be parsed with the allowed
  -- algorithms, its type header is "wit+jwt", its key ID is not empty, its claims have a subject
  -- that is a SPIFFE ID, an expiry, no audience and are valid at the time, the claim cnf holds a
  -- JWK with an allowed algorithm that is the public key of the SVID, and the source's bundle for
  -- the trust domain has under the key ID an authority with which the signature is verified; the
  -- SVID has that ID, expiry, key ID and token, no hint and no private key.
  pub parse_and_validate_wit_iff :
      {F : Type 0} (token : Bytes) (bundles : Source F) (now : ℕ) (s : Svid)
      → (parse_and_validate build jose token bundles now ≡ ok s)
        ↔ IsParsed token now (IsSignedFor bundles) s
  unfolding parse_and_validate
  parse_and_validate_wit_iff token bundles now s = (
    IsParsed-of_parse token now (verify_signature build jose bundles) (IsSignedFor bundles)
        (verify_signature_iff bundles) s,
    parse-IsParsed token now (verify_signature build jose bundles) (IsSignedFor bundles)
        (verify_signature_iff bundles) s,
  )
