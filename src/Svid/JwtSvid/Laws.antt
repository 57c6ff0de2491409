-- ===== src/Svid/JwtSvid/Laws.antt =====
-- When `ParseAndValidate` returns a JWT-SVID.
use go_spiffe.Prelude.{
  if◌then◌else◌, Result, ok, err, map_err, >>=-eq-ok, >>-eq-ok, Bytes, is_empty, ℕ, ◌≡◌, refl, sym,
  ap, ◌↔◌, true, false, not, some, List, [], map, arith, ok-injective, map_err-eq-ok, required,
  required-eq-ok, check-eq-ok,
}
use go_spiffe.Spiffeid.Charset.{Build}
use go_spiffe.Spiffeid.Identifier.{TrustDomain, from_string, trust_domain}
use go_spiffe.Bundle.Jwt
use go_spiffe.Svid.Jose.{Fields, Claims, Jose, allowed_signature_algorithms}
use go_spiffe.Svid.JwtSvid.{
  PublicKey, no_authority_found, no_bundle_found, missing_key_id, Source, verified_claims,
  parse_and_validate, claims_error, invalid_subject, missing_expiry, missing_subject,
  unable_to_get_claims, bad_header_type, unable_to_parse, Svid, JwtError, header_type_allowed,
  parse,
}

module _ {Token E : Type 0} (build : Build) (jose : Jose Token E) where
  -- What `parse` asks of a token for the SVID that it makes of it, and of where the claims map is from.
  pub record IsParsed (token : Bytes) (audience : List Bytes) (now : ℕ)
      (From : Token → TrustDomain → Fields → Type 0) (s : Svid) : Type 0 where
    pub tok : Token
    pub claims : Claims
    pub parsed : jose.parse_signed allowed_signature_algorithms token ≡ ok tok
    pub header_ok : header_type_allowed (jose.header_type tok) ≡ true
    pub claims_are : jose.unsafe_claims tok ≡ ok claims
    pub subject_set : is_empty claims.subject ≡ false
    pub id_is : from_string build claims.subject ≡ ok s.id
    pub claims_valid : jose.validate audience now claims ≡ ok tt
    pub map_is : From tok (trust_domain s.id) s.claims
    pub audience_is : s.audience ≡ claims.audience
    pub expiry_is : claims.expiry ≡ some s.expiry
    pub no_hint : s.hint ≡ []
    pub token_is : s.token ≡ token

  parse_iff :
      (token : Bytes) (audience : List Bytes) (now : ℕ)
      (get_claims : Token → TrustDomain → Result (JwtError E) Fields) (s : Svid)
      → (parse build jose token audience now get_claims ≡ ok s)
        ↔ IsParsed token audience now (λ tok td map. get_claims tok td ≡ ok map) s
  unfolding parse
  parse_iff token audience now get_claims s = (forth, back)
    where
      forth :
          parse build jose token audience now get_claims ≡ ok s
          → IsParsed token audience now (λ tok td map. get_claims tok td ≡ ok map) s
      forth h =
          let (tok, p1, h1) =
            >>=-eq-ok
              (map_err (λ _. unable_to_parse)
                (jose.parse_signed allowed_signature_algorithms token))
              _ h in
          let (t1, h2) =
            >>-eq-ok
              (if not (header_type_allowed (jose.header_type tok))
                then err bad_header_type
                else ok tt)
              _ h1 in
          let (claims, p2, h3) =
            >>=-eq-ok (map_err unable_to_get_claims (jose.unsafe_claims tok)) _ h2 in
          let (t2, h4) =
            >>-eq-ok (if is_empty claims.subject then err missing_subject else ok tt) _ h3 in
          let (expiry, p3, h5) = >>=-eq-ok (required missing_expiry claims.expiry) _ h4 in
          let (id, p4, h6) =
            >>=-eq-ok (map_err invalid_subject (from_string build claims.subject)) _ h5 in
          let (map, p5, h7) = >>=-eq-ok (get_claims tok (trust_domain id)) _ h6 in
          let (t3, h8) =
            >>-eq-ok
              (map_err (claims_error audience claims.audience) (jose.validate audience now claims))
              _ h7 in
          rw (← ok-injective h8) (record {
            tok = tok;
            claims = claims;
            parsed = map_err-eq-ok (λ _. unable_to_parse) _ p1;
            header_ok =
                (let no =
                    check-eq-ok (not (header_type_allowed (jose.header_type tok))) bad_header_type
                      t1 in
                  ground arith);
            claims_are = map_err-eq-ok unable_to_get_claims _ p2;
            subject_set = check-eq-ok (is_empty claims.subject) missing_subject t2;
            id_is = map_err-eq-ok invalid_subject _ p4;
            claims_valid = map_err-eq-ok (claims_error audience claims.audience) _ t3;
            map_is = p5;
            audience_is = refl;
            expiry_is = required-eq-ok missing_expiry claims.expiry p3;
            no_hint = refl;
            token_is = refl;
          })

      back :
          IsParsed token audience now (λ tok td map. get_claims tok td ≡ ok map) s
          → parse build jose token audience now get_claims ≡ ok s
      back h =
          rw
            (
              h.parsed, h.header_ok, h.claims_are, h.claims_valid, h.subject_set, h.id_is, h.map_is,
              h.expiry_is,
            )
            (ap ok (λ i. record {
              id = s.id;
              audience = (sym h.audience_is) i;
              expiry = s.expiry;
              claims = s.claims;
              hint = (sym h.no_hint) i;
              token = (sym h.token_is) i;
            }))

  IsParsed-map :
      {token : Bytes} {audience : List Bytes} {now : ℕ}
      {P Q : Token → TrustDomain → Fields → Type 0} {s : Svid}
      → ((tok : Token) (td : TrustDomain) (map : Fields) → P tok td map → Q tok td map)
      → IsParsed token audience now P s
      → IsParsed token audience now Q s
  IsParsed-map {s = s} f h = record {
    tok = h.tok;
    claims = h.claims;
    parsed = h.parsed;
    header_ok = h.header_ok;
    claims_are = h.claims_are;
    subject_set = h.subject_set;
    id_is = h.id_is;
    claims_valid = h.claims_valid;
    map_is = f h.tok (trust_domain s.id) s.claims h.map_is;
    audience_is = h.audience_is;
    expiry_is = h.expiry_is;
    no_hint = h.no_hint;
    token_is = h.token_is;
  }

  -- The claims are verified with the authority that stands under the key ID of the header in the bundle
  -- of the trust domain.
  pub record IsVerifiedBy {F : Type 0} (bundles : Source F) (tok : Token) (td : TrustDomain)
      (map : Fields) : Type 0 where
    pub bundle : Jwt.Bundle
    pub authority : PublicKey
    pub key_id_set : is_empty (jose.key_id tok) ≡ false
    pub bundle_is : bundles td ≡ ok bundle
    pub authority_is : Jwt.find_jwt_authority (jose.key_id tok) bundle ≡ some authority
    pub verified : jose.verified_claims_map authority tok ≡ ok map

  verified_claims_iff :
      {F : Type 0} (bundles : Source F) (tok : Token) (td : TrustDomain) (map : Fields)
      → (verified_claims build jose bundles tok td ≡ ok map) ↔ IsVerifiedBy bundles tok td map
  unfolding verified_claims
  verified_claims_iff bundles tok td map = (
    λ h.
        let (t1, h1) =
          >>-eq-ok (if is_empty (jose.key_id tok) then err missing_key_id else ok tt) _ h in
        let (b, p2, h2) = >>=-eq-ok (map_err (λ _. no_bundle_found td) (bundles td)) _ h1 in
        let (a, p3, h3) =
          >>=-eq-ok
            (required (no_authority_found (jose.key_id tok) td)
              (Jwt.find_jwt_authority (jose.key_id tok) b))
            _ h2 in
        record {
          bundle = b;
          authority = a;
          key_id_set = check-eq-ok (is_empty (jose.key_id tok)) missing_key_id t1;
          bundle_is = map_err-eq-ok (λ _. no_bundle_found td) _ p2;
          authority_is = required-eq-ok (no_authority_found (jose.key_id tok) td) _ p3;
          verified = map_err-eq-ok unable_to_get_claims _ h3;
        },
    λ h. rw (h.key_id_set, h.bundle_is, h.authority_is, h.verified) refl,
  )

  -- `ParseAndValidate` returns a JWT-SVID if and only if the token can be parsed with the allowed
  -- algorithms, its type header is absent, "JOSE" or "JWT", its claims have a subject that is a
  -- SPIFFE ID, an expiry and pass the library's validation for the audience and the time, its key
  -- ID is not empty, and the source's bundle for the trust domain of the ID has under that key ID
  -- an authority with which the library reads the claims of the SVID; the SVID has that ID,
  -- audience, expiry and token and no hint.
  pub parse_and_validate_jwt_iff :
      {F : Type 0} (token : Bytes) (bundles : Source F) (audience : List Bytes) (now : ℕ) (s : Svid)
      → (parse_and_validate build jose token bundles audience now ≡ ok s)
        ↔ IsParsed token audience now (IsVerifiedBy bundles) s
  unfolding parse_and_validate
  parse_and_validate_jwt_iff token bundles audience now s =
      let parsed = parse_iff token audience now (verified_claims build jose bundles) s in
      (
        λ h. IsParsed-map (λ tok td map. (verified_claims_iff bundles tok td map).0) (parsed.0 h),
        λ h. parsed.1 (IsParsed-map (λ tok td map. (verified_claims_iff bundles tok td map).1) h),
      )
