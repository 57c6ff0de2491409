-- ===== src/Svid/JwtSvid.antt =====
-- svid/jwtsvid/svid.go. The time at which a token is validated is an argument.
pub mod Laws
use go_spiffe.Prelude.{
  ltb, leb, ◌==◌, if◌then◌else◌, ==_iff, Bool-cases, Option-cases, &&-eq-true, eq_of_iff_true,
  length, take, drop, all, All, length-append, drop-append, take-append, take-length, all-append,
  append-left_cancel, Result, ok, err, ◌>>=◌, ◌>>◌, map_err, >>=-eq-ok, >>-eq-ok, Result-cases,
  Bytes, bytes_eq, bytes_eq_iff, is_empty, has_prefix, contains, slice, has_prefix-append,
  eq-append_of_has_prefix, slice-append, ℕ, zero, suc, ◌+◌, ◌-◌, ◌*◌, ◌/◌, ◌%◌, ◌^◌, ◌≤◌, ◌<◌, ◌≡◌,
  refl, sym, ap, ◌∙◌, ◌≢◌, ◌↔◌, ◌⊎◌, inl, inr, Bool, true, false, not, ◌&&◌, ◌||◌, Option, none,
  some, List, [], ◌∷◌, ◌++◌, map, append-nil, append_assoc, arith, ok-injective, err-injective,
  Bytes-cases, or_nil, codes, map_err-eq-ok, if-eq-ok, required, required-eq-ok, check-eq-ok,
}
use go_spiffe.Spiffeid.Charset.{Error, Build}
use go_spiffe.Spiffeid.Identifier.{SpiffeId, TrustDomain, from_string, trust_domain}
use go_spiffe.Crypto.{PublicKey}
use go_spiffe.Bundle.Jwt
use go_spiffe.Svid.Jose.{
  Json, Fields, text, Claims, ClaimsError, expired, invalid_audience, Jose,
  allowed_signature_algorithms,
}

-- `SVID`; `expiry` is the time of the claim
pub record Svid : Type 0 where
  pub id : SpiffeId
  pub audience : List Bytes
  pub expiry : ℕ
  pub claims : Fields
  pub hint : Bytes
  pub token : Bytes

pub data JwtError (E : Type 0) : Type 0 where
  unable_to_parse bad_header_type missing_subject missing_expiry missing_key_id : JwtError E
  unable_to_get_claims : E → JwtError E
  invalid_subject : Error → JwtError E
  no_bundle_found : TrustDomain → JwtError E
  no_authority_found : Bytes → TrustDomain → JwtError E
  token_has_expired : JwtError E
  unexpected_audience : List Bytes → List Bytes → JwtError E
  invalid_claims : ClaimsError → JwtError E

-- `jwtbundle.Source`
abbrev pub Source : Type 0 → Type 0
Source E = TrustDomain → Result E Jwt.Bundle

-- `typ != "JOSE" && typ != "JWT"`, on a header that may be absent
unfoldable pub header_type_allowed : Option Json → Bool
header_type_allowed none = true
header_type_allowed (some (text t)) = bytes_eq t (codes "JOSE") || bytes_eq t (codes "JWT")
header_type_allowed (some _) = false

-- the errors of `Validate`, for reading
unfoldable pub claims_error : {E : Type 0} → List Bytes → List Bytes → ClaimsError → JwtError E
claims_error audience found expired = token_has_expired
claims_error audience found invalid_audience = unexpected_audience audience found
claims_error audience found e = invalid_claims e

module _ {Token E : Type 0} (build : Build) (jose : Jose Token E) where
  unfoldable pub parse :
      Bytes
      → List Bytes
      → ℕ
      → (Token → TrustDomain → Result (JwtError E) Fields)
      → Result (JwtError E) Svid
  unfolding header_type_allowed claims_error
  parse token audience now get_claims = do
    tok ← map_err (λ _. unable_to_parse) (jose.parse_signed allowed_signature_algorithms token)
    if not (header_type_allowed (jose.header_type tok)) then err bad_header_type else ok tt
    claims ← map_err unable_to_get_claims (jose.unsafe_claims tok)
    if is_empty claims.subject then err missing_subject else ok tt
    expiry ← required missing_expiry claims.expiry
    spiffe_id ← map_err invalid_subject (from_string build claims.subject)
    claims_map ← get_claims tok (trust_domain spiffe_id)
    map_err (claims_error audience claims.audience) (jose.validate audience now claims)
    ok (record {
      id = spiffe_id;
      audience = claims.audience;
      expiry = expiry;
      claims = claims_map;
      hint = [];
      token = token;
    })

  -- the function that `ParseAndValidate` hands to `parse`
  unfoldable pub verified_claims :
      {F : Type 0} → Source F → Token → TrustDomain → Result (JwtError E) Fields
  verified_claims bundles tok td = do
    if is_empty (jose.key_id tok) then err missing_key_id else ok tt
    bundle ← map_err (λ _. no_bundle_found td) (bundles td)
    authority ←
        required (no_authority_found (jose.key_id tok) td)
          (Jwt.find_jwt_authority (jose.key_id tok) bundle)
    map_err unable_to_get_claims (jose.verified_claims_map authority tok)

  unfoldable pub parse_and_validate :
      {F : Type 0} → Bytes → Source F → List Bytes → ℕ → Result (JwtError E) Svid
  unfolding parse verified_claims
  parse_and_validate token bundles audience now = parse token audience now (verified_claims bundles)

  unfoldable pub parse_insecure : Bytes → List Bytes → ℕ → Result (JwtError E) Svid
  unfolding parse
  parse_insecure token audience now =
      parse token audience now (λ tok td. map_err unable_to_get_claims (jose.unsafe_claims_map tok))

-- `Marshal`
unfoldable pub marshal : Svid → Bytes
marshal svid = svid.token
