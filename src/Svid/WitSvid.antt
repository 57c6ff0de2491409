-- ===== src/Svid/WitSvid.antt =====
-- exp/svid/witsvid/svid.go. The time at which a token is validated is an argument.
pub mod Laws
use go_spiffe.Prelude.{
  ltb, leb, ◌==◌, if◌then◌else◌, ==_iff, Bool-cases, Option-cases, &&-eq-true, eq_of_iff_true,
  length, take, drop, all, All, length-append, drop-append, take-append, take-length, all-append,
  append-left_cancel, Result, ok, err, ◌>>=◌, ◌>>◌, map_err, >>=-eq-ok, >>-eq-ok, Result-cases,
  Bytes, bytes_eq, bytes_eq_iff, is_empty, has_prefix, contains, slice, has_prefix-append,
  eq-append_of_has_prefix, slice-append, ℕ, zero, suc, ◌+◌, ◌-◌, ◌*◌, ◌/◌, ◌%◌, ◌^◌, ◌≤◌, ◌<◌, ◌≡◌,
  refl, sym, ap, ◌∙◌, ◌≢◌, ◌↔◌, ◌⊎◌, inl, inr, Bool, true, false, not, ◌&&◌, ◌||◌, Option, none,
  some, List, [], ◌∷◌, ◌++◌, map, append-nil, append_assoc, arith, ok-injective, err-injective,
  Bytes-cases, or_nil, codes, map_err-eq-ok, if-eq-ok, required, required-eq-ok, check-eq-ok,
}
use go_spiffe.Spiffeid.Charset.{Error, Build}
use go_spiffe.Spiffeid.Identifier.{SpiffeId, TrustDomain, from_string, trust_domain}
use go_spiffe.Crypto.{PublicKey}
use go_spiffe.Bundle.Wit
use go_spiffe.Svid.X509Svid.{PrivateKey}
use go_spiffe.Svid.Jose.{
  Json, Fields, text, object, lookup_field, Claims, ClaimsError, expired, not_valid_yet, Jwk,
  public_jwk, Jose, allowed_signature_algorithms,
}

-- `SVID`
pub record Svid : Type 0 where
  pub id : SpiffeId
  pub expiry : ℕ
  pub public_key : PublicKey
  pub key_id : Bytes
  pub private_key : Option PrivateKey
  pub hint : Bytes
  pub token : Bytes

pub data KeyError (E : Type 0) : Type 0 where
  missing_cnf cnf_not_an_object missing_jwk jwk_not_an_object missing_alg alg_not_a_string :
      KeyError E
  alg_not_supported : Bytes → KeyError E
  unable_to_marshal_jwk : E → KeyError E
  unable_to_parse_jwk : E → KeyError E
  not_a_public_key : KeyError E

pub data WitError (E : Type 0) : Type 0 where
  unable_to_parse missing_key_id missing_subject missing_expiry audience_present : WitError E
  bad_header_type : Bytes → WitError E
  unable_to_parse_claims : E → WitError E
  invalid_subject : Error → WitError E
  bad_key : KeyError E → WitError E
  token_has_expired token_not_valid_yet : WitError E
  invalid_claims : ClaimsError → WitError E
  no_bundle_found : TrustDomain → WitError E
  no_authority_found : Bytes → TrustDomain → WitError E
  signature_verification_failed : E → WitError E

-- `witbundle.Source`
abbrev pub Source : Type 0 → Type 0
Source E = TrustDomain → Result E Wit.Bundle

-- `typ, _ := ....(string)`: empty unless the header is a string
unfoldable pub type_text : Option Json → Bytes
type_text (some (text t)) = t
type_text _ = []

-- `slices.Contains`
unfoldable pub contains_bytes : List Bytes → Bytes → Bool
contains_bytes [] x = false
contains_bytes (y ∷ ys) x = bytes_eq y x || contains_bytes ys x

-- type assertions on a value
abbrev pub as_object : {E : Type 0} → KeyError E → Json → Result (KeyError E) Fields
as_object e (object fields) = ok fields
as_object e _ = err e

abbrev pub as_text : {E : Type 0} → KeyError E → Json → Result (KeyError E) Bytes
as_text e (text t) = ok t
as_text e _ = err e

abbrev pub as_public : {E : Type 0} → Jwk → Result (KeyError E) PublicKey
as_public (public_jwk key) = ok key
as_public _ = err not_a_public_key

unfoldable pub time_error : {E : Type 0} → ClaimsError → WitError E
time_error expired = token_has_expired
time_error not_valid_yet = token_not_valid_yet
time_error e = invalid_claims e

module _ {Token E : Type 0} (build : Build) (jose : Jose Token E) where
  unfoldable pub extract_cnf_jwk : Fields → Result (KeyError E) PublicKey
  extract_cnf_jwk claims = do
    cnf_raw ← required missing_cnf (lookup_field (codes "cnf") claims)
    cnf_map ← as_object cnf_not_an_object cnf_raw
    jwk_raw ← required missing_jwk (lookup_field (codes "jwk") cnf_map)
    jwk_map ← as_object jwk_not_an_object jwk_raw
    alg_raw ← required missing_alg (lookup_field (codes "alg") jwk_map)
    alg ← as_text alg_not_a_string alg_raw
    if not (contains_bytes allowed_signature_algorithms alg)
        then err (alg_not_supported alg)
        else ok tt
    data_bytes ← map_err unable_to_marshal_jwk (jose.marshal_json jwk_map)
    jwk ← map_err unable_to_parse_jwk (jose.unmarshal_jwk data_bytes)
    as_public jwk

  unfoldable pub parse :
      Bytes
      → ℕ
      → (Token → TrustDomain → Bytes → Result (WitError E) (Unit {0}))
      → Result (WitError E) Svid
  unfolding extract_cnf_jwk
  parse token now verify = do
    tok ← map_err (λ _. unable_to_parse) (jose.parse_signed allowed_signature_algorithms token)
    if not (bytes_eq (type_text (jose.header_type tok)) (codes "wit+jwt"))
        then err (bad_header_type (type_text (jose.header_type tok)))
        else ok tt
    if is_empty (jose.key_id tok) then err missing_key_id else ok tt
    claims ← map_err unable_to_parse_claims (jose.unsafe_claims tok)
    if is_empty claims.subject then err missing_subject else ok tt
    expiry ← required missing_expiry claims.expiry
    if ltb 0 (length claims.audience) then err audience_present else ok tt
    spiffe_id ← map_err invalid_subject (from_string build claims.subject)
    raw_claims ← map_err unable_to_parse_claims (jose.unsafe_claims_map tok)
    public_key ← map_err bad_key (extract_cnf_jwk raw_claims)
    map_err time_error (jose.validate_with_leeway now claims)
    verify tok (trust_domain spiffe_id) (jose.key_id tok)
    ok (record {
      id = spiffe_id;
      expiry = expiry;
      public_key = public_key;
      key_id = jose.key_id tok;
      private_key = none;
      hint = [];
      token = token;
    })

  -- the function that `ParseAndValidate` hands to `parse`
  unfoldable pub verify_signature :
      {F : Type 0} → Source F → Token → TrustDomain → Bytes → Result (WitError E) (Unit {0})
  verify_signature bundles tok td key_id = do
    bundle ← map_err (λ _. no_bundle_found td) (bundles td)
    authority ← required (no_authority_found key_id td) (Wit.find_wit_authority key_id bundle)
    dummy ← map_err signature_verification_failed (jose.verified_claims_map authority tok)
    ok tt

  unfoldable pub parse_and_validate : {F : Type 0} → Bytes → Source F → ℕ → Result (WitError E) Svid
  unfolding parse verify_signature
  parse_and_validate token bundles now = parse token now (verify_signature bundles)

  unfoldable pub parse_insecure : Bytes → ℕ → Result (WitError E) Svid
  unfolding parse
  parse_insecure token now = parse token now (λ tok td key_id. ok tt)

-- `Marshal`
unfoldable pub marshal : Svid → Bytes
marshal s = s.token
