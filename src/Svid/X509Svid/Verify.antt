-- ===== src/Svid/X509Svid/Verify.antt =====
-- svid/x509svid/verify.go. `Certificate.Verify` of the standard library is a parameter: from the roots,
-- the intermediates, the time and the leaf it finds chains, or fails.
use go_spiffe.Prelude.{
  if◌then◌else◌, Result, ok, err, ◌>>=◌, ◌>>◌, map_err, >>=-eq-ok, >>-eq-ok, Result-cases, Bytes, ℕ,
  ◌≡◌, refl, ap, ◌↔◌, inl, inr, false, Option, none, some, List, [], ◌∷◌, arith, map_err-eq-ok,
}
use go_spiffe.Spiffeid.Charset.{Build}
use go_spiffe.Spiffeid.Identifier.{SpiffeId, TrustDomain, trust_domain, zero_id}
use go_spiffe.Spiffeid.Uri.{Url}
use go_spiffe.X509.{Certificate}
use go_spiffe.Bundle.X509
use go_spiffe.Svid.X509Svid.{IdError, id_from_cert, usage_set, cert_sign, crl_sign}
use go_spiffe.Svid.X509Svid.Laws.{HasId, id_from_cert_iff}

pub data VerifyError (E : Type 0) : Type 0 where
  empty_certificates_chain bundle_source_is_required : VerifyError E
  could_not_get_leaf_id : IdError → VerifyError E
  leaf_with_ca_flag leaf_with_key_cert_sign leaf_with_key_crl_sign : VerifyError E
  could_not_get_bundle : E → VerifyError E
  could_not_verify_leaf : E → VerifyError E
  unable_to_parse_certificate : E → VerifyError E

-- `[][]*x509.Certificate`
abbrev pub Chains : Type 0
Chains = List (List Certificate)

-- `verifyConfig`; the zero time stands for the current one
pub record VerifyConfig : Type 0 where
  pub now : ℕ

-- `WithTime`
unfoldable pub with_time : ℕ → VerifyConfig → VerifyConfig
with_time now config = record config { now = now }

-- `for _, opt := range opts { opt.apply(config) }`
unfoldable pub apply_all : List (VerifyConfig → VerifyConfig) → VerifyConfig → VerifyConfig
apply_all [] config = config
apply_all (opt ∷ opts) config = apply_all opts (opt config)

-- the second `switch` of `Verify`
unfoldable pub check_leaf : {E : Type 0} → Certificate → Result (VerifyError E) (Unit {0})
check_leaf leaf =
    if leaf.is_ca
    then err leaf_with_ca_flag
    else if usage_set leaf.key_usage cert_sign
    then err leaf_with_key_cert_sign
    else if usage_set leaf.key_usage crl_sign
    then err leaf_with_key_crl_sign
    else ok tt

module _ {E : Type 0} (build : Build) (url_string : Url → Bytes)
    (chains_of : List Certificate → List Certificate → ℕ → Certificate → Result E Chains) where
  -- behind the leaf's ID
  unfoldable pub verify_leaf :
      SpiffeId
      → Certificate
      → List Certificate
      → (TrustDomain → Result E X509.Bundle)
      → VerifyConfig
      → Result (VerifyError E) Chains
  unfolding check_leaf
  verify_leaf id leaf rest source config = do
    check_leaf leaf
    bundle ← map_err could_not_get_bundle (source (trust_domain id))
    map_err could_not_verify_leaf (chains_of (X509.x509_authorities bundle) rest config.now leaf)

  -- on the outcome of `IDFromCert`
  abbrev pub verify_as :
      Result IdError SpiffeId
      → Certificate
      → List Certificate
      → (TrustDomain → Result E X509.Bundle)
      → VerifyConfig
      → SpiffeId × Result (VerifyError E) Chains
  verify_as (err e) leaf rest source config = (zero_id, err (could_not_get_leaf_id e))
  verify_as (ok id) leaf rest source config = (id, verify_leaf id leaf rest source config)

  -- The ID is returned with an error as well, once it is known. A source may be nil.
  unfoldable pub verify :
      List Certificate
      → Option (TrustDomain → Result E X509.Bundle)
      → List (VerifyConfig → VerifyConfig)
      → SpiffeId × Result (VerifyError E) Chains
  unfolding apply_all verify_leaf
  verify [] source opts = (zero_id, err empty_certificates_chain)
  verify (leaf ∷ rest) none opts = (zero_id, err bundle_source_is_required)
  verify (leaf ∷ rest) (some source) opts =
      verify_as (id_from_cert build url_string leaf) leaf rest source
        (apply_all opts (record { now = 0 }))

  -- `x509.ParseCertificate` on each of the raw certificates
  unfoldable pub parse_each :
      (Bytes → Result E Certificate) → List Bytes → Result (VerifyError E) (List Certificate)
  parse_each parse_certificate [] = ok []
  parse_each parse_certificate (raw_cert ∷ raw_certs) = do
    cert ← map_err unable_to_parse_certificate (parse_certificate raw_cert)
    certs ← parse_each parse_certificate raw_certs
    ok (cert ∷ certs)

  unfoldable pub parse_and_verify :
      (Bytes → Result E Certificate)
      → List Bytes
      → Option (TrustDomain → Result E X509.Bundle)
      → List (VerifyConfig → VerifyConfig)
      → SpiffeId × Result (VerifyError E) Chains
  unfolding parse_each verify
  parse_and_verify parse_certificate raw_certs source opts =
      elim (parse_each parse_certificate raw_certs) [
        | err e ↦ (zero_id, err e)
        | ok certs ↦ verify certs source opts
      ]

  -- What stands behind a chain that `Verify` returned for an ID.
  pub record IsVerified (leaf : Certificate) (rest : List Certificate)
      (source : TrustDomain → Result E X509.Bundle) (now : ℕ) (id : SpiffeId) (chains : Chains)
      : Type 0 where
    pub leaf_id : HasId build url_string leaf id
    pub not_ca : leaf.is_ca ≡ false
    pub no_cert_sign : usage_set leaf.key_usage cert_sign ≡ false
    pub no_crl_sign : usage_set leaf.key_usage crl_sign ≡ false
    pub bundle : X509.Bundle
    pub bundle_is : source (trust_domain id) ≡ ok bundle
    pub chains_are : chains_of (X509.x509_authorities bundle) rest now leaf ≡ ok chains

  check_leaf_iff :
      (leaf : Certificate)
      → (check_leaf {E = E} leaf ≡ ok tt) ↔ (
          (leaf.is_ca ≡ false)
          × (usage_set leaf.key_usage cert_sign ≡ false)
          × (usage_set leaf.key_usage crl_sign ≡ false))
  unfolding check_leaf
  check_leaf_iff leaf = (λ h. ground arith, λ h. rw (h.0, h.1, h.2) refl)

  verify_leaf_iff :
      (leaf : Certificate) (rest : List Certificate) (source : TrustDomain → Result E X509.Bundle)
      (now : ℕ) (id : SpiffeId) (chains : Chains)
      → HasId build url_string leaf id
      → (verify_leaf id leaf rest source (record { now = now }) ≡ ok chains)
        ↔ IsVerified leaf rest source now id chains
  unfolding verify_leaf
  verify_leaf_iff leaf rest source now id chains has_id = (
    λ h.
        let (checked, h1) = >>-eq-ok (check_leaf {E = E} leaf) _ h in
        let (b, e1, e2) =
          >>=-eq-ok (map_err could_not_get_bundle (source (trust_domain id))) _ h1 in
        let (ca, certs, crls) = (check_leaf_iff leaf).0 checked in
        record {
          leaf_id = has_id;
          not_ca = ca;
          no_cert_sign = certs;
          no_crl_sign = crls;
          bundle = b;
          bundle_is = map_err-eq-ok could_not_get_bundle (source (trust_domain id)) e1;
          chains_are =
              map_err-eq-ok could_not_verify_leaf
                (chains_of (X509.x509_authorities b) rest now leaf) e2;
        },
    λ h.
        rw
          (
            (check_leaf_iff leaf).1 (h.not_ca, h.no_cert_sign, h.no_crl_sign),
            h.bundle_is,
            h.chains_are,
          )
          refl,
  )

  -- `Verify` at a given time returns chains for an ID if and only if the leaf has one URI, which
  -- `FromURI` reads as the ID, neither the CA flag nor usage for signing certificates or revocation
  -- lists, the source has a bundle for the trust domain of the ID, and `Certificate.Verify` finds
  -- the chains from that bundle's authorities as roots, the other certificates and that time.
  pub verify_iff :
      (leaf : Certificate) (rest : List Certificate) (source : TrustDomain → Result E X509.Bundle)
      (now : ℕ) (id : SpiffeId) (chains : Chains)
      → (verify (leaf ∷ rest) (some source) (with_time now ∷ []) ≡ (id, ok chains))
        ↔ IsVerified leaf rest source now id chains
  unfolding verify with_time apply_all
  verify_iff leaf rest source now id chains = (
    λ h. elim (Result-cases (id_from_cert build url_string leaf)) [
      | inl (x, e) ↦
          let done = rw e at h in
          let x_is : x ≡ id = ap (λ p. p.0) done in
          let has_id = (id_from_cert_iff build url_string leaf x).0 e in
          let verified =
            (verify_leaf_iff leaf rest source now x chains has_id).0 (ap (λ p. p.1) done) in
          rw (← x_is) verified
      | inr (f, e) ↦ absurd (
          let done = rw e at h in
          let no : err (could_not_get_leaf_id f) ≡ ok chains = ap (λ p. p.1) done in cc)
    ],
    λ h.
        rw
          (
            (id_from_cert_iff build url_string leaf id).1 h.leaf_id,
            (verify_leaf_iff leaf rest source now id chains h.leaf_id).1 h,
          )
          refl,
  )
