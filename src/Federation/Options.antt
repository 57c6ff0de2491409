-- ===== src/Federation/Options.antt =====
-- federation/fetch.go: the authentication methods that the options of `FetchBundle` may choose.
use go_spiffe.Prelude.{
  length, Result, ok, err, ◌>>=◌, ◌>>◌, map_err, Result-cases, Bytes, ℕ, ◌≤◌, ◌≡◌, refl, ◌≢◌, ◌↔◌,
  inl, inr, false, Option, none, List, [], ◌∷◌, map, arith,
}
use go_spiffe.X509.{Certificate}
use go_spiffe.Spiffeid.Charset.{Build}
use go_spiffe.Spiffeid.Identifier.{SpiffeId, TrustDomain}
use go_spiffe.Spiffeid.Uri.{Url}
use go_spiffe.Bundle.X509
use go_spiffe.Bundle.Spiffe.Document.{BundleDoc, read}
use go_spiffe.Svid.X509Svid.Verify.{Chains}
use go_spiffe.Tlsconfig.{Config}
use go_spiffe.Federation.{
  FetchOptions, FetchOption, auth_method_default, both_auth_methods, could_not_create_request,
  could_not_get_bundle, cannot_read_bundle, is_default, with_web_pki_roots, with_spiffe_auth,
  apply_options, fetch_bundle,
}

-- the options that choose an authentication method
pub data Choice (E Pool : Type 0) : Type 0 where
  web_pki_roots : Pool → Choice E Pool
  spiffe_auth : (TrustDomain → Result E X509.Bundle) → SpiffeId → Choice E Pool

abbrev initial_options : {T E Pool : Type 0} → FetchOptions T E Pool
initial_options = record { tls_client_config = none; auth_method = auth_method_default }

module _ {T E Pool R : Type 0} (build : Build) (url_string : Url → Bytes)
    (chains_of : List Certificate → List Certificate → ℕ → Certificate → Result E Chains)
    (parse_certificate : Bytes → Result E Certificate) where
  abbrev pub option_of : Choice E Pool → FetchOption T E Pool R
  option_of (web_pki_roots root_cas) = with_web_pki_roots root_cas
  option_of (spiffe_auth source endpoint_id) =
      with_spiffe_auth build url_string chains_of parse_certificate source endpoint_id

  -- A choice is accepted when none has been made before it, and only then.
  option_of-eq-err :
      (c : Choice E Pool) (o : FetchOptions T E Pool)
      → is_default o.auth_method ≡ false
      → option_of c o ≡ err both_auth_methods
  unfolding with_web_pki_roots with_spiffe_auth
  option_of-eq-err (web_pki_roots root_cas) o h = rw h refl
  option_of-eq-err (spiffe_auth source endpoint_id) o h = rw h refl

  option_of-initial_options :
      (c : Choice E Pool)
      → (o : FetchOptions T E Pool) × (option_of c initial_options ≡ ok o)
        × (is_default o.auth_method ≡ false)
  unfolding with_web_pki_roots with_spiffe_auth is_default
  option_of-initial_options (web_pki_roots root_cas) = (_, refl, refl)
  option_of-initial_options (spiffe_auth source endpoint_id) = (_, refl, refl)

  module _ (new_request : Result R (Unit {0}))
      (get : Option (Config T E Pool) → Result R (Result R Bytes))
      (unmarshal : Bytes → Result R BundleDoc) where
    -- the rest of `FetchBundle`
    exchange-eq-err :
        (td : TrustDomain) (opts : FetchOptions T E Pool)
        → (map_err could_not_create_request new_request
            >> (map_err could_not_get_bundle (get opts.tls_client_config)
                >>= (λ body. map_err cannot_read_bundle (read unmarshal td body))))
          ≢ err both_auth_methods
    exchange-eq-err td opts h = elim (Result-cases new_request) [
      | inl (u, r) ↦ elim (Result-cases (get opts.tls_client_config)) [
        | inl (body, g) ↦ elim (Result-cases (read unmarshal td body)) [
          | inl (b, p) ↦ let k = rw r at h in let k1 = rw g at k in let k2 = rw p at k1 in cc
          | inr (e, p) ↦ let k = rw r at h in let k1 = rw g at k in let k2 = rw p at k1 in cc
        ]
        | inr (e, g) ↦ let k = rw r at h in let k1 = rw g at k in cc
      ]
      | inr (e, r) ↦ let k = rw r at h in cc
    ]

    -- `FetchBundle` fails for the choice of both authentication methods if and only if two options
    -- or more choose a method, whatever the request, the exchange and the document are.
    pub fetch_bundle_choices_iff :
        (td : TrustDomain) (choices : List (Choice E Pool))
        → (fetch_bundle new_request get unmarshal td (map option_of choices)
            ≡ err both_auth_methods)
          ↔ (2 ≤ length choices)
    unfolding fetch_bundle apply_options is_default
    fetch_bundle_choices_iff td [] =
        (λ h. absurd (exchange-eq-err td initial_options h), λ h. absurd (omega arith))
    fetch_bundle_choices_iff td (c ∷ []) =
        let (o1, chosen, later) = option_of-initial_options c in
        (λ h. absurd (exchange-eq-err td o1 (rw chosen at h)), λ h. absurd (omega arith))
    fetch_bundle_choices_iff td (c ∷ d ∷ choices) =
        let (o1, chosen, later) = option_of-initial_options c in
        (λ h. omega arith, λ h. rw chosen (rw (option_of-eq-err d o1 later) refl))
