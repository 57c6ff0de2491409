-- ===== src/Tlsconfig/Laws.antt =====
-- When a peer is accepted, and what every configuration keeps.
use go_spiffe.Prelude.{
  ltb, if◌then◌else◌, Result, ok, err, ◌>>◌, >>-eq-ok, Result-cases, Bytes, ℕ, ◌≤◌, Bool, ◌≡◌, refl,
  ap, ◌∙◌, ◌≢◌, ◌↔◌, ◌⊎◌, inl, inr, true, false, Option, none, some, List, [], ◌∷◌, arith,
}
use go_spiffe.X509.{Certificate}
use go_spiffe.Spiffeid.Charset.{Build}
use go_spiffe.Spiffeid.Identifier.{SpiffeId, TrustDomain}
use go_spiffe.Spiffeid.Uri.{Url}
use go_spiffe.Bundle.X509
use go_spiffe.Svid.X509Svid
use go_spiffe.Svid.X509Svid.Verify.{
  VerifyError, Chains, verify, parse_each, parse_and_verify, IsVerified, verify_iff, with_time,
}
use go_spiffe.Tlsconfig.{
  PeerError, Authorizer, VerifyPeer, TlsCertificate, Trace, no_client_cert, require_any_client_cert,
  ClientAuth, version_tls12, Config,
}
use go_spiffe.Tlsconfig.Hooks.{
  when_verified, call_wrapped, reset_auth_fields, verify_peer_certificate,
  wrap_verify_peer_certificate, hook_tls_client_config, hook_mtls_client_config,
  hook_mtls_server_config, hook_mtls_web_server_config, hook_mtls_web_client_config,
  hook_tls_server_config,
}

when_verified-eq-ok :
    {E : Type 0} (r : SpiffeId × Result (VerifyError E) Chains)
    (next : SpiffeId → Chains → Result (PeerError E) (Unit {0}))
    → when_verified r next ≡ ok tt
    → (id : SpiffeId) × (chains : Chains) × (r ≡ (id, ok chains)) × (next id chains ≡ ok tt)
when_verified-eq-ok (id, err e) next h = absurd cc
when_verified-eq-ok (id, ok chains) next h = (id, chains, refl, h)

>>-ok_tt : {F : Type 0} (r : Result F (Unit {0})) → (r >> ok tt) ≡ r
>>-ok_tt (err e) = refl
>>-ok_tt (ok nothing) = refl

when_verified-nothing_wrapped :
    {E : Type 0} (r : SpiffeId × Result (VerifyError E) Chains) (authorizer : Authorizer E)
    → when_verified r (λ id chains. authorizer id chains >> ok tt) ≡ when_verified r authorizer
when_verified-nothing_wrapped (id, err e) authorizer = refl
when_verified-nothing_wrapped (id, ok chains) authorizer = >>-ok_tt (authorizer id chains)

module _ {E : Type 0} (build : Build) (url_string : Url → Bytes)
    (chains_of : List Certificate → List Certificate → ℕ → Certificate → Result E Chains)
    (parse_certificate : Bytes → Result E Certificate) where
  -- The raw certificates are those of a verified chain for an ID, which the authorizer accepts, as does a
  -- wrapped callback.
  pub record IsAccepted (wrapped : Option (VerifyPeer E))
      (source : TrustDomain → Result E X509.Bundle) (authorizer : Authorizer E) (raw : List Bytes)
      : Type 0 where
    pub leaf : Certificate
    pub rest : List Certificate
    pub id : SpiffeId
    pub chains : Chains
    pub parsed : parse_each build url_string chains_of parse_certificate raw ≡ ok (leaf ∷ rest)
    pub verified : IsVerified build url_string chains_of leaf rest source 0 id chains
    pub authorized : authorizer id chains ≡ ok tt
    pub passed_on : call_wrapped wrapped raw chains ≡ ok tt

  parse_and_verify_iff :
      (raw : List Bytes) (source : TrustDomain → Result E X509.Bundle) (id : SpiffeId)
      (chains : Chains)
      → (parse_and_verify build url_string chains_of parse_certificate raw (some source) []
          ≡ (id, ok chains))
        ↔ ((leaf : Certificate) × (rest : List Certificate) × (parse_each build url_string chains_of
                parse_certificate raw
              ≡ ok (leaf ∷ rest))
            × IsVerified build url_string chains_of leaf rest source 0 id chains)
  unfolding parse_and_verify verify with_time
  parse_and_verify_iff raw source id chains = (
    λ h. elim (Result-cases (parse_each build url_string chains_of parse_certificate raw)) [
      | inr (e, p) ↦ absurd (let k = rw (parse_and_verify, p) at h in cc)
      | inl (certs, p) ↦
          let (leaf, rest, certs_are, v) = on_certs certs (rw (parse_and_verify, p) at h) in
          (leaf, rest, p ∙ ap ok certs_are, v)
    ],
    λ (leaf, rest, p, v).
        rw (parse_and_verify, p)
          ((verify_iff build url_string chains_of leaf rest source 0 id chains).1 v),
  )
    where
      on_certs :
          (certs : List Certificate)
          → verify build url_string chains_of certs (some source) [] ≡ (id, ok chains)
          → (leaf : Certificate) × (rest : List Certificate) × (certs ≡ leaf ∷ rest)
            × IsVerified build url_string chains_of leaf rest source 0 id chains
      on_certs [] h = absurd cc
      on_certs (leaf ∷ rest) h = (
        leaf,
        rest,
        refl,
        (verify_iff build url_string chains_of leaf rest source 0 id chains).0 h,
      )

  wrapped-when_verified :
      (wrapped : Option (VerifyPeer E)) (source : TrustDomain → Result E X509.Bundle)
      (authorizer : Authorizer E) (raw : List Bytes) (given : Chains)
      → (wrap_verify_peer_certificate build url_string chains_of parse_certificate wrapped
            (some source)
            authorizer
            raw
            given
          ≡ ok tt)
        ↔ (when_verified
              (parse_and_verify build url_string chains_of parse_certificate raw (some source) [])
              (λ id chains. authorizer id chains >> call_wrapped wrapped raw chains)
            ≡ ok tt)
  unfolding wrap_verify_peer_certificate verify_peer_certificate
  wrapped-when_verified none source authorizer raw given =
      rw
        (when_verified-nothing_wrapped
          (parse_and_verify build url_string chains_of parse_certificate raw (some source) [])
          authorizer)
        (λ h. h, λ h. h)
  wrapped-when_verified (some f) source authorizer raw given = (λ h. h, λ h. h)

  -- The callback that verifies a peer against a source of bundles, wrapped around another callback
  -- or not, accepts the raw certificates if and only if they can all be parsed, there is a leaf,
  -- `Verify` at the zero time, which stands for the current one, finds chains for an ID, the
  -- authorizer accepts the ID with those chains, and so does the wrapped callback, if there is one.
  pub wrap_verify_peer_certificate_iff :
      (wrapped : Option (VerifyPeer E)) (source : TrustDomain → Result E X509.Bundle)
      (authorizer : Authorizer E) (raw : List Bytes) (given : Chains)
      → (wrap_verify_peer_certificate build url_string chains_of parse_certificate wrapped
            (some source)
            authorizer
            raw
            given
          ≡ ok tt)
        ↔ IsAccepted wrapped source authorizer raw
  wrap_verify_peer_certificate_iff wrapped source authorizer raw given = (
    λ h0.
        let h = (wrapped-when_verified wrapped source authorizer raw given).0 h0 in
        let (id, chains, outcome, next) =
          when_verified-eq-ok
            (parse_and_verify build url_string chains_of parse_certificate raw (some source) []) _
            h in
        let (leaf, rest, parsed, verified) =
          (parse_and_verify_iff raw source id chains).0 outcome in
        let (authorized, passed_on) = >>-eq-ok (authorizer id chains) _ next in
        record {
          leaf = leaf;
          rest = rest;
          id = id;
          chains = chains;
          parsed = parsed;
          verified = verified;
          authorized = authorized;
          passed_on = passed_on;
        },
    λ a. (wrapped-when_verified wrapped source authorizer raw given).1 (
        rw
          (
            (parse_and_verify_iff raw source a.id a.chains).1
                (a.leaf, a.rest, a.parsed, a.verified),
            a.authorized,
            a.passed_on,
          )
          refl),
  )

  -- What every configuration has: TLS 1.2 at least, and the SPIFFE verification, wrapped around the
  -- callback that was set before, where the standard one is switched off or a client certificate is asked
  -- for.
  pub record IsSafe {T Pool : Type 0} (bundle : Option (TrustDomain → Result E X509.Bundle))
      (authorizer : Authorizer E) (skips : Bool) (asks : ClientAuth) (old new : Config T E Pool)
      : Type 0 where
    pub tls12 : version_tls12 ≤ new.min_version
    pub not_lowered : old.min_version ≤ new.min_version
    pub no_names : new.name_to_certificate ≡ []
    pub skips_is : new.insecure_skip_verify ≡ skips
    pub asks_is : new.client_auth ≡ asks
    pub verifies :
        (new.insecure_skip_verify ≡ true) ⊎ (new.client_auth ≢ no_client_cert)
        → new.verify_peer_certificate
          ≡ some (
              wrap_verify_peer_certificate build url_string chains_of parse_certificate
                old.verify_peer_certificate bundle authorizer)

  version-raised :
      (v : ℕ)
      → (version_tls12 ≤ (if ltb v version_tls12 then version_tls12 else v))
        × (v ≤ (if ltb v version_tls12 then version_tls12 else v))
  version-raised v = ground arith

  not_asked : {A : Type 0} → (false ≡ true) ⊎ (no_client_cert ≢ no_client_cert) → A
  not_asked (inl h) = absurd cc
  not_asked (inr h) = absurd (h refl)

  -- the part of `hooks_lem` for clients
  pub client_hooks_lem :
      {T Pool : Type 0} (bundle : Option (TrustDomain → Result E X509.Bundle))
      (authorizer : Authorizer E) (svid : Result E X509Svid.Svid) (opts : List (Trace T → Trace T))
      (roots : Option Pool) (config : Config T E Pool)
      → IsSafe bundle authorizer true no_client_cert config (
          hook_tls_client_config build url_string chains_of parse_certificate bundle authorizer
            config)
        × IsSafe bundle authorizer true no_client_cert config (
            hook_mtls_client_config build url_string chains_of parse_certificate bundle authorizer
              svid opts config)
        × IsSafe bundle authorizer false no_client_cert config
            (hook_mtls_web_client_config svid roots opts config)
  unfolding hook_tls_client_config hook_mtls_client_config hook_mtls_web_client_config
      reset_auth_fields
  client_hooks_lem bundle authorizer svid opts roots config =
      let (low, kept) = version-raised config.min_version in
      (
        record {
          tls12 = low;
          not_lowered = kept;
          no_names = refl;
          skips_is = refl;
          asks_is = refl;
          verifies = λ h. refl;
        },
        record {
          tls12 = low;
          not_lowered = kept;
          no_names = refl;
          skips_is = refl;
          asks_is = refl;
          verifies = λ h. refl;
        },
        record {
          tls12 = low;
          not_lowered = kept;
          no_names = refl;
          skips_is = refl;
          asks_is = refl;
          verifies = not_asked;
        },
      )

  -- Each of the six functions that set up a TLS configuration leaves a version of TLS 1.2 at least,
  -- not below the one before, no certificates by name, skips the standard verification exactly for
  -- the two clients that expect an X509-SVID, asks for client certificates exactly for the two
  -- servers of mTLS, and, where it skips the standard verification or asks for client certificates,
  -- the verifying callback for the given bundles and authorizer, wrapped around the callback that
  -- was set before.
  pub hooks_lem :
      {T Pool : Type 0} (bundle : Option (TrustDomain → Result E X509.Bundle))
      (authorizer : Authorizer E) (svid : Result E X509Svid.Svid) (opts : List (Trace T → Trace T))
      (cert : TlsCertificate) (roots : Option Pool) (config : Config T E Pool)
      → IsSafe bundle authorizer true no_client_cert config (
          hook_tls_client_config build url_string chains_of parse_certificate bundle authorizer
            config)
        × IsSafe bundle authorizer true no_client_cert config (
            hook_mtls_client_config build url_string chains_of parse_certificate bundle authorizer
              svid opts config)
        × IsSafe bundle authorizer false require_any_client_cert config (
            hook_mtls_server_config build url_string chains_of parse_certificate bundle authorizer
              svid opts config)
        × IsSafe bundle authorizer false require_any_client_cert config (
            hook_mtls_web_server_config build url_string chains_of parse_certificate bundle
              authorizer cert config)
        × IsSafe bundle authorizer false no_client_cert config
            (hook_mtls_web_client_config svid roots opts config)
        × IsSafe bundle authorizer false no_client_cert config
            (hook_tls_server_config svid opts config)
  unfolding hook_mtls_server_config hook_mtls_web_server_config hook_tls_server_config
      reset_auth_fields
  hooks_lem bundle authorizer svid opts cert roots config =
      let (low, kept) = version-raised config.min_version in
      let (tls_client, mtls_client, web_client) =
        client_hooks_lem bundle authorizer svid opts roots config in
      (
        tls_client,
        mtls_client,
        record {
          tls12 = low;
          not_lowered = kept;
          no_names = refl;
          skips_is = refl;
          asks_is = refl;
          verifies = λ h. refl;
        },
        record {
          tls12 = low;
          not_lowered = kept;
          no_names = refl;
          skips_is = refl;
          asks_is = refl;
          verifies = λ h. refl;
        },
        web_client,
        record {
          tls12 = low;
          not_lowered = kept;
          no_names = refl;
          skips_is = refl;
          asks_is = refl;
          verifies = not_asked;
        },
      )
