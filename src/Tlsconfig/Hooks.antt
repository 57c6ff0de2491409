-- ===== src/Tlsconfig/Hooks.antt =====
-- spiffetls/tlsconfig/config.go: the verifying callback and the functions that set up a configuration.
use go_spiffe.Prelude.{
  ltb, if◌then◌else◌, Result, ok, err, ◌>>◌, Bytes, ℕ, true, false, Option, none, some, List, [],
  ◌∷◌,
}
use go_spiffe.X509.{Certificate}
use go_spiffe.Spiffeid.Charset.{Build}
use go_spiffe.Spiffeid.Identifier.{SpiffeId, TrustDomain}
use go_spiffe.Spiffeid.Uri.{Url}
use go_spiffe.Bundle.X509
use go_spiffe.Svid.X509Svid
use go_spiffe.Svid.X509Svid.Verify.{VerifyError, Chains, parse_and_verify}
use go_spiffe.Tlsconfig.{
  PeerError, not_verified, Authorizer, VerifyPeer, TlsCertificate, Trace, no_client_cert,
  require_any_client_cert, version_tls12, Config, get_tls_certificate, new_options,
}

-- the outcome of `ParseAndVerify`, an ID and chains, handed to what comes next
abbrev pub when_verified :
    {E : Type 0}
    → SpiffeId × Result (VerifyError E) Chains
    → (SpiffeId → Chains → Result (PeerError E) (Unit {0}))
    → Result (PeerError E) (Unit {0})
when_verified (id, err e) next = err (not_verified e)
when_verified (id, ok chains) next = next id chains

-- a wrapped callback, if there is one
abbrev pub call_wrapped : {E : Type 0} → Option (VerifyPeer E) → VerifyPeer E
call_wrapped none raw chains = ok tt
call_wrapped (some wrapped) raw chains = wrapped raw chains

unfoldable pub new_tls_config : {T E Pool : Type 0} → Config T E Pool
new_tls_config = record {
  min_version = version_tls12;
  certificates = [];
  client_auth = no_client_cert;
  get_certificate = none;
  get_client_certificate = none;
  insecure_skip_verify = false;
  name_to_certificate = [];
  root_cas = none;
  verify_peer_certificate = none;
}

unfoldable pub reset_auth_fields : {T E Pool : Type 0} → Config T E Pool → Config T E Pool
reset_auth_fields config = record config {
  min_version = if ltb config.min_version version_tls12 then version_tls12 else config.min_version;
  certificates = [];
  client_auth = no_client_cert;
  get_certificate = none;
  get_client_certificate = none;
  insecure_skip_verify = false;
  name_to_certificate = [];
  root_cas = none;
}

-- The parsers and the verification of crypto/x509, as in package x509svid.
module _ {E : Type 0} (build : Build) (url_string : Url → Bytes)
    (chains_of : List Certificate → List Certificate → ℕ → Certificate → Result E Chains)
    (parse_certificate : Bytes → Result E Certificate) where
  unfoldable pub verify_peer_certificate :
      Option (TrustDomain → Result E X509.Bundle) → Authorizer E → VerifyPeer E
  verify_peer_certificate bundle authorizer raw given_chains =
      when_verified (parse_and_verify build url_string chains_of parse_certificate raw bundle [])
        authorizer

  unfoldable pub wrap_verify_peer_certificate :
      Option (VerifyPeer E)
      → Option (TrustDomain → Result E X509.Bundle)
      → Authorizer E
      → VerifyPeer E
  unfolding verify_peer_certificate
  wrap_verify_peer_certificate none bundle authorizer = verify_peer_certificate bundle authorizer
  wrap_verify_peer_certificate (some wrapped) bundle authorizer = λ raw given_chains.
      when_verified (parse_and_verify build url_string chains_of parse_certificate raw bundle [])
        (λ id chains. do authorizer id chains; wrapped raw chains)

  module _ {T Pool : Type 0} (bundle : Option (TrustDomain → Result E X509.Bundle))
      (authorizer : Authorizer E) where
    unfoldable pub hook_tls_client_config : Config T E Pool → Config T E Pool
    unfolding reset_auth_fields wrap_verify_peer_certificate
    hook_tls_client_config config = record (reset_auth_fields config) {
      insecure_skip_verify = true;
      verify_peer_certificate =
          some (wrap_verify_peer_certificate config.verify_peer_certificate bundle authorizer);
    }

    unfoldable pub hook_mtls_client_config :
        Result E X509Svid.Svid → List (Trace T → Trace T) → Config T E Pool → Config T E Pool
    unfolding reset_auth_fields wrap_verify_peer_certificate
    hook_mtls_client_config svid opts config = record (reset_auth_fields config) {
      get_client_certificate = some (get_tls_certificate svid (new_options opts));
      insecure_skip_verify = true;
      verify_peer_certificate =
          some (wrap_verify_peer_certificate config.verify_peer_certificate bundle authorizer);
    }

    unfoldable pub hook_mtls_server_config :
        Result E X509Svid.Svid → List (Trace T → Trace T) → Config T E Pool → Config T E Pool
    unfolding reset_auth_fields wrap_verify_peer_certificate
    hook_mtls_server_config svid opts config = record (reset_auth_fields config) {
      client_auth = require_any_client_cert;
      get_certificate = some (get_tls_certificate svid (new_options opts));
      verify_peer_certificate =
          some (wrap_verify_peer_certificate config.verify_peer_certificate bundle authorizer);
    }

    unfoldable pub hook_mtls_web_server_config : TlsCertificate → Config T E Pool → Config T E Pool
    unfolding reset_auth_fields wrap_verify_peer_certificate
    hook_mtls_web_server_config cert config = record (reset_auth_fields config) {
      client_auth = require_any_client_cert;
      certificates = cert ∷ [];
      verify_peer_certificate =
          some (wrap_verify_peer_certificate config.verify_peer_certificate bundle authorizer);
    }

    unfoldable pub tls_client_config : Config T E Pool
    unfolding hook_tls_client_config
    tls_client_config = hook_tls_client_config new_tls_config

    unfoldable pub mtls_client_config :
        Result E X509Svid.Svid → List (Trace T → Trace T) → Config T E Pool
    unfolding hook_mtls_client_config
    mtls_client_config svid opts = hook_mtls_client_config svid opts new_tls_config

    unfoldable pub mtls_server_config :
        Result E X509Svid.Svid → List (Trace T → Trace T) → Config T E Pool
    unfolding hook_mtls_server_config
    mtls_server_config svid opts = hook_mtls_server_config svid opts new_tls_config

    unfoldable pub mtls_web_server_config : TlsCertificate → Config T E Pool
    unfolding hook_mtls_web_server_config
    mtls_web_server_config cert = hook_mtls_web_server_config cert new_tls_config

module _ {T E Pool : Type 0} where
  unfoldable pub hook_mtls_web_client_config :
      Result E X509Svid.Svid
      → Option Pool
      → List (Trace T → Trace T)
      → Config T E Pool
      → Config T E Pool
  unfolding reset_auth_fields
  hook_mtls_web_client_config svid roots opts config = record (reset_auth_fields config) {
    get_client_certificate = some (get_tls_certificate svid (new_options opts));
    root_cas = roots;
  }

  unfoldable pub hook_tls_server_config :
      Result E X509Svid.Svid → List (Trace T → Trace T) → Config T E Pool → Config T E Pool
  unfolding reset_auth_fields
  hook_tls_server_config svid opts config = record (reset_auth_fields config) {
    get_certificate = some (get_tls_certificate svid (new_options opts));
  }

  unfoldable pub mtls_web_client_config :
      Result E X509Svid.Svid → Option Pool → List (Trace T → Trace T) → Config T E Pool
  unfolding hook_mtls_web_client_config
  mtls_web_client_config svid roots opts =
      hook_mtls_web_client_config svid roots opts new_tls_config

  unfoldable pub tls_server_config :
      Result E X509Svid.Svid → List (Trace T → Trace T) → Config T E Pool
  unfolding hook_tls_server_config
  tls_server_config svid opts = hook_tls_server_config svid opts new_tls_config
