-- ===== src/Tlsconfig/Tests.antt =====
-- A peer and the configurations on concrete certificates.
use go_spiffe.Prelude.{
  if◌then◌else◌, Bool, Result, ok, err, Bytes, bytes_eq, has_prefix, ℕ, ◌≡◌, refl, ◌↔◌, true, false,
  none, some, List, [], ◌∷◌, ◌++◌, codes,
}
use go_spiffe.X509.{Certificate}
use go_spiffe.Crypto.{ecdsa, EcdsaKey}
use go_spiffe.Spiffeid.Match.{match_id}
use go_spiffe.Spiffeid.Paths.{validate_path}
use go_spiffe.Spiffeid.Charset.{is_valid_trust_domain_char, is_valid_path_segment_char, standard}
use go_spiffe.Spiffeid.Identifier.{from_string, id_eq, SpiffeId, TrustDomain}
use go_spiffe.Spiffeid.Uri.{from_uri, Url, zero_url}
use go_spiffe.Bundle.X509
use go_spiffe.Svid.X509Svid.{ecdsa_private}
use go_spiffe.Svid.X509Svid
use go_spiffe.Svid.X509Svid.Verify.{parse_and_verify, Chains}
use go_spiffe.Tlsconfig.{
  ClientAuth, no_client_cert, require_any_client_cert, other_error, Authorizer, VerifyPeer,
  TlsCertificate, Trace, Config, authorize_id, with_trace,
}
use go_spiffe.Tlsconfig.Hooks.{
  new_tls_config, wrap_verify_peer_certificate, hook_tls_client_config, hook_mtls_client_config,
  hook_mtls_server_config, hook_mtls_web_server_config, hook_mtls_web_client_config,
  hook_tls_server_config,
}
use go_spiffe.Tlsconfig.Laws.{IsAccepted, IsSafe, wrap_verify_peer_certificate_iff, hooks_lem}

abbrev url_string : Url → Bytes
url_string u = (u.scheme ++ codes "://") ++ (u.host ++ u.path)

abbrev web : SpiffeId
web = record { id = codes "spiffe://a.test/web"; pathidx = 15 }

abbrev key : EcdsaKey
key = record { curve = 256; x = 3; y = 5 }

abbrev leaf : Certificate
leaf = record {
  raw = 1 ∷ [];
  uris =
      record zero_url { scheme = codes "spiffe"; host = codes "a.test"; path = codes "/web" } ∷ [];
  is_ca = false;
  key_usage = 1;
  public_key = ecdsa key;
}

abbrev chains_of : List Certificate → List Certificate → ℕ → Certificate → Result ℕ Chains
chains_of roots intermediates now cert = ok ((cert ∷ roots) ∷ [])

abbrev parse_certificate : Bytes → Result ℕ Certificate
parse_certificate raw = if bytes_eq raw (1 ∷ []) then ok leaf else err 4

abbrev source : TrustDomain → Result ℕ X509.Bundle
source td = ok (record { trust_domain = td; x509_authorities = [] })

abbrev authorizer : Authorizer ℕ
authorizer = authorize_id web

-- a callback that refuses
abbrev refuses : VerifyPeer ℕ
refuses raw chains = err (other_error 9)

accepts :
    wrap_verify_peer_certificate standard url_string chains_of parse_certificate none
      (some source)
      authorizer
      ((1 ∷ []) ∷ [])
      []
    ≡ ok tt
unfolding wrap_verify_peer_certificate bytes_eq parse_and_verify X509Svid.id_from_cert from_uri
    from_string has_prefix is_valid_trust_domain_char validate_path is_valid_path_segment_char
    X509Svid.usage_set authorize_id match_id id_eq
accepts = refl

wrap_verify_peer_certificate_iff_example :
    (wrap_verify_peer_certificate standard url_string chains_of parse_certificate
        (some refuses)
        (some source)
        authorizer
        ((1 ∷ []) ∷ [])
        []
      ≡ ok tt)
    ↔ IsAccepted standard url_string chains_of parse_certificate
        (some refuses)
        source
        authorizer
        ((1 ∷ []) ∷ [])
wrap_verify_peer_certificate_iff_example =
    wrap_verify_peer_certificate_iff standard url_string chains_of parse_certificate (some refuses)
      source authorizer ((1 ∷ []) ∷ []) []

abbrev svid : Result ℕ X509Svid.Svid
svid =
    ok (record { id = web; certificates = leaf ∷ []; private_key = ecdsa_private key; hint = [] })

abbrev opts : List (Trace ℕ → Trace ℕ)
opts = with_trace (record { get_certificate = some 1; got_certificate = true }) ∷ []

abbrev web_certificate : TlsCertificate
web_certificate = record {
  certificate = (1 ∷ []) ∷ [];
  private_key = ecdsa_private key;
  leaf = leaf;
}

-- a configuration of TLS 1.0 that skips the standard verification
abbrev old : Config ℕ ℕ ℕ
old = record new_tls_config {
  min_version = 769;
  insecure_skip_verify = true;
  verify_peer_certificate = some refuses;
}

abbrev Safe : Bool → ClientAuth → Config ℕ ℕ ℕ → Type 0
Safe skips asks new =
    IsSafe standard url_string chains_of parse_certificate (some source) authorizer skips asks old
      new

hooks_lem_example :
    Safe true no_client_cert (
      hook_tls_client_config standard url_string chains_of parse_certificate
        (some source)
        authorizer
        old)
    × Safe true no_client_cert (
        hook_mtls_client_config standard url_string chains_of parse_certificate
          (some source)
          authorizer
          svid
          opts
          old)
    × Safe false require_any_client_cert (
        hook_mtls_server_config standard url_string chains_of parse_certificate
          (some source)
          authorizer
          svid
          opts
          old)
    × Safe false require_any_client_cert (
        hook_mtls_web_server_config standard url_string chains_of parse_certificate
          (some source)
          authorizer
          web_certificate
          old)
    × Safe false no_client_cert (hook_mtls_web_client_config svid (some 1) opts old)
    × Safe false no_client_cert (hook_tls_server_config svid opts old)
hooks_lem_example =
    hooks_lem standard url_string chains_of parse_certificate (some source) authorizer svid opts
      web_certificate (some 1) old
