-- ===== src/Spiffetls/Mode.antt =====
-- spiffetls/mode.go. A source of bundles or of X509-SVIDs is what it returns when it is asked.
use go_spiffe.Prelude.{Result, Bool, true, false, Option, none, some, List, []}
use go_spiffe.Spiffeid.Identifier.{TrustDomain}
use go_spiffe.Bundle.X509
use go_spiffe.Svid.X509Svid
use go_spiffe.Tlsconfig.{Authorizer, TlsCertificate}

pub data ClientMode : Type 0 where
  tls_client_mode mtls_client_mode mtls_web_client_mode : ClientMode

pub data ServerMode : Type 0 where
  tls_server_mode mtls_server_mode mtls_web_server_mode : ServerMode

abbrev pub BundleSource : Type 0 → Type 0
BundleSource E = TrustDomain → Result E X509.Bundle

-- with types for X.509 sources and their options
pub record DialMode (E Pool S O : Type 0) : Type 0 where
  pub mode : ClientMode
  pub source_unneeded : Bool
  pub authorizer : Option (Authorizer E)
  pub source : Option S
  pub options : List O
  pub bundle : Option (BundleSource E)
  pub svid : Option (Result E X509Svid.Svid)
  pub roots : Option Pool

-- with types for X.509 sources and their options
pub record ListenMode (E S O : Type 0) : Type 0 where
  pub mode : ServerMode
  pub source_unneeded : Bool
  pub authorizer : Option (Authorizer E)
  pub source : Option S
  pub options : List O
  pub bundle : Option (BundleSource E)
  pub svid : Option (Result E X509Svid.Svid)
  pub cert : Option TlsCertificate

module _ {E Pool S O : Type 0} where
  -- the fields that a mode leaves out
  abbrev dial_base : ClientMode → DialMode E Pool S O
  dial_base mode = record {
    mode = mode;
    source_unneeded = false;
    authorizer = none;
    source = none;
    options = [];
    bundle = none;
    svid = none;
    roots = none;
  }

  unfoldable pub tls_client : Authorizer E → DialMode E Pool S O
  tls_client authorizer = record (dial_base tls_client_mode) { authorizer = some authorizer }

  unfoldable pub tls_client_with_source : Authorizer E → S → DialMode E Pool S O
  tls_client_with_source authorizer source = record (dial_base tls_client_mode) {
    authorizer = some authorizer;
    source = some source;
  }

  unfoldable pub tls_client_with_source_options : Authorizer E → List O → DialMode E Pool S O
  tls_client_with_source_options authorizer options = record (dial_base tls_client_mode) {
    authorizer = some authorizer;
    options = options;
  }

  unfoldable pub tls_client_with_raw_config : Authorizer E → BundleSource E → DialMode E Pool S O
  tls_client_with_raw_config authorizer bundle = record (dial_base tls_client_mode) {
    source_unneeded = true;
    authorizer = some authorizer;
    bundle = some bundle;
  }

  unfoldable pub mtls_client : Authorizer E → DialMode E Pool S O
  mtls_client authorizer = record (dial_base mtls_client_mode) { authorizer = some authorizer }

  unfoldable pub mtls_client_with_source : Authorizer E → S → DialMode E Pool S O
  mtls_client_with_source authorizer source = record (dial_base mtls_client_mode) {
    authorizer = some authorizer;
    source = some source;
  }

  unfoldable pub mtls_client_with_source_options : Authorizer E → List O → DialMode E Pool S O
  mtls_client_with_source_options authorizer options = record (dial_base mtls_client_mode) {
    authorizer = some authorizer;
    options = options;
  }

  unfoldable pub mtls_client_with_raw_config :
      Authorizer E → Result E X509Svid.Svid → BundleSource E → DialMode E Pool S O
  mtls_client_with_raw_config authorizer svid bundle = record (dial_base mtls_client_mode) {
    source_unneeded = true;
    authorizer = some authorizer;
    svid = some svid;
    bundle = some bundle;
  }

  unfoldable pub mtls_web_client : Option Pool → DialMode E Pool S O
  mtls_web_client roots = record (dial_base mtls_web_client_mode) { roots = roots }

  unfoldable pub mtls_web_client_with_source : Option Pool → S → DialMode E Pool S O
  mtls_web_client_with_source roots source = record (dial_base mtls_web_client_mode) {
    roots = roots;
    source = some source;
  }

  unfoldable pub mtls_web_client_with_source_options : Option Pool → List O → DialMode E Pool S O
  mtls_web_client_with_source_options roots options = record (dial_base mtls_web_client_mode) {
    roots = roots;
    options = options;
  }

  unfoldable pub mtls_web_client_with_raw_config :
      Option Pool → Result E X509Svid.Svid → DialMode E Pool S O
  mtls_web_client_with_raw_config roots svid = record (dial_base mtls_web_client_mode) {
    source_unneeded = true;
    roots = roots;
    svid = some svid;
  }

module _ {E S O : Type 0} where
  -- the fields that a mode leaves out
  abbrev listen_base : ServerMode → ListenMode E S O
  listen_base mode = record {
    mode = mode;
    source_unneeded = false;
    authorizer = none;
    source = none;
    options = [];
    bundle = none;
    svid = none;
    cert = none;
  }

  unfoldable pub tls_server : ListenMode E S O
  tls_server = listen_base tls_server_mode

  unfoldable pub tls_server_with_source : S → ListenMode E S O
  tls_server_with_source source = record (listen_base tls_server_mode) { source = some source }

  unfoldable pub tls_server_with_source_options : List O → ListenMode E S O
  tls_server_with_source_options options = record (listen_base tls_server_mode) {
    options = options;
  }

  unfoldable pub tls_server_with_raw_config : Result E X509Svid.Svid → ListenMode E S O
  tls_server_with_raw_config svid = record (listen_base tls_server_mode) {
    source_unneeded = true;
    svid = some svid;
  }

  unfoldable pub mtls_server : Authorizer E → ListenMode E S O
  mtls_server authorizer = record (listen_base mtls_server_mode) { authorizer = some authorizer }

  unfoldable pub mtls_server_with_source : Authorizer E → S → ListenMode E S O
  mtls_server_with_source authorizer source = record (listen_base mtls_server_mode) {
    authorizer = some authorizer;
    source = some source;
  }

  unfoldable pub mtls_server_with_source_options : Authorizer E → List O → ListenMode E S O
  mtls_server_with_source_options authorizer options = record (listen_base mtls_server_mode) {
    authorizer = some authorizer;
    options = options;
  }

  unfoldable pub mtls_server_with_raw_config :
      Authorizer E → Result E X509Svid.Svid → BundleSource E → ListenMode E S O
  mtls_server_with_raw_config authorizer svid bundle = record (listen_base mtls_server_mode) {
    source_unneeded = true;
    authorizer = some authorizer;
    svid = some svid;
    bundle = some bundle;
  }

  unfoldable pub mtls_web_server : Authorizer E → TlsCertificate → ListenMode E S O
  mtls_web_server authorizer cert = record (listen_base mtls_web_server_mode) {
    authorizer = some authorizer;
    cert = some cert;
  }

  unfoldable pub mtls_web_server_with_source : Authorizer E → TlsCertificate → S → ListenMode E S O
  mtls_web_server_with_source authorizer cert source = record (listen_base mtls_web_server_mode) {
    authorizer = some authorizer;
    cert = some cert;
    source = some source;
  }

  unfoldable pub mtls_web_server_with_source_options :
      Authorizer E → TlsCertificate → List O → ListenMode E S O
  mtls_web_server_with_source_options authorizer cert options =
      record (listen_base mtls_web_server_mode) {
        authorizer = some authorizer;
        cert = some cert;
        options = options;
      }

  unfoldable pub mtls_web_server_with_raw_config :
      Authorizer E → TlsCertificate → BundleSource E → ListenMode E S O
  mtls_web_server_with_raw_config authorizer cert bundle =
      record (listen_base mtls_web_server_mode) {
        source_unneeded = true;
        authorizer = some authorizer;
        cert = some cert;
        bundle = some bundle;
      }
