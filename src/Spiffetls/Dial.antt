-- ===== src/Spiffetls/Dial.antt =====
-- spiffetls/dial.go and the options of spiffetls/option.go for it. The Workload API's X.509 sources, what
-- they answer, and dialing with crypto/tls are parameters; sources that a call closes are listed.
use go_spiffe.Prelude.{
  if◌then◌else◌, Result, ok, err, Bytes, ℕ, Option, none, some, List, [], ◌∷◌, ◌++◌, map,
}
use go_spiffe.X509.{Certificate}
use go_spiffe.Spiffeid.Charset.{Build}
use go_spiffe.Spiffeid.Uri.{Url}
use go_spiffe.Svid.X509Svid
use go_spiffe.Svid.X509Svid.Verify.{Chains}
use go_spiffe.Tlsconfig.{Authorizer, Trace, Config, version_tls12}
use go_spiffe.Tlsconfig.Hooks.{
  new_tls_config, hook_tls_client_config, hook_mtls_client_config, hook_mtls_web_client_config,
}
use go_spiffe.Spiffetls.Mode.{
  tls_client_mode, mtls_client_mode, mtls_web_client_mode, BundleSource, DialMode, mtls_client,
}

pub data DialError (E : Type 0) : Type 0 where
  cannot_create_source unable_to_dial : E → DialError E

-- `dialConfig`; D is the type of dialers
pub record DialConfig (T E Pool D : Type 0) : Type 0 where
  pub base_tls_conf : Option (Config T E Pool)
  pub dialer : Option D
  pub tls_options : List (Trace T → Trace T)

module _ {T E Pool D : Type 0} where
  unfoldable pub with_dial_tls_config_base :
      Config T E Pool → DialConfig T E Pool D → DialConfig T E Pool D
  with_dial_tls_config_base base c = record c { base_tls_conf = some base }

  unfoldable pub with_dial_tls_options :
      List (Trace T → Trace T) → DialConfig T E Pool D → DialConfig T E Pool D
  with_dial_tls_options opts c = record c { tls_options = opts }

  unfoldable pub with_dialer : D → DialConfig T E Pool D → DialConfig T E Pool D
  with_dialer dialer c = record c { dialer = some dialer }

  -- the loop over the options
  unfoldable pub apply_all :
      List (DialConfig T E Pool D → DialConfig T E Pool D)
      → DialConfig T E Pool D
      → DialConfig T E Pool D
  apply_all [] opt = opt
  apply_all (option ∷ options) opt = apply_all options (option opt)

-- `clientConn`, with types for connections and X.509 sources
pub record ClientConn (C S : Type 0) : Type 0 where
  pub conn : C
  pub source_closer : Option S

-- what closing a connection returns
pub data CloseError (E : Type 0) : Type 0 where
  source_error : E → CloseError E
  unable_to_close : E → CloseError E

abbrev pub to_list : {A : Type 0} → Option A → List A
to_list none = []
to_list (some a) = a ∷ []

-- how the source closes, if there is one
abbrev closer_error : {E S : Type 0} → (S → Option E) → Option S → Option E
closer_error close_source none = none
closer_error close_source (some source) = close_source source

-- the errors that `Close` joins, and the source that it closes, from how sources and connections close
unfoldable pub close :
    {E C S : Type 0}
    → (S → Option E)
    → (C → Option E)
    → ClientConn C S
    → List (CloseError E) × List S
close close_source close_conn c = (
  map source_error (to_list (closer_error close_source c.source_closer))
      ++ map unable_to_close (to_list (close_conn c.conn)),
  to_list c.source_closer,
)

-- the end of `DialWithMode`, with the sources that the deferred function closes
unfoldable pub end_dial :
    {E C S : Type 0} → Result E C → Option S → Result (DialError E) (ClientConn C S) × List S
end_dial (ok conn) closer = (ok (record { conn = conn; source_closer = closer }), [])
end_dial (err e) closer = (err (unable_to_dial e), to_list closer)

-- a pointer or an interface that may be nil, or what its use comes to then, a panic; or a default
abbrev pub or_panic : {A : Type 0} → A → Option A → A
or_panic panic none = panic
or_panic panic (some a) = a

module _ {T E Pool S O D C : Type 0} (build : Build) (url_string : Url → Bytes)
    (chains_of : List Certificate → List Certificate → ℕ → Certificate → Result E Chains)
    (parse_certificate : Bytes → Result E Certificate) (nil_authorizer : Authorizer E)
    (nil_svid : Result E X509Svid.Svid) (bundles_of : S → BundleSource E)
    (svid_of : S → Result E X509Svid.Svid) (new_x509_source : List O → Result E S)
    (dial_tls : Option D → Config T E Pool → Result E C) where
  abbrev with_source : S → DialMode E Pool S O → DialMode E Pool S O
  with_source source m = record m {
    bundle = some (bundles_of source);
    svid = some (svid_of source);
  }

  -- the source of the mode, or a new one, which this call has to close
  unfoldable pub get_source :
      DialMode E Pool S O
      → Option S
      → Result E S
      → Result (DialError E) (DialMode E Pool S O × Option S)
  get_source m (some source) made = ok (with_source source m, none)
  get_source m none (err e) = err (cannot_create_source e)
  get_source m none (ok source) = ok (with_source source m, some source)

  unfoldable pub get_sources :
      DialMode E Pool S O → Result (DialError E) (DialMode E Pool S O × Option S)
  unfolding get_source
  get_sources m =
      if m.source_unneeded then ok (m, none) else get_source m m.source (new_x509_source m.options)

  -- the switch over the modes
  unfoldable pub tls_config_of :
      DialMode E Pool S O → List (Trace T → Trace T) → Config T E Pool → Config T E Pool
  tls_config_of m tls_options config = elim m.mode [
    | tls_client_mode ↦
        hook_tls_client_config build url_string chains_of parse_certificate m.bundle
          (or_panic nil_authorizer m.authorizer) config
    | mtls_client_mode ↦
        hook_mtls_client_config build url_string chains_of parse_certificate m.bundle
          (or_panic nil_authorizer m.authorizer) (or_panic nil_svid m.svid) tls_options config
    | mtls_web_client_mode ↦
        hook_mtls_web_client_config (or_panic nil_svid m.svid) m.roots tls_options config
  ]

  -- the call from the options on
  unfoldable pub dial_from :
      List (DialConfig T E Pool D → DialConfig T E Pool D)
      → Result (DialError E) (DialMode E Pool S O × Option S)
      → Result (DialError E) (ClientConn C S) × List S
  unfolding apply_all tls_config_of end_dial
  dial_from options (err e) = (err e, [])
  dial_from options (ok (m, closer)) =
      let opt =
        apply_all options (record { base_tls_conf = none; dialer = none; tls_options = [] }) in
      let config =
        or_panic (record new_tls_config { min_version = version_tls12 }) opt.base_tls_conf in
      end_dial (dial_tls opt.dialer (tls_config_of m opt.tls_options config)) closer

  unfoldable pub dial_with_mode :
      DialMode E Pool S O
      → List (DialConfig T E Pool D → DialConfig T E Pool D)
      → Result (DialError E) (ClientConn C S) × List S
  unfolding get_sources dial_from
  dial_with_mode mode options = dial_from options (get_sources mode)

  unfoldable pub dial :
      Authorizer E
      → List (DialConfig T E Pool D → DialConfig T E Pool D)
      → Result (DialError E) (ClientConn C S) × List S
  unfolding dial_with_mode mtls_client
  dial authorizer options = dial_with_mode (mtls_client authorizer) options
