-- ===== src/Spiffetls/Verifies.antt =====
-- The configuration that dialing uses: where its bundles come from, and how it verifies the server.
use go_spiffe.Prelude.{Result, ok, Bytes, ℕ, ◌≡◌, Bool, true, false, Option, none, some, List}
use go_spiffe.X509.{Certificate}
use go_spiffe.Spiffeid.Charset.{Build}
use go_spiffe.Spiffeid.Uri.{Url}
use go_spiffe.Svid.X509Svid
use go_spiffe.Svid.X509Svid.Verify.{Chains}
use go_spiffe.Tlsconfig.{Authorizer, Config}
use go_spiffe.Spiffetls.Mode.{
  ClientMode, tls_client_mode, mtls_client_mode, mtls_web_client_mode, BundleSource, DialMode,
}

-- The clients that expect an X509-SVID skip the standard verification.
abbrev pub skips : ClientMode → Bool
skips tls_client_mode = true
skips mtls_client_mode = true
skips mtls_web_client_mode = false

module _ {T E Pool S O D C : Type 0} (build : Build) (url_string : Url → Bytes)
    (chains_of : List Certificate → List Certificate → ℕ → Certificate → Result E Chains)
    (parse_certificate : Bytes → Result E Certificate) (nil_authorizer : Authorizer E)
    (nil_svid : Result E X509Svid.Svid) (bundles_of : S → BundleSource E)
    (svid_of : S → Result E X509Svid.Svid) (new_x509_source : List O → Result E S)
    (dial_tls : Option D → Config T E Pool → Result E C) where
  -- Where the bundles and the SVIDs come from: the mode itself, its source, or a new one.
  pub data IsFed (mode m : DialMode E Pool S O) : Type 0 where
    raw : mode.source_unneeded ≡ true → m ≡ mode → IsFed mode m
    given :
        (source : S)
        → mode.source_unneeded ≡ false
        → mode.source ≡ some source
        → m ≡ record mode { bundle = some (bundles_of source); svid = some (svid_of source) }
        → IsFed mode m
    made :
        (source : S)
        → mode.source_unneeded ≡ false
        → mode.source ≡ none
        → new_x509_source mode.options ≡ ok source
        → m ≡ record mode { bundle = some (bundles_of source); svid = some (svid_of source) }
        → IsFed mode m
