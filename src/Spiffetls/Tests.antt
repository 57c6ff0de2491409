-- ===== src/Spiffetls/Tests.antt =====
-- A failing dial for a mode without a source.
use go_spiffe.Prelude.{
  Result, ok, err, Bytes, ℕ, ◌≡◌, refl, false, Option, none, some, List, [], ◌∷◌, ◌++◌, codes,
}
use go_spiffe.X509.{Certificate}
use go_spiffe.Spiffeid.Charset.{standard}
use go_spiffe.Spiffeid.Identifier.{TrustDomain}
use go_spiffe.Spiffeid.Uri.{Url}
use go_spiffe.Crypto.{other}
use go_spiffe.Bundle.X509
use go_spiffe.Svid.X509Svid
use go_spiffe.Svid.X509Svid.Verify.{Chains}
use go_spiffe.Tlsconfig.{other_error, Authorizer, Config, authorize_any}
use go_spiffe.Spiffetls.Mode.{DialMode, mtls_client}
use go_spiffe.Spiffetls.Dial.{unable_to_dial, DialConfig, dial_with_mode, with_dialer}
use go_spiffe.Spiffetls.Laws.{IsReleased, made_for, dial_with_mode_lem}

abbrev url_string : Url → Bytes
url_string u = (u.scheme ++ codes "://") ++ (u.host ++ u.path)

abbrev chains_of : List Certificate → List Certificate → ℕ → Certificate → Result ℕ Chains
chains_of roots intermediates now cert = ok ((cert ∷ roots) ∷ [])

abbrev parse_certificate : Bytes → Result ℕ Certificate
parse_certificate raw =
    ok (record { raw = raw; uris = []; is_ca = false; key_usage = 1; public_key = other 0 })

abbrev nil_authorizer : Authorizer ℕ
nil_authorizer id chains = err (other_error 9)

abbrev nil_svid : Result ℕ X509Svid.Svid
nil_svid = err 9

-- sources are numbered
abbrev bundles_of : ℕ → TrustDomain → Result ℕ X509.Bundle
bundles_of source td = ok (record { trust_domain = td; x509_authorities = [] })

abbrev svid_of : ℕ → Result ℕ X509Svid.Svid
svid_of source = err source

abbrev new_x509_source : List ℕ → Result ℕ ℕ
new_x509_source options = ok 7

abbrev dial_tls : Option ℕ → Config ℕ ℕ ℕ → Result ℕ ℕ
dial_tls none config = err 4
dial_tls (some dialer) config = ok dialer

abbrev closes : ℕ → Option ℕ
closes n = none

abbrev mode : DialMode ℕ ℕ ℕ ℕ
mode = mtls_client authorize_any

abbrev no_options : List (DialConfig ℕ ℕ ℕ ℕ → DialConfig ℕ ℕ ℕ ℕ)
no_options = []

dial_fails :
    dial_with_mode standard url_string chains_of parse_certificate nil_authorizer nil_svid
      bundles_of svid_of new_x509_source dial_tls mode no_options
    ≡ (err (unable_to_dial 4), 7 ∷ [])
unfolding dial_with_mode mtls_client
dial_fails = refl

dial_with_mode_lem_example : IsReleased closes closes (made_for new_x509_source mode) (
    dial_with_mode standard url_string chains_of parse_certificate nil_authorizer nil_svid
      bundles_of svid_of new_x509_source dial_tls mode
      (with_dialer 3 ∷ []))
dial_with_mode_lem_example =
    dial_with_mode_lem standard url_string chains_of parse_certificate nil_authorizer nil_svid
      bundles_of svid_of new_x509_source dial_tls closes closes mode (with_dialer 3 ∷ [])

-- the mode with the source that is made for it
abbrev fed : DialMode ℕ ℕ ℕ ℕ
fed = record mode { bundle = some (bundles_of 7); svid = some (svid_of 7) }
