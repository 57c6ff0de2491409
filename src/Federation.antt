-- ===== src/Federation.antt =====
-- Package federation: fetch.go, handler.go and watch.go. HTTP is a parameter: what a request to the
-- endpoint returns with a TLS configuration, and what the body of the response holds.
pub mod Watch
pub mod Options
pub mod Laws
mod Tests
use go_spiffe.Prelude.{
  ltb, leb, ◌==◌, if◌then◌else◌, ==_iff, Bool-cases, Option-cases, &&-eq-true, eq_of_iff_true,
  length, take, drop, all, All, length-append, drop-append, take-append, take-length, all-append,
  append-left_cancel, Result, ok, err, ◌>>=◌, ◌>>◌, map_err, >>=-eq-ok, >>-eq-ok, Result-cases,
  Bytes, bytes_eq, bytes_eq_iff, is_empty, has_prefix, contains, slice, has_prefix-append,
  eq-append_of_has_prefix, slice-append, ℕ, zero, suc, ◌+◌, ◌-◌, ◌*◌, ◌/◌, ◌%◌, ◌^◌, ◌≤◌, ◌<◌, ◌≡◌,
  refl, sym, ap, ◌∙◌, ◌≢◌, ◌↔◌, ◌⊎◌, inl, inr, Bool, true, false, not, ◌&&◌, ◌||◌, Option, none,
  some, List, [], ◌∷◌, ◌++◌, map, append-nil, append_assoc, arith, ok-injective, err-injective,
  Bytes-cases, or_nil, codes, map_err-eq-ok, if-eq-ok, required, required-eq-ok, check-eq-ok,
}
use go_spiffe.X509.{Certificate}
use go_spiffe.Spiffeid.Charset.{Build}
use go_spiffe.Spiffeid.Identifier.{SpiffeId, TrustDomain}
use go_spiffe.Spiffeid.Uri.{Url}
use go_spiffe.Bundle.X509
use go_spiffe.Bundle.Spiffe
use go_spiffe.Bundle.Spiffe.Document.{BundleDoc, ParseError, read, marshal}
use go_spiffe.Svid.X509Svid.Verify.{Chains}
use go_spiffe.Tlsconfig.{Config, authorize_id, version_tls12}
use go_spiffe.Tlsconfig.Hooks.{new_tls_config, tls_client_config}

pub data AuthMethod : Type 0 where
  auth_method_default auth_method_spiffe auth_method_web_pki : AuthMethod

unfoldable pub is_default : AuthMethod → Bool
is_default auth_method_default = true
is_default _ = false

-- `fetchOptions`: the TLS configuration of the transport, if it has been set
pub record FetchOptions (T E Pool : Type 0) : Type 0 where
  pub tls_client_config : Option (Config T E Pool)
  pub auth_method : AuthMethod

-- the errors that `wrapFederationErr` wraps
pub data FetchError (R : Type 0) : Type 0 where
  both_auth_methods : FetchError R
  could_not_create_request could_not_get_bundle : R → FetchError R
  cannot_read_bundle : ParseError R → FetchError R

abbrev pub FetchOption : Type 0 → Type 0 → Type 0 → Type 0 → Type 0
FetchOption T E Pool R = FetchOptions T E Pool → Result (FetchError R) (FetchOptions T E Pool)

module _ {T E Pool R : Type 0} where
  unfoldable pub with_web_pki_roots : Pool → FetchOption T E Pool R
  unfolding is_default
  with_web_pki_roots root_cas o =
      if not (is_default o.auth_method)
      then err both_auth_methods
      else ok (record {
        tls_client_config =
            some (record new_tls_config { root_cas = some root_cas; min_version = version_tls12 });
        auth_method = auth_method_web_pki;
      })

  -- the parsers and the verification of crypto/x509
  unfoldable pub with_spiffe_auth :
      Build
      → (Url → Bytes)
      → (List Certificate → List Certificate → ℕ → Certificate → Result E Chains)
      → (Bytes → Result E Certificate)
      → (TrustDomain → Result E X509.Bundle)
      → SpiffeId
      → FetchOption T E Pool R
  unfolding is_default
  with_spiffe_auth build url_string chains_of parse_certificate bundle_source endpoint_id o =
      if not (is_default o.auth_method)
      then err both_auth_methods
      else ok (record {
        tls_client_config = some (
            tls_client_config build url_string chains_of parse_certificate (some bundle_source)
              (authorize_id endpoint_id));
        auth_method = auth_method_spiffe;
      })

  -- the loop over the options
  unfoldable pub apply_options :
      List (FetchOption T E Pool R)
      → FetchOptions T E Pool
      → Result (FetchError R) (FetchOptions T E Pool)
  apply_options [] opts = ok opts
  apply_options (o ∷ options) opts = do opts1 ← o opts; apply_options options opts1

  -- `FetchBundle`: whether the request can be made, the exchange, and the JSON decoder
  unfoldable pub fetch_bundle :
      Result R (Unit {0})
      → (Option (Config T E Pool) → Result R (Result R Bytes))
      → (Bytes → Result R BundleDoc)
      → TrustDomain
      → List (FetchOption T E Pool R)
      → Result (FetchError R) Spiffe.Bundle
  unfolding apply_options
  fetch_bundle new_request get unmarshal td options = do
    opts ←
        apply_options options
          (record { tls_client_config = none; auth_method = auth_method_default })
    map_err could_not_create_request new_request
    body ← map_err could_not_get_bundle (get opts.tls_client_config)
    map_err cannot_read_bundle (read unmarshal td body)

-- what the handler answers
pub data Answer : Type 0 where
  http_error : ℕ → Answer
  json : Bytes → Answer

-- the function of `NewHandler`, with the source and the JSON encoder
module _ {E : Type 0} (source : TrustDomain → Result E Spiffe.Bundle)
    (encode : BundleDoc → Result E Bytes) where
  unfoldable pub serve_bundle : Result E Spiffe.Bundle → Result E Bytes
  serve_bundle bundle = do b ← bundle; marshal encode b

  unfoldable pub answer_of : Result E Bytes → Answer
  answer_of (err e) = http_error 500
  answer_of (ok bytes) = json bytes

  unfoldable pub handle : TrustDomain → Bytes → Answer
  unfolding serve_bundle answer_of
  handle td method =
      if not (bytes_eq method (codes "GET"))
      then http_error 405
      else answer_of (serve_bundle (source td))
