-- ===== src/Tlsconfig.antt =====
-- spiffetls/tlsconfig: authorizers, the TLS configurations and their callbacks. A callback of crypto/tls is
-- its function; the source of X509-SVIDs is what it returns when a callback asks it; the calls of a trace
-- are listed.
pub mod Hooks
pub mod Laws
mod Tests
use go_spiffe.Prelude.{
  ltb, leb, ◌==◌, if◌then◌else◌, ==_iff, Bool-cases, Option-cases, &&-eq-true, eq_of_iff_true,
  length, take, drop, all, All, length-append, drop-append, take-append, take-length, all-append,
  append-left_cancel, Result, ok, err, ◌>>=◌, ◌>>◌, map_err, >>=-eq-ok, >>-eq-ok, Result-cases,
  Bytes, bytes_eq, bytes_eq_iff, is_empty, has_prefix, contains, slice, has_prefix-append,
  eq-append_of_has_prefix, slice-append, ℕ, zero, suc, ◌+◌, ◌-◌, ◌*◌, ◌/◌, ◌%◌, ◌^◌, ◌≤◌, ◌<◌, ◌≡◌,
  refl, sym, ap, ◌∙◌, ◌≢◌, ◌↔◌, ◌⊎◌, inl, inr, Bool, true, false, not, ◌&&◌, ◌||◌, Option, none,
  some, List, [], ◌∷◌, ◌++◌, map, append-nil, append_assoc, arith, ok-injective, err-injective,
  Bytes-cases, or_nil, codes, map_err-eq-ok, if-eq-ok, required, required-eq-ok, check-eq-ok,
}
use go_spiffe.GoMap.{GoMap}
use go_spiffe.X509.{Certificate}
use go_spiffe.Spiffeid.Charset.{Build}
use go_spiffe.Spiffeid.Identifier.{SpiffeId, TrustDomain}
use go_spiffe.Spiffeid.Uri.{Url}
use go_spiffe.Spiffeid.Match.{
  MatchError, Matcher, match_any, match_id, match_one_of, match_member_of,
}
use go_spiffe.Bundle.X509
use go_spiffe.Svid.X509Svid.{PrivateKey}
use go_spiffe.Svid.X509Svid
use go_spiffe.Svid.X509Svid.Verify.{VerifyError, Chains, parse_and_verify}

pub data PeerError (E : Type 0) : Type 0 where
  not_verified : VerifyError E → PeerError E
  not_matched : MatchError → PeerError E
  other_error : E → PeerError E

-- `Authorizer`
abbrev pub Authorizer : Type 0 → Type 0
Authorizer E = SpiffeId → Chains → Result (PeerError E) (Unit {0})

-- a `VerifyPeerCertificate` callback, on the raw certificates and the chains
abbrev pub VerifyPeer : Type 0 → Type 0
VerifyPeer E = List Bytes → Chains → Result (PeerError E) (Unit {0})

module _ {E : Type 0} where
  unfoldable pub adapt_matcher : Matcher → Authorizer E
  adapt_matcher matcher actual chains = map_err not_matched (matcher actual)

  unfoldable pub authorize_any : Authorizer E
  unfolding adapt_matcher
  authorize_any = adapt_matcher match_any

  unfoldable pub authorize_id : SpiffeId → Authorizer E
  unfolding adapt_matcher
  authorize_id allowed = adapt_matcher (match_id allowed)

  unfoldable pub authorize_one_of : List SpiffeId → Authorizer E
  unfolding adapt_matcher
  authorize_one_of allowed = adapt_matcher (match_one_of allowed)

  unfoldable pub authorize_member_of : TrustDomain → Authorizer E
  unfolding adapt_matcher
  authorize_member_of allowed = adapt_matcher (match_member_of allowed)

-- `tls.Certificate`
pub record TlsCertificate : Type 0 where
  pub certificate : List Bytes
  pub private_key : PrivateKey
  pub leaf : Certificate

-- `index_out_of_range` is the panic of `s.Certificates[0]`.
pub data CertificateError (E : Type 0) : Type 0 where
  source_failed : E → CertificateError E
  index_out_of_range : CertificateError E

-- `Trace`: what `GetCertificate` returns, and whether `GotCertificate` is set
pub record Trace (T : Type 0) : Type 0 where
  pub get_certificate : Option T
  pub got_certificate : Bool

pub data TraceCall (T E : Type 0) : Type 0 where
  getting : TraceCall T E
  got : Result E TlsCertificate → Option T → TraceCall T E

-- `!= nil`
abbrev pub is_set : {A : Type 0} → Option A → Bool
is_set none = false
is_set (some a) = true

-- the certificate of an SVID's certificates and key
unfoldable pub tls_certificate :
    {E : Type 0} → List Certificate → PrivateKey → Result (CertificateError E) TlsCertificate
tls_certificate [] private_key = err index_out_of_range
tls_certificate (leaf ∷ rest) private_key = ok (record {
  certificate = map (λ c. c.raw) (leaf ∷ rest);
  private_key = private_key;
  leaf = leaf;
})

module _ {T E : Type 0} where
  unfoldable pub call_getting : Trace T → List (TraceCall T E)
  call_getting trace = if is_set trace.get_certificate then getting ∷ [] else []

  unfoldable pub call_got : Trace T → Result E TlsCertificate → List (TraceCall T E)
  call_got trace result =
      if trace.got_certificate then got result trace.get_certificate ∷ [] else []

  -- the calls of the trace behind it, none after a panic
  unfoldable pub call_got_certificate :
      Trace T → Result (CertificateError E) TlsCertificate → List (TraceCall T E)
  unfolding call_got
  call_got_certificate trace (err e) = []
  call_got_certificate trace (ok cert) = call_got trace (ok cert)

  -- behind `GetX509SVID`, with the calls of the trace
  unfoldable pub certificate_of :
      Trace T
      → Result E X509Svid.Svid
      → List (TraceCall T E) × Result (CertificateError E) TlsCertificate
  unfolding call_got tls_certificate call_got_certificate
  certificate_of trace (err e) = (call_got trace (err e), err (source_failed e))
  certificate_of trace (ok s) =
      let cert = tls_certificate s.certificates s.private_key in
      (call_got_certificate trace cert, cert)

  unfoldable pub get_tls_certificate :
      Result E X509Svid.Svid
      → Trace T
      → List (TraceCall T E) × Result (CertificateError E) TlsCertificate
  unfolding call_getting certificate_of
  get_tls_certificate svid trace =
      let (calls, result) = certificate_of trace svid in (call_getting trace ++ calls, result)

-- `newOptions`: the options are functions on the trace
unfoldable pub apply_options : {T : Type 0} → List (Trace T → Trace T) → Trace T → Trace T
apply_options [] trace = trace
apply_options (opt ∷ opts) trace = apply_options opts (opt trace)

unfoldable pub new_options : {T : Type 0} → List (Trace T → Trace T) → Trace T
unfolding apply_options
new_options opts = apply_options opts (record { get_certificate = none; got_certificate = false })

-- `WithTrace`
unfoldable pub with_trace : {T : Type 0} → Trace T → Trace T → Trace T
with_trace trace old = trace

pub data ClientAuth : Type 0 where
  no_client_cert require_any_client_cert : ClientAuth
  other_client_auth : ℕ → ClientAuth

-- `tls.VersionTLS12`
abbrev pub version_tls12 : ℕ
version_tls12 = 771

-- `tls.Config`, with the fields that the package sets; a callback for certificates is what it returns
pub record Config (T E Pool : Type 0) : Type 0 where
  pub min_version : ℕ
  pub certificates : List TlsCertificate
  pub client_auth : ClientAuth
  pub get_certificate : Option (List (TraceCall T E) × Result (CertificateError E) TlsCertificate)
  pub get_client_certificate :
      Option (List (TraceCall T E) × Result (CertificateError E) TlsCertificate)
  pub insecure_skip_verify : Bool
  pub name_to_certificate : GoMap Bytes TlsCertificate
  pub root_cas : Option Pool
  pub verify_peer_certificate : Option (VerifyPeer E)
