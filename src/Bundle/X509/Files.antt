-- ===== src/Bundle/X509/Files.antt =====
-- bundle/x509bundle/bundle.go: `Load`, `Read`, `Parse` and `Marshal`, over package pemutil. A result is
-- nothing where the loop of pemutil runs out of fuel.
use go_spiffe.Prelude.{
  if◌then◌else◌, Result, ok, err, ◌>>=◌, map_err, Bytes, is_empty, Option, some, List,
}
use mathlib.Core.Option
use go_spiffe.Spiffeid.Identifier.{TrustDomain}
use go_spiffe.X509.{Certificate}
use go_spiffe.Pem.{
  Codec, PemError, FileError, not_read, not_parsed, parse_certificates, encode_certificates,
}
use go_spiffe.Bundle.X509.{BundleError, cannot_load, cannot_read, cannot_parse, new, add_all}
use go_spiffe.Bundle.X509

module _ {E : Type 0} (codec : Codec E) where
  -- what `ParseCertificates` returns, added to a new bundle
  unfoldable pub add_parsed :
      TrustDomain
      → Result (PemError E) (List Certificate)
      → Result (BundleError (FileError E)) X509.Bundle
  add_parsed trust_domain parsed = do
    certs ← map_err (λ e. cannot_parse (not_parsed e)) parsed
    ok (add_all certs (new trust_domain))

  unfoldable pub parse :
      TrustDomain → Bytes → Option (Result (BundleError (FileError E)) X509.Bundle)
  unfolding add_parsed
  parse trust_domain bytes =
      if is_empty bytes
      then some (ok (new trust_domain))
      else Option.map (add_parsed trust_domain) (parse_certificates codec bytes)

  -- on what `os.ReadFile` returns
  unfoldable pub load :
      TrustDomain → Result E Bytes → Option (Result (BundleError (FileError E)) X509.Bundle)
  unfolding parse
  load trust_domain (err e) = some (err (cannot_load (not_read e)))
  load trust_domain (ok bytes) = parse trust_domain bytes

  -- on what `io.ReadAll` returns
  unfoldable pub read :
      TrustDomain → Result E Bytes → Option (Result (BundleError (FileError E)) X509.Bundle)
  unfolding parse
  read trust_domain (err e) = some (err (cannot_read (not_read e)))
  read trust_domain (ok bytes) = parse trust_domain bytes

  unfoldable pub marshal : X509.Bundle → Bytes
  marshal b = encode_certificates codec b.x509_authorities
