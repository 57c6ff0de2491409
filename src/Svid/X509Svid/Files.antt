-- ===== src/Svid/X509Svid/Files.antt =====
-- svid/x509svid/svid.go: `Load`, `Parse` and `Marshal`, over package pemutil. A result is nothing where the
-- loop of pemutil runs out of fuel.
use go_spiffe.Prelude.{
  ◌==◌, if◌then◌else◌, length, Result, ok, err, ◌>>=◌, map_err, Bytes, Option, none, some, List,
}
use mathlib.Core.Option
use go_spiffe.Spiffeid.Charset.{Build}
use go_spiffe.Spiffeid.Uri.{Url}
use go_spiffe.X509.{Certificate}
use go_spiffe.Pem.{
  Codec, PemError, FileError, not_read, not_parsed, Object, certificate_object, key_object,
  parse_certificates, parse_private_key, encode_certificates, encode_pkcs8_private_key,
}
use go_spiffe.Svid.X509Svid.{
  PrivateKey, other_private, SvidError, cannot_parse_certificate, cannot_parse_private_key,
  no_certificates_to_marshal, cannot_encode_private_key, cannot_read_certificate_file,
  cannot_read_key_file, Svid, new_svid,
}

-- an object as a `crypto.PrivateKey`; a certificate is of a type that `keyMatches` does not know
abbrev pub key_of : Object → PrivateKey
key_of (key_object key) = key
key_of (certificate_object cert) = other_private 0

module _ {E : Type 0} (codec : Codec E) (build : Build) (url_string : Url → Bytes) where
  -- the end of `Parse`, on what `ParsePrivateKey` returns
  unfoldable pub parse_with_key :
      List Certificate → Result (PemError E) (Option Object) → Result (SvidError (FileError E)) Svid
  parse_with_key certs key = do
    private_key ← map_err (λ e. cannot_parse_private_key (not_parsed e)) key
    new_svid build url_string certs (Option.map key_of private_key)

  -- from what `ParseCertificates` returns
  unfoldable pub parse_with_certificates :
      Option (Result (PemError E) (List Certificate))
      → Bytes
      → Option (Result (SvidError (FileError E)) Svid)
  unfolding parse_with_key
  parse_with_certificates none key_bytes = none
  parse_with_certificates (some (err e)) key_bytes =
      some (err (cannot_parse_certificate (not_parsed e)))
  parse_with_certificates (some (ok certs)) key_bytes =
      Option.map (parse_with_key certs) (parse_private_key codec key_bytes)

  unfoldable pub parse : Bytes → Bytes → Option (Result (SvidError (FileError E)) Svid)
  unfolding parse_with_certificates
  parse cert_bytes key_bytes =
      parse_with_certificates (parse_certificates codec cert_bytes) key_bytes

  -- on what `os.ReadFile` returns for the two files
  unfoldable pub load :
      Result E Bytes → Result E Bytes → Option (Result (SvidError (FileError E)) Svid)
  unfolding parse
  load (err e) key_file = some (err (cannot_read_certificate_file (not_read e)))
  load (ok cert_bytes) (err e) = some (err (cannot_read_key_file (not_read e)))
  load (ok cert_bytes) (ok key_bytes) = parse cert_bytes key_bytes

unfoldable pub marshal : {E : Type 0} → Codec E → Svid → Result (SvidError E) (Bytes × Bytes)
marshal codec s = if length s.certificates == 0 then err no_certificates_to_marshal else do
  key_bytes ← map_err cannot_encode_private_key (encode_pkcs8_private_key codec s.private_key)
  ok (encode_certificates codec s.certificates, key_bytes)
