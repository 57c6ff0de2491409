-- ===== src/Svid/X509Svid/RoundTrip.antt =====
-- What `Marshal` writes, and what `Parse` makes of it.
use go_spiffe.Prelude.{
  ◌==◌, length, ok, map_err, >>=-eq-ok, Bytes, ◌≡◌, refl, ap, ◌↔◌, false, some, List, [], ◌∷◌,
  ok-injective, map_err-eq-ok, if-eq-ok,
}
use go_spiffe.Spiffeid.Charset.{Build}
use go_spiffe.Spiffeid.Uri.{Url}
use go_spiffe.X509.{Certificate}
use go_spiffe.Pem.{
  Codec, FileError, cert_type, key_type, key_object, parse_certificates, parse_private_key,
  encode_certificates, encode_pkcs8_private_key,
}
use go_spiffe.Pem.Reading.{Shortens}
use go_spiffe.Pem.RoundTrip.{
  ReadsBack, IsParsedFromRaw, parse-encode_certificates, parse-encode_private_key,
}
use go_spiffe.Svid.X509Svid.{PrivateKey, Svid, new_svid, cannot_encode_private_key}
use go_spiffe.Svid.X509Svid.Files.{parse, marshal, parse_with_certificates, parse_with_key}
use go_spiffe.Svid.X509Svid.Laws.{IsSvidOf, new_svid_iff}

module _ {E : Type 0} (codec : Codec E) (build : Build) (url_string : Url → Bytes)
    (shortens : Shortens codec) (reads_cert : ReadsBack codec cert_type)
    (reads_key : ReadsBack codec key_type) where
  parse-of_read :
      (cert_bytes key_bytes : Bytes) (certs : List Certificate) (key : PrivateKey)
      → parse_certificates codec cert_bytes ≡ some (ok certs)
      → parse_private_key codec key_bytes ≡ some (ok (some (key_object key)))
      → parse codec build url_string cert_bytes key_bytes
        ≡ some (new_svid build url_string certs (some key))
  unfolding parse parse_with_certificates parse_with_key
  parse-of_read cert_bytes key_bytes certs key read_certs read_key = rw (read_certs, read_key) refl

  -- The certificates and the key that were encoded are those that `newSVID` is given.
  parse-encoded :
      (certs : List Certificate) (key : PrivateKey) {key_bytes : Bytes}
      → IsParsedFromRaw codec certs
      → (length certs == 0) ≡ false
      → ((der : Bytes) → codec.marshal_pkcs8 key ≡ ok der → codec.parse_pkcs8 der ≡ ok key)
      → encode_pkcs8_private_key codec key ≡ ok key_bytes
      → parse codec build url_string (encode_certificates codec certs) key_bytes
        ≡ some (new_svid build url_string certs (some key))
  unfolding encode_pkcs8_private_key
  parse-encoded [] key parsed there back encoded = absurd cc
  parse-encoded (cert ∷ certs) key {key_bytes} parsed there back encoded =
      let (der, marshalled, e) = >>=-eq-ok (codec.marshal_pkcs8 key) _ encoded in
      parse-of_read _ key_bytes (cert ∷ certs) key
        (parse-encode_certificates codec shortens reads_cert cert certs parsed)
        (parse-encode_private_key codec shortens reads_key key der key_bytes marshalled
          (back der marshalled) encoded)

  -- What `Marshal` writes of an X509-SVID is parsed as an SVID if and only if that one has the
  -- certificates, the key and no hint, and the conditions of `newSVID` hold of its ID, the
  -- certificates and the key, if the PEM decoder takes something off its input whenever it finds a
  -- block and reads back certificates and keys that the encoder wrote, in front of anything, each
  -- certificate's raw bytes are parsed as it, and the PKCS #8 encoding of the key as the key.
  pub parse-marshal_svid :
      (s t : Svid) {cert_bytes key_bytes : Bytes}
      → IsParsedFromRaw codec s.certificates
      → ((der : Bytes)
          → codec.marshal_pkcs8 s.private_key ≡ ok der
          → codec.parse_pkcs8 der ≡ ok s.private_key)
      → marshal codec s ≡ ok (cert_bytes, key_bytes)
      → (parse codec build url_string cert_bytes key_bytes ≡ some (ok t))
        ↔ IsSvidOf build url_string s.certificates (some s.private_key) t
  unfolding marshal
  parse-marshal_svid s t {cert_bytes} {key_bytes} parsed back h =
      let (there, e1) = if-eq-ok (length s.certificates == 0) _ _ h in
      let (k, e2, e3) =
        >>=-eq-ok (map_err cannot_encode_private_key (encode_pkcs8_private_key codec s.private_key))
          _ e1 in
      let texts = ok-injective e3 in
      let certs_text : encode_certificates codec s.certificates ≡ cert_bytes =
        ap (λ p. p.0) texts in
      let key_text : k ≡ key_bytes = ap (λ p. p.1) texts in
      let read =
        parse-encoded s.certificates s.private_key parsed there back
          (map_err-eq-ok cannot_encode_private_key _ e2) in
      let (makes, made) =
        new_svid_iff build url_string {E = FileError E} s.certificates (some s.private_key) t in
      rw (← certs_text, ← key_text, read) (λ e. makes cc, λ v. ap some (made v))
