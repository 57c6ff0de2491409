-- ===== src/Pem/RoundTrip.antt =====
-- What `EncodeCertificates` and `EncodePKCS8PrivateKey` write, `ParseCertificates` and
-- `ParsePrivateKey` read.
use go_spiffe.Prelude.{
  ok, Bytes, bytes_eq, ◌≡◌, refl, ap, some, List, [], ◌∷◌, ◌++◌, map, append-nil, arith,
  ok-injective,
}
use go_spiffe.X509.{Certificate}
use go_spiffe.Svid.X509Svid.{PrivateKey}
use go_spiffe.Pem.{
  key_object, key_type, first_object, certificate_object, encode_pkcs8_private_key,
  parse_private_key, cert_type, parse_certificates, encode_certificates, parse_object,
  as_certificates, Block, Codec,
}
use go_spiffe.Pem.Reading.{
  at_end, next_block, Blocks, Shortens, read_objects, read_all, parse_blocks-of_Blocks,
}

abbrev cert_block : Certificate → Block
cert_block cert = record { block_type = cert_type; bytes = cert.raw }

module _ {E : Type 0} (codec : Codec E) where
  -- The decoder reads back a block of a type that the encoder wrote, in front of anything.
  abbrev pub ReadsBack : Bytes → Type 0
  ReadsBack block_type =
      (bytes rest : Bytes)
      → codec.decode (codec.encode (record { block_type = block_type; bytes = bytes }) ++ rest)
        ≡ some (record { block_type = block_type; bytes = bytes }, rest)

  -- The certificate parser reads the raw bytes of each certificate back.
  abbrev pub IsParsedFromRaw : List Certificate → Type 0
  IsParsedFromRaw [] = Unit
  IsParsedFromRaw (cert ∷ certs) =
      (codec.parse_certificate cert.raw ≡ ok cert) × IsParsedFromRaw certs

  block-Blocks :
      (shortens : Shortens codec) (block : Block) (rest : Bytes) (blocks : List Block)
      (input : Bytes)
      → codec.decode input ≡ some (block, rest)
      → Blocks codec rest blocks
      → Blocks codec input (block ∷ blocks)
  block-Blocks shortens block rest blocks [] e more =
      let shorter = shortens [] rest block e in absurd (omega arith)
  block-Blocks shortens block rest blocks (c ∷ bytes) e more =
      next_block c bytes block rest blocks e more

  encode_certificates-Blocks :
      (shortens : Shortens codec) (reads_back : ReadsBack cert_type) (certs : List Certificate)
      → Blocks codec (encode_certificates codec certs) (map cert_block certs)
  unfolding encode_certificates
  encode_certificates-Blocks shortens reads_back [] = at_end
  encode_certificates-Blocks shortens reads_back (cert ∷ certs) =
      block-Blocks shortens (cert_block cert) (encode_certificates codec certs)
        (map cert_block certs) _ (reads_back cert.raw (encode_certificates codec certs))
        (encode_certificates-Blocks shortens reads_back certs)

  read_objects-map-cert_block :
      (certs : List Certificate)
      → IsParsedFromRaw certs
      → read_objects codec cert_type (map cert_block certs) ≡ ok (map certificate_object certs)
  unfolding read_objects parse_object bytes_eq
  read_objects-map-cert_block [] parsed = refl
  read_objects-map-cert_block (cert ∷ certs) (parsed, more) =
      rw (parsed, read_objects-map-cert_block certs more) refl

  as_certificates-map :
      (certs : List Certificate) → as_certificates {E = E} (map certificate_object certs) ≡ ok certs
  unfolding as_certificates
  as_certificates-map [] = refl
  as_certificates-map (cert ∷ certs) = rw (as_certificates-map certs) refl

  -- At least one certificate, encoded and parsed again, are the same certificates, if the PEM
  -- decoder takes something off its input whenever it finds a block and reads back what the encoder
  -- wrote in front of anything, and each certificate's raw bytes are parsed as it.
  pub parse-encode_certificates :
      (shortens : Shortens codec) (reads_back : ReadsBack cert_type) (cert : Certificate)
      (certs : List Certificate)
      → IsParsedFromRaw (cert ∷ certs)
      → parse_certificates codec (encode_certificates codec (cert ∷ certs))
        ≡ some (ok (cert ∷ certs))
  unfolding parse_certificates read_all
  parse-encode_certificates shortens reads_back cert certs parsed =
      rw
        (
          parse_blocks-of_Blocks codec shortens (encode_certificates codec (cert ∷ certs)) cert_type
              (map cert_block (cert ∷ certs))
              (encode_certificates-Blocks shortens reads_back (cert ∷ certs)),
          read_objects-map-cert_block (cert ∷ certs) parsed,
        )
        (ap some (as_certificates-map (cert ∷ certs)))

  pub parse-encode_private_key :
      (shortens : Shortens codec) (reads_back : ReadsBack key_type) (key : PrivateKey)
      (der bytes : Bytes)
      → codec.marshal_pkcs8 key ≡ ok der
      → codec.parse_pkcs8 der ≡ ok key
      → encode_pkcs8_private_key codec key ≡ ok bytes
      → parse_private_key codec bytes ≡ some (ok (some (key_object key)))
  unfolding parse_private_key encode_pkcs8_private_key read_all read_objects parse_object bytes_eq
      first_object
  parse-encode_private_key shortens reads_back key der bytes marshalled parsed encoded =
      let block : Block = record { block_type = key_type; bytes = der } in
      let encoded_is = ok-injective (rw marshalled at encoded) in
      let decodes = rw (append-nil (codec.encode block)) at (reads_back der []) in
      rw
        (
          ← encoded_is,
          parse_blocks-of_Blocks codec shortens (codec.encode block) key_type (block ∷ [])
              (block-Blocks shortens block [] [] (codec.encode block) decodes at_end),
          parsed,
        )
        refl
