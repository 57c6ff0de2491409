-- ===== src/Pem.antt =====
-- internal/pemutil/pem.go. The PEM decoder and encoder, and the parsers and encoders of crypto/x509, are
-- a record of operations.
pub mod Reading
pub mod RoundTrip
pub mod Tests
use go_spiffe.Prelude.{
  if◌then◌else◌, length, Result, ok, err, ◌>>=◌, map_err, Bytes, bytes_eq, ℕ, zero, suc, Bool, true,
  false, not, ◌||◌, Option, none, some, List, [], ◌∷◌, ◌++◌, codes,
}
use mathlib.Core.Option
use go_spiffe.X509.{Certificate}
use go_spiffe.Svid.X509Svid.{PrivateKey}

-- `pem.Block`, without headers
pub record Block : Type 0 where
  pub block_type : Bytes
  pub bytes : Bytes

-- what the code uses of encoding/pem and crypto/x509; `decode` returns the first block and the rest
pub record Codec (E : Type 0) : Type 0 where
  pub decode : Bytes → Option (Block × Bytes)
  pub encode : Block → Bytes
  pub parse_certificate : Bytes → Result E Certificate
  pub parse_pkcs8 : Bytes → Result E PrivateKey
  pub marshal_pkcs8 : PrivateKey → Result E Bytes

-- the dynamic types of an `interface{}` that `parseBlock` returns
pub data Object : Type 0 where
  certificate_object : Certificate → Object
  key_object : PrivateKey → Object

pub data PemError (E : Type 0) : Type 0 where
  no_pem_blocks unexpected_type : PemError E
  type_not_supported : Bytes → PemError E
  cannot_parse_block : E → PemError E

-- why contents in PEM are not loaded, for the packages that call: they are not read, or not parsed
pub data FileError (E : Type 0) : Type 0 where
  not_read : E → FileError E
  not_parsed : PemError E → FileError E

abbrev pub cert_type : Bytes
cert_type = codes "CERTIFICATE"

abbrev pub key_type : Bytes
key_type = codes "PRIVATE KEY"

-- `object.(*x509.Certificate)` along a list
unfoldable pub as_certificates : {E : Type 0} → List Object → Result (PemError E) (List Certificate)
as_certificates [] = ok []
as_certificates (certificate_object cert ∷ objects) = do
  certs ← as_certificates objects
  ok (cert ∷ certs)
as_certificates (key_object key ∷ objects) = err unexpected_type

-- `objects[0]`, which any non-nil value is as a `crypto.PrivateKey`, or nil
unfoldable pub first_object : List Object → Option Object
first_object [] = none
first_object (object ∷ objects) = some object

-- the returns of `parseBlocks` at its end
unfoldable pub finish : {E : Type 0} → List Object → Bool → Result (PemError E) (List Object)
finish [] found = if not found then err no_pem_blocks else ok []
finish objects found = ok objects

-- `append` when there is an object
unfoldable pub append_object : List Object → Option Object → List Object
append_object objects none = objects
append_object objects (some object) = objects ++ (object ∷ [])

module _ {E : Type 0} (codec : Codec E) where
  -- the switch over the type
  unfoldable pub parse_object : Bytes → Bytes → Result (PemError E) Object
  parse_object pem_type bytes =
      if bytes_eq pem_type cert_type
      then map_err cannot_parse_block
          (do cert ← codec.parse_certificate bytes; ok (certificate_object cert))
      else if bytes_eq pem_type key_type
      then map_err cannot_parse_block (do key ← codec.parse_pkcs8 bytes; ok (key_object key))
      else err (type_not_supported pem_type)

  -- the object, the rest and whether there was a block
  unfoldable pub parse_block_at :
      Bytes → Option (Block × Bytes) → Result (PemError E) (Option Object × Bytes × Bool)
  unfolding parse_object
  parse_block_at pem_type none = ok (none, [], false)
  parse_block_at pem_type (some (block, rest)) =
      if not (bytes_eq block.block_type pem_type)
      then ok (none, rest, true)
      else do object ← parse_object pem_type block.bytes; ok (some object, rest, true)

  unfoldable pub parse_block : Bytes → Bytes → Result (PemError E) (Option Object × Bytes × Bool)
  unfolding parse_block_at
  parse_block pem_bytes pem_type = parse_block_at pem_type (codec.decode pem_bytes)

  -- the end of the body of the loop of `parseBlocks`
  unfoldable pub parse_blocks_next :
      (Bytes → List Object → Bool → Option (Result (PemError E) (List Object)))
      → List Object
      → Bool
      → Result (PemError E) (Option Object × Bytes × Bool)
      → Option (Result (PemError E) (List Object))
  parse_blocks_next loop objects found (err e) = some (err e)
  parse_blocks_next loop objects found (ok (object, rest, found_block)) =
      loop rest (append_object objects object) (found_block || found)

  -- the loop of `parseBlocks`; nothing when the fuel runs out
  unfoldable pub parse_blocks_loop :
      ℕ → Bytes → Bytes → List Object → Bool → Option (Result (PemError E) (List Object))
  unfolding parse_block parse_blocks_next
  parse_blocks_loop fuel expected [] objects found = some (finish objects found)
  parse_blocks_loop zero expected (c ∷ bytes) objects found = none
  parse_blocks_loop (suc fuel) expected (c ∷ bytes) objects found =
      parse_blocks_next (parse_blocks_loop fuel expected) objects found
        (parse_block (c ∷ bytes) expected)

  unfoldable pub parse_blocks : Bytes → Bytes → Option (Result (PemError E) (List Object))
  unfolding parse_blocks_loop
  parse_blocks bytes expected = parse_blocks_loop (length bytes) expected bytes [] false

  unfoldable pub parse_certificates : Bytes → Option (Result (PemError E) (List Certificate))
  unfolding parse_blocks
  parse_certificates bytes =
      Option.map (λ r. do objects ← r; as_certificates objects) (parse_blocks bytes cert_type)

  unfoldable pub parse_private_key : Bytes → Option (Result (PemError E) (Option Object))
  unfolding parse_blocks
  parse_private_key bytes =
      Option.map (λ r. do objects ← r; ok (first_object objects)) (parse_blocks bytes key_type)

  unfoldable pub encode_pkcs8_private_key : PrivateKey → Result E Bytes
  encode_pkcs8_private_key key = do
    key_bytes ← codec.marshal_pkcs8 key
    ok (codec.encode (record { block_type = key_type; bytes = key_bytes }))

  unfoldable pub encode_certificates : List Certificate → Bytes
  encode_certificates [] = []
  encode_certificates (cert ∷ certs) =
      codec.encode (record { block_type = cert_type; bytes = cert.raw })
      ++ encode_certificates certs
