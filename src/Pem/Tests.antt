-- ===== src/Pem/Tests.antt =====
-- PEM on a small concrete encoding: a block is the number of its type, its length and its bytes.
use go_spiffe.Prelude.{
  if◌then◌else◌, length, take, drop, drop-append, take-append, Result, ok, err, Bytes, bytes_eq, ℕ,
  zero, suc, ◌≤◌, ◌≡◌, refl, false, Option, none, some, List, [], ◌∷◌, arith,
}
use go_spiffe.X509.{Certificate}
use go_spiffe.Crypto.{EcdsaKey, ecdsa}
use go_spiffe.Svid.X509Svid.{ecdsa_private}
use go_spiffe.Pem.{
  as_certificates, append_object, finish, encode_pkcs8_private_key, parse_blocks, Block, Codec,
  cert_type, key_type, parse_certificates, encode_certificates,
}
use go_spiffe.Pem.Reading.{Blocks, Shortens, read_all, parse_blocks-eq-read_all}
use go_spiffe.Pem.RoundTrip.{ReadsBack, parse-encode_certificates}

abbrev decode_tag : ℕ → Bytes
decode_tag zero = cert_type
decode_tag (suc n) = key_type

abbrev encode_tag : Bytes → ℕ
encode_tag t = if bytes_eq t cert_type then 0 else 1

-- the tag of the type, the length, and the bytes
abbrev decode_small : Bytes → Option (Block × Bytes)
decode_small [] = none
decode_small (tag ∷ []) = none
decode_small (tag ∷ n ∷ rest) =
    some (record { block_type = decode_tag tag; bytes = take n rest }, drop n rest)

abbrev encode_small : Block → Bytes
encode_small block = encode_tag block.block_type ∷ length block.bytes ∷ block.bytes

abbrev key : EcdsaKey
key = record { curve = 256; x = 3; y = 5 }

abbrev certificate : ℕ → Certificate
certificate n = record {
  raw = n ∷ [];
  uris = [];
  is_ca = false;
  key_usage = n;
  public_key = ecdsa key;
}

abbrev parse_certificate : Bytes → Result ℕ Certificate
parse_certificate [] = err 1
parse_certificate (n ∷ rest) = ok (certificate n)

abbrev pub small : Codec ℕ
small = record {
  decode = decode_small;
  encode = encode_small;
  parse_certificate = parse_certificate;
  parse_pkcs8 = λ bytes. ok (ecdsa_private key);
  marshal_pkcs8 = λ k. ok (7 ∷ []);
}

length-drop_le : (n : ℕ) (l : Bytes) → length (drop n l) ≤ length l
length-drop_le zero l = omega arith
length-drop_le (suc n) [] = omega arith
length-drop_le (suc n) (x ∷ l) = let h = length-drop_le n l in omega arith

pub small-Shortens : Shortens small
small-Shortens [] rest block e = absurd cc
small-Shortens (tag ∷ []) rest block e = absurd cc
small-Shortens (tag ∷ n ∷ bytes) rest block e =
    let h = length-drop_le n bytes in
    let rest_is : drop n bytes ≡ rest = cc in rw (← rest_is) (omega arith)

pub small-ReadsBack_cert : ReadsBack small cert_type
unfolding bytes_eq
small-ReadsBack_cert bytes rest = rw (take-append bytes rest, drop-append bytes rest) refl

pub small-ReadsBack_key : ReadsBack small key_type
unfolding bytes_eq
small-ReadsBack_key bytes rest = rw (take-append bytes rest, drop-append bytes rest) refl

-- a key in front of two certificates
abbrev input : Bytes
input = 1 ∷ 1 ∷ 7 ∷ 0 ∷ 1 ∷ 4 ∷ 0 ∷ 1 ∷ 5 ∷ []

reads_input : parse_certificates small input ≡ some (ok (certificate 4 ∷ certificate 5 ∷ []))
unfolding parse_certificates bytes_eq finish append_object as_certificates
reads_input = refl

parse_blocks-eq-read_all_example :
    (blocks : List Block) × Blocks small input blocks
    × (parse_blocks small input cert_type ≡ some (read_all small cert_type blocks))
parse_blocks-eq-read_all_example = parse_blocks-eq-read_all small small-Shortens input cert_type

parse-encode_certificates_example :
    parse_certificates small (encode_certificates small (certificate 4 ∷ certificate 5 ∷ []))
    ≡ some (ok (certificate 4 ∷ certificate 5 ∷ []))
parse-encode_certificates_example =
    parse-encode_certificates small small-Shortens small-ReadsBack_cert (certificate 4)
      (certificate 5 ∷ []) (refl, (refl, tt))

encodes_key : encode_pkcs8_private_key small (ecdsa_private key) ≡ ok (1 ∷ 1 ∷ 7 ∷ [])
unfolding encode_pkcs8_private_key bytes_eq
encodes_key = refl
