-- ===== src/Bundle/Jwks.antt =====
-- The types of package `go-jose` that the bundle packages read and write. Its JSON encoding is a
-- parameter of the definitions that use it.
use go_spiffe.Prelude.{Bytes, List, []}
use go_spiffe.Crypto.{PublicKey}
use go_spiffe.X509.{Certificate}

-- `jose.JSONWebKey`, with the fields that the code uses
pub record JsonWebKey : Type 0 where
  pub key : PublicKey
  pub key_id : Bytes
  pub certificates : List Certificate
  pub use_of : Bytes

-- a key with neither certificates nor use
abbrev pub plain_key : Bytes → PublicKey → JsonWebKey
plain_key key_id key = record { key = key; key_id = key_id; certificates = []; use_of = [] }

-- the error of the `Add...Authority` methods that take a key ID: "keyID cannot be empty"
pub data AddError : Type 0 where
  empty_key_id : AddError
