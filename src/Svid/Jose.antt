-- ===== src/Svid/Jose.antt =====
-- What svid/jwtsvid and exp/svid/witsvid use of package go-jose: a record of operations, which the
-- definitions take as a parameter, and the data that they exchange.
use go_spiffe.Prelude.{
  if◌then◌else◌, Result, Bytes, bytes_eq, ℕ, Bool, true, false, Option, none, some, List, [], ◌∷◌,
  codes,
}
use go_spiffe.Crypto.{PublicKey}
use go_spiffe.Svid.X509Svid.{PrivateKey}

-- a decoded JSON value: a string, an object, or a value of another kind
mutual
  pub data Json : Type 0 where
    text : Bytes → Json
    object : Fields → Json
    other_json : ℕ → Json

  pub data Fields : Type 0 where
    no_fields : Fields
    field : Bytes → Json → Fields → Fields

-- `v, ok := m[k]`
unfoldable pub lookup_field : Bytes → Fields → Option Json
lookup_field k no_fields = none
lookup_field k (field j v rest) = if bytes_eq j k then some v else lookup_field k rest

-- `jwt.Claims`, with the fields that the code reads, and the claims that only the library does
pub record Claims : Type 0 where
  pub subject : Bytes
  pub audience : List Bytes
  pub expiry : Option ℕ
  pub not_before : Option ℕ

-- the errors of `Validate`
pub data ClaimsError : Type 0 where
  expired invalid_audience not_valid_yet other_claims_error : ClaimsError

-- `jose.JSONWebKey`, by what its `Key` is
pub data Jwk : Type 0 where
  public_jwk : PublicKey → Jwk
  private_jwk : PrivateKey → Jwk
  other_jwk : ℕ → Jwk

unfoldable pub is_public : Jwk → Bool
is_public (public_jwk key) = true
is_public _ = false

-- The operations on parsed tokens: `ParseSigned` with the algorithms that it allows, the key ID and the
-- `typ` of the first header, the claims without and with a verified signature, `Validate` and
-- `ValidateWithLeeway` at a time, and the JSON encoding of a key.
pub record Jose (Token E : Type 0) : Type 0 where
  pub parse_signed : List Bytes → Bytes → Result E Token
  pub key_id : Token → Bytes
  pub header_type : Token → Option Json
  pub unsafe_claims : Token → Result E Claims
  pub unsafe_claims_map : Token → Result E Fields
  pub verified_claims_map : PublicKey → Token → Result E Fields
  pub validate : List Bytes → ℕ → Claims → Result ClaimsError (Unit {0})
  pub validate_with_leeway : ℕ → Claims → Result ClaimsError (Unit {0})
  pub marshal_json : Fields → Result E Bytes
  pub unmarshal_jwk : Bytes → Result E Jwk

-- `allowedSignatureAlgorithms`, the same in both packages
abbrev pub allowed_signature_algorithms : List Bytes
allowed_signature_algorithms =
    codes "RS256"
    ∷ codes "RS384"
    ∷ codes "RS512"
    ∷ codes "ES256"
    ∷ codes "ES384"
    ∷ codes "ES512"
    ∷ codes "PS256"
    ∷ codes "PS384"
    ∷ codes "PS512"
    ∷ []
