-- ===== src/Crypto.antt =====
-- internal/cryptoutil/keys.go and internal/jwtutil/util.go. Of the standard `crypto` packages the code
-- reads the fields of public keys. A curve is named by a number, and big integers are numbers.
pub mod Authorities
use go_spiffe.Prelude.{
  ◌==◌, if◌then◌else◌, length, Bytes, bytes_eq, ℕ, Bool, true, false, not, ◌&&◌, Option, none, some,
  [], ◌∷◌,
}
use go_spiffe.GoMap.{GoMap, lookup, put_all, bytes_key}

pub record RsaKey : Type 0 where
  pub e : ℕ
  pub n : ℕ

pub record EcdsaKey : Type 0 where
  pub curve : ℕ
  pub x : ℕ
  pub y : ℕ

-- `crypto.PublicKey`, an interface: the types that the code tells apart, and all others
pub data PublicKey : Type 0 where
  rsa : RsaKey → PublicKey
  ecdsa : EcdsaKey → PublicKey
  ed25519 : Bytes → PublicKey
  other : ℕ → PublicKey

pub data KeyError : Type 0 where
  unsupported_type : KeyError

unfoldable pub rsa_public_key_equal : RsaKey → RsaKey → Bool
rsa_public_key_equal a b = a.e == b.e && a.n == b.n

unfoldable pub ecdsa_public_key_equal : EcdsaKey → EcdsaKey → Bool
ecdsa_public_key_equal a b = a.curve == b.curve && (a.x == b.x && a.y == b.y)

-- the Boolean and the error of `PublicKeyEqual`
unfoldable pub public_key_equal : PublicKey → PublicKey → Bool × Option KeyError
unfolding rsa_public_key_equal ecdsa_public_key_equal
public_key_equal (rsa a) (rsa b) = (rsa_public_key_equal a b, none)
public_key_equal (rsa a) b = (false, none)
public_key_equal (ecdsa a) (ecdsa b) = (ecdsa_public_key_equal a b, none)
public_key_equal (ecdsa a) b = (false, none)
public_key_equal (ed25519 a) (ed25519 b) = (bytes_eq a b, none)
public_key_equal (ed25519 a) b = (false, none)
public_key_equal (other a) b = (false, some unsupported_type)

-- `map[string]crypto.PublicKey`
abbrev pub Keys : Type 0
Keys = GoMap Bytes PublicKey

unfoldable pub copy_jwt_authorities : Keys → Keys
copy_jwt_authorities authorities = put_all [] authorities

-- the loop of `JWTAuthoritiesEqual`; the error of `PublicKeyEqual` is dropped there
unfoldable pub authorities_loop : Keys → Keys → Bool
authorities_loop [] b = true
authorities_loop ((k, pka) ∷ a) b =
    let later = authorities_loop a b in
    elim (lookup k b) [
      | none ↦ false
      | some pkb ↦ if not (public_key_equal pka pkb).0 then false else later
    ]

unfoldable pub jwt_authorities_equal : Keys → Keys → Bool
unfolding authorities_loop
jwt_authorities_equal a b = if not (length a == length b) then false else authorities_loop a b
