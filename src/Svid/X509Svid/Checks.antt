-- ===== src/Svid/X509Svid/Checks.antt =====
-- The checks of keys and key usage in svid/x509svid/svid.go.
use go_spiffe.Prelude.{
  if◌then◌else◌, All, ok, err, ◌>>=◌, bytes_eq, bytes_eq_iff, ℕ, ◌≡◌, refl, ap, ◌↔◌, Bool, true,
  false, not, Option, none, some, List, [], ◌∷◌, arith, ok-injective,
}
use go_spiffe.Crypto.{rsa_public_key_equal, ecdsa_public_key_equal, PublicKey, rsa, ecdsa, ed25519}
use go_spiffe.Crypto.Authorities.{rsa_iff, ecdsa_iff}
use go_spiffe.X509.{Certificate}
use go_spiffe.Svid.X509Svid.{
  rsa_private, ecdsa_private, ed25519_private, other_private, crl_sign, signer_of, cert_sign,
  digital_signature, validate_signing_certificates, validate_private_key, key_does_not_match,
  validate_key_usage, usage_set, key_matches, PrivateKey,
}

-- The key of a private key, if its type is supported.
abbrev pub public_of : PrivateKey → Option PublicKey
public_of (rsa_private a) = some (rsa a)
public_of (ecdsa_private a) = some (ecdsa a)
public_of (ed25519_private a) = some (ed25519 a)
public_of (other_private a) = none

pub key_test_iff :
    (c : Bool) (key k : PrivateKey) (pk : PublicKey)
    → (c ≡ true) ↔ (public_of key ≡ some pk)
    → ((if not c then err key_does_not_match else ok key) ≡ ok k)
      ↔ ((some key ≡ some k) × (public_of k ≡ some pk))
key_test_iff true key k pk fits = (
  λ h. (ap some (ok-injective h), rw (← ok-injective h) (fits.0 refl)),
  λ h. (let (e, _) = h in cc),
)
key_test_iff false key k pk fits = (
  λ h. absurd cc,
  λ h. (let same : key ≡ k = (let e = h.0 in cc) in let no = fits.1 (rw same h.1) in absurd cc),
)

pub check_key_iff :
    (key : PrivateKey) (pk : PublicKey) (k : PrivateKey)
    → ((key_matches key pk >>= λ matched.
          if not matched then err key_does_not_match else signer_of key)
        ≡ ok k)
      ↔ ((some key ≡ some k) × (public_of k ≡ some pk))
unfolding key_matches
check_key_iff (rsa_private a) (rsa b) k =
    key_test_iff (rsa_public_key_equal a b) (rsa_private a) k (rsa b)
      (λ h. ap (λ x. some (rsa x)) ((rsa_iff a b).0 h), λ h. (rsa_iff a b).1 cc)
check_key_iff (rsa_private a) pk k =
    key_test_iff false (rsa_private a) k pk (λ h. absurd cc, λ h. absurd cc)
check_key_iff (ecdsa_private a) (ecdsa b) k =
    key_test_iff (ecdsa_public_key_equal a b) (ecdsa_private a) k (ecdsa b)
      (λ h. ap (λ x. some (ecdsa x)) ((ecdsa_iff a b).0 h), λ h. (ecdsa_iff a b).1 cc)
check_key_iff (ecdsa_private a) pk k =
    key_test_iff false (ecdsa_private a) k pk (λ h. absurd cc, λ h. absurd cc)
check_key_iff (ed25519_private a) (ed25519 b) k =
    key_test_iff (bytes_eq a b) (ed25519_private a) k (ed25519 b)
      (λ h. ap (λ x. some (ed25519 x)) ((bytes_eq_iff a b).0 h), λ h. (bytes_eq_iff a b).1 cc)
check_key_iff (ed25519_private a) pk k =
    key_test_iff false (ed25519_private a) k pk (λ h. absurd cc, λ h. absurd cc)
check_key_iff (other_private a) pk k = (
  λ h. absurd cc,
  λ h.
      (let same : other_private a ≡ k = (let e = h.0 in cc) in
        let no = rw (← same) at h.1 in absurd cc),
)

pub validate_private_key_iff :
    (o : Option PrivateKey) (leaf : Certificate) (k : PrivateKey)
    → (validate_private_key o leaf ≡ ok k) ↔ ((o ≡ some k) × (public_of k ≡ some leaf.public_key))
unfolding validate_private_key
validate_private_key_iff none leaf k = (λ h. absurd cc, λ h. absurd (let e = h.0 in cc))
validate_private_key_iff (some key) leaf k = check_key_iff key leaf.public_key k

-- The key usage of a leaf: digital signatures, and no signing of certificates or revocation lists.
abbrev pub IsLeafUsage : ℕ → Type 0
IsLeafUsage usage =
    (usage_set usage digital_signature ≡ true)
    × (usage_set usage cert_sign ≡ false)
    × (usage_set usage crl_sign ≡ false)

abbrev pub IsSigning : Certificate → Type 0
IsSigning cert = (cert.is_ca ≡ true) × (usage_set cert.key_usage cert_sign ≡ true)

pub validate_key_usage_iff :
    (leaf : Certificate) → (validate_key_usage leaf ≡ ok tt) ↔ IsLeafUsage leaf.key_usage
unfolding validate_key_usage
validate_key_usage_iff leaf = (λ h. ground arith, λ h. rw (h.0, h.1, h.2) refl)

pub validate_signing_certificates_iff :
    (certs : List Certificate) → (validate_signing_certificates certs ≡ ok tt) ↔ All IsSigning certs
unfolding validate_signing_certificates
validate_signing_certificates_iff [] = (λ h. tt, λ h. refl)
validate_signing_certificates_iff (cert ∷ certs) =
    let ih = validate_signing_certificates_iff certs in
    (λ h. ground (arith, ih.0), λ h. rw (h.0.0, h.0.1) (ih.1 h.1))
