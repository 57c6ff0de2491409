-- ===== src/X509.antt =====
-- Certificates, and internal/x509util/util.go. Of the standard `x509.Certificate` the code reads these
-- fields; `Certificate.Equal` compares the raw bytes. Pointers to certificates are never nil here.
pub mod Authorities
use go_spiffe.Prelude.{
  ◌==◌, if◌then◌else◌, length, Bytes, bytes_eq, ℕ, Bool, true, false, not, List, [], ◌∷◌, ◌++◌,
}
use go_spiffe.Spiffeid.Uri.{Url}
use go_spiffe.Crypto.{PublicKey}

pub record Certificate : Type 0 where
  pub raw : Bytes
  pub uris : List Url
  pub is_ca : Bool
  pub key_usage : ℕ
  pub public_key : PublicKey

-- `Certificate.Equal`
unfoldable pub equal : Certificate → Certificate → Bool
equal a b = bytes_eq a.raw b.raw

-- `make` and `copy`
unfoldable pub copy_x509_authorities : List Certificate → List Certificate
copy_x509_authorities [] = []
copy_x509_authorities (cert ∷ certs) = cert ∷ copy_x509_authorities certs

-- the loop of `CertsEqual`, over two lists of one length
unfoldable pub certs_loop : List Certificate → List Certificate → Bool
certs_loop [] b = true
certs_loop (cert ∷ a) [] = false
certs_loop (cert ∷ a) (other ∷ b) =
    let later = certs_loop a b in if not (equal cert other) then false else later

unfoldable pub certs_equal : List Certificate → List Certificate → Bool
unfolding certs_loop
certs_equal a b = if not (length a == length b) then false else certs_loop a b

unfoldable pub raw_certs_from_certs : List Certificate → List Bytes
raw_certs_from_certs [] = []
raw_certs_from_certs (cert ∷ certs) = cert.raw ∷ raw_certs_from_certs certs

-- the loop of `ConcatRawCertsFromCerts`
unfoldable pub concat_loop : Bytes → List Certificate → Bytes
concat_loop raw_certs [] = raw_certs
concat_loop raw_certs (cert ∷ certs) = concat_loop (raw_certs ++ cert.raw) certs

unfoldable pub concat_raw_certs_from_certs : List Certificate → Bytes
unfolding concat_loop
concat_raw_certs_from_certs certs = concat_loop [] certs

-- The loops of `AddX509Authority`, `RemoveX509Authority` and `HasX509Authority`, which packages
-- x509bundle and spiffebundle share word for word.
unfoldable pub has_authority : Certificate → List Certificate → Bool
has_authority cert [] = false
has_authority cert (r ∷ rs) = if equal r cert then true else has_authority cert rs

unfoldable pub add_authority : Certificate → List Certificate → List Certificate
unfolding has_authority
add_authority cert rs = if has_authority cert rs then rs else rs ++ cert ∷ []

unfoldable pub remove_authority : Certificate → List Certificate → List Certificate
remove_authority cert [] = []
remove_authority cert (r ∷ rs) =
    let rest = remove_authority cert rs in if equal r cert then rs else r ∷ rest
