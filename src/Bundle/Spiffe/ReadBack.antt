-- ===== src/Bundle/Spiffe/ReadBack.antt =====
-- The loop of `Parse` of bundle/spiffebundle/bundle.go, on the keys that `Marshal` writes.
use go_spiffe.Prelude.{
  length, ok, bytes_eq, ℕ, suc, ◌+◌, ◌≡◌, refl, false, List, [], ◌∷◌, ◌++◌, append-nil,
  append_assoc, arith,
}
use go_spiffe.GoMap.{has, put, put_all, bytes_key}
use go_spiffe.Crypto.{Keys}
use go_spiffe.X509.{Certificate, has_authority, add_authority}
use go_spiffe.X509.Authorities.{IsDistinct, count-append, has_authority-count, equal_refl}
use go_spiffe.Bundle.Jwks.{JsonWebKey}
use go_spiffe.Bundle.Spiffe.{Bundle, add_x509_authority, add_jwt_authority, add_wit_authority}
use go_spiffe.Bundle.Spiffe.Document
use go_spiffe.Bundle.Spiffe.Written.{x509_keys, used_keys}

pub has_authority-fresh :
    (cert : Certificate) (xs ys : List Certificate)
    → IsDistinct (xs ++ cert ∷ ys)
    → has_authority cert xs ≡ false
has_authority-fresh cert xs ys h =
    ground (
      arith,
      h cert,
      count-append cert xs (cert ∷ ys),
      has_authority-count cert xs,
      equal_refl cert,
    )

pub add_authority-fresh :
    (cert : Certificate) (xs ys : List Certificate)
    → IsDistinct (xs ++ cert ∷ ys)
    → add_authority cert xs ≡ xs ++ cert ∷ []
unfolding add_authority
add_authority-fresh cert xs ys h = rw (has_authority-fresh cert xs ys h) refl

-- The loop of `Parse`, on the keys that each loop of `Marshal` wrote.
pub add_keys-x509_keys :
    {E : Type 0} (i : ℕ) (certs : List Certificate) (rest : List JsonWebKey) (b : Bundle)
    → IsDistinct (b.x509_authorities ++ certs)
    → Document.add_keys {E = E} i (x509_keys certs ++ rest) b
      ≡ Document.add_keys
          (i + length certs)
          rest
          (record b { x509_authorities = b.x509_authorities ++ certs })
unfolding Document.add_keys Document.add_key bytes_eq Document.add_certificates add_x509_authority
add_keys-x509_keys i [] rest b h =
    let i_is : i + 0 ≡ i = omega arith in rw (append-nil b.x509_authorities, i_is) refl
add_keys-x509_keys i (cert ∷ certs) rest b h =
    let assoc = append_assoc b.x509_authorities (cert ∷ []) certs in
    let next : (i + 1) + length certs ≡ i + suc (length certs) = omega arith in
    let ih =
      add_keys-x509_keys (i + 1) certs rest
        (record b { x509_authorities = b.x509_authorities ++ cert ∷ [] }) (rw assoc h) in
    rw (add_authority-fresh cert b.x509_authorities certs h) (rw (← next, ← assoc) ih)

pub add_keys-jwt :
    {E : Type 0} (i : ℕ) (m : Keys) (rest : List JsonWebKey) (b : Bundle)
    → has [] m ≡ false
    → Document.add_keys {E = E} i (used_keys Document.jwt_svid_use m ++ rest) b
      ≡ Document.add_keys
          (i + length m)
          rest
          (record b { jwt_authorities = put_all b.jwt_authorities m })
unfolding Document.add_keys Document.add_key put_all bytes_eq add_jwt_authority
add_keys-jwt i [] rest b h = let i_is : i + 0 ≡ i = omega arith in rw i_is refl
add_keys-jwt i (([], v) ∷ m) rest b h = absurd (unfold has in cc)
add_keys-jwt i ((c ∷ s, v) ∷ m) rest b h =
    let next : (i + 1) + length m ≡ i + suc (length m) = omega arith in
    rw (← next) (
      add_keys-jwt (i + 1) m rest (record b { jwt_authorities = put (c ∷ s) v b.jwt_authorities })
        (unfold has in h))

pub add_keys-wit :
    {E : Type 0} (i : ℕ) (m : Keys) (b : Bundle)
    → has [] m ≡ false
    → Document.add_keys {E = E} i (used_keys Document.wit_svid_use m) b
      ≡ ok (record b { wit_authorities = put_all b.wit_authorities m })
unfolding Document.add_keys Document.add_key put_all bytes_eq add_wit_authority
add_keys-wit i [] b h = refl
add_keys-wit i (([], v) ∷ m) b h = absurd (unfold has in cc)
add_keys-wit i ((c ∷ s, v) ∷ m) b h =
    add_keys-wit (i + 1) m (record b { wit_authorities = put (c ∷ s) v b.wit_authorities })
      (unfold has in h)
