-- ===== src/Bundle/X509/Laws.antt =====
-- What the methods of an X.509 bundle do to its authorities.
use go_spiffe.Prelude.{
  &&-eq-true, Result, ok, Result-cases, Bytes, ◌-◌, ◌≤◌, ◌≡◌, refl, ap, ◌∙◌, ◌↔◌, ◌⊎◌, inl, inr,
  true, not, ◌&&◌, ◌||◌, some, List, [], ◌∷◌, arith, ok-injective,
}
use go_spiffe.Spiffeid.Identifier.{TrustDomain, trust_domain_eq}
use go_spiffe.Spiffeid.Identifier.Equal.{trust_domain_eq_iff}
use go_spiffe.X509.{Certificate, equal, has_authority, certs_equal, raw_certs_from_certs}
use go_spiffe.X509.Authorities.{
  count, IsDistinct, has_authority-count, count-remove_authority, IsDistinct-add_authority,
  IsDistinct-remove_authority, equal_refl, has-add_authority, has-remove_authority, certs_equal_iff,
  copy_x509_authorities-eq,
}
use go_spiffe.Bundle.X509.{
  Bundle, new, add_x509_authority, remove_x509_authority, has_x509_authority, equal_bundle, add_all,
  clone, parse_raw, from_x509_authorities,
}

-- The authorities of the bundle are distinct.
abbrev pub IsValid : Bundle → Type 0
IsValid b = IsDistinct b.x509_authorities

-- Adding to an X.509 bundle with distinct authorities leaves distinct authorities, the trust
-- domain, and exactly the old authorities and the new one.
pub add_x509_authority_lem :
    (cert : Certificate) (b : Bundle)
    → IsValid b
    → let b' = add_x509_authority cert b in
      IsValid b'
      × (b'.trust_domain ≡ b.trust_domain)
      × ((j : Certificate) → has_x509_authority j b' ≡ (equal cert j || has_x509_authority j b))
unfolding add_x509_authority has_x509_authority
add_x509_authority_lem cert b h = (
  IsDistinct-add_authority cert b.x509_authorities h,
  refl,
  λ j. has-add_authority cert j b.x509_authorities,
)

-- Removing from an X.509 bundle with distinct authorities leaves distinct authorities, the trust
-- domain, and exactly the authorities other than the removed one.
pub remove_x509_authority_lem :
    (cert : Certificate) (b : Bundle)
    → IsValid b
    → let b' = remove_x509_authority cert b in
      IsValid b'
      × (b'.trust_domain ≡ b.trust_domain)
      × ((j : Certificate)
          → has_x509_authority j b' ≡ (not (equal cert j) && has_x509_authority j b))
unfolding remove_x509_authority has_x509_authority
remove_x509_authority_lem cert b h = (
  IsDistinct-remove_authority cert b.x509_authorities h,
  refl,
  λ j. has-remove_authority cert j b.x509_authorities h,
)

-- Removing an authority that stands in an X.509 bundle at least twice leaves it in the bundle.
pub has-remove_twice :
    (cert : Certificate) (b : Bundle)
    → 2 ≤ count cert b.x509_authorities
    → has_x509_authority cert (remove_x509_authority cert b) ≡ true
unfolding remove_x509_authority has_x509_authority
has-remove_twice cert b h =
    let e = count-remove_authority cert cert b.x509_authorities in
    let e' : count cert (remove_x509_authority cert b).x509_authorities
        ≡ count cert b.x509_authorities - 1 =
      rw (equal_refl cert) at e in
    has_authority-count cert (remove_x509_authority cert b).x509_authorities ∙ ground arith

add_all_lem :
    (certs : List Certificate) (b : Bundle)
    → IsValid b
    → IsValid (add_all certs b)
      × ((add_all certs b).trust_domain ≡ b.trust_domain)
      × ((j : Certificate)
          → has_x509_authority j (add_all certs b)
            ≡ (has_authority j certs || has_x509_authority j b))
unfolding add_all has_authority
add_all_lem [] b h = (h, refl, λ j. refl)
add_all_lem (cert ∷ certs) b h =
    let (h', td, has') = add_x509_authority_lem cert b h in
    let (v, td', all_has) = add_all_lem certs (add_x509_authority cert b) h' in
    (v, td' ∙ td, λ j. all_has j ∙ ground (arith, has' j))

-- If `ParseRaw` of X.509 authorities succeeds, the bundle has distinct authorities and the given trust
-- domain; on empty input it is the new bundle, and otherwise it has exactly the certificates that
-- the certificate parser returned.
parse_raw_lem :
    {E : Type 0} (parse_certificates : Bytes → Result E (List Certificate)) (td : TrustDomain)
    (bytes : Bytes) {b : Bundle}
    → parse_raw parse_certificates td bytes ≡ ok b
    → IsValid b
      × (b.trust_domain ≡ td)
      × (((bytes ≡ []) × (b ≡ new td))
          ⊎ ((certs : List Certificate) × (parse_certificates bytes ≡ ok certs)
              × ((j : Certificate) → has_x509_authority j b ≡ has_authority j certs)))
unfolding parse_raw
parse_raw_lem parse_certificates td [] h =
    let e = ok-injective h in
    rw (← e) ((unfold new in λ j. omega arith), (unfold new in refl), inl (refl, refl))
parse_raw_lem parse_certificates td (c ∷ bytes) h =
    elim (Result-cases (parse_certificates (c ∷ bytes))) [
      | inl (certs, read) ↦
          let e = ok-injective (rw read at h) in
          let (v, same, all_has) = add_all_lem certs (new td) (unfold new in λ j. omega arith) in
          rw (← e) (
            v,
            same ∙ (unfold new in refl),
            inr (
              certs,
              read,
              λ j. all_has j ∙ (unfold new has_x509_authority has_authority in ground arith),
            ),
          )
      | inr (f, failed) ↦ absurd (let k = rw failed at h in cc)
    ]

-- `Equal` holds of two X.509 bundles if and only if they have one trust domain and the same raw
-- certificates in the same order.
equal_bundle_x509_iff :
    (a b : Bundle)
    → (equal_bundle (some a) (some b) ≡ true) ↔ (
        (a.trust_domain ≡ b.trust_domain)
        × (raw_certs_from_certs a.x509_authorities ≡ raw_certs_from_certs b.x509_authorities))
unfolding equal_bundle
equal_bundle_x509_iff a b = (
  λ h.
      let (t, c) =
        &&-eq-true (trust_domain_eq a.trust_domain b.trust_domain)
          (certs_equal a.x509_authorities b.x509_authorities) h in
      (
        (trust_domain_eq_iff a.trust_domain b.trust_domain).0 t,
        (certs_equal_iff a.x509_authorities b.x509_authorities).0 c,
      ),
  λ h. rw (
    (trust_domain_eq_iff a.trust_domain b.trust_domain).1 h.0,
    (certs_equal_iff a.x509_authorities b.x509_authorities).1 h.1,
  ),
)

-- A clone is equal to its original, by `Equal` and as a value.
pub clone-eq_x509 : (b : Bundle) → (clone b ≡ b) × (equal_bundle (some (clone b)) (some b) ≡ true)
unfolding clone from_x509_authorities
clone-eq_x509 b =
    let e : clone b ≡ b =
      ap (λ certs. record { trust_domain = b.trust_domain; x509_authorities = certs })
        (copy_x509_authorities-eq b.x509_authorities) in
    (e, rw e ((equal_bundle_x509_iff b b).1 (refl, refl)))
