-- ===== src/Bundle/Sets/Sources.antt =====
-- What the look-up methods of sets and bundles promise to those that use them as sources.
use go_spiffe.Prelude.{
  Bool-cases, Option-cases, ok, err, ◌≡◌, sym, ap, ◌∙◌, ◌⊎◌, inl, inr, false, none, some, [], ◌∷◌,
}
use go_spiffe.GoMap.{lookup}
use go_spiffe.GoMap.Laws.{has-lookup-none}
use go_spiffe.Spiffeid.Identifier.{TrustDomain, trust_domain_eq}
use go_spiffe.Spiffeid.Identifier.Equal.{trust_domain_eq_iff}
use go_spiffe.Bundle.Set
use go_spiffe.Bundle.Set.Laws.{IsValid, IsKeyed}
use go_spiffe.Bundle.X509
use go_spiffe.Bundle.Jwt
use go_spiffe.Bundle.Wit
use go_spiffe.Bundle.Spiffe
use go_spiffe.Bundle.Sets.SpiffeSet

module _ {B : Type 0} (trust_domain_of : B → TrustDomain) where
  keyed_lookup :
      (td : TrustDomain) (s : Set.Set B) {b : B}
      → IsKeyed trust_domain_of s
      → Set.get td s ≡ some b
      → trust_domain_of b ≡ td
  unfolding Set.get lookup
  keyed_lookup td [] k h = absurd (cc)
  keyed_lookup td ((j, x) ∷ s) {b = b} k h = elim (Bool-cases (trust_domain_eq j td)) [
    | inl e ↦
        let same = (trust_domain_eq_iff j td).0 e in
        let found : some x ≡ some b = rw e at h in
        let x_is : x ≡ b = cc in rw (← x_is) (sym k.0 ∙ same)
    | inr e ↦ keyed_lookup td s k.1 (rw e at h)
  ]

  -- What a look-up finds, if the set has anything for the trust domain.
  get-cases :
      (td : TrustDomain) (s : Set.Set B)
      → IsValid trust_domain_of s
      → ((Set.has_bundle td s ≡ false) × (Set.get td s ≡ none))
        ⊎ ((b : B) × (Set.get td s ≡ some b) × (trust_domain_of b ≡ td))
  unfolding Set.get Set.has_bundle
  get-cases td s v = elim (Option-cases (Set.get td s)) [
    | inl e ↦ inl (has-lookup-none ⦃key = Set.trust_domain_key⦄ td s e, e)
    | inr (b, e) ↦ inr (b, e, keyed_lookup td s v.keyed e)
  ]

-- In a set of SPIFFE bundles with distinct keys, every bundle under its own trust domain, the four
-- look-ups for a trust domain fail, naming it, if the set has no bundle for it; otherwise they
-- return the bundle that `Get` finds and its X.509, JWT and WIT bundles, all of that trust domain.
pub spiffe_set_lookups :
    (td : TrustDomain) (s : Set.Set Spiffe.Bundle)
    → IsValid SpiffeSet.trust_domain_of s
    → let missing = Set.no_bundle td in
      ((SpiffeSet.has_bundle td s ≡ false)
        × (SpiffeSet.get_bundle_for_trust_domain td s ≡ err missing)
        × (SpiffeSet.get_x509_bundle_for_trust_domain td s ≡ err missing)
        × (SpiffeSet.get_jwt_bundle_for_trust_domain td s ≡ err missing)
        × (SpiffeSet.get_wit_bundle_for_trust_domain td s ≡ err missing))
      ⊎ ((b : Spiffe.Bundle) × (SpiffeSet.get td s ≡ some b)
          × (SpiffeSet.get_bundle_for_trust_domain td s ≡ ok b)
          × (SpiffeSet.get_x509_bundle_for_trust_domain td s ≡ ok (Spiffe.x509_bundle b))
          × (SpiffeSet.get_jwt_bundle_for_trust_domain td s ≡ ok (Spiffe.jwt_bundle b))
          × (SpiffeSet.get_wit_bundle_for_trust_domain td s ≡ ok (Spiffe.wit_bundle b))
          × (b.trust_domain ≡ td)
          × ((Spiffe.x509_bundle b).trust_domain ≡ td)
          × ((Spiffe.jwt_bundle b).trust_domain ≡ td)
          × ((Spiffe.wit_bundle b).trust_domain ≡ td))
unfolding SpiffeSet.has_bundle SpiffeSet.get SpiffeSet.get_bundle_for_trust_domain
    SpiffeSet.get_x509_bundle_for_trust_domain SpiffeSet.get_jwt_bundle_for_trust_domain
    SpiffeSet.get_wit_bundle_for_trust_domain Set.get_bundle_for_trust_domain Set.get
    Spiffe.x509_bundle Spiffe.jwt_bundle Spiffe.wit_bundle X509.from_x509_authorities
    Jwt.from_jwt_authorities Wit.from_wit_authorities
spiffe_set_lookups td s v = elim (get-cases SpiffeSet.trust_domain_of td s v) [
  | inl (h, e) ↦ inl (
    h,
    ap (Set.found td (λ b. b)) e,
    ap (Set.found td Spiffe.x509_bundle) e,
    ap (Set.found td Spiffe.jwt_bundle) e,
    ap (Set.found td Spiffe.wit_bundle) e,
  )
  | inr (b, e, k) ↦ inr (
    b,
    e,
    ap (Set.found td (λ b. b)) e,
    ap (Set.found td Spiffe.x509_bundle) e,
    ap (Set.found td Spiffe.jwt_bundle) e,
    ap (Set.found td Spiffe.wit_bundle) e,
    k,
    k,
    k,
    k,
  )
]
