-- ===== src/Workloadapi/BundleSource/Laws.antt =====
-- A bundle source answers from the sets of its last updates.
use go_spiffe.Prelude.{
  Bool-cases, ok, ◌>>=◌, ◌≡◌, refl, sym, ap, ◌∙◌, inl, inr, false, Option, none, some, [], ◌∷◌,
  required, Result, err, List,
}
use mathlib.Core.Option
use go_spiffe.GoMap.{lookup, IsMap}
use go_spiffe.GoMap.Same.{put_all-empty}
use go_spiffe.GoMap.{put_all, bytes_key}
use go_spiffe.X509.Authorities.{copy_x509_authorities-eq}
use go_spiffe.Crypto.{copy_jwt_authorities, Keys}
use go_spiffe.Spiffeid.Identifier.{trust_domain_eq, TrustDomain}
use go_spiffe.Bundle.X509
use go_spiffe.Bundle.Jwt
use go_spiffe.Bundle.Spiffe
use go_spiffe.Bundle.Set.{trust_domain_key, get}
use go_spiffe.Bundle.Set
use go_spiffe.Bundle.Set.Laws.{IsValid, IsKeyed}
use go_spiffe.Bundle.Set.Canonical.{bundles_lem}
use go_spiffe.Bundle.Sets.X509Set
use go_spiffe.Bundle.Sets.JwtSet
use go_spiffe.Workloadapi.Response.{X509Context}
use go_spiffe.Workloadapi.BundleSource.Replace.{replace_lem}
use go_spiffe.Workloadapi.BundleSource.{
  BundleSource, SourceError, no_spiffe_bundle, set_x509_authorities_of, set_jwt_authorities_of,
  no_x509_bundle, no_jwt_bundle, set_x509_context, set_jwt_bundles, check_closed, bundle_of,
  get_bundle_for_trust_domain, get_x509_bundle_for_trust_domain, get_jwt_bundle_for_trust_domain,
}
use go_spiffe.X509.{Certificate, copy_x509_authorities}
use go_spiffe.Spiffeid.Identifier.Equal.{trust_domain_eq_iff}

some-injective : {A : Type 0} {a b : A} → some a ≡ some b → a ≡ b
some-injective h = cc

keyed_lookup :
    {B : Type 0} (trust_domain_of : B → TrustDomain) (s : Set.Set B)
    → IsKeyed trust_domain_of s
    → (td : TrustDomain) (b : B) → lookup td s ≡ some b
    → trust_domain_of b ≡ td
unfolding lookup
keyed_lookup trust_domain_of [] keyed td b h = absurd cc
keyed_lookup trust_domain_of ((k, x) ∷ s) (here, keyed) td b h =
    elim (Bool-cases (trust_domain_eq k td)) [
      | inl same ↦
          let b_is = some-injective (rw same at h) in
          rw (← b_is) (sym here ∙ (trust_domain_eq_iff k td).0 same)
      | inr differ ↦ keyed_lookup trust_domain_of s keyed td b (rw differ at h)
    ]

-- the answers of an open source, on what its maps have
abbrev x509_answer : TrustDomain → Option (List Certificate) → Result SourceError X509.Bundle
x509_answer td x509 = do
  authorities ← required (no_x509_bundle td) x509
  ok (X509.from_x509_authorities td authorities)

abbrev jwt_answer : TrustDomain → Option Keys → Result SourceError Jwt.Bundle
jwt_answer td jwt = do
  authorities ← required (no_jwt_bundle td) jwt
  ok (Jwt.from_jwt_authorities td authorities)

x509_bundle_again :
    (td : TrustDomain) (o : Option X509.Bundle)
    → ((b : X509.Bundle) → o ≡ some b → b.trust_domain ≡ td)
    → x509_answer td (Option.map X509.x509_authorities o) ≡ required (no_x509_bundle td) o
unfolding X509.x509_authorities X509.from_x509_authorities
x509_bundle_again td none keyed = refl
x509_bundle_again td (some b) keyed = ap ok (λ i. record {
  trust_domain = (sym (keyed b refl)) i;
  x509_authorities =
      (copy_x509_authorities-eq (copy_x509_authorities b.x509_authorities)
          ∙ copy_x509_authorities-eq b.x509_authorities)
        i;
})

jwt_bundle_again :
    (td : TrustDomain) (o : Option Jwt.Bundle)
    → ((b : Jwt.Bundle) → o ≡ some b → (b.trust_domain ≡ td) × IsMap b.jwt_authorities)
    → jwt_answer td (Option.map Jwt.jwt_authorities o) ≡ required (no_jwt_bundle td) o
unfolding Jwt.jwt_authorities Jwt.from_jwt_authorities copy_jwt_authorities
jwt_bundle_again td none keyed = refl
jwt_bundle_again td (some b) keyed =
    let (td_is, is_map) = keyed b refl in
    let copied = put_all-empty b.jwt_authorities is_map in
    ap ok (λ i. record {
      trust_domain = (sym td_is) i;
      jwt_authorities = (ap (put_all []) copied ∙ copied) i;
    })

-- What a source answers with a SPIFFE bundle, from what it answers with an X.509 and with a JWT bundle:
-- the authorities of the one that it has, or of both.
abbrev pub joined :
    TrustDomain
    → Result SourceError X509.Bundle
    → Result SourceError Jwt.Bundle
    → Result SourceError Spiffe.Bundle
joined td (err e) (err f) = err (no_spiffe_bundle td)
joined td x509 jwt = ok (record {
  trust_domain = td;
  refresh_hint = none;
  sequence_number = none;
  jwt_authorities = elim jwt [ ok b ↦ b.jwt_authorities | err e ↦ [] ];
  x509_authorities = elim x509 [ ok b ↦ b.x509_authorities | err e ↦ [] ];
  wit_authorities = [];
})

bundle_of-eq-joined :
    (td : TrustDomain) (x509 : Option (List Certificate)) (jwt : Option Keys)
    → bundle_of td x509 jwt ≡ joined td (x509_answer td x509) (jwt_answer td jwt)
unfolding bundle_of set_x509_authorities_of set_jwt_authorities_of Spiffe.new
    Spiffe.set_x509_authorities Spiffe.set_jwt_authorities X509.from_x509_authorities
    Jwt.from_jwt_authorities
bundle_of-eq-joined td none none = refl
bundle_of-eq-joined td none (some keys) = refl
bundle_of-eq-joined td (some certs) none = refl
bundle_of-eq-joined td (some certs) (some keys) = refl

-- After an X.509 context whose set has distinct keys and every bundle under its own trust domain,
-- an open bundle source with distinct keys answers for each trust domain with the X.509 bundle of
-- that set, or the error that there is none, answers for JWT bundles as before, with a SPIFFE
-- bundle that has the authorities of those two answers and no others, no refresh hint and no
-- sequence number, or the error that there is none where both are errors, and its keys are still
-- distinct.
pub set_x509_context_lem :
    (x509_context : X509Context) (s : BundleSource)
    → IsMap s.x509_authorities
    → s.closed ≡ false
    → IsValid X509Set.trust_domain_of x509_context.bundles
    → IsMap (set_x509_context x509_context s).x509_authorities
      × ((td : TrustDomain)
          → (get_x509_bundle_for_trust_domain td (set_x509_context x509_context s)
              ≡ required (no_x509_bundle td) (get td x509_context.bundles))
            × (get_jwt_bundle_for_trust_domain td (set_x509_context x509_context s)
                ≡ get_jwt_bundle_for_trust_domain td s)
            × (get_bundle_for_trust_domain td (set_x509_context x509_context s)
                ≡ joined td
                    (required (no_x509_bundle td) (get td x509_context.bundles))
                    (get_jwt_bundle_for_trust_domain td s)))
unfolding set_x509_context get_x509_bundle_for_trust_domain get_jwt_bundle_for_trust_domain
    get_bundle_for_trust_domain check_closed X509Set.bundles get
set_x509_context_lem x509_context s is_map not_closed v =
    let (sorted, finds, _) = bundles_lem X509Set.trust_domain_of x509_context.bundles v in
    let (new_map, lookups) =
      replace_lem X509Set.trust_domain_of X509.x509_authorities
        (X509Set.bundles x509_context.bundles) s.x509_authorities sorted is_map in
    (
      new_map,
      λ td.
          let again =
            x509_bundle_again td (get td x509_context.bundles)
              (λ b h. keyed_lookup X509Set.trust_domain_of x509_context.bundles v.keyed td b h) in
          rw (not_closed, lookups td, finds td)
            (
              again,
              refl,
              bundle_of-eq-joined td _ _
                  ∙ ap (λ r. joined td r (jwt_answer td (lookup td s.jwt_authorities))) again,
            ),
    )

-- After a set of JWT bundles with distinct keys, every bundle under its own trust domain and with
-- distinct key IDs, an open bundle source with distinct keys answers for each trust domain with the
-- JWT bundle of that set, or the error that there is none, answers for X.509 bundles as before,
-- with a SPIFFE bundle that has the authorities of those two answers and no others, no refresh hint
-- and no sequence number, or the error that there is none where both are errors, and its keys are
-- still distinct.
pub set_jwt_bundles_lem :
    (bundles : Set.Set Jwt.Bundle) (s : BundleSource)
    → IsMap s.jwt_authorities
    → s.closed ≡ false
    → IsValid JwtSet.trust_domain_of bundles
    → ((td : TrustDomain) (b : Jwt.Bundle) → get td bundles ≡ some b → IsMap b.jwt_authorities)
    → IsMap (set_jwt_bundles bundles s).jwt_authorities
      × ((td : TrustDomain)
          → (get_jwt_bundle_for_trust_domain td (set_jwt_bundles bundles s)
              ≡ required (no_jwt_bundle td) (get td bundles))
            × (get_x509_bundle_for_trust_domain td (set_jwt_bundles bundles s)
                ≡ get_x509_bundle_for_trust_domain td s)
            × (get_bundle_for_trust_domain td (set_jwt_bundles bundles s)
                ≡ joined td
                    (get_x509_bundle_for_trust_domain td s)
                    (required (no_jwt_bundle td) (get td bundles))))
unfolding set_jwt_bundles get_x509_bundle_for_trust_domain get_jwt_bundle_for_trust_domain
    get_bundle_for_trust_domain check_closed JwtSet.bundles get
set_jwt_bundles_lem bundles s is_map not_closed v keys =
    let (sorted, finds, _) = bundles_lem JwtSet.trust_domain_of bundles v in
    let (new_map, lookups) =
      replace_lem JwtSet.trust_domain_of Jwt.jwt_authorities (JwtSet.bundles bundles)
        s.jwt_authorities sorted is_map in
    (
      new_map,
      λ td.
          let again =
            jwt_bundle_again td (get td bundles)
              (λ b h. (keyed_lookup JwtSet.trust_domain_of bundles v.keyed td b h, keys td b h)) in
          rw (not_closed, lookups td, finds td)
            (
              again,
              refl,
              bundle_of-eq-joined td _ _
                  ∙ ap (joined td (x509_answer td (lookup td s.x509_authorities))) again,
            ),
    )
