-- ===== src/Workloadapi/BundleSource/Replace.antt =====
-- The two loops with which a bundle source takes over a new set of bundles.
use go_spiffe.Prelude.{
  if◌then◌else◌, Bool-cases, ◌≡◌, refl, ◌∙◌, inl, inr, Bool, true, false, not, ◌||◌, Option, none,
  some, List, [], ◌∷◌, arith,
}
use mathlib.Core.Option
use go_spiffe.GoMap.{GoMap, lookup, has, put, delete, IsMap}
use go_spiffe.GoMap.Laws.{
  lookup-put, has-put, IsMap-put, IsMap-delete, lookup-delete, lookup-has-false,
}
use go_spiffe.Spiffeid.Identifier.{TrustDomain, trust_domain_eq}
use go_spiffe.Spiffeid.Identifier.Equal.{trust_domain_eq_iff}
use go_spiffe.Bundle.Set.{trust_domain_key}
use go_spiffe.Bundle.Set.Sorted.{IsSorted, find, find-Above}
use go_spiffe.Workloadapi.BundleSource.{put_bundles, delete_others, replace}

-- what a map finds after an entry may have been put
abbrev or_old : {V : Type 0} → Option V → Option V → Option V
or_old (some v) old = some v
or_old none old = old

abbrev is_some : {B : Type 0} → Option B → Bool
is_some (some b) = true
is_some none = false

module _ {B V : Type 0} (trust_domain_of : B → TrustDomain) (authorities_of : B → V) where
  put_bundles_lem :
      (bundles : List B) (trust_domains : GoMap TrustDomain (Unit {0})) (m : GoMap TrustDomain V)
      → IsSorted trust_domain_of bundles
      → IsMap m
      → IsMap (put_bundles trust_domain_of authorities_of bundles trust_domains m).1
        × ((td : TrustDomain)
            → (lookup td (put_bundles trust_domain_of authorities_of bundles trust_domains m).1
                ≡ or_old
                    (Option.map authorities_of (find trust_domain_of td bundles))
                    (lookup td m))
              × (has td (put_bundles trust_domain_of authorities_of bundles trust_domains m).0
                  ≡ (is_some (find trust_domain_of td bundles) || has td trust_domains)))
  unfolding put_bundles
  put_bundles_lem [] trust_domains m sorted is_map = (is_map, λ td. (refl, refl))
  put_bundles_lem (b ∷ bundles) trust_domains m (above, sorted) is_map =
      let (later_map, later) =
        put_bundles_lem bundles (put (trust_domain_of b) tt trust_domains)
          (put (trust_domain_of b) (authorities_of b) m) sorted
          (IsMap-put (trust_domain_of b) (authorities_of b) m is_map) in
      (
        later_map,
        λ td.
            let (lookup_is, has_is) = later td in
            elim (Bool-cases (trust_domain_eq (trust_domain_of b) td)) [
              | inl same ↦
                  let no_other : find trust_domain_of td bundles ≡ none =
                    rw (← (trust_domain_eq_iff (trust_domain_of b) td).0 same)
                      (find-Above trust_domain_of (trust_domain_of b) bundles above) in
                  rw
                    (
                      lookup_is,
                      has_is,
                      no_other,
                      lookup-put (trust_domain_of b) td (authorities_of b) m,
                      has-put (trust_domain_of b) td tt trust_domains,
                      same,
                    )
                    (refl, refl)
              | inr differ ↦
                  rw
                    (
                      lookup_is,
                      has_is,
                      lookup-put (trust_domain_of b) td (authorities_of b) m,
                      has-put (trust_domain_of b) td tt trust_domains,
                      differ,
                    )
                    (refl, refl)
            ],
      )

module _ {V : Type 0} (trust_domains : GoMap TrustDomain (Unit {0})) where
  delete_others_lem :
      (entries m : GoMap TrustDomain V)
      → IsMap m
      → IsMap (delete_others trust_domains entries m)
        × ((td : TrustDomain)
            → lookup td (delete_others trust_domains entries m)
              ≡ (if has td trust_domains || not (has td entries) then lookup td m else none))
  unfolding delete_others has
  delete_others_lem [] m is_map = (is_map, λ td. ground arith)
  delete_others_lem ((existing, v) ∷ entries) m is_map =
      let (kept_map, kept) = delete_others_lem entries m is_map in
      let (deleted_map, deleted) =
        delete_others_lem entries (delete existing m) (IsMap-delete existing m is_map) in
      elim (Bool-cases (has existing trust_domains)) [
        | inl e ↦ rw e (
          kept_map,
          λ td. elim (Bool-cases (trust_domain_eq existing td)) [
            | inl same ↦
                let here = rw ((trust_domain_eq_iff existing td).0 same) at e in
                kept td ∙ rw (same, here) refl
            | inr differ ↦ kept td ∙ rw differ refl
          ],
        )
        | inr e ↦ rw e (
          deleted_map,
          λ td. elim (Bool-cases (trust_domain_eq existing td)) [
            | inl same ↦
                let here = rw ((trust_domain_eq_iff existing td).0 same) at e in
                deleted td ∙ rw (lookup-delete existing td m is_map, same, here) (ground arith)
            | inr differ ↦ deleted td ∙ rw (lookup-delete existing td m is_map, differ) refl
          ],
        )
      ]

  -- with the map's own entries
  delete_others_self :
      (m : GoMap TrustDomain V)
      → IsMap m
      → (td : TrustDomain)
      → lookup td (delete_others trust_domains m m)
        ≡ (if has td trust_domains then lookup td m else none)
  delete_others_self m is_map td =
      (delete_others_lem m m is_map).1 td ∙ (elim (Bool-cases (has td m)) [
        | inl e ↦ rw e (ground arith)
        | inr e ↦ rw (e, lookup-has-false td m e) (ground arith)
      ])

module _ {B V : Type 0} (trust_domain_of : B → TrustDomain) (authorities_of : B → V) where
  if_found :
      (td : TrustDomain) (o : Option B) (old : Option V)
      → (if is_some o || has {V = Unit {0}} td []
          then or_old (Option.map authorities_of o) old
          else none)
        ≡ Option.map authorities_of o
  unfolding has
  if_found td none old = refl
  if_found td (some b) old = refl

  pub replace_lem :
      (bundles : List B) (m : GoMap TrustDomain V)
      → IsSorted trust_domain_of bundles
      → IsMap m
      → IsMap (replace trust_domain_of authorities_of bundles m)
        × ((td : TrustDomain)
            → lookup td (replace trust_domain_of authorities_of bundles m)
              ≡ Option.map authorities_of (find trust_domain_of td bundles))
  unfolding replace
  replace_lem bundles m sorted is_map =
      let (added_map, added) =
        put_bundles_lem trust_domain_of authorities_of bundles [] m sorted is_map in
      let (trust_domains, all_authorities) =
        put_bundles trust_domain_of authorities_of bundles [] m in
      (
        (delete_others_lem trust_domains all_authorities all_authorities added_map).0,
        λ td.
            let (lookup_is, has_is) = added td in
            delete_others_self trust_domains all_authorities added_map td
            ∙ rw (lookup_is, has_is) (if_found td (find trust_domain_of td bundles) (lookup td m)),
      )
