-- ===== src/Bundle/Set/Laws.antt =====
-- Sets as maps from trust domains to bundles of those trust domains.
use go_spiffe.Prelude.{
  if◌then◌else◌, Bool-cases, All, ◌≡◌, refl, ap, ◌∙◌, inl, inr, Option, none, some, List, [], ◌∷◌,
}
use go_spiffe.GoMap.{lookup, put, delete, IsMap}
use go_spiffe.GoMap.Laws.{lookup-put, lookup-delete, IsMap-put, IsMap-delete}
use go_spiffe.Spiffeid.Identifier.{TrustDomain, trust_domain_eq}
use go_spiffe.Bundle.Set.{
  trust_domain_eq_iff, Set, trust_domain_key, add, new_set, new_set_loop, remove, get,
}

module _ {B : Type 0} (trust_domain_of : B → TrustDomain) where
  -- Every bundle stands under its own trust domain.
  abbrev pub IsKeyed : Set B → Type 0
  IsKeyed s = All (λ e. e.0 ≡ trust_domain_of e.1) s

  pub record IsValid (s : Set B) : Type 0 where
    pub is_map : IsMap s
    pub keyed : IsKeyed s

  IsKeyed-put : (b : B) (s : Set B) → IsKeyed s → IsKeyed (put (trust_domain_of b) b s)
  unfolding put
  IsKeyed-put b [] h = (refl, tt)
  IsKeyed-put b ((k, x) ∷ s) h = elim (Bool-cases (trust_domain_eq k (trust_domain_of b))) [
    | inl e ↦ rw e ((trust_domain_eq_iff k (trust_domain_of b)).0 e, h.1)
    | inr e ↦ rw e (h.0, IsKeyed-put b s h.1)
  ]

  IsKeyed-delete : (td : TrustDomain) (s : Set B) → IsKeyed s → IsKeyed (delete td s)
  unfolding delete
  IsKeyed-delete td [] h = tt
  IsKeyed-delete td ((k, x) ∷ s) h = elim (Bool-cases (trust_domain_eq k td)) [
    | inl e ↦ rw e h.1
    | inr e ↦ rw e (h.0, IsKeyed-delete td s h.1)
  ]

  -- Adding a bundle puts it under its trust domain, in the place of any other; adding nil does
  -- nothing.
  pub add_lem :
      (b : Option B) (s : Set B)
      → IsValid s
      → IsValid (add trust_domain_of b s)
        × ((td : TrustDomain)
            → get td (add trust_domain_of b s) ≡ elim b [
              | none ↦ get td s
              | some x ↦ if trust_domain_eq (trust_domain_of x) td then some x else get td s
            ])
  unfolding add get
  add_lem none s v = (v, λ td. refl)
  add_lem (some b) s v = (
    record { is_map = IsMap-put (trust_domain_of b) b s v.is_map; keyed = IsKeyed-put b s v.keyed },
    λ td. lookup-put (trust_domain_of b) td b s,
  )

  pub remove_lem :
      (td : TrustDomain) (s : Set B)
      → IsValid s
      → IsValid (remove td s)
        × ((j : TrustDomain)
            → get j (remove td s) ≡ (if trust_domain_eq td j then none else get j s))
  unfolding remove get
  remove_lem td s v = (
    record { is_map = IsMap-delete td s v.is_map; keyed = IsKeyed-delete td s v.keyed },
    λ j. lookup-delete td j s v.is_map,
  )

  -- The last bundle of a list for a trust domain.
  abbrev pub last_for : TrustDomain → Option B → List (Option B) → Option B
  last_for td found [] = found
  last_for td found (none ∷ bs) = last_for td found bs
  last_for td found (some b ∷ bs) =
      last_for td (if trust_domain_eq (trust_domain_of b) td then some b else found) bs

  new_set_loop_lem :
      (bs : List (Option B)) (s : Set B)
      → IsValid s
      → IsValid (new_set_loop trust_domain_of s bs)
        × ((td : TrustDomain)
            → get td (new_set_loop trust_domain_of s bs) ≡ last_for td (get td s) bs)
  unfolding new_set_loop
  new_set_loop_lem [] s v = (v, λ td. refl)
  new_set_loop_lem (none ∷ bs) s v = new_set_loop_lem bs s v
  new_set_loop_lem (some b ∷ bs) s v =
      let (v', gets) = add_lem (some b) s v in
      let (v'', later) = new_set_loop_lem bs (put (trust_domain_of b) b s) (unfold add in v') in
      (v'', λ td. later td ∙ ap (λ o. last_for td o bs) (unfold add in gets td))

  -- `NewSet` gives a set with distinct keys, every bundle under its own trust domain, in which a
  -- trust domain finds the last bundle of the list that is not nil and belongs to it, and nothing
  -- if there is none.
  pub new_set_lem :
      (bs : List (Option B))
      → IsValid (new_set trust_domain_of bs)
        × ((td : TrustDomain) → get td (new_set trust_domain_of bs) ≡ last_for td none bs)
  unfolding new_set
  new_set_lem bs =
      let (v, gets) = new_set_loop_lem bs [] (record { is_map = tt; keyed = tt }) in
      (v, λ td. gets td ∙ (unfold get lookup in refl))
