-- ===== src/Bundle/Set/Canonical.antt =====
-- `Bundles`: sorted by trust domain, and the same list whatever the order in which the map is walked.
use go_spiffe.Prelude.{
  Bool-cases, length, suc, ◌≡◌, refl, sym, ap, ◌∙◌, inl, inr, none, some, List, [], ◌∷◌, arith,
}
use go_spiffe.GoMap.{lookup, IsMap}
use go_spiffe.GoMap.Laws.{lookup-has-false}
use go_spiffe.Spiffeid.Identifier.{TrustDomain, trust_domain_eq}
use go_spiffe.Spiffeid.Identifier.Equal.{trust_domain_eq_iff}
use go_spiffe.Bundle.Set.{Set, trust_domain_key, values, insert, sort_slice, bundles, get, len}
use go_spiffe.Bundle.Set.Laws.{IsValid, IsKeyed}
use go_spiffe.Bundle.Set.Sorted.{
  before, same, after, trichotomy, Above, Above-trans, IsSorted, find, find-Above, find-insert,
  IsSorted-insert,
}

module _ {B : Type 0} (trust_domain_of : B → TrustDomain) where
  -- A sorted list that finds what a map finds.
  record Lists (s : Set B) (bs : List B) : Type 0 where
    sorted : IsSorted trust_domain_of bs
    finds : (td : TrustDomain) → find trust_domain_of td bs ≡ lookup td s
    same_length : length bs ≡ length s

  length-insert : (b : B) (bs : List B) → length (insert trust_domain_of b bs) ≡ suc (length bs)
  unfolding insert
  length-insert b [] = refl
  length-insert b (x ∷ bs) = ground (arith, length-insert b bs)

  Lists-sort_slice :
      (s : Set B)
      → IsMap s
      → IsKeyed trust_domain_of s
      → Lists s (sort_slice trust_domain_of (values s))
  unfolding sort_slice lookup
  Lists-sort_slice [] m k = record { sorted = tt; finds = λ td. refl; same_length = refl }
  Lists-sort_slice ((td', b) ∷ s) m k =
      let ih = Lists-sort_slice s m.1 k.1 in
      let fresh : find trust_domain_of (trust_domain_of b) (sort_slice trust_domain_of (values s))
          ≡ none =
        ih.finds (trust_domain_of b) ∙ rw (← k.0) (lookup-has-false td' s m.0) in
      record {
        sorted =
            IsSorted-insert trust_domain_of b (sort_slice trust_domain_of (values s)) ih.sorted
              fresh;
        finds = λ td.
            find-insert trust_domain_of td b (sort_slice trust_domain_of (values s)) fresh
            ∙ rw (ih.finds td, k.0);
        same_length =
            length-insert b (sort_slice trust_domain_of (values s)) ∙ ap suc ih.same_length;
      }

  find_self : (b : B) (bs : List B) → find trust_domain_of (trust_domain_of b) (b ∷ bs) ≡ some b
  find_self b bs = rw ((trust_domain_eq_iff (trust_domain_of b) (trust_domain_of b)).1 refl)

  find-head :
      (td : TrustDomain) (b : B) (bs : List B)
      → trust_domain_of b ≡ td
      → find trust_domain_of td (b ∷ bs) ≡ some b
  find-head td b bs e = rw ((trust_domain_eq_iff (trust_domain_of b) td).1 e)

  find-tail :
      (x : B) (xs ys : List B) (td : TrustDomain)
      → Above trust_domain_of (trust_domain_of x) xs
      → Above trust_domain_of (trust_domain_of x) ys
      → find trust_domain_of td (x ∷ xs) ≡ find trust_domain_of td (x ∷ ys)
      → find trust_domain_of td xs ≡ find trust_domain_of td ys
  find-tail x xs ys td ax ay h = elim (Bool-cases (trust_domain_eq (trust_domain_of x) td)) [
    | inl e ↦ rw (← (trust_domain_eq_iff (trust_domain_of x) td).0 e) (
        find-Above trust_domain_of (trust_domain_of x) xs ax
        ∙ sym (find-Above trust_domain_of (trust_domain_of x) ys ay))
    | inr e ↦ rw e at h
  ]

  -- Two sorted lists that find the same bundles are one list.
  pub eq_of_find :
      (xs ys : List B)
      → IsSorted trust_domain_of xs
      → IsSorted trust_domain_of ys
      → ((td : TrustDomain) → find trust_domain_of td xs ≡ find trust_domain_of td ys)
      → xs ≡ ys
  eq_of_find [] [] sx sy h = refl
  eq_of_find [] (y ∷ ys) sx sy h = absurd (let k = h (trust_domain_of y) ∙ find_self y ys in cc)
  eq_of_find (x ∷ xs) [] sx sy h =
      absurd (let k = sym (find_self x xs) ∙ h (trust_domain_of x) in cc)
  eq_of_find (x ∷ xs) (y ∷ ys) sx sy h = elim (trichotomy (trust_domain_of x) (trust_domain_of y)) [
    | before p ↦ absurd (
        let k =
          find-Above trust_domain_of (trust_domain_of x) (y ∷ ys)
            (p, Above-trans trust_domain_of (trust_domain_of x) (trust_domain_of y) ys p sy.0) in
        let c = sym (find_self x xs) ∙ h (trust_domain_of x) ∙ k in cc)
    | after p ↦ absurd (
        let k =
          find-Above trust_domain_of (trust_domain_of y) (x ∷ xs)
            (p, Above-trans trust_domain_of (trust_domain_of y) (trust_domain_of x) xs p sx.0) in
        let c = sym (find_self y ys) ∙ sym (h (trust_domain_of y)) ∙ k in cc)
    | same p ↦
        let e : some x ≡ some y =
          sym (find_self x xs)
          ∙ h (trust_domain_of x)
          ∙ find-head (trust_domain_of x) y ys (sym p) in
        let x_is : x ≡ y = cc in
        let h' : (td : TrustDomain)
            → find trust_domain_of td (x ∷ xs) ≡ find trust_domain_of td (x ∷ ys) =
          λ td. h td ∙ rw x_is in
        rw (eq_of_find xs ys sx.1 sy.1 (λ td. find-tail x xs ys td sx.0 (rw p sy.0) (h' td)), x_is)
  ]

  -- `Bundles` lists a set with distinct keys, every bundle under its own trust domain, in strictly
  -- increasing order of trust domain; a trust domain finds in the list what it finds in the set,
  -- and the length is `Len`.
  pub bundles_lem :
      (s : Set B)
      → IsValid trust_domain_of s
      → IsSorted trust_domain_of (bundles trust_domain_of s)
        × ((td : TrustDomain) → find trust_domain_of td (bundles trust_domain_of s) ≡ get td s)
        × (length (bundles trust_domain_of s) ≡ len s)
  unfolding bundles get len
  bundles_lem s v =
      let l = Lists-sort_slice s v.is_map v.keyed in (l.sorted, l.finds, l.same_length)

  -- `Bundles` returns one list for any two sets, each with distinct keys and every bundle under its
  -- own trust domain, in which every trust domain finds the same, whatever the order in which their
  -- maps are walked.
  pub bundles_canonical :
      (s t : Set B)
      → IsValid trust_domain_of s
      → IsValid trust_domain_of t
      → ((td : TrustDomain) → get td s ≡ get td t)
      → bundles trust_domain_of s ≡ bundles trust_domain_of t
  bundles_canonical s t vs vt h =
      let (ss, fs, _) = bundles_lem s vs in
      let (st, ft, _) = bundles_lem t vt in
      eq_of_find (bundles trust_domain_of s) (bundles trust_domain_of t) ss st
        (λ td. fs td ∙ h td ∙ sym (ft td))
