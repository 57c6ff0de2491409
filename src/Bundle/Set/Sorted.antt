-- ===== src/Bundle/Set/Sorted.antt =====
-- Lists of bundles in strictly increasing order of trust domain, and insertion into them.
use Prim.Native.Nat.{Ordering}
use go_spiffe.Prelude.{
  if◌then◌else◌, Bool-cases, All, ◌≡◌, refl, ◌∙◌, inl, inr, true, false, Option, none, some, List,
  [], ◌∷◌, arith,
}
use go_spiffe.Spiffeid.Identifier.{TrustDomain, trust_domain_eq}
use go_spiffe.Spiffeid.Identifier.Equal.{trust_domain_eq_iff}
use go_spiffe.Spiffeid.TrustDomain.{compare_trust_domain}
use go_spiffe.Spiffeid.TrustDomain.Order.{compare_trust_domain-IsTotalOrder}
use go_spiffe.Bundle.Set.{trust_domain_key, insert, less}

-- `a` comes strictly before `b`.
abbrev pub Before : TrustDomain → TrustDomain → Type 0
Before a b = compare_trust_domain a b ≡ Ordering.lt

Before-trans : (a b c : TrustDomain) → Before a b → Before b c → Before a c
Before-trans = compare_trust_domain-IsTotalOrder.trans

-- What a comparison says, as a decision among three cases.
pub data Trichotomy (a b : TrustDomain) : Type 0 where
  before : Before a b → Trichotomy a b
  same : a ≡ b → Trichotomy a b
  after : Before b a → Trichotomy a b

pub trichotomy : (a b : TrustDomain) → Trichotomy a b
trichotomy a b = go (compare_trust_domain a b) refl
  where
    go : (o : Ordering) → compare_trust_domain a b ≡ o → Trichotomy a b
    go Ordering.lt e = before e
    go Ordering.eq e = same ((compare_trust_domain-IsTotalOrder.eq_iff a b).0 e)
    go Ordering.gt e = after (compare_trust_domain-IsTotalOrder.swap a b ∙ rw e)

not-Before-self : (a : TrustDomain) → ¬ Before a a
not-Before-self a h = let k = (compare_trust_domain-IsTotalOrder.eq_iff a a).1 refl in cc

module _ {B : Type 0} (trust_domain_of : B → TrustDomain) where
  abbrev pub Above : TrustDomain → List B → Type 0
  Above td bs = All (λ b. Before td (trust_domain_of b)) bs

  -- Strictly increasing trust domains.
  abbrev pub IsSorted : List B → Type 0
  IsSorted [] = Unit
  IsSorted (b ∷ bs) = Above (trust_domain_of b) bs × IsSorted bs

  -- The bundle of a trust domain in a list.
  abbrev pub find : TrustDomain → List B → Option B
  find td [] = none
  find td (b ∷ bs) = if trust_domain_eq (trust_domain_of b) td then some b else find td bs

  eq_false : (a b : TrustDomain) → (a ≡ b → ⊥) → trust_domain_eq a b ≡ false
  eq_false a b h = elim (Bool-cases (trust_domain_eq a b)) [
    | inl e ↦ absurd (h ((trust_domain_eq_iff a b).0 e))
    | inr e ↦ e
  ]

  pub Above-trans : (a b : TrustDomain) (bs : List B) → Before a b → Above b bs → Above a bs
  Above-trans a b [] h s = tt
  Above-trans a b (x ∷ bs) h s =
      (Before-trans a b (trust_domain_of x) h s.0, Above-trans a b bs h s.1)

  pub find-Above : (td : TrustDomain) (bs : List B) → Above td bs → find td bs ≡ none
  find-Above td [] h = refl
  find-Above td (x ∷ bs) h =
      rw (eq_false (trust_domain_of x) td (λ e. not-Before-self td (rw e at h.0)))
        (find-Above td bs h.1)

  less-Before :
      (a b : B) → Before (trust_domain_of a) (trust_domain_of b) → less trust_domain_of a b ≡ true
  unfolding less
  less-Before a b h = rw (h, less)

  less-after :
      (a b : B) → Before (trust_domain_of b) (trust_domain_of a) → less trust_domain_of a b ≡ false
  unfolding less
  less-after a b h =
      let e : compare_trust_domain (trust_domain_of a) (trust_domain_of b) ≡ Ordering.gt =
        compare_trust_domain-IsTotalOrder.swap (trust_domain_of b) (trust_domain_of a) ∙ rw h in
      rw (e, less)

  Above-insert :
      (td : TrustDomain) (b : B) (bs : List B)
      → Before td (trust_domain_of b)
      → Above td bs
      → Above td (insert trust_domain_of b bs)
  unfolding insert
  Above-insert td b [] h s = (h, tt)
  Above-insert td b (x ∷ bs) h s = elim (Bool-cases (less trust_domain_of x b)) [
    | inl e ↦ rw e (s.0, Above-insert td b bs h s.1)
    | inr e ↦ rw e (h, s)
  ]

  find-cons_none :
      (td : TrustDomain) (x : B) (bs : List B)
      → find td (x ∷ bs) ≡ none
      → (trust_domain_eq (trust_domain_of x) td ≡ false) × (find td bs ≡ none)
  find-cons_none td x bs f = elim (Bool-cases (trust_domain_eq (trust_domain_of x) td)) [
    | inl e ↦ absurd (let k = rw e at f in cc)
    | inr e ↦ (e, rw e at f)
  ]

  pub IsSorted-insert :
      (b : B) (bs : List B)
      → IsSorted bs
      → find (trust_domain_of b) bs ≡ none
      → IsSorted (insert trust_domain_of b bs)
  unfolding insert
  IsSorted-insert b [] s f = (tt, tt)
  IsSorted-insert b (x ∷ bs) s f =
      let (ne, later) = find-cons_none (trust_domain_of b) x bs f in
      elim (trichotomy (trust_domain_of x) (trust_domain_of b)) [
        | before h ↦
            rw (less-Before x b h)
              (Above-insert (trust_domain_of x) b bs h s.0, IsSorted-insert b bs s.1 later)
        | same e ↦
            absurd (let k = (trust_domain_eq_iff (trust_domain_of x) (trust_domain_of b)).1 e in cc)
        | after h ↦
            rw (less-after x b h)
              ((h, Above-trans (trust_domain_of b) (trust_domain_of x) bs h s.0), s)
      ]

  swap-tests :
      (td : TrustDomain) (x b : B) (bs : List B)
      → trust_domain_eq (trust_domain_of x) (trust_domain_of b) ≡ false
      → (if trust_domain_eq (trust_domain_of x) td
          then some x
          else (if trust_domain_eq (trust_domain_of b) td then some b else find td bs))
        ≡ (if trust_domain_eq (trust_domain_of b) td
            then some b
            else (if trust_domain_eq (trust_domain_of x) td then some x else find td bs))
  swap-tests td x b bs ne = ground (
    arith,
    trust_domain_eq_iff (trust_domain_of x) td,
    trust_domain_eq_iff (trust_domain_of b) td,
    trust_domain_eq_iff (trust_domain_of x) (trust_domain_of b),
  )

  pub find-insert :
      (td : TrustDomain) (b : B) (bs : List B)
      → find (trust_domain_of b) bs ≡ none
      → find td (insert trust_domain_of b bs)
        ≡ (if trust_domain_eq (trust_domain_of b) td then some b else find td bs)
  unfolding insert
  find-insert td b [] f = refl
  find-insert td b (x ∷ bs) f =
      let (ne, later) = find-cons_none (trust_domain_of b) x bs f in
      let ih = find-insert td b bs later in
      elim (Bool-cases (less trust_domain_of x b)) [
        | inl e ↦ rw (e, ih) (swap-tests td x b bs ne)
        | inr e ↦ rw e
      ]
