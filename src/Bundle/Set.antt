-- ===== src/Bundle/Set.antt =====
-- The `Set` of bundle/x509bundle/set.go, and what the sets of the other bundle packages share with it:
-- the files differ in the bundle type and in one method each. A set's lock makes each method one step.
pub mod Laws
pub mod Sorted
pub mod Canonical
use Prim.Native.Nat.{Ordering}
use go_spiffe.Prelude.{
  if◌then◌else◌, length, Result, ok, err, ℕ, Bool, true, false, Option, none, some, List, [], ◌∷◌,
  ltb, leb, ◌==◌, ==_iff, Bool-cases, Option-cases, &&-eq-true, eq_of_iff_true, take, drop, all,
  All, length-append, drop-append, take-append, take-length, all-append, append-left_cancel, ◌>>=◌,
  ◌>>◌, map_err, >>=-eq-ok, >>-eq-ok, Result-cases, Bytes, bytes_eq, bytes_eq_iff, is_empty,
  has_prefix, contains, slice, has_prefix-append, eq-append_of_has_prefix, slice-append, zero, suc,
  ◌+◌, ◌-◌, ◌*◌, ◌/◌, ◌%◌, ◌^◌, ◌≤◌, ◌<◌, ◌≡◌, refl, sym, ap, ◌∙◌, ◌≢◌, ◌↔◌, ◌⊎◌, inl, inr, not,
  ◌&&◌, ◌||◌, ◌++◌, map, append-nil, append_assoc, arith, ok-injective, err-injective, Bytes-cases,
  or_nil, codes,
}
use go_spiffe.GoMap.{Key, GoMap, lookup, has, put, delete}
use go_spiffe.Spiffeid.Identifier.{TrustDomain, trust_domain_eq}
use go_spiffe.Spiffeid.Identifier.Equal.{trust_domain_eq_iff}
use go_spiffe.Spiffeid.TrustDomain.{compare_trust_domain}

instance abbrev pub trust_domain_key : Key TrustDomain
trust_domain_key = record { eq = trust_domain_eq; eq_iff = trust_domain_eq_iff }

-- `map[spiffeid.TrustDomain]*Bundle`; the pointers in it are never nil
abbrev pub Set : Type 0 → Type 0
Set B = GoMap TrustDomain B

-- the values, in the order in which `range` meets them
abbrev pub values : {B : Type 0} → Set B → List B
values [] = []
values ((k, b) ∷ s) = b ∷ values s

module _ {B : Type 0} (trust_domain_of : B → TrustDomain) where
  -- a bundle that may be nil
  unfoldable pub add : Option B → Set B → Set B
  add none s = s
  add (some b) s = put (trust_domain_of b) b s

  unfoldable pub new_set_loop : Set B → List (Option B) → Set B
  new_set_loop bundles_map [] = bundles_map
  new_set_loop bundles_map (none ∷ bundles) = new_set_loop bundles_map bundles
  new_set_loop bundles_map (some b ∷ bundles) =
      new_set_loop (put (trust_domain_of b) b bundles_map) bundles

  unfoldable pub new_set : List (Option B) → Set B
  unfolding new_set_loop
  new_set bundles = new_set_loop [] bundles

  -- the function that `sort.Slice` is given
  unfoldable pub less : B → B → Bool
  less a b = elim (compare_trust_domain (trust_domain_of a) (trust_domain_of b)) [
    | Ordering.lt ↦ true
    | _ ↦ false
  ]

  -- `sort.Slice` sorts by the test; any sorting gives the same list where keys are distinct
  unfoldable pub insert : B → List B → List B
  insert b [] = b ∷ []
  insert b (x ∷ xs) = let rest = insert b xs in if less x b then x ∷ rest else b ∷ x ∷ xs

  unfoldable pub sort_slice : List B → List B
  unfolding insert less
  sort_slice [] = []
  sort_slice (x ∷ xs) = insert x (sort_slice xs)

  unfoldable pub bundles : Set B → List B
  unfolding sort_slice
  bundles s = sort_slice (values s)

module _ {B : Type 0} where
  unfoldable pub remove : TrustDomain → Set B → Set B
  remove trust_domain s = delete trust_domain s

  unfoldable pub has_bundle : TrustDomain → Set B → Bool
  has_bundle trust_domain s = has trust_domain s

  unfoldable pub get : TrustDomain → Set B → Option B
  get trust_domain s = lookup trust_domain s

  unfoldable pub len : Set B → ℕ
  len s = length s

-- the error of the look-up methods
pub data SetError : Type 0 where
  no_bundle : TrustDomain → SetError

-- `if !ok { return nil, ... }`, and what is returned otherwise
abbrev pub found : {B C : Type 0} → TrustDomain → (B → C) → Option B → Result SetError C
found trust_domain result none = err (no_bundle trust_domain)
found trust_domain result (some b) = ok (result b)

-- `GetX509BundleForTrustDomain`, and its namesakes in the other packages
unfoldable pub get_bundle_for_trust_domain : {B : Type 0} → TrustDomain → Set B → Result SetError B
get_bundle_for_trust_domain trust_domain s = found trust_domain (λ b. b) (lookup trust_domain s)
