-- ===== src/Spiffeid/TrustDomain/Order.antt =====
-- `TrustDomain.Compare` is a total order, which sorted sets rest on.
use Prim.Native.Nat.{Ordering}
use go_spiffe.Prelude.{Bytes, ◌≡◌, refl, ap, ◌↔◌, [], ◌∷◌, arith}
use go_spiffe.Spiffeid.TrustDomain.{compare_bytes, compare_trust_domain}

abbrev pub reversed : Ordering → Ordering
reversed Ordering.lt = Ordering.gt
reversed Ordering.eq = Ordering.eq
reversed Ordering.gt = Ordering.lt

compare_bytes_refl : (a : Bytes) → compare_bytes a a ≡ Ordering.eq
unfolding compare_bytes
compare_bytes_refl [] = refl
compare_bytes_refl (x ∷ a) = ground (arith, compare_bytes_refl a)

eq_of_compare_bytes : (a b : Bytes) → compare_bytes a b ≡ Ordering.eq → a ≡ b
unfolding compare_bytes
eq_of_compare_bytes [] [] h = refl
eq_of_compare_bytes [] (y ∷ b) h = cc
eq_of_compare_bytes (x ∷ a) [] h = cc
eq_of_compare_bytes (x ∷ a) (y ∷ b) h = ground (arith, eq_of_compare_bytes a b)

compare_bytes-swap : (a b : Bytes) → compare_bytes b a ≡ reversed (compare_bytes a b)
unfolding compare_bytes
compare_bytes-swap [] [] = refl
compare_bytes-swap [] (y ∷ b) = refl
compare_bytes-swap (x ∷ a) [] = refl
compare_bytes-swap (x ∷ a) (y ∷ b) = ground (arith, compare_bytes-swap a b)

compare_bytes_trans :
    (a b c : Bytes)
    → compare_bytes a b ≡ Ordering.lt
    → compare_bytes b c ≡ Ordering.lt
    → compare_bytes a c ≡ Ordering.lt
unfolding compare_bytes
compare_bytes_trans [] [] c h k = cc
compare_bytes_trans [] (y ∷ b) [] h k = cc
compare_bytes_trans [] (y ∷ b) (z ∷ c) h k = refl
compare_bytes_trans (x ∷ a) [] c h k = cc
compare_bytes_trans (x ∷ a) (y ∷ b) [] h k = cc
compare_bytes_trans (x ∷ a) (y ∷ b) (z ∷ c) h k = ground (arith, compare_bytes_trans a b c)

-- The laws of a strict total order, for a three-way comparison.
pub record IsTotalOrder {ℓ} {A : Type ℓ} (cmp : A → A → Ordering) : Type ℓ where
  pub eq_iff : (a b : A) → (cmp a b ≡ Ordering.eq) ↔ (a ≡ b)
  pub swap : (a b : A) → cmp b a ≡ reversed (cmp a b)
  pub trans : (a b c : A) → cmp a b ≡ Ordering.lt → cmp b c ≡ Ordering.lt → cmp a c ≡ Ordering.lt

-- `Compare` on trust domains returns 0 exactly on equal ones, is reversed when its arguments change
-- places, and is transitive.
pub compare_trust_domain-IsTotalOrder : IsTotalOrder compare_trust_domain
unfolding compare_trust_domain
compare_trust_domain-IsTotalOrder = record {
  eq_iff = λ a b. (
    λ h. ap (λ n. record { name = n }) (eq_of_compare_bytes a.name b.name h),
    λ e. rw e (compare_bytes_refl b.name),
  );
  swap = λ a b. compare_bytes-swap a.name b.name;
  trans = λ a b c. compare_bytes_trans a.name b.name c.name;
}
