-- ===== src/Spiffeid/Identifier/Equal.antt =====
-- `==` on the two structs decides equality.
use go_spiffe.Prelude.{◌==◌, ==_iff, &&-eq-true, bytes_eq, bytes_eq_iff, ◌≡◌, ap, ◌↔◌, true, arith}
use go_spiffe.Spiffeid.Identifier.{TrustDomain, SpiffeId, id_eq, trust_domain_eq}

pub id_eq_iff : (x y : SpiffeId) → (id_eq x y ≡ true) ↔ (x ≡ y)
unfolding id_eq
id_eq_iff x y = (
  λ h.
      let (texts, indices) = &&-eq-true (bytes_eq x.id y.id) (x.pathidx == y.pathidx) h in
      let t = (bytes_eq_iff x.id y.id).0 texts in
      let i = (==_iff x.pathidx y.pathidx).0 indices in (λ k. record { id = t k; pathidx = i k }),
  λ e. rw e (ground (arith, bytes_eq_iff y.id y.id)),
)

pub trust_domain_eq_iff : (a b : TrustDomain) → (trust_domain_eq a b ≡ true) ↔ (a ≡ b)
unfolding trust_domain_eq
trust_domain_eq_iff a b = (
  λ h. ap (λ n. record { name = n }) ((bytes_eq_iff a.name b.name).0 h),
  λ e. (bytes_eq_iff a.name b.name).1 (ap (λ (t : TrustDomain). t.name) e),
)
