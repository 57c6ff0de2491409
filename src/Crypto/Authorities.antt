-- ===== src/Crypto/Authorities.antt =====
-- What `PublicKeyEqual` and `JWTAuthoritiesEqual` decide.
use go_spiffe.Prelude.{
  none, some, Option-cases, Bool-cases, All, length, ◌==◌, ==_iff, [], ◌∷◌, refl, sym, ap, ◌∙◌, inl,
  inr, false, not, bytes_eq_iff, ◌≡◌, ◌↔◌, true, arith, if◌then◌else◌, Bytes,
}
use go_spiffe.GoMap.{IsMap, bytes_key}
use go_spiffe.Crypto.{
  lookup, jwt_authorities_equal, Keys, authorities_loop, RsaKey, EcdsaKey, PublicKey, rsa, ecdsa,
  ed25519, other, rsa_public_key_equal, ecdsa_public_key_equal, public_key_equal,
}
use go_spiffe.GoMap.Same.{
  length-SameMap, IsSubmap-of_lookup, SameMap-of_IsSubmap, SameMap, IsSubmap,
}

-- The key types that `PublicKeyEqual` supports.
abbrev pub IsSupported : PublicKey → Type 0
IsSupported (other a) = ⊥
IsSupported _ = Unit

pub rsa_iff : (a b : RsaKey) → (rsa_public_key_equal a b ≡ true) ↔ (a ≡ b)
unfolding rsa_public_key_equal
rsa_iff a b = (λ h. ground arith, λ e. rw e (ground arith))

pub ecdsa_iff : (a b : EcdsaKey) → (ecdsa_public_key_equal a b ≡ true) ↔ (a ≡ b)
unfolding ecdsa_public_key_equal
ecdsa_iff a b = (λ h. ground arith, λ e. rw e (ground arith))

-- `PublicKeyEqual` holds of two keys exactly when they are equal and of a supported type.
pub public_key_equal_iff :
    (a b : PublicKey) → ((public_key_equal a b).0 ≡ true) ↔ ((a ≡ b) × IsSupported a)
unfolding public_key_equal
public_key_equal_iff (rsa a) (rsa b) =
    (λ h. (ap rsa ((rsa_iff a b).0 h), tt), λ h. (rsa_iff a b).1 cc)
public_key_equal_iff (rsa a) b = (λ h. cc, λ h. absurd cc)
public_key_equal_iff (ecdsa a) (ecdsa b) =
    (λ h. (ap ecdsa ((ecdsa_iff a b).0 h), tt), λ h. (ecdsa_iff a b).1 cc)
public_key_equal_iff (ecdsa a) b = (λ h. cc, λ h. absurd cc)
public_key_equal_iff (ed25519 a) (ed25519 b) =
    (λ h. (ap ed25519 ((bytes_eq_iff a b).0 h), tt), λ h. (bytes_eq_iff a b).1 cc)
public_key_equal_iff (ed25519 a) b = (λ h. cc, λ h. absurd cc)
public_key_equal_iff (other a) b = (λ h. cc, λ h. absurd h.1)

abbrev pub AllSupported : Keys → Type 0
AllSupported a = All (λ e. IsSupported e.1) a

module _ (k : Bytes) (pka : PublicKey) (a b : Keys) where
  loop-absent : lookup k b ≡ none → authorities_loop ((k, pka) ∷ a) b ≡ false
  unfolding authorities_loop
  loop-absent e = ground arith

  loop-found :
      (pkb : PublicKey)
      → lookup k b ≡ some pkb
      → authorities_loop ((k, pka) ∷ a) b
        ≡ (if not (public_key_equal pka pkb).0 then false else authorities_loop a b)
  unfolding authorities_loop
  loop-found pkb e = ground arith

authorities_loop_iff :
    (a b : Keys) → (authorities_loop a b ≡ true) ↔ (IsSubmap a b × AllSupported a)
authorities_loop_iff [] b = (λ h. (tt, tt), λ h. unfold authorities_loop in refl)
authorities_loop_iff ((k, pka) ∷ a) b = (
  λ h. elim (Option-cases (lookup k b)) [
    | inl absent ↦ absurd (let c = sym h ∙ loop-absent k pka a b absent in cc)
    | inr (pkb, found) ↦
        let step = sym (loop-found k pka a b pkb found) ∙ h in
        let same : (public_key_equal pka pkb).0 ≡ true = ground arith in
        let later : authorities_loop a b ≡ true = ground arith in
        let (e, supported) = (public_key_equal_iff pka pkb).0 same in
        let (s, r) = (authorities_loop_iff a b).0 later in
        ((found ∙ ap some (sym e), s), (supported, r))
  ],
  λ h.
      loop-found k pka a b pka h.0.0
      ∙ rw ((public_key_equal_iff pka pka).1 (refl, h.1.0))
          ((authorities_loop_iff a b).1 (h.0.1, h.1.1)),
)

-- `JWTAuthoritiesEqual` holds of two maps with distinct keys if and only if every key ID finds the
-- same in both and every key of the first is an RSA, ECDSA or Ed25519 key.
pub jwt_authorities_equal_iff :
    (a b : Keys)
    → IsMap a
    → IsMap b
    → (jwt_authorities_equal a b ≡ true) ↔ (SameMap a b × AllSupported a)
unfolding jwt_authorities_equal
jwt_authorities_equal_iff a b ma mb = elim (Bool-cases (length a == length b)) [
  | inl e ↦
      let same_length = (==_iff (length a) (length b)).0 e in
      rw e (
        λ h.
            let (s, supported) = (authorities_loop_iff a b).0 h in
            (SameMap-of_IsSubmap a b ma mb s same_length, supported),
        λ h.
            (authorities_loop_iff a b).1
              (IsSubmap-of_lookup a b ma (λ k v f. sym (h.0 k) ∙ f), h.1),
      )
  | inr e ↦ rw e (
    λ h. cc,
    λ h. absurd (let c = (==_iff (length a) (length b)).1 (length-SameMap a b ma mb h.0) in cc),
  )
]
