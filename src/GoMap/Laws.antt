-- ===== src/GoMap/Laws.antt =====
-- The laws of maps.
use go_spiffe.Prelude.{
  if◌then◌else◌, Bool-cases, eq_of_iff_true, length, ◌+◌, ◌≡◌, refl, sym, ap, ◌∙◌, inl, inr, true,
  false, ◌||◌, none, some, [], ◌∷◌, ◌++◌, arith,
}
use go_spiffe.GoMap.{Key, GoMap, lookup, has, put, delete, IsMap}

module _ {ℓ} {K : Type ℓ} ⦃key : Key K⦄ where
  pub eq_refl : (k : K) → key.eq k k ≡ true
  eq_refl k = (key.eq_iff k k).1 refl

  pub eq_sym : (j k : K) → key.eq j k ≡ key.eq k j
  eq_sym j k = eq_of_iff_true (key.eq j k) (key.eq k j) (
    λ h. (key.eq_iff k j).1 (sym ((key.eq_iff j k).0 h)),
    λ h. (key.eq_iff j k).1 (sym ((key.eq_iff k j).0 h)),
  )

module _ {ℓ κ} {K : Type ℓ} {V : Type κ} ⦃key : Key K⦄ where
  pub lookup-has-false : (k : K) (m : GoMap K V) → has k m ≡ false → lookup k m ≡ none
  unfolding lookup has
  lookup-has-false k [] h = refl
  lookup-has-false k ((j, v) ∷ m) h = ground (arith, lookup-has-false k m)

  pub has-lookup-none : (k : K) (m : GoMap K V) → lookup k m ≡ none → has k m ≡ false
  unfolding lookup has
  has-lookup-none k [] h = refl
  has-lookup-none k ((j, v) ∷ m) h = elim (Bool-cases (key.eq j k)) [
    | inl e ↦ absurd (let found = rw e at h in cc)
    | inr e ↦ rw e (has-lookup-none k m (rw e at h))
  ]

  pub has-lookup : (k : K) (m : GoMap K V) {v : V} → lookup k m ≡ some v → has k m ≡ true
  unfolding lookup has
  has-lookup k [] h = cc
  has-lookup k ((j, v) ∷ m) h = elim (Bool-cases (key.eq j k)) [
    | inl e ↦ rw e
    | inr e ↦ rw e (has-lookup k m (rw e at h))
  ]

  pub lookup-put :
      (k j : K) (v : V) (m : GoMap K V)
      → lookup j (put k v m) ≡ (if key.eq k j then some v else lookup j m)
  unfolding lookup put
  lookup-put k j v [] = refl
  lookup-put k j v ((i, w) ∷ m) =
      ground (arith, key.eq_iff k j, key.eq_iff i k, key.eq_iff i j, lookup-put k j v m)

  pub has-put : (k j : K) (v : V) (m : GoMap K V) → has j (put k v m) ≡ (key.eq k j || has j m)
  unfolding has put
  has-put k j v [] = refl
  has-put k j v ((i, w) ∷ m) =
      ground (arith, key.eq_iff k j, key.eq_iff i k, key.eq_iff i j, has-put k j v m)

  pub IsMap-put : (k : K) (v : V) (m : GoMap K V) → IsMap m → IsMap (put k v m)
  unfolding has put
  IsMap-put k v [] h = (refl, tt)
  IsMap-put k v ((i, w) ∷ m) h = elim (Bool-cases (key.eq i k)) [
    | inl e ↦ rw e h
    | inr e ↦ rw e (has-put k i v m ∙ rw (eq_sym k i, e) h.0, IsMap-put k v m h.1)
  ]

  pub has-delete_ne : (k j : K) (m : GoMap K V) → has j m ≡ false → has j (delete k m) ≡ false
  unfolding has delete
  has-delete_ne k j [] h = refl
  has-delete_ne k j ((i, w) ∷ m) h = ground (arith, has-delete_ne k j m)

  pub IsMap-delete : (k : K) (m : GoMap K V) → IsMap m → IsMap (delete k m)
  unfolding delete
  IsMap-delete k [] h = tt
  IsMap-delete k ((i, w) ∷ m) h = elim (Bool-cases (key.eq i k)) [
    | inl e ↦ rw e h.1
    | inr e ↦ rw e (has-delete_ne k i m h.0, IsMap-delete k m h.1)
  ]

  pub lookup-delete :
      (k j : K) (m : GoMap K V)
      → IsMap m
      → lookup j (delete k m) ≡ (if key.eq k j then none else lookup j m)
  unfolding lookup delete
  lookup-delete k j [] h = ground arith
  lookup-delete k j ((i, w) ∷ m) h = ground (
    arith,
    key.eq_iff k j,
    key.eq_iff i k,
    key.eq_iff i j,
    lookup-delete k j m h.1,
    lookup-has-false i m h.0,
  )

  pub length-delete : (k : K) (m : GoMap K V) → has k m ≡ true → length (delete k m) + 1 ≡ length m
  unfolding has delete
  length-delete k [] h = cc
  length-delete k ((i, w) ∷ m) h = ground (arith, length-delete k m)

  pub put-append_new :
      (k : K) (v : V) (m : GoMap K V) → has k m ≡ false → put k v m ≡ m ++ (k, v) ∷ []
  unfolding has put
  put-append_new k v [] h = refl
  put-append_new k v ((i, w) ∷ m) h = elim (Bool-cases (key.eq i k)) [
    | inl e ↦ absurd (let c = rw e at h in cc)
    | inr e ↦ rw e (ap (◌∷◌ (i, w)) (put-append_new k v m (rw e at h)))
  ]
