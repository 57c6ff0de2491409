-- ===== src/GoMap/Same.antt =====
-- Maps that look alike, copies, and inclusion of maps of one size.
use go_spiffe.Prelude.{
  Bool-cases, length, All, ◌≡◌, refl, sym, ◌∙◌, inl, inr, false, ◌||◌, some, [], ◌∷◌, ◌++◌,
  append-nil, append_assoc, arith,
}
use go_spiffe.GoMap.{Key, GoMap, lookup, has, delete, put_all, IsMap}
use go_spiffe.GoMap.Laws.{
  eq_refl, eq_sym, lookup-has-false, has-lookup, lookup-delete, IsMap-delete, length-delete,
  put-append_new,
}

module _ {ℓ κ} {K : Type ℓ} {V : Type κ} ⦃key : Key K⦄ where
  -- Every look-up gives the same result.
  abbrev pub SameMap : GoMap K V → GoMap K V → Type (ℓ ⊔ κ)
  SameMap m n = (k : K) → lookup k m ≡ lookup k n

  -- Every entry of `m` is an entry of `n`.
  abbrev pub IsSubmap : GoMap K V → GoMap K V → Type κ
  IsSubmap m n = All (λ e. lookup e.0 n ≡ some e.1) m

  has-append : (k : K) (m n : GoMap K V) → has k (m ++ n) ≡ (has k m || has k n)
  unfolding has
  has-append k [] n = refl
  has-append k ((j, v) ∷ m) n = ground (arith, has-append k m n)

  IsMap-append_new : (m n : GoMap K V) (k : K) (v : V) → IsMap (m ++ (k, v) ∷ n) → has k m ≡ false
  unfolding has
  IsMap-append_new [] n k v h = refl
  IsMap-append_new ((j, w) ∷ m) n k v h =
      ground (arith, has-append j m ((k, v) ∷ n), h.0, eq_sym j k, IsMap-append_new m n k v h.1)

  put_all-append : (src dst : GoMap K V) → IsMap (dst ++ src) → put_all dst src ≡ dst ++ src
  unfolding put_all
  put_all-append [] dst h = sym (append-nil dst)
  put_all-append ((k, v) ∷ src) dst h =
      let assoc = append_assoc dst ((k, v) ∷ []) src in
      rw (put-append_new k v dst (IsMap-append_new dst src k v h))
        (put_all-append src (dst ++ (k, v) ∷ []) (rw assoc h) ∙ assoc)

  -- A loop that copies a map into a new one gives the same map.
  pub put_all-empty : (src : GoMap K V) → IsMap src → put_all [] src ≡ src
  put_all-empty src h = put_all-append src [] h

  lookup-cons_ne :
      (k j : K) (v : V) (m : GoMap K V) → key.eq j k ≡ false → lookup k ((j, v) ∷ m) ≡ lookup k m
  unfolding lookup
  lookup-cons_ne k j v m h = rw h

  lookup-cons_self : (k : K) (v : V) (m : GoMap K V) → lookup k ((k, v) ∷ m) ≡ some v
  unfolding lookup
  lookup-cons_self k v m = rw (eq_refl k)

  key-ne :
      (j k : K) (m : GoMap K V) {v : V} → has j m ≡ false → lookup k m ≡ some v → key.eq j k ≡ false
  key-ne j k m absent found = elim (Bool-cases (key.eq j k)) [
    | inl e ↦
        absurd
          (let c = sym (rw ((key.eq_iff j k).0 e) at (lookup-has-false j m absent)) ∙ found in cc)
    | inr e ↦ e
  ]

  pub IsSubmap-of_lookup :
      (m n : GoMap K V)
      → IsMap m
      → ((k : K) (v : V) → lookup k m ≡ some v → lookup k n ≡ some v)
      → IsSubmap m n
  IsSubmap-of_lookup [] n h f = tt
  IsSubmap-of_lookup ((j, w) ∷ m) n h f = (
    f j w (lookup-cons_self j w m),
    IsSubmap-of_lookup m n h.1 (λ k v e. f k v (lookup-cons_ne k j w m (key-ne j k m h.0 e) ∙ e)),
  )

  -- The entries of `m`, found in `n`, are still there without a key that `m` lacks.
  IsSubmap-delete :
      (m n : GoMap K V) (j : K) → IsMap n → has j m ≡ false → IsSubmap m n → IsSubmap m (delete j n)
  unfolding has
  IsSubmap-delete [] n j h absent s = tt
  IsSubmap-delete ((k, v) ∷ m) n j h absent s = (
    lookup-delete j k n h ∙ (ground (arith, eq_sym k j, s.0)),
    IsSubmap-delete m n j h (ground arith) s.1,
  )

  -- Two maps of one size are the same if one includes the other.
  pub SameMap-of_IsSubmap :
      (m n : GoMap K V) → IsMap m → IsMap n → IsSubmap m n → length m ≡ length n → SameMap m n
  SameMap-of_IsSubmap [] [] hm hn s e k = refl
  SameMap-of_IsSubmap [] (x ∷ n) hm hn s e k = absurd (omega arith)
  SameMap-of_IsSubmap ((j, v) ∷ m) n hm hn s e k =
      let shorter : length m ≡ length (delete j n) =
        omega (arith, length-delete j n (has-lookup j n s.0)) in
      let ih =
        SameMap-of_IsSubmap m (delete j n) hm.1 (IsMap-delete j n hn)
          (IsSubmap-delete m n j hn hm.0 s.1) shorter k in
      elim (Bool-cases (key.eq j k)) [
        | inl q ↦ rw (← (key.eq_iff j k).0 q) (lookup-cons_self j v m ∙ sym s.0)
        | inr q ↦ lookup-cons_ne k j v m q ∙ ih ∙ lookup-delete j k n hn ∙ rw q
      ]

  SameMap-tail :
      (m n : GoMap K V) (j : K) (v : V)
      → has j m ≡ false
      → IsMap n
      → SameMap ((j, v) ∷ m) n
      → SameMap m (delete j n)
  SameMap-tail m n j v absent hn s k = elim (Bool-cases (key.eq j k)) [
    | inl q ↦
        rw (← (key.eq_iff j k).0 q)
          (lookup-has-false j m absent ∙ sym (lookup-delete j j n hn ∙ rw (eq_refl j)))
    | inr q ↦ sym (lookup-cons_ne k j v m q) ∙ s k ∙ sym (lookup-delete j k n hn ∙ rw q)
  ]

  -- Maps that look alike have one size.
  pub length-SameMap : (m n : GoMap K V) → IsMap m → IsMap n → SameMap m n → length m ≡ length n
  length-SameMap [] [] hm hn s = refl
  length-SameMap [] ((k, v) ∷ n) hm hn s =
      absurd (let c = s k ∙ lookup-cons_self k v n in unfold lookup in cc)
  length-SameMap ((j, v) ∷ m) n hm hn s =
      let found : lookup j n ≡ some v = sym (s j) ∙ lookup-cons_self j v m in
      let ih =
        length-SameMap m (delete j n) hm.1 (IsMap-delete j n hn) (SameMap-tail m n j v hm.0 hn s) in
      omega (arith, length-delete j n (has-lookup j n found))
