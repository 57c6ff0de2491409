-- ===== src/GoMap.antt =====
-- Go's built-in `map[K]V`, which is standard: the entries with distinct keys, in the order in which
-- `range` meets them. Go leaves that order open: a statement about every map covers every order.
pub mod Laws
pub mod Same
use go_spiffe.Prelude.{
  if◌then◌else◌, Bytes, bytes_eq, bytes_eq_iff, ◌≡◌, ◌↔◌, Bool, true, false, ◌||◌, Option, none,
  some, List, [], ◌∷◌,
}

-- `==` on a key type
pub record Key {ℓ} (K : Type ℓ) : Type ℓ where
  pub eq : K → K → Bool
  pub eq_iff : (a b : K) → (eq a b ≡ true) ↔ (a ≡ b)

abbrev pub GoMap {ℓ κ} : Type ℓ → Type κ → Type (ℓ ⊔ κ)
GoMap K V = List (K × V)

instance abbrev pub bytes_key : Key Bytes
bytes_key = record { eq = bytes_eq; eq_iff = bytes_eq_iff }

module _ {ℓ κ} {K : Type ℓ} {V : Type κ} ⦃key : Key K⦄ where
  -- `v, ok := m[k]`
  unfoldable pub lookup : K → GoMap K V → Option V
  lookup k [] = none
  lookup k ((j, v) ∷ m) = if key.eq j k then some v else lookup k m

  -- `_, ok := m[k]`
  unfoldable pub has : K → GoMap K V → Bool
  has k [] = false
  has k ((j, v) ∷ m) = key.eq j k || has k m

  -- `m[k] = v`
  unfoldable pub put : K → V → GoMap K V → GoMap K V
  put k v [] = (k, v) ∷ []
  put k v ((j, w) ∷ m) = let rest = put k v m in if key.eq j k then (j, v) ∷ m else (j, w) ∷ rest

  -- `delete(m, k)`
  unfoldable pub delete : K → GoMap K V → GoMap K V
  delete k [] = []
  delete k ((j, w) ∷ m) = let rest = delete k m in if key.eq j k then m else (j, w) ∷ rest

  -- `for k, v := range src { dst[k] = v }`
  unfoldable pub put_all : GoMap K V → GoMap K V → GoMap K V
  put_all dst [] = dst
  put_all dst ((k, v) ∷ src) = put_all (put k v dst) src

  -- Distinct keys.
  abbrev pub IsMap : GoMap K V → Type 0
  IsMap [] = Unit
  IsMap ((k, v) ∷ m) = (has k m ≡ false) × IsMap m
