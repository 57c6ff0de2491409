-- ===== src/Prelude/Results.antt =====
-- A Go result `(A, error)`: a value, or an error.
use mathlib.Core.Path.{◌≡◌, refl, ap}
use mathlib.Core.Option.{Option, none, some}
use mathlib.Core.Bool.{Bool, true, false}
use go_spiffe.Prelude.Tests.{if◌then◌else◌}
use mathlib.Core.Logic.{◌⊎◌, inl, inr}

pub data Result {ℓ κ} (E : Type ℓ) (A : Type κ) : Type (ℓ ⊔ κ) where
  ok : A → Result E A
  err : E → Result E A

module _ {ℓ} {E : Type ℓ} where
  infixl 5 ◌>>◌ ◌>>=◌
  -- goes on with the value of a step that succeeded
  abbrev pub ◌>>=◌ {κ μ} : {V : Type κ} {W : Type μ} → Result E V → (V → Result E W) → Result E W
  err failure >>= next = err failure
  ok value >>= next = next value

  -- the same for a step that returns an error and nothing else
  abbrev pub ◌>>◌ {μ} : {W : Type μ} → Result E (Unit {0}) → Result E W → Result E W
  err failure >> later = err failure
  ok nothing >> later = later

  -- `if err != nil { return wrap(err) }`
  abbrev pub map_err {κ μ} : {F : Type μ} {A : Type κ} → (E → F) → Result E A → Result F A
  map_err f (ok a) = ok a
  map_err f (err e) = err (f e)

  pub ok-injective {κ} : {A : Type κ} {a b : A} → ◌≡◌ {A = Result E A} (ok a) (ok b) → a ≡ b
  ok-injective h = cc

  pub err-injective {κ} : {A : Type κ} {e f : E} → ◌≡◌ {A = Result E A} (err e) (err f) → e ≡ f
  err-injective h = cc

  pub >>=-eq-ok {κ μ} :
      {V : Type κ} {W : Type μ} (step : Result E V) (next : V → Result E W) {w : W}
      → (step >>= next) ≡ ok w
      → (v : V) × (step ≡ ok v) × (next v ≡ ok w)
  >>=-eq-ok (err failure) next done = cc
  >>=-eq-ok (ok value) next done = (value, refl, done)

  pub >>-eq-ok {μ} :
      {W : Type μ} (step : Result E (Unit {0})) (later : Result E W) {w : W}
      → (step >> later) ≡ ok w
      → (step ≡ ok tt) × (later ≡ ok w)
  >>-eq-ok (err failure) later done = cc
  >>-eq-ok (ok tt) later done = (refl, done)

  pub Result-cases {κ} :
      {A : Type κ} (r : Result E A) → ((a : A) × (r ≡ ok a)) ⊎ ((e : E) × (r ≡ err e))
  Result-cases (ok a) = inl (a, refl)
  Result-cases (err e) = inr (e, refl)

  pub map_err-eq-ok {κ μ} :
      {F : Type μ} {V : Type κ} (f : E → F) (step : Result E V) {v : V}
      → map_err f step ≡ ok v
      → step ≡ ok v
  map_err-eq-ok f (err failure) done = absurd cc
  map_err-eq-ok f (ok value) done = cc

  -- a test that returns an error
  pub if-eq-ok {κ} :
      {V : Type κ} (c : Bool) (e : E) (step : Result E V) {v : V}
      → (if c then err e else step) ≡ ok v
      → (c ≡ false) × (step ≡ ok v)
  if-eq-ok true e step done = absurd cc
  if-eq-ok false e step done = (refl, done)

  -- a pointer that must be set, or a key that must be in a map
  abbrev pub required {κ} : {V : Type κ} → E → Option V → Result E V
  required e none = err e
  required e (some value) = ok value

  pub required-eq-ok {κ} :
      {V : Type κ} (e : E) (o : Option V) {v : V} → required e o ≡ ok v → o ≡ some v
  required-eq-ok e none done = absurd cc
  required-eq-ok e (some value) done = ap some (ok-injective done)

  -- a test of the code that ends in an error
  pub check-eq-ok :
      (c : Bool) (e : E)
      → ◌≡◌ {A = Result E (Unit {0})} (if c then err e else ok tt) (ok tt)
      → c ≡ false
  check-eq-ok c e done = (if-eq-ok c e (ok tt) done).0
