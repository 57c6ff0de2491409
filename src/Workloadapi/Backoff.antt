-- ===== src/Workloadapi/Backoff.antt =====
-- workloadapi/backoff.go. Durations are in nanoseconds. The counter of Go is an int; it is one of ℕ here,
-- since `Next` is called at most once a second.
use go_spiffe.Prelude.{leb, if◌then◌else◌, ℕ, zero, suc, ◌+◌, ◌*◌, ◌≤◌, ◌≡◌, refl, ◌∙◌, arith}
use go_spiffe.GoTime.{second}

-- `linearBackoff`; the delays are those of `newLinearBackoff`, in seconds
pub record Backoff : Type 0 where
  pub initial_delay : ℕ
  pub max_delay : ℕ
  pub n : ℕ

unfoldable pub new_linear_backoff : Backoff
new_linear_backoff = record { initial_delay = 1; max_delay = 30; n = 0 }

-- `math.Min`
unfoldable pub min : ℕ → ℕ → ℕ
min a b = if leb a b then a else b

-- the period, and the backoff afterwards
unfoldable pub next : Backoff → ℕ × Backoff
unfolding min
next b = (min (b.initial_delay * (b.n + 1)) b.max_delay * second, record b { n = b.n + 1 })

unfoldable pub reset : Backoff → Backoff
reset b = record b { n = 0 }

-- Backoffs that `newLinearBackoff`, `Next` and `Reset` make.
pub data IsReachable : Backoff → Type 0 where
  at_start : IsReachable new_linear_backoff
  after_next : {b : Backoff} → IsReachable b → IsReachable (next b).1
  after_reset : {b : Backoff} → IsReachable b → IsReachable (reset b)

delays : {b : Backoff} → IsReachable b → (b.initial_delay ≡ 1) × (b.max_delay ≡ 30)
unfolding new_linear_backoff next reset
delays at_start = (refl, refl)
delays (after_next r) = delays r
delays (after_reset r) = delays r

next-min : {b : Backoff} (r : IsReachable b) → (next b).0 ≡ min (b.n + 1) 30 * second
unfolding next
next-min {b} r =
    let (initial, max) = delays r in
    let once : 1 * (b.n + 1) ≡ b.n + 1 = omega arith in rw (initial, max, once) refl

min-bounds : (n : ℕ) → (1 ≤ min (n + 1) 30) × (min (n + 1) 30 ≤ 30)
unfolding min
min-bounds n = ground arith

-- `Next` calls in a row
unfoldable pub next_times : ℕ → Backoff → Backoff
unfolding next
next_times zero b = b
next_times (suc k) b = next_times k (next b).1

next_times-n : (k : ℕ) (b : Backoff) → (next_times k b).n ≡ b.n + k
unfolding next_times next
next_times-n zero b = omega arith
next_times-n (suc k) b = let h = next_times-n k (next b).1 in h ∙ omega arith

next_times-IsReachable : (k : ℕ) {b : Backoff} → IsReachable b → IsReachable (next_times k b)
unfolding next_times
next_times-IsReachable zero r = r
next_times-IsReachable (suc k) r = next_times-IsReachable k (after_next r)

-- For a reachable backoff, the period after a reset and k further calls of `Next` is the smaller of
-- k + 1 and thirty seconds, and its next period is between one and thirty seconds.
pub next_times_lem :
    (b : Backoff)
    → IsReachable b
    → (k : ℕ)
    → ((next (next_times k (reset b))).0 ≡ min (k + 1) 30 * second)
      × (second ≤ (next b).0)
      × ((next b).0 ≤ 30 * second)
unfolding reset
next_times_lem b r k =
    let (low, high) = min-bounds b.n in
    let reached = next_times-IsReachable k (after_reset r) in
    let counted : (next_times k (reset b)).n ≡ k = next_times-n k (reset b) ∙ omega arith in
    (
      next-min reached ∙ rw counted refl,
      rw (next-min r) (omega arith),
      rw (next-min r) (omega arith),
    )
