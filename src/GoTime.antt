-- ===== src/GoTime.antt =====
-- `time.Duration`: an int64 of nanoseconds. The arithmetic of the standard types wraps around.
use go_spiffe.Prelude.{
  ltb, ◌==◌, if◌then◌else◌, ℕ, ◌+◌, ◌-◌, ◌*◌, ◌/◌, ◌%◌, ◌^◌, ◌≤◌, ◌<◌, ◌≡◌, arith,
}

-- `negsuc n` is -(n + 1).
pub data ℤ : Type 0 where
  pos : ℕ → ℤ
  negsuc : ℕ → ℤ

-- the int64 whose bits are the number's, below 2 ^ 64
abbrev pub signed64 : ℕ → ℤ
signed64 w = if ltb w (2 ^ 63) then pos w else negsuc (2 ^ 64 - w - 1)

-- an integer as it is kept in 64 bits
abbrev pub wrap64 : ℤ → ℤ
wrap64 (pos n) = signed64 (n % 2 ^ 64)
wrap64 (negsuc n) = signed64 (2 ^ 64 - 1 - n % 2 ^ 64)

-- `time.Second`
abbrev pub second : ℕ
second = 1_000_000_000

-- `time.Second * time.Duration(n)`
unfoldable pub seconds_to_duration : ℤ → ℤ
seconds_to_duration (pos n) = wrap64 (pos (n * second))
seconds_to_duration (negsuc n) = wrap64 (negsuc ((n + 1) * second - 1))

-- `x + (time.Second - 1)`
unfoldable pub add_almost_second : ℤ → ℤ
add_almost_second (pos n) = wrap64 (pos (n + (second - 1)))
add_almost_second (negsuc n) =
    if ltb n (second - 1) then pos (second - 2 - n) else negsuc (n - (second - 1))

-- `x / time.Second`, which rounds towards zero
unfoldable pub div_second : ℤ → ℤ
div_second (pos n) = pos (n / second)
div_second (negsuc n) = let q = (n + 1) / second in if q == 0 then pos 0 else negsuc (q - 1)

-- A number of whole seconds that fits 64 bits as nanoseconds keeps its value.
pub seconds_to_duration-fits :
    (n : ℕ) → n * second < 2 ^ 63 → seconds_to_duration (pos n) ≡ pos (n * second)
unfolding seconds_to_duration
seconds_to_duration-fits n h = ground arith

-- Rounding up to seconds.
abbrev pub ceil_seconds : ℕ → ℕ
ceil_seconds n = (n + (second - 1)) / second

pub div_second-add_almost_second :
    (n : ℕ)
    → n + (second - 1) < 2 ^ 63
    → div_second (add_almost_second (pos n)) ≡ pos (ceil_seconds n)
unfolding div_second add_almost_second
div_second-add_almost_second n h = ground arith

pub ceil_seconds_bounds :
    (n : ℕ) → (n ≤ ceil_seconds n * second) × (ceil_seconds n * second ≤ n + (second - 1))
ceil_seconds_bounds n = (omega arith, omega arith)
