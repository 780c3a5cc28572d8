-- ===== src/Gcra/Rate.antt =====
-- The rate of src/services/rate_limit.rs in microseconds.
use native.Mathlib.Nat.{div-le_self}
use kraken_ui.Common.{ℕ, ◌-◌, ◌*◌, ◌/◌, ◌≤◌, ◌<◌, ◌≡◌, ◌↔◌, arith, ok}
use kraken_ui.Throttle.{u32_mod}
use kraken_ui.Gcra.{GcraRate, i64_max, new_rate}

product-le : (a b m n : ℕ) → a ≤ m → b ≤ n → a * b ≤ m * n
product-le a b m n p q = grind arith

-- For 32-bit settings the tolerance always fits in 64 signed bits.
tolerance_fits : (rps burst : ℕ) → burst < u32_mod → (1000000 / rps) * (burst - 1) ≤ i64_max
tolerance_fits rps burst h = omega (
  arith,
  product-le (1000000 / rps) (burst - 1) 1000000 4294967295 (div-le_self 1000000 rps) (omega arith),
)

interval_pos : (rps : ℕ) → 0 < rps → rps ≤ 1000000 → 0 < 1000000 / rps
interval_pos rps p q = grind arith

interval_zero : (rps : ℕ) → 1000000 < rps → 1000000 / rps ≡ 0
interval_zero rps p = grind arith

-- For 32-bit settings a rate is accepted exactly when both are positive and at most a million
-- requests a second are asked for, and it is then the interval between requests with the tolerance
-- of `burst - 1` intervals: the overflow check never refuses.
pub new_rate-ok_iff :
    (rps burst : ℕ) (r : GcraRate)
    → burst < u32_mod
    → (new_rate rps burst ≡ ok r) ↔ (
        (0 < rps)
        × (rps ≤ 1000000)
        × (0 < burst)
        × (r.interval_us ≡ 1000000 / rps)
        × (r.tolerance_us ≡ r.interval_us * (burst - 1)))
unfolding new_rate
new_rate-ok_iff rps burst r h = (
  λ e. ground (arith, tolerance_fits rps burst h, interval_zero rps),
  λ c. ground (arith, tolerance_fits rps burst h, interval_pos rps),
)
