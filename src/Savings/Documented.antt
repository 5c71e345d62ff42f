-- ===== src/Savings/Documented.antt =====
-- docs/SAVINGS.md gives the gross interest as one division, rounded down once; src/savings.rs rounds
-- the annual interest first.
use native.Mathlib.Nat.{lt_of_mul-lt-mul_left, div-mul-le_self, lt-mul-div-succ, mul_comm}
use kusd.Base.{ℕ, ◌+◌, ◌*◌, ◌/◌, ◌≤◌, ◌<◌, ◌≡◌, ok, arith}
use kusd.Int.{ℤ, pos_part}
use kusd.Savings.{SavingsYield, calculate_yield}
use kusd.Savings.Yield.{calculate_yield-Yields}

-- The formula of docs/SAVINGS.md.
abbrev pub documented_gross : ℕ → ℕ → ℕ → ℕ → ℕ
documented_gross principal rate_ppm elapsed daa_per_year =
    principal * rate_ppm * elapsed / (1000000 * daa_per_year)

scale : (a b t : ℕ) → a ≤ b → a * t ≤ b * t
scale a b t h = grind arith

below : (d g y : ℕ) → g * y < (d + 1) * y → g ≤ d
below d g y h =
    let swapped : y * g < y * (d + 1) = omega (arith, h) in
    omega (arith, lt_of_mul-lt-mul_left y swapped)

module _ (s r t y a g d : ℕ) (annual_low : a * 1000000 ≤ s * r)
    (annual_high : s * r < (a + 1) * 1000000) (gross_low : g * y ≤ a * t)
    (gross_high : a * t < (g + 1) * y) (low : d * (1000000 * y) ≤ s * r * t)
    (high : s * r * t < (d + 1) * (1000000 * y)) where
  at_most : g ≤ d
  at_most = below d g y (omega (arith, scale (a * 1000000) (s * r) t annual_low, gross_low, high))

  close : d * y < (g + 1) * y + t
  close =
      omega
        (arith, scale (s * r) ((a + 1) * 1000000) t (omega (arith, annual_high)), gross_high, low)

-- The gross interest that the code pays is at most the documented one, and falls short of it by less
-- than the accrued time in years and one atom: the documented interest times the year is less than
-- the paid interest and one, times the year, and the accrued time.
pub gross_against_documented :
    (saved rate accrual year referral : ℤ) (y : SavingsYield)
    → calculate_yield saved rate accrual year referral ≡ ok y
    → let documented =
        documented_gross (pos_part saved) (pos_part rate) (pos_part accrual) (pos_part year) in
      (pos_part y.gross_interest ≤ documented)
      × (documented * pos_part year
          < (pos_part y.gross_interest + 1) * pos_part year + pos_part accrual)
gross_against_documented saved rate accrual year referral y h =
    let c = calculate_yield-Yields saved rate accrual year referral y h in
    let n = pos_part saved * pos_part rate * pos_part accrual in
    let k = 1000000 * pos_part year in
    let positive : 0 < k = omega (arith, c.gross.divisor) in
    let low = div-mul-le_self n k in
    let high : n < (n / k + 1) * k =
      omega (arith, lt-mul-div-succ n positive, mul_comm k (n / k + 1)) in
    (
      at_most (pos_part saved) (pos_part rate) (pos_part accrual) (pos_part year)
          (pos_part y.annual_interest) (pos_part y.gross_interest) (n / k) c.annual.low
          c.annual.high c.gross.low c.gross.high low high,
      close (pos_part saved) (pos_part rate) (pos_part accrual) (pos_part year)
          (pos_part y.annual_interest) (pos_part y.gross_interest) (n / k) c.annual.low
          c.annual.high c.gross.low c.gross.high low high,
    )
