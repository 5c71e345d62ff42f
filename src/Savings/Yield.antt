-- ===== src/Savings/Yield.antt =====
-- The interest of src/savings.rs: its rounding division is that of src/equity.rs on a smaller
-- domain, and no interest is lost between the saver and the referrer.
use kusd.Base.{ℕ, ◌*◌, ◌≤◌, ◌≡◌, ◌↔◌, ok, arith}
use kusd.Int.{
  ℤ, pos, pos_part, ◌+ℤ◌, ◌-ℤ◌, ◌≤ℤ◌, IsI64, +ℤ_parts, -ℤ_parts, eq_of_parts, checked_add, wrap_i64,
  wrap_i64_self,
}
use kusd.Equity.MulDiv
use kusd.Equity.MulDiv.{
  IsFloor, IsFloor-mono, IsFloor-comm, IsFloor-unique, mul_div_floor-IsFloor, IsFloor-mul_div_floor,
}
use kusd.Savings.{
  ppm, max_amount, SavingsYield, mul_div_floor, calculate_yield, validate_claim_window,
}

-- The division of src/savings.rs gives a result exactly when that of src/equity.rs gives it and no
-- operand is greater than `max_amount`.
pub mul_div_floor_iff :
    (x y d r : ℤ)
    → (mul_div_floor x y d ≡ ok r) ↔ (
        (MulDiv.mul_div_floor x y d ≡ ok r)
        × (x ≤ℤ max_amount)
        × (y ≤ℤ max_amount)
        × (d ≤ℤ max_amount))
unfolding mul_div_floor MulDiv.mul_div_floor
mul_div_floor_iff x y d r = ground arith

pub record Yields (saved rate accrual year referral : ℤ) (y : SavingsYield) : Type 0 where
  pub annual : IsFloor saved rate ppm y.annual_interest
  pub gross : IsFloor y.annual_interest accrual year y.gross_interest
  pub fee : IsFloor y.gross_interest referral ppm y.referral_fee
  referral_bounded : pos_part referral ≤ 250000
  net : y.net_interest ≡ wrap_i64 (y.gross_interest -ℤ y.referral_fee)

floor : (x y d r : ℤ) → mul_div_floor x y d ≡ ok r → IsFloor x y d r
floor x y d r h = mul_div_floor-IsFloor x y d ((mul_div_floor_iff x y d r).0 h).0

pub calculate_yield-Yields :
    (saved rate accrual year referral : ℤ) (y : SavingsYield)
    → calculate_yield saved rate accrual year referral ≡ ok y
    → Yields saved rate accrual year referral y
unfolding calculate_yield
calculate_yield-Yields saved rate accrual year referral y h = ground (
  arith,
  floor saved rate ppm y.annual_interest,
  floor y.annual_interest accrual year y.gross_interest,
  floor y.gross_interest referral ppm y.referral_fee,
)

quarter : (g f r : ℕ) → f * 1000000 ≤ g * r → r ≤ 250000 → 4 * f ≤ g
quarter g f r low le = let bound : g * r ≤ g * 250000 = grind arith in omega arith

-- A computed yield is the annual interest at the rate, its part for the accrued time, and of that
-- the referral fee, each rounded down. The referrer gets at most a quarter; what the saver and the
-- referrer get adds up to the gross interest, and neither is negative.
pub yield_splits :
    (saved rate accrual year referral : ℤ) (y : SavingsYield)
    → calculate_yield saved rate accrual year referral ≡ ok y
    → IsFloor saved rate ppm y.annual_interest
      × IsFloor y.annual_interest accrual year y.gross_interest
      × IsFloor y.gross_interest referral ppm y.referral_fee
      × (y.net_interest +ℤ y.referral_fee ≡ y.gross_interest)
      × (pos 0 ≤ℤ y.net_interest)
      × (4 * pos_part y.referral_fee ≤ pos_part y.gross_interest)
yield_splits saved rate accrual year referral y h =
    let c = calculate_yield-Yields saved rate accrual year referral y h in
    let q =
      quarter (pos_part y.gross_interest) (pos_part y.referral_fee) (pos_part referral) c.fee.low
        c.referral_bounded in
    ground (
      arith,
      c.annual,
      c.gross,
      c.fee,
      c.net,
      q,
      -ℤ_parts y.gross_interest y.referral_fee,
      +ℤ_parts y.net_interest y.referral_fee,
      wrap_i64_self (y.gross_interest -ℤ y.referral_fee),
      eq_of_parts (y.net_interest +ℤ y.referral_fee) y.gross_interest,
    )

-- For the same balance and rates, a longer accrued time gives the same annual interest and no less
-- gross interest or referral fee.
pub yield_grows :
    (saved rate short long year referral : ℤ) (y z : SavingsYield)
    → short ≤ℤ long
    → calculate_yield saved rate short year referral ≡ ok y
    → calculate_yield saved rate long year referral ≡ ok z
    → (y.annual_interest ≡ z.annual_interest)
      × (y.gross_interest ≤ℤ z.gross_interest)
      × (y.referral_fee ≤ℤ z.referral_fee)
yield_grows saved rate short long year referral y z le hy hz =
    let c = calculate_yield-Yields saved rate short year referral y hy in
    let e = calculate_yield-Yields saved rate long year referral z hz in
    let annual = IsFloor-unique c.annual e.annual in
    let gross : pos_part y.gross_interest ≤ pos_part z.gross_interest =
      IsFloor-mono c.gross (rw (← annual) at e.gross)
        (omega (arith, c.gross.right, e.gross.right)) in
    let fee = IsFloor-mono (IsFloor-comm c.fee) (IsFloor-comm e.fee) gross in
    (
      annual,
      omega (arith, c.gross.natural, e.gross.natural),
      omega (arith, c.fee.natural, e.fee.natural),
    )

-- A claim is accepted exactly when the delay is not negative, the claimed time is positive and at
-- most the time that remains, and the threshold fits an `i64`; the threshold is the sum.
pub validate_claim_window_iff :
    (delay remaining claimed t : ℤ)
    → (validate_claim_window delay remaining claimed ≡ ok t) ↔ (
        (pos 0 ≤ℤ delay)
        × (pos 1 ≤ℤ claimed)
        × (claimed ≤ℤ remaining)
        × IsI64 (delay +ℤ claimed)
        × (t ≡ delay +ℤ claimed))
unfolding validate_claim_window checked_add
validate_claim_window_iff delay remaining claimed t = ground (arith, +ℤ_parts delay claimed)
