-- ===== src/Savings.antt =====
-- src/savings.rs: the interest of a Savings account and the window of a claim.
pub mod Yield
pub mod Documented
mod Tests
use kusd.Base.{ok_or, not, Result, ok, ◌>>=◌, ◌>>◌, reject_if, ◌||◌}
use kusd.Int.{
  ℤ, pos, ltb_ℤ, leb_ℤ, within, checked_add, checked_mul_i128, try_i64, ◌-ℤ◌, ◌/ℤ◌, wrap_i64,
}

abbrev pub ppm : ℤ
ppm = pos 1000000

abbrev pub max_referral_ppm : ℤ
max_referral_ppm = pos 250000

abbrev pub max_amount : ℤ
max_amount = pos 36028797018963967

pub record SavingsYield : Type 0 where
  pub annual_interest : ℤ
  pub gross_interest : ℤ
  pub referral_fee : ℤ
  pub net_interest : ℤ

-- The messages of src/savings.rs.
pub data Error : Type 0 where
  needs_positive outside_domain mul_div_overflow exceeds_i64 : Error
  invalid_balance invalid_rate invalid_duration invalid_referral : Error
  invalid_window threshold_overflow : Error

unfoldable pub mul_div_floor : ℤ → ℤ → ℤ → Result Error ℤ
mul_div_floor x y denominator = do
  reject_if (ltb_ℤ x (pos 0) || ltb_ℤ y (pos 0) || leb_ℤ denominator (pos 0)) Error.needs_positive
  reject_if (ltb_ℤ max_amount x || ltb_ℤ max_amount y || ltb_ℤ max_amount denominator)
      Error.outside_domain
  product ← ok_or (checked_mul_i128 x y) Error.mul_div_overflow
  ok_or (try_i64 (product /ℤ denominator)) Error.exceeds_i64

pub calculate_yield : ℤ → ℤ → ℤ → ℤ → ℤ → Result Error SavingsYield
calculate_yield saved rate_ppm accrual_daa daa_per_year referral_fee_ppm = do
  reject_if (leb_ℤ saved (pos 0) || ltb_ℤ max_amount saved) Error.invalid_balance
  reject_if (not (within (pos 0) ppm rate_ppm)) Error.invalid_rate
  reject_if
      (ltb_ℤ accrual_daa (pos 0) || leb_ℤ daa_per_year (pos 0) || ltb_ℤ max_amount accrual_daa)
      Error.invalid_duration
  reject_if (not (within (pos 0) max_referral_ppm referral_fee_ppm)) Error.invalid_referral
  annual_interest ← mul_div_floor saved rate_ppm ppm
  gross_interest ← mul_div_floor annual_interest accrual_daa daa_per_year
  referral_fee ← mul_div_floor gross_interest referral_fee_ppm ppm
  ok (record {
    annual_interest = annual_interest;
    gross_interest = gross_interest;
    referral_fee = referral_fee;
    net_interest = wrap_i64 (gross_interest -ℤ referral_fee);
  })

pub validate_claim_window : ℤ → ℤ → ℤ → Result Error ℤ
validate_claim_window delay_remaining_daa remaining_accrual_daa claimed_accrual_daa = do
  reject_if
      (ltb_ℤ delay_remaining_daa (pos 0)
        || ltb_ℤ remaining_accrual_daa (pos 0)
        || leb_ℤ claimed_accrual_daa (pos 0)
        || ltb_ℤ remaining_accrual_daa claimed_accrual_daa)
      Error.invalid_window
  ok_or (checked_add delay_remaining_daa claimed_accrual_daa) Error.threshold_overflow
