-- ===== src/Fees.antt =====
-- src/fees.rs: how the gross debt of a mint is split between the owner, the assigned reserve and
-- the equity fee, and what closing the Position burns.
pub mod Split
mod Tests
use kusd.Base.{ok_or, and_then, map_err, Result, ok, ◌>>=◌, ◌>>◌, reject_if, ◌||◌}
use kusd.Int.{ℤ, pos, ltb_ℤ, leb_ℤ, checked_add, checked_sub}
use kusd.Equity.MulDiv
use kusd.Equity.MulDiv.{mul_div_floor}

abbrev pub ppm : ℤ
ppm = pos 1000000

pub record MintTerms : Type 0 where
  pub reserve_contribution_ppm : ℤ
  pub annual_interest_ppm : ℤ
  pub daa_per_year : ℤ

pub record MintQuote : Type 0 where
  pub gross_debt : ℤ
  pub user_kusd : ℤ
  pub assigned_reserve_kusd : ℤ
  pub equity_fee_kusd : ℤ
  pub current_fee_ppm : ℤ

pub record CloseQuote : Type 0 where
  pub user_burn_kusd : ℤ
  pub assigned_reserve_burn_kusd : ℤ

-- The messages of src/fees.rs; `mul_div` passes one of src/equity.rs on.
pub data Error : Type 0 where
  invalid_mint_parameters rate_overflow rates_absorb_mint invalid_distribution : Error
  user_mint_zero reserve_credit_overflow assigned_exceeds_debt : Error
  mul_div : MulDiv.Error → Error

unfoldable pub quote : MintTerms → ℤ → ℤ → Result Error MintQuote
quote terms gross_debt remaining_lifetime_daa = do
  reject_if
      (leb_ℤ gross_debt (pos 0)
        || ltb_ℤ remaining_lifetime_daa (pos 0)
        || leb_ℤ terms.daa_per_year (pos 0)
        || (ltb_ℤ terms.reserve_contribution_ppm (pos 0)
            || leb_ℤ ppm terms.reserve_contribution_ppm)
        || ltb_ℤ terms.annual_interest_ppm (pos 0))
      Error.invalid_mint_parameters
  current_fee_ppm ←
      map_err Error.mul_div
        (mul_div_floor terms.annual_interest_ppm remaining_lifetime_daa terms.daa_per_year)
  total_rate ←
      ok_or (checked_add terms.reserve_contribution_ppm current_fee_ppm) Error.rate_overflow
  reject_if (leb_ℤ ppm total_rate) Error.rates_absorb_mint
  assigned ← map_err Error.mul_div (mul_div_floor gross_debt terms.reserve_contribution_ppm ppm)
  fee ← map_err Error.mul_div (mul_div_floor gross_debt current_fee_ppm ppm)
  user ←
      ok_or (and_then (checked_sub gross_debt assigned) (λ value. checked_sub value fee))
        Error.invalid_distribution
  reject_if (leb_ℤ user (pos 0)) Error.user_mint_zero
  ok (record {
    gross_debt = gross_debt;
    user_kusd = user;
    assigned_reserve_kusd = assigned;
    equity_fee_kusd = fee;
    current_fee_ppm = current_fee_ppm;
  })

pub reserve_credit : MintQuote → Result Error ℤ
reserve_credit q =
    ok_or (checked_add q.assigned_reserve_kusd q.equity_fee_kusd) Error.reserve_credit_overflow

pub close_quote : MintQuote → Result Error CloseQuote
close_quote q = do
  user_burn ← ok_or (checked_sub q.gross_debt q.assigned_reserve_kusd) Error.assigned_exceeds_debt
  ok (record { user_burn_kusd = user_burn; assigned_reserve_burn_kusd = q.assigned_reserve_kusd })
