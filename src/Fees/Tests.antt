-- ===== src/Fees/Tests.antt =====
-- Runs of src/fees.rs, after the tests of that file, and the theorems at these runs.
use kusd.Base.{◌≡◌, refl, ok, err, arith}
use kusd.Int.{
  ℤ, pos, ◌+ℤ◌, ◌-ℤ◌, ◌≤ℤ◌, IsI64, ◌*ℤ◌, checked_mul_i128, checked_add, ◌/ℤ◌, checked_sub,
}
use kusd.Equity.MulDiv.{mul_div_floor, IsFloor}
use kusd.Fees.{ppm, MintTerms, MintQuote, Error, quote, reserve_credit, close_quote}
use kusd.Fees.Split.{quote_splits, close_burns_debt}

abbrev year : ℤ
year = pos 31536000

abbrev terms : MintTerms
terms = record {
  reserve_contribution_ppm = pos 100000;
  annual_interest_ppm = pos 50000;
  daa_per_year = year;
}

-- A year, and half of it.
abbrev whole_quote : MintQuote
whole_quote = record {
  gross_debt = pos 100000;
  user_kusd = pos 85000;
  assigned_reserve_kusd = pos 10000;
  equity_fee_kusd = pos 5000;
  current_fee_ppm = pos 50000;
}

abbrev half_quote : MintQuote
half_quote = record {
  gross_debt = pos 100000;
  user_kusd = pos 87500;
  assigned_reserve_kusd = pos 10000;
  equity_fee_kusd = pos 2500;
  current_fee_ppm = pos 25000;
}

whole_run : quote terms (pos 100000) year ≡ ok whole_quote
unfolding quote mul_div_floor checked_mul_i128 ◌*ℤ◌ ◌/ℤ◌ checked_add ◌+ℤ◌ checked_sub ◌-ℤ◌
whole_run = refl

half_run : quote terms (pos 100000) (pos 15768000) ≡ ok half_quote
unfolding quote mul_div_floor checked_mul_i128 ◌*ℤ◌ ◌/ℤ◌ checked_add ◌+ℤ◌ checked_sub ◌-ℤ◌
half_run = refl

absorbed :
    quote (record terms { reserve_contribution_ppm = pos 950000 }) (pos 100000) year
    ≡ err Error.rates_absorb_mint
unfolding quote mul_div_floor checked_mul_i128 ◌*ℤ◌ ◌/ℤ◌ checked_add ◌+ℤ◌
absorbed = refl

gross-IsI64 : IsI64 (pos 100000)
gross-IsI64 = ground arith

quote_splits_example :
    (pos 85000 +ℤ pos 10000 +ℤ pos 5000 ≡ pos 100000)
    × (pos 1 ≤ℤ pos 85000)
    × IsFloor (pos 100000) (pos 100000) ppm (pos 10000)
    × IsFloor (pos 100000) (pos 50000) ppm (pos 5000)
quote_splits_example = quote_splits terms (pos 100000) year whole_quote gross-IsI64 whole_run

close_burns_debt_example :
    (close_quote whole_quote
      ≡ ok (record {
        user_burn_kusd = pos 85000 +ℤ pos 5000;
        assigned_reserve_burn_kusd = pos 10000;
      }))
    × (pos 85000 +ℤ pos 5000 +ℤ pos 10000 ≡ pos 100000)
    × (reserve_credit whole_quote ≡ ok (pos 100000 -ℤ pos 85000))
close_burns_debt_example =
    close_burns_debt terms (pos 100000) year whole_quote gross-IsI64 whole_run
