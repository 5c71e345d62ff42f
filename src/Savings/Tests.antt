-- ===== src/Savings/Tests.antt =====
-- Runs of src/savings.rs and the theorems at these runs.
use kusd.Base.{◌+◌, ◌<◌, ◌≡◌, refl, ok, err, ◌*◌, ◌≤◌}
use kusd.Int.{pos, ◌+ℤ◌, ◌≤ℤ◌, ◌*ℤ◌, checked_mul_i128, wrap_i64, ◌/ℤ◌, ◌-ℤ◌}
use kusd.Equity.MulDiv.{IsFloor}
use kusd.Savings.{ppm, SavingsYield, Error, mul_div_floor, calculate_yield}
use kusd.Savings.Documented.{documented_gross, gross_against_documented}
use kusd.Savings.Yield.{yield_splits}

abbrev half_year : SavingsYield
half_year = record {
  annual_interest = pos 5000;
  gross_interest = pos 2500;
  referral_fee = pos 250;
  net_interest = pos 2250;
}

abbrev one_year : SavingsYield
one_year = record {
  annual_interest = pos 5000;
  gross_interest = pos 5000;
  referral_fee = pos 500;
  net_interest = pos 4500;
}

half_run : calculate_yield (pos 100000) (pos 50000) (pos 50) (pos 100) (pos 100000) ≡ ok half_year
unfolding calculate_yield mul_div_floor checked_mul_i128 ◌*ℤ◌ ◌/ℤ◌ wrap_i64 ◌-ℤ◌
half_run = refl

year_run : calculate_yield (pos 100000) (pos 50000) (pos 100) (pos 100) (pos 100000) ≡ ok one_year
unfolding calculate_yield mul_div_floor checked_mul_i128 ◌*ℤ◌ ◌/ℤ◌ wrap_i64 ◌-ℤ◌
year_run = refl

too_much_referral :
    calculate_yield (pos 100000) (pos 50000) (pos 50) (pos 100) (pos 250001)
    ≡ err Error.invalid_referral
unfolding calculate_yield
too_much_referral = refl

yield_splits_example :
    IsFloor (pos 100000) (pos 50000) ppm (pos 5000)
    × IsFloor (pos 5000) (pos 50) (pos 100) (pos 2500)
    × IsFloor (pos 2500) (pos 100000) ppm (pos 250)
    × (pos 2250 +ℤ pos 250 ≡ pos 2500)
    × (pos 0 ≤ℤ pos 2250)
    × (4 * 250 ≤ 2500)
yield_splits_example =
    yield_splits (pos 100000) (pos 50000) (pos 50) (pos 100) (pos 100000) half_year half_run

-- Half an atom a year, for two years: the document pays one atom, the code none.
abbrev nothing : SavingsYield
nothing = record {
  annual_interest = pos 0;
  gross_interest = pos 0;
  referral_fee = pos 0;
  net_interest = pos 0;
}

nothing_run : calculate_yield (pos 100) (pos 5000) (pos 2000) (pos 1000) (pos 0) ≡ ok nothing
unfolding calculate_yield mul_div_floor checked_mul_i128 ◌*ℤ◌ ◌/ℤ◌ wrap_i64 ◌-ℤ◌
nothing_run = refl

documented_one : documented_gross 100 5000 2000 1000 ≡ 1
documented_one = refl

gross_against_documented_example :
    (0 ≤ documented_gross 100 5000 2000 1000)
    × (documented_gross 100 5000 2000 1000 * 1000 < (0 + 1) * 1000 + 2000)
gross_against_documented_example =
    gross_against_documented (pos 100) (pos 5000) (pos 2000) (pos 1000) (pos 0) nothing nothing_run
