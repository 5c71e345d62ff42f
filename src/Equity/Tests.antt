-- ===== src/Equity/Tests.antt =====
-- Runs of src/equity.rs, after the tests of that file, and the theorems at these runs.
use kusd.Base.{ℕ, ◌≡◌, refl, inl, ok, err, ◌+◌, ◌*◌, arith}
use kusd.Int.{
  pos, ◌+ℤ◌, ◌-ℤ◌, ◌≤ℤ◌, ◌*ℤ◌, wrap_u64, checked_mul_i128, sub_u64, wrap_i64, checked_add, ◌/ℤ◌,
  checked_add_u64, checked_sub,
}
use kusd.Equity.{
  EquityState, empty, deposit, redeem, backstop_with_assigned, minted_shares, collateral_share,
  kusd_share,
}
use kusd.Equity.MulDiv.{Error, mul_div_floor}
use kusd.Equity.Effects.{IsValid, Floors}
use kusd.Equity.Shares.{
  KeepsPrice, KeepsCollateral, deposit-KeepsPrice, redeem-KeepsPrice, deposit_then_redeem,
  redeem_all,
}
use kusd.Equity.Backstop.{backstop_covers, backstop_threshold}
use kusd.Equity.Orphans.{holding, backstop_orphans_collateral}

-- Three KUSD a share.
abbrev rich : EquityState
rich = record { reserve_kusd = pos 300; total_kps = pos 100; collateral_sompi = 0 }

abbrev richer : EquityState
richer = record { reserve_kusd = pos 400; total_kps = pos 133; collateral_sompi = 0 }

abbrev mixed : EquityState
mixed = record { reserve_kusd = pos 1000; total_kps = pos 1000; collateral_sompi = 500 }

abbrev mixed_less : EquityState
mixed_less = record { reserve_kusd = pos 750; total_kps = pos 750; collateral_sompi = 375 }

abbrev backed : EquityState
backed = record { reserve_kusd = pos 190; total_kps = pos 100; collateral_sompi = 5000 }

rich-IsValid : IsValid rich
rich-IsValid = ground arith

mixed-IsValid : IsValid mixed
mixed-IsValid = ground arith

empty-IsValid : IsValid empty
empty-IsValid = ground arith

first_deposit :
    deposit empty (pos 1000)
    ≡ ok (record empty { reserve_kusd = pos 1000; total_kps = pos 1000 }, pos 1000)
unfolding deposit minted_shares checked_add ◌+ℤ◌
first_deposit = refl

deposit_run : deposit rich (pos 100) ≡ ok (richer, pos 33)
unfolding deposit minted_shares mul_div_floor checked_mul_i128 ◌*ℤ◌ ◌/ℤ◌ checked_add ◌+ℤ◌
deposit_run = refl

rich_run :
    redeem richer (pos 33)
    ≡ ok (record { reserve_kusd = pos 301; total_kps = pos 100; collateral_sompi = 0 }, pos 99, 0)
unfolding redeem kusd_share collateral_share mul_div_floor checked_mul_i128 ◌*ℤ◌ ◌/ℤ◌ wrap_i64
    sub_u64 wrap_u64 ◌-ℤ◌
rich_run = refl

mixed_run : redeem mixed (pos 250) ≡ ok (mixed_less, pos 250, 125)
unfolding redeem kusd_share collateral_share mul_div_floor checked_mul_i128 ◌*ℤ◌ ◌/ℤ◌ wrap_i64
    sub_u64 wrap_u64 ◌-ℤ◌
mixed_run = refl

rich_backstop :
    backstop_with_assigned rich (pos 200) (pos 100) (pos 50000) 5000 ≡ ok (backed, pos 10)
unfolding backstop_with_assigned mul_div_floor checked_mul_i128 ◌*ℤ◌ ◌/ℤ◌ checked_sub ◌-ℤ◌
    checked_add ◌+ℤ◌ checked_add_u64 wrap_i64
rich_backstop = refl

deposit-KeepsPrice_example :
    IsValid richer
    × KeepsPrice rich richer
    × (richer.reserve_kusd ≡ rich.reserve_kusd +ℤ pos 100)
    × (richer.total_kps ≡ rich.total_kps +ℤ pos 33)
    × (pos 1 ≤ℤ pos 33)
deposit-KeepsPrice_example =
    deposit-KeepsPrice rich richer (pos 100) (pos 33) rich-IsValid deposit_run

redeem-KeepsPrice_example :
    IsValid mixed_less
    × KeepsPrice mixed mixed_less
    × KeepsCollateral mixed mixed_less
    × (mixed_less.reserve_kusd +ℤ pos 250 ≡ mixed.reserve_kusd)
    × (mixed_less.total_kps +ℤ pos 250 ≡ mixed.total_kps)
    × (mixed_less.collateral_sompi + 125 ≡ mixed.collateral_sompi)
redeem-KeepsPrice_example =
    redeem-KeepsPrice mixed mixed_less (pos 250) (pos 250) 125 mixed-IsValid mixed_run

abbrev no_kas : ℕ
no_kas = 0

deposit_then_redeem_example :
    (pos 99 ≤ℤ pos 100) × (no_kas ≡ 0) × (rich.reserve_kusd ≤ℤ pos 301) × (pos 100 ≡ rich.total_kps)
deposit_then_redeem_example =
    deposit_then_redeem rich richer
      (record { reserve_kusd = pos 301; total_kps = pos 100; collateral_sompi = 0 }) (pos 100)
      (pos 33) (pos 99) no_kas rich-IsValid deposit_run rich_run

redeem_all_example : redeem mixed (pos 1000) ≡ ok (empty, pos 1000, 500)
redeem_all_example = redeem_all mixed mixed-IsValid (omega arith) (inl (omega arith))

backstop_covers_example :
    IsValid backed
    × (backed.reserve_kusd +ℤ (pos 200 -ℤ pos 100) +ℤ pos 10 ≡ rich.reserve_kusd)
    × (backed.total_kps ≡ rich.total_kps)
    × (backed.collateral_sompi ≡ rich.collateral_sompi + 5000)
    × (pos 100 ≤ℤ pos 200)
    × Floors (200 * 50000) 1000000 10
backstop_covers_example =
    backstop_covers rich backed (pos 200) (pos 100) (pos 50000) (pos 10) 5000 rich-IsValid
      rich_backstop

-- 310 is more than the Reserve has.
backstop_threshold_example :
    backstop_with_assigned rich (pos 400) (pos 110) (pos 50000) 5000
    ≡ err Error.insufficient_reserve
backstop_threshold_example =
    backstop_threshold rich 400 110 50000 5000 rich-IsValid (omega arith) (omega arith)
      (omega arith) (omega arith) (omega arith) (omega arith) (omega arith)

backstop_orphans_collateral_example :
    (backstop_with_assigned empty (pos 9) (pos 9) (pos 100000) 700 ≡ ok (holding 700, pos 0))
    × (deposit (holding 700) (pos 5) ≡ err Error.invalid_deposit)
    × (redeem (holding 700) (pos 5) ≡ err Error.invalid_redemption)
backstop_orphans_collateral_example =
    backstop_orphans_collateral 9 100000 700 (pos 5) (pos 5) (omega arith) (omega arith)
      (omega arith) (omega arith) (omega arith) (omega arith)
