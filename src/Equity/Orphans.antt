-- ===== src/Equity/Orphans.antt =====
-- A corner of src/equity.rs: `backstop_with_assigned` has no test on the shares, so it can add
-- collateral to a Reserve that nobody owns.
use kusd.Base.{ℕ, ◌+◌, ◌-◌, ◌/◌, ◌*◌, ◌≤◌, ◌<◌, ◌≡◌, ok, err, arith}
use kusd.Int.{ℤ, pos, u64_mod}
use kusd.Equity.{EquityState, empty, deposit, redeem, backstop_with_assigned}
use kusd.Equity.MulDiv.{Error}
use kusd.Equity.Backstop.{backstop_threshold}

abbrev pub holding : ℕ → EquityState
holding collateral = record {
  reserve_kusd = pos 0;
  total_kps = pos 0;
  collateral_sompi = collateral;
}

orphaned :
    (debt rate collateral : ℕ)
    → 0 < debt
    → debt * rate < 1000000
    → 0 < rate
    → rate ≤ 100000
    → collateral < u64_mod
    → backstop_with_assigned empty (pos debt) (pos debt) (pos rate) collateral
      ≡ ok (holding collateral, pos 0)
orphaned debt rate collateral p q r le fits =
    let small : debt ≤ debt * rate = grind arith in
    let nothing : debt - debt + debt * rate / 1000000 ≡ 0 = omega arith in
    let reward : debt * rate / 1000000 ≡ 0 = omega arith in
    let zero_more : 0 + collateral ≡ collateral = omega arith in
    rw (nothing, reward, zero_more) at
      (backstop_threshold empty debt debt rate collateral (omega arith) p r le (omega arith)
        (omega arith) (omega arith) (omega arith))

-- The empty Reserve accepts a debt that is wholly assigned and whose reward rounds down to zero, and
-- keeps its collateral. From then on every deposit and every redemption is refused.
pub backstop_orphans_collateral :
    (debt rate collateral : ℕ) (amount shares : ℤ)
    → 0 < debt
    → debt * rate < 1000000
    → 0 < rate
    → rate ≤ 100000
    → 0 < collateral
    → collateral < u64_mod
    → (backstop_with_assigned empty (pos debt) (pos debt) (pos rate) collateral
        ≡ ok (holding collateral, pos 0))
      × (deposit (holding collateral) amount ≡ err Error.invalid_deposit)
      × (redeem (holding collateral) shares ≡ err Error.invalid_redemption)
unfolding deposit redeem
backstop_orphans_collateral debt rate collateral amount shares p q r le c fits =
    (orphaned debt rate collateral p q r le fits, ground arith, ground arith)
