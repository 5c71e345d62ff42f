-- ===== src/SavingsProtocol/AmountTests.antt =====
-- Runs of the calls of src/savings_protocol.rs that compute amounts, and the theorems at these runs.
use kusd.Base.{ℕ, ◌≡◌, ◌≢◌, ◌≤◌, ◌<◌, ◌-◌, ◌*◌, ◌⊎◌, refl, true, ok, err, arith}
use kusd.Int.{
  ℤ, pos, negsuc, i64_max, u64_mod, pos_part, checked_sub, ◌*ℤ◌, ◌-ℤ◌, ◌/ℤ◌, wrap_i64, ◌%ℤ◌,
  checked_mul_i128, ◌+ℤ◌,
}
use kusd.Order.{text}
use kusd.SavingsProtocol.{Bytes, ProtocolParams, Compiler, SavingsParams}
use kusd.Silverscript.Sample.{compiler}
use kusd.Protocol.Sample.{params}
use kusd.Protocol.Validate.{Error, rejects_economics}
use kusd.Equity.{redeem}
use kusd.Equity.MulDiv
use kusd.SavingsProtocol.Repayment.{repaid, base_position_repay_call, assigned_burn}
use kusd.SavingsProtocol.Repaid.{Numbers}
use kusd.SavingsProtocol.Stuck.{repay_can_strand}
use kusd.SavingsProtocol.Redemption.{Redemption, redeemed, redeemed_part}
use kusd.SavingsProtocol.Redeemed.{Reserved, equity_of, redeemed_refines}
use kusd.SavingsProtocol.Settlement.{settle_reward, owner_surplus, collateral_price}
use kusd.SavingsProtocol.AuctionCalls.{backstop_reward}
use kusd.SavingsProtocol.Settled.{
  Auctioned, floor_of, value_of, surplus_declines, backstop_reward_wraps,
}
use kusd.SavingsProtocol.Sample.{savings}

-- Two atoms of debt and two of assigned reserve, which eighteen repayments of one atom leave of a debt of
-- twenty at ten percent.
abbrev dust : ProtocolParams
dust = record params { debt = pos 2; assigned_reserve = pos 2 }

abbrev holding : ProtocolParams
holding = record params {
  reserve_kusd = pos 1000;
  total_kps = pos 100;
  reserve_collateral_sompi = pos 7;
}

abbrev auctioned : ProtocolParams
auctioned = record params { collateral_sompi = pos 10000000000 }

abbrev large : ProtocolParams
large = record auctioned { debt = pos 500000000000000 }

repaid_run : repaid params (pos 55) ≡ ok (record params { debt = pos 45; assigned_reserve = pos 5 })
unfolding repaid checked_sub ◌-ℤ◌ assigned_burn wrap_i64 ◌+ℤ◌ ◌*ℤ◌ ◌/ℤ◌ ◌%ℤ◌
repaid_run = refl

repaid_all : repaid params (pos 100) ≡ ok (record params { debt = pos 0; assigned_reserve = pos 0 })
unfolding repaid checked_sub ◌-ℤ◌ assigned_burn
repaid_all = refl

-- The check of the source does not see a reserve below zero.
repaid_below :
    repaid (record params { assigned_reserve = pos 0 }) (pos 55)
    ≡ ok (record params { debt = pos 45; assigned_reserve = negsuc 4 })
unfolding repaid checked_sub ◌-ℤ◌ assigned_burn wrap_i64 ◌+ℤ◌ ◌*ℤ◌ ◌/ℤ◌ ◌%ℤ◌
repaid_below = refl

repay_more :
    base_position_repay_call compiler params savings (pos 101)
    ≡ err (Error.refused (text "invalid repayAmount"))
unfolding base_position_repay_call
repay_more = refl

surplus_run : owner_surplus auctioned (pos 5) ≡ ok (pos 81)
unfolding owner_surplus collateral_price checked_mul_i128 ◌*ℤ◌ ◌/ℤ◌ MulDiv.mul_div_floor wrap_i64
    ◌-ℤ◌ ◌+ℤ◌ settle_reward ◌%ℤ◌
surplus_run = refl

surplus_late :
    owner_surplus auctioned (pos 21)
    ≡ err (Error.refused (text "elapsed DAA exceeds the Auction duration"))
unfolding owner_surplus
surplus_late = refl

redeemed_run :
    redeemed holding (pos 30)
    ≡ ok (record {
      next = record holding {
        reserve_kusd = pos 700;
        total_kps = pos 70;
        reserve_collateral_sompi = pos 5;
      };
      payout = pos 300;
      payout_kas = pos 2;
    })
unfolding redeemed redeemed_part checked_mul_i128 ◌*ℤ◌ ◌/ℤ◌ wrap_i64 ◌-ℤ◌
redeemed_run = refl

dust-Numbers : Numbers dust 2 2 100000
dust-Numbers = record {
  debt = refl;
  assigned = refl;
  rate = refl;
  rate_below = omega arith;
  debt_fits = omega arith;
  assigned_fits = omega arith;
}

auctioned-Auctioned : Auctioned auctioned 100 10 20000 10000000000 2 20
auctioned-Auctioned = record {
  debt = refl;
  assigned = refl;
  rate = refl;
  collateral = refl;
  price = refl;
  duration = refl;
  assigned_le = omega arith;
  rate_below = omega arith;
  duration_positive = omega arith;
  debt_fits = omega arith;
  collateral_fits = omega arith;
  price_fits = omega arith;
  duration_fits = omega arith;
}

large-Auctioned : Auctioned large 500000000000000 10 20000 10000000000 2 20
large-Auctioned = record {
  debt = refl;
  assigned = refl;
  rate = refl;
  collateral = refl;
  price = refl;
  duration = refl;
  assigned_le = omega arith;
  rate_below = omega arith;
  duration_positive = omega arith;
  debt_fits = omega arith;
  collateral_fits = omega arith;
  price_fits = omega arith;
  duration_fits = omega arith;
}

holding-Reserved : Reserved holding 1000 100 7
holding-Reserved = record {
  reserve = refl;
  total = refl;
  collateral = refl;
  reserve_fits = omega arith;
  total_fits = omega arith;
  collateral_fits = omega arith;
}

repay_can_strand_example :
    (next : ProtocolParams) × (repaid dust (pos 1) ≡ ok next)
    × (rejects_economics next ≡ true)
    × ((c : Compiler) (savings' : SavingsParams) (amount : ℤ) (script : Bytes)
        → base_position_repay_call c next savings' amount ≢ ok script)
repay_can_strand_example =
    repay_can_strand dust 2 2 100000 1 dust-Numbers (omega arith) (omega arith) (omega arith)

surplus_declines_example :
    (x : ℕ) × (y : ℕ) × (owner_surplus auctioned (pos 5) ≡ ok (pos x))
    × (owner_surplus auctioned (pos 20) ≡ ok (pos y))
    × (y ≤ x)
    × (◌≡◌ {A = ℕ} 5 0 → x ≡ value_of 10000000000 2 - floor_of 100 10 20000)
    × (◌≡◌ {A = ℕ} 20 20 → y ≡ 0)
surplus_declines_example =
    surplus_declines auctioned 100 10 20000 10000000000 2 20 auctioned-Auctioned 5 20 (omega arith)
      (omega arith) (omega arith) (omega arith)

backstop_reward_wraps_example :
    (500000000000000 * 20000 ≤ i64_max → backstop_reward large ≡ settle_reward large)
    × (i64_max < 500000000000000 * 20000
        → 500000000000000 * 20000 < u64_mod
        → (pos_part (backstop_reward large) ≡ 0) × (backstop_reward large ≢ settle_reward large))
backstop_reward_wraps_example =
    backstop_reward_wraps large 500000000000000 10 20000 10000000000 2 20 large-Auctioned

redeemed_refines_example :
    ((result : Redemption) × (redeemed holding (pos 30) ≡ ok result)
      × (redeem (equity_of holding) (pos 30)
          ≡ ok (equity_of result.next, result.payout, pos_part result.payout_kas)))
    ⊎ ((redeemed holding (pos 30) ≡ err (Error.refused (text "redeem without payment")))
        × (redeem (equity_of holding) (pos 30) ≡ err MulDiv.Error.redemption_zero))
redeemed_refines_example =
    redeemed_refines holding 1000 100 7 30 holding-Reserved (omega arith) (omega arith)
