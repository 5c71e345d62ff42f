-- ===== src/SavingsProtocol/Stuck.antt =====
-- A Position whose assigned reserve exceeds its debt, which src/savings_protocol.rs can reach and has no
-- call for.
use kusd.Base.{ℕ, ◌-◌, ◌≤◌, ◌<◌, ◌≡◌, ◌≢◌, refl, true, false, ◌||◌, ok, bind-ok, reject_if, arith}
use kusd.Int.{ℤ, pos, ltb_ℤ, leb_ℤ}
use kusd.Order.{text}
use kusd.SavingsProtocol.{Bytes, ProtocolParams, Compiler, SavingsParams}
use kusd.Protocol.Validate.{Error, rejects_economics}
use kusd.SavingsProtocol.InRange.{over_debt, compile_stack-InRange}
use kusd.SavingsProtocol.Compile.{compile_stack}
use kusd.SavingsProtocol.Repayment.{repaid, base_position_repay_call}
use kusd.SavingsProtocol.Repaid.{Numbers, part_of, repaid_by, part_burn}

module _ (c : Compiler) where
  call_accepts :
      (base : ProtocolParams) (savings : SavingsParams) (amount : ℤ) (script : Bytes)
      → base_position_repay_call c base savings amount ≡ ok script
      → rejects_economics base ≡ false
  unfolding base_position_repay_call
  call_accepts base savings amount script h =
      bind-ok
        (reject_if (leb_ℤ amount (pos 0) || ltb_ℤ base.debt amount)
          (Error.refused (text "invalid repayAmount")))
        h
        λ _ _ h1.
          bind-ok (compile_stack c base savings) h1
            λ stack made _. compile_stack-InRange c base savings stack made

-- The rounding of partial repayments is in favour of the reserve, and can leave an assigned reserve that
-- exceeds the debt. Where the amount is less than the debt and the rate's part of it is too small, the
-- Position after the repayment is computed, its parameters are refused as out of range, and whatever the
-- compiler, there is then no amount for which the call of a repayment is built.
pub repay_can_strand :
    (base : ProtocolParams) (d s r a : ℕ)
    → Numbers base d s r
    → a < d
    → part_of a r ≤ s
    → d - a < s - part_of a r
    → (next : ProtocolParams) × (repaid base (pos a) ≡ ok next)
      × (rejects_economics next ≡ true)
      × ((c : Compiler) (savings : SavingsParams) (amount : ℤ) (script : Bytes)
          → base_position_repay_call c next savings amount ≢ ok script)
repay_can_strand base d s r a n less burn_le over =
    let next : ProtocolParams = record base {
      debt = pos (d - a);
      assigned_reserve = pos (s - part_of a r);
    } in
    let out : rejects_economics next ≡ true =
      over_debt next (d - a) (s - part_of a r) r
        (record {
          debt = refl;
          assigned = refl;
          rate = n.rate;
          rate_below = n.rate_below;
          debt_fits = omega (arith, n.debt_fits);
          assigned_fits = omega (arith, n.assigned_fits);
        })
        over in
    (
      next,
      repaid_by base d s r a n (part_of a r) (part_burn base d s r a n less) (omega arith) burn_le,
      out,
      λ c savings amount script h. ground (arith, out, call_accepts c next savings amount script h),
    )
