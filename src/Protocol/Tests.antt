-- ===== src/Protocol/Tests.antt =====
-- Runs of src/protocol.rs with a compiler whose code is the path of the contract, and the theorems
-- at these runs.
use kusd.Fees.{quote}
use kusd.Base.{ℕ, ◌≡◌, ◌≤◌, ◌<◌, refl, ok, err, arith}
use kusd.Equity.MulDiv.{IsFloor, mul_div_floor}
use kusd.Protocol.Opening.{open_terms}
use kusd.Protocol.Opened.{open_splits}
use kusd.Int.{
  ◌+ℤ◌, ◌≤ℤ◌, checked_sub, ◌-ℤ◌, pos, checked_add, ◌/ℤ◌, wrap_i64, ◌*ℤ◌, checked_mul_i128,
}
use kusd.Order.{text, text_eq, cmp_text}
use kusd.Silverscript.Sample.{compiler}
use kusd.Protocol.Sample.{params, governance, stack, governed}
use kusd.Silverscript.Encode.{compile_contract}
use kusd.Protocol.Args.{zeros, truncate}
use kusd.Protocol.Votes.{weighted_kps_votes, required_weighted_kps_votes}
use kusd.Protocol.Thresholds.{part_rounded_up, required_votes_exact, quorum_reachable}
use kusd.Protocol.Validate.{
  rejects_governance, Error, validate, validate_governance, rejects_economics, check_lengths,
}
use kusd.Protocol.Compile.{
  source, compile_governance_stack_with_base, compile_stack, compile_governance_stack,
  split_artifact, compile_reserve_pair, compile_tokens, changed, compile_position_pair, drop,
  compile,
}
use kusd.Protocol.Fixpoint.{Settled, compile_stack-Settled}

stack_run : compile_stack compiler params ≡ ok stack
unfolding compile_stack validate check_lengths zeros rejects_economics compile_tokens compile source
    compile_contract split_artifact compile_reserve_pair changed text_eq cmp_text truncate drop
    compile_position_pair
stack_run = refl

governed_run : compile_governance_stack compiler params governance ≡ ok governed
unfolding compile_stack validate check_lengths zeros rejects_economics compile_tokens compile source
    compile_contract split_artifact compile_reserve_pair changed text_eq cmp_text truncate drop
    compile_position_pair compile_governance_stack compile_governance_stack_with_base checked_sub
    ◌-ℤ◌ rejects_governance validate_governance
governed_run = refl

short_owner :
    compile_stack compiler (record params { owner = zeros 31 })
    ≡ err (Error.bytes_required (text "owner"))
unfolding compile_stack validate check_lengths zeros
short_owner = refl

compile_stack-Settled_example : (validate params ≡ ok tt) × Settled compiler params stack
compile_stack-Settled_example = compile_stack-Settled compiler params stack stack_run

-- A fifth of three shares at weight two is 1.2 votes.
required_votes_exact_example :
    (required_weighted_kps_votes (pos 3) (pos 2) (pos 200000) ≡ ok (pos (part_rounded_up 6 200000)))
    × (0 < part_rounded_up 6 200000)
    × (part_rounded_up 6 200000 ≤ 6)
required_votes_exact_example =
    required_votes_exact 3 2 200000 (omega arith) (omega arith) (omega arith) (omega arith)
      (omega arith) (omega arith)

quorum_reachable_example :
    (power : ℕ) × (needed : ℕ) × (weighted_kps_votes (pos 3) (pos 2) (pos 2) ≡ ok (pos power))
    × (required_weighted_kps_votes (pos 3) (pos 2) (pos 200000) ≡ ok (pos needed))
    × (needed ≤ power)
quorum_reachable_example =
    quorum_reachable 3 2 200000 (omega arith) (omega arith) (omega arith) (omega arith)
      (omega arith) (omega arith)

open_run :
    open_terms (text "incompatible") params
    ≡ ok (record { contribution = pos 10; fee = pos 0; usable = pos 90 })
unfolding open_terms quote wrap_i64 ◌-ℤ◌ mul_div_floor checked_mul_i128 ◌*ℤ◌ ◌/ℤ◌ checked_add ◌+ℤ◌
    checked_sub
open_run = refl

open_splits_example :
    (pos 90 +ℤ pos 10 +ℤ pos 0 ≡ params.debt)
    × (pos 1 ≤ℤ pos 90)
    × (pos 10 ≡ params.assigned_reserve)
    × IsFloor params.debt params.reserve_contribution_ppm (pos 1000000) params.assigned_reserve
open_splits_example =
    open_splits (text "incompatible") params
      (record { contribution = pos 10; fee = pos 0; usable = pos 90 }) (omega arith, omega arith)
      open_run
