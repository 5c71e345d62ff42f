-- ===== src/Protocol/ReserveCalls.antt =====
-- The calls of src/protocol.rs on the Reserve.
use kusd.Base.{
  true, false, not, ◌||◌, ◌==◌, [], ◌∷◌, length, ok_or, map_err, Result, ◌>>=◌, ◌>>◌, reject_if,
}
use kusd.Int.{ℤ, pos, leb_ℤ, checked_add}
use kusd.Order.{text}
use kusd.Protocol.{Bytes, ProtocolParams, Compiler}
use kusd.Protocol.Args.{zeros, reserve_args}
use kusd.Protocol.Validate.{Error}
use kusd.Silverscript.Encode.{compile_contract}
use kusd.Protocol.Compile.{source, compile_stack}
use kusd.Protocol.States.{token_state_expr, reserve_state_expr}
use kusd.Protocol.Calls.{covenant_call}

module _ (c : Compiler) where
  unfoldable pub reserve_governance_checkpoint_call : (p : ProtocolParams) → Result Error Bytes
  reserve_governance_checkpoint_call p = do
    stack ← compile_stack c p
    src ← source c (text "contracts/equity-reserve-base.sil")
    contract ← map_err Error.call_failed (
        compile_contract c src
          (reserve_args c p stack p.reserve_kusd p.total_kps p.reserve_collateral_sompi))
    covenant_call c contract (text "governanceCheckpointPolicy")
        (reserve_state_expr c p stack (text "State") ∷ []) true

  unfoldable pub reserve_collect_proposal_fee_call :
      (p : ProtocolParams) (proposal_id : Bytes) (fee_amount : ℤ) → Result Error Bytes
  reserve_collect_proposal_fee_call p proposal_id fee_amount = do
    reject_if (not ((length proposal_id) == 32) || leb_ℤ fee_amount (pos 0))
        (Error.refused (text "invalid proposal ID or proposal fee"))
    stack ← compile_stack c p
    src ← source c (text "contracts/equity-reserve-base.sil")
    contract ← map_err Error.call_failed (
        compile_contract c src
          (reserve_args c p stack p.reserve_kusd p.total_kps p.reserve_collateral_sompi))
    reserve_kusd ←
        ok_or (checked_add p.reserve_kusd fee_amount) (Error.refused (text "overflow proposal fee"))
    let next : ProtocolParams = record p { reserve_kusd = reserve_kusd }
    covenant_call c contract (text "collectProposalFeePolicy")
        (reserve_state_expr c next stack (text "State")
          ∷ c.bytes proposal_id
          ∷ c.int fee_amount
          ∷ token_state_expr c p.reserve_id 2 next.reserve_kusd false (text "TokenState")
          ∷ [])
        false

  unfoldable pub reserve_initialize_call :
      (p : ProtocolParams) (reserve_id : Bytes) (depositor : Bytes) (deposit_amount : ℤ)
      → Result Error Bytes
  reserve_initialize_call p reserve_id depositor deposit_amount = do
    stack ← compile_stack c p
    src ← source c (text "contracts/equity-reserve-base.sil")
    let previous : ProtocolParams = record p {
      kps_id = zeros 32;
      reserve_kusd = pos 0;
      total_kps = pos 0;
      reserve_collateral_sompi = pos 0;
    }
    contract ←
        map_err Error.call_failed
          (compile_contract c src (reserve_args c previous stack (pos 0) (pos 0) (pos 0)))
    covenant_call c contract (text "initializePolicy")
        (reserve_state_expr c p stack (text "State")
          ∷ c.bytes depositor
          ∷ c.int deposit_amount
          ∷ token_state_expr c reserve_id 2 deposit_amount false (text "TokenState")
          ∷ token_state_expr c reserve_id 2 (pos 0) true (text "TokenState")
          ∷ token_state_expr c depositor 0 deposit_amount false (text "TokenState")
          ∷ [])
        true
