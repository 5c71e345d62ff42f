-- ===== src/SavingsProtocol/ReserveCalls.antt =====
-- The calls of src/savings_protocol.rs on the Reserve.
use kusd.Base.{true, false, not, ◌||◌, ◌==◌, [], ◌∷◌, length, ok_or, Result, ◌>>=◌, ◌>>◌, reject_if}
use kusd.Int.{ℤ, pos, leb_ℤ, checked_add}
use kusd.Order.{text}
use kusd.SavingsProtocol.{Bytes, ProtocolParams, Compiler, SavingsParams}
use kusd.Protocol.Args.{zeros}
use kusd.Protocol.Validate.{Error}
use kusd.SavingsProtocol.Args.{reserve_args}
use kusd.Protocol.Compile.{source}
use kusd.SavingsProtocol.Compile.{compile_for_call, compile_stack}
use kusd.Protocol.States.{token_state_expr}
use kusd.Protocol.Calls.{covenant_call}
use kusd.SavingsProtocol.States.{token_state, reserve_state_expr}

module _ (c : Compiler) where
  unfoldable pub base_reserve_collect_proposal_fee_call :
      (base : ProtocolParams) (savings : SavingsParams) (proposal_id : Bytes) (fee_amount : ℤ)
      → Result Error Bytes
  base_reserve_collect_proposal_fee_call base savings proposal_id fee_amount = do
    reject_if (not ((length proposal_id) == 32) || leb_ℤ fee_amount (pos 0))
        (Error.refused (text "invalid proposal ID or proposal fee"))
    stack ← compile_stack c base savings
    src ← source c (text "contracts/equity-reserve.sil")
    contract ← compile_for_call c (text "EquityReserve") src (
        reserve_args c base savings stack.base.kcc stack.base.kps stack.base.auction stack.account
          stack.controller stack.registry)
    reserve_kusd ←
        ok_or (checked_add base.reserve_kusd fee_amount)
          (Error.refused (text "overflow proposal fee"))
    let next : ProtocolParams = record base { reserve_kusd = reserve_kusd }
    covenant_call c contract (text "collectProposalFeePolicy")
        (reserve_state_expr c next stack (text "State")
          ∷ c.bytes proposal_id
          ∷ c.int fee_amount
          ∷ token_state c (text "TokenState") (record {
            owner = base.reserve_id;
            identifier_type = 2;
            amount = next.reserve_kusd;
            is_minter = false;
          })
          ∷ [])
        false

  unfoldable pub base_reserve_initialize_call :
      (base : ProtocolParams) (savings : SavingsParams) (reserve_id : Bytes) (depositor : Bytes)
      (deposit_amount : ℤ)
      → Result Error Bytes
  base_reserve_initialize_call base savings reserve_id depositor deposit_amount = do
    stack ← compile_stack c base savings
    src ← source c (text "contracts/equity-reserve.sil")
    let previous : ProtocolParams = record base {
      kps_id = zeros 32;
      reserve_kusd = pos 0;
      total_kps = pos 0;
      reserve_collateral_sompi = pos 0;
    }
    contract ← compile_for_call c (text "EquityReserve") src (
        reserve_args c previous savings stack.base.kcc stack.base.kps stack.base.auction
          stack.account stack.controller stack.registry)
    covenant_call c contract (text "initializePolicy")
        (reserve_state_expr c base stack (text "State")
          ∷ c.bytes depositor
          ∷ c.int deposit_amount
          ∷ token_state_expr c reserve_id 2 deposit_amount false (text "TokenState")
          ∷ token_state_expr c reserve_id 2 (pos 0) true (text "TokenState")
          ∷ token_state_expr c depositor 0 deposit_amount false (text "TokenState")
          ∷ [])
        true
