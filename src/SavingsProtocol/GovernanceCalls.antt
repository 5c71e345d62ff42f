-- ===== src/SavingsProtocol/GovernanceCalls.antt =====
-- The calls of src/savings_protocol.rs on the Governance and the module proposals.
use kusd.Base.{ℕ, true, false, [], ◌∷◌, Result, ◌>>=◌}
use kusd.Int.{pos, ◌+ℤ◌, wrap_i64}
use kusd.Order.{text}
use kusd.SavingsProtocol.{Bytes, ProtocolParams, GovernanceParams, Compiler, SavingsParams}
use kusd.Protocol.Args.{zeros}
use kusd.Protocol.GovernanceArgs.{proposal_args_with_activation, governance_args}
use kusd.Protocol.Validate.{Error}
use kusd.Protocol.Compile.{source}
use kusd.SavingsProtocol.Compile.{compile_for_call, compile_full_stack}
use kusd.Protocol.States.{
  governance_state_expr, proposal_state_expr as module_proposal_state_expr, token_state_expr,
}
use kusd.Protocol.Calls.{covenant_call, entry_call}

module _ (c : Compiler) where
  unfoldable pub base_governance_propose_call :
      (base : ProtocolParams) (savings : SavingsParams) (governance : GovernanceParams)
      (proposal_id : Bytes) (proposal_output_index : ℕ)
      → Result Error Bytes
  base_governance_propose_call base savings governance proposal_id proposal_output_index = do
    stack ← compile_full_stack c base savings governance
    src ← source c (text "contracts/governance.sil")
    contract ← compile_for_call c (text "Governance") src (
        governance_args c base governance stack.base_governance.proposal (zeros 32)
          stack.savings.base)
    let next : GovernanceParams = record governance {
      proposal_nonce = wrap_i64 (governance.proposal_nonce +ℤ (pos 1));
    }
    covenant_call c contract (text "proposeModulePolicy")
        (governance_state_expr c base next proposal_id (text "State")
          ∷ c.byte proposal_output_index
          ∷ module_proposal_state_expr c base next false (text "ProposalState")
          ∷ token_state_expr c proposal_id 2 governance.proposal_fee_kusd false (text "TokenState")
          ∷ [])
        true

  unfoldable pub base_proposal_activate_call :
      (base : ProtocolParams) (savings : SavingsParams) (governance : GovernanceParams)
      → Result Error Bytes
  base_proposal_activate_call base savings governance = do
    stack ← compile_full_stack c base savings governance
    src ← source c (text "contracts/module-proposal.sil")
    contract ←
        compile_for_call c (text "ModuleProposal") src
          (proposal_args_with_activation c base governance stack.savings.base false)
    covenant_call c contract (text "activatePolicy")
        (module_proposal_state_expr c base governance true (text "State") ∷ []) true

  unfoldable pub base_governance_execute_call :
      (base : ProtocolParams) (savings : SavingsParams) (governance : GovernanceParams)
      (active_proposal_id : Bytes)
      → Result Error Bytes
  base_governance_execute_call base savings governance active_proposal_id = do
    stack ← compile_full_stack c base savings governance
    src ← source c (text "contracts/governance.sil")
    contract ← compile_for_call c (text "Governance") src (
        governance_args c base governance stack.base_governance.proposal active_proposal_id
          stack.savings.base)
    let next : GovernanceParams = record governance {
      execution_nonce = wrap_i64 (governance.execution_nonce +ℤ (pos 1));
    }
    covenant_call c contract (text "executeModulePolicy")
        (governance_state_expr c base next (zeros 32) (text "State") ∷ []) true

  unfoldable pub base_proposal_execute_call :
      (base : ProtocolParams) (savings : SavingsParams) (governance : GovernanceParams)
      (refund_output : ℕ) (fee_input : ℕ) (fee_output : ℕ)
      → Result Error Bytes
  base_proposal_execute_call base savings governance refund_output fee_input fee_output = do
    stack ← compile_full_stack c base savings governance
    src ← source c (text "contracts/module-proposal.sil")
    contract ←
        compile_for_call c (text "ModuleProposal") src
          (proposal_args_with_activation c base governance stack.savings.base true)
    entry_call c contract (text "executePolicy") (
        c.byte refund_output
        ∷ token_state_expr c governance.proposer 0 governance.proposal_fee_kusd false
            (text "TokenState")
        ∷ c.byte fee_input
        ∷ c.byte fee_output
        ∷ [])
