-- ===== src/SavingsProtocol/GovernorCalls.antt =====
-- The calls of src/savings_protocol.rs on the Registry, the Governor and its proposals.
use kusd.Base.{ℕ, true, false, not, ◌||◌, [], ◌∷◌, Result, ◌>>=◌, ◌>>◌, reject_if}
use kusd.Order.{text, text_eq}
use kusd.SavingsProtocol.{Bytes, ProtocolParams, Compiler, SavingsParams}
use kusd.Protocol.Args.{zeros}
use kusd.Protocol.Validate.{Error}
use kusd.SavingsProtocol.Args.{proposal_args, governor_args}
use kusd.Protocol.Compile.{source}
use kusd.SavingsProtocol.Compile.{compile_for_call, compile_stack}
use kusd.Protocol.Calls.{covenant_call, entry_call}
use kusd.SavingsProtocol.States.{registry_state_expr, proposal_state_expr, governor_state_expr}

module _ (c : Compiler) where
  unfoldable pub registry_initialize_call :
      (prev : SavingsParams) (next : SavingsParams) (owner_signature : Bytes) → Result Error Bytes
  registry_initialize_call prev next owner_signature = do
    reject_if (not (text_eq prev.controller_id (zeros 32)) || text_eq next.controller_id (zeros 32))
        (Error.refused (text "invalid Registry initialization"))
    src ← source c (text "contracts/savings-registry.sil")
    contract ←
        compile_for_call c (text "SavingsRegistry") src
          (c.bytes prev.owner ∷ c.bytes prev.controller_id ∷ c.bool false ∷ [])
    covenant_call c contract (text "initializePolicy")
        (registry_state_expr c next true (text "State") ∷ c.bytes owner_signature ∷ []) true

  unfoldable pub registry_preserve_call : (p : SavingsParams) → Result Error Bytes
  registry_preserve_call p = do
    src ← source c (text "contracts/savings-registry.sil")
    contract ←
        compile_for_call c (text "SavingsRegistry") src
          (c.bytes p.owner ∷ c.bytes p.controller_id ∷ c.bool true ∷ [])
    covenant_call c contract (text "preservePolicy")
        (registry_state_expr c p true (text "State") ∷ []) true

  unfoldable pub governor_propose_call :
      (base : ProtocolParams) (prev : SavingsParams) (next : SavingsParams) (proposal_output : ℕ)
      → Result Error Bytes
  governor_propose_call base prev next proposal_output = do
    stack ← compile_stack c base prev
    src ← source c (text "contracts/savings-governor.sil")
    contract ← compile_for_call c (text "SavingsGovernor") src (
        governor_args c prev base stack.proposal stack.base.kps stack.base.delegation stack.reserve)
    covenant_call c contract (text "proposeSeriesPolicy")
        (governor_state_expr c base next stack (text "State")
          ∷ c.byte proposal_output
          ∷ proposal_state_expr c base next false (text "ProposalState")
          ∷ [])
        true

  unfoldable pub proposal_activate_call :
      (base : ProtocolParams) (p : SavingsParams) → Result Error Bytes
  proposal_activate_call base p = do
    src ← source c (text "contracts/savings-proposal.sil")
    contract ← compile_for_call c (text "SavingsProposal") src (proposal_args c p base false)
    covenant_call c contract (text "activatePolicy")
        (proposal_state_expr c base p true (text "State") ∷ []) true

  unfoldable pub governor_execute_call :
      (base : ProtocolParams) (prev : SavingsParams) (next : SavingsParams) (proposal_input : ℕ)
      → Result Error Bytes
  governor_execute_call base prev next proposal_input = do
    stack ← compile_stack c base prev
    src ← source c (text "contracts/savings-governor.sil")
    contract ← compile_for_call c (text "SavingsGovernor") src (
        governor_args c prev base stack.proposal stack.base.kps stack.base.delegation stack.reserve)
    covenant_call c contract (text "executeSeriesPolicy")
        (governor_state_expr c base next stack (text "State")
          ∷ c.byte proposal_input
          ∷ proposal_state_expr c base prev true (text "ProposalState")
          ∷ [])
        true

  unfoldable pub proposal_execute_call :
      (base : ProtocolParams) (p : SavingsParams) (refund_output : ℕ) → Result Error Bytes
  proposal_execute_call base p refund_output = do
    src ← source c (text "contracts/savings-proposal.sil")
    contract ← compile_for_call c (text "SavingsProposal") src (proposal_args c p base true)
    entry_call c contract (text "executePolicy") (c.byte refund_output ∷ [])
