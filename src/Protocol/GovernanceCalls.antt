-- ===== src/Protocol/GovernanceCalls.antt =====
-- The calls of src/protocol.rs on the Governance and its proposals.
use kusd.Base.{
  ℕ, Bool, true, false, not, ◌||◌, ◌==◌, ltb, if◌then◌else◌, List, [], ◌∷◌, map, length, ok_or,
  map_err, Result, ok, err, ◌>>=◌, ◌>>◌, reject_if,
}
use kusd.Int.{pos, checked_add}
use kusd.Order.{Text, text, text_eq}
use kusd.Protocol.{Bytes, ProtocolParams, GovernanceParams, GovernanceVote, Compiler}
use kusd.Protocol.Args.{zeros}
use kusd.Protocol.GovernanceArgs.{proposal_args_with_activation, governance_args}
use kusd.Protocol.Validate.{Error}
use kusd.Silverscript.Encode.{compile_contract}
use kusd.Protocol.Compile.{source, compile_governance_stack}
use kusd.Protocol.States.{
  governance_state_expr, proposal_state_expr, delegation_state_expr, token_state_expr,
  reserve_state_expr,
}
use kusd.Protocol.Calls.{covenant_call, entry_call}

module _ (c : Compiler) where
  unfoldable pub governance_propose_module_call :
      (p : ProtocolParams) (g : GovernanceParams) (proposal_id : Bytes) (proposal_output_index : ℕ)
      → Result Error Bytes
  governance_propose_module_call p g proposal_id proposal_output_index = do
    reject_if (not ((length proposal_id) == 32))
        (Error.refused (text "proposal_id: 32 bytes required"))
    stack ← compile_governance_stack c p g
    src ← source c (text "contracts/governance.sil")
    contract ←
        map_err Error.call_failed
          (compile_contract c src (governance_args c p g stack.proposal (zeros 32) stack.base))
    proposal_nonce ←
        ok_or (checked_add g.proposal_nonce (pos 1))
          (Error.refused (text "overflow proposal nonce"))
    let next : GovernanceParams = record g { proposal_nonce = proposal_nonce }
    covenant_call c contract (text "proposeModulePolicy")
        (governance_state_expr c p next proposal_id (text "State")
          ∷ c.byte proposal_output_index
          ∷ proposal_state_expr c p next false (text "ProposalState")
          ∷ token_state_expr c proposal_id 2 g.proposal_fee_kusd false (text "TokenState")
          ∷ [])
        true

  unfoldable pub proposal_activate_call :
      (p : ProtocolParams) (g : GovernanceParams) → Result Error Bytes
  proposal_activate_call p g = do
    src ← source c (text "contracts/module-proposal.sil")
    stack ← compile_governance_stack c p g
    contract ←
        map_err Error.call_failed
          (compile_contract c src (proposal_args_with_activation c p g stack.base false))
    covenant_call c contract (text "activatePolicy")
        (proposal_state_expr c p g true (text "State") ∷ []) true

  unfoldable pub proposal_veto_call :
      (p : ProtocolParams) (g : GovernanceParams) (votes : List GovernanceVote)
      (reserve_input_index : ℕ) (refund_output_index : ℕ)
      → Result Error Bytes
  proposal_veto_call p g votes reserve_input_index refund_output_index = do
    reject_if (length votes == 0 || ltb 8 (length votes))
        (Error.refused (text "a veto requires between 1 and 8 delegations"))
    stack ← compile_governance_stack c p g
    src ← source c (text "contracts/module-proposal.sil")
    contract ←
        map_err Error.call_failed
          (compile_contract c src (proposal_args_with_activation c p g stack.base false))
    let delegations =
        map
          (λ (vote : GovernanceVote).
            delegation_state_expr c p vote.owner vote.delegate vote.amount vote.weight
              (text "DelegationState"))
          votes
    let returned =
        map
          (λ (vote : GovernanceVote).
            token_state_expr c vote.delegation_id 2 vote.amount false (text "TokenState"))
          votes
    reserve_kusd ←
        ok_or (checked_add p.reserve_kusd g.proposal_fee_kusd)
          (Error.refused (text "proposal fee overflow"))
    type_ref ← map_err Error.type_ref_panics (c.parse_type_ref (text "DelegationState[]"))
    type_ref ← map_err Error.type_ref_panics (c.parse_type_ref (text "TokenState[]"))
    let credited : ProtocolParams = record p { reserve_kusd = reserve_kusd }
    entry_call c contract (text "vetoPolicy") (
        c.array type_ref delegations
        ∷ c.array type_ref returned
        ∷ c.dynamic_bytes (map (λ (vote : GovernanceVote). vote.delegation_input_index) votes)
        ∷ c.byte reserve_input_index
        ∷ reserve_state_expr c credited stack.base (text "ReserveState")
        ∷ token_state_expr c p.reserve_id 2 credited.reserve_kusd false (text "TokenState")
        ∷ c.byte refund_output_index
        ∷ [])

  -- What the action calls, and whether it counts as an execution.
  unfoldable pub governance_policy : Text → Result Error Text
  governance_policy action =
      if text_eq action (text "execute")
      then ok (text "executeModulePolicy")
      else if text_eq action (text "veto")
      then ok (text "vetoModulePolicy")
      else if text_eq action (text "cancel")
      then ok (text "cancelExpiredPolicy")
      else err (Error.refused (text "expected Governance action: execute, veto, or cancel"))

  unfoldable pub finished_governance : GovernanceParams → Text → Result Error GovernanceParams
  finished_governance g action =
      if text_eq action (text "execute")
      then (do
        execution_nonce ←
            ok_or (checked_add g.execution_nonce (pos 1))
              (Error.refused (text "overflow execution nonce"))
        ok (record g { execution_nonce = execution_nonce }))
      else ok g

  unfoldable pub governance_finish_call :
      (p : ProtocolParams) (g : GovernanceParams) (active_proposal_id : Bytes) (action : Text)
      → Result Error Bytes
  governance_finish_call p g active_proposal_id action = do
    reject_if (not (length active_proposal_id == 32))
        (Error.refused (text "active_proposal_id: 32 bytes required"))
    policy ← governance_policy action
    stack ← compile_governance_stack c p g
    src ← source c (text "contracts/governance.sil")
    contract ← map_err Error.call_failed (
        compile_contract c src (governance_args c p g stack.proposal active_proposal_id stack.base))
    next ← finished_governance g action
    covenant_call c contract policy (governance_state_expr c p next (zeros 32) (text "State") ∷ [])
        true

  unfoldable pub proposal_policy : Text → Result Error (Bool × Text)
  proposal_policy action =
      if text_eq action (text "execute")
      then ok (true, text "executePolicy")
      else if text_eq action (text "cancel")
      then ok (true, text "cancelExpiredPolicy")
      else err (Error.refused (text "expected Proposal action: execute or cancel"))

  unfoldable pub proposal_finish_call :
      (p : ProtocolParams) (g : GovernanceParams) (action : Text) (refund_output_index : ℕ)
      (fee_input_index : ℕ) (fee_output_index : ℕ)
      → Result Error Bytes
  proposal_finish_call p g action refund_output_index fee_input_index fee_output_index = do
    (activated, entry) ← proposal_policy action
    stack ← compile_governance_stack c p g
    src ← source c (text "contracts/module-proposal.sil")
    contract ←
        map_err Error.call_failed
          (compile_contract c src (proposal_args_with_activation c p g stack.base activated))
    entry_call c contract entry (
        c.byte refund_output_index
        ∷ token_state_expr c g.proposer 0 g.proposal_fee_kusd false (text "TokenState")
        ∷ c.byte fee_input_index
        ∷ c.byte fee_output_index
        ∷ [])
