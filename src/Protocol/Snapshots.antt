-- ===== src/Protocol/Snapshots.antt =====
-- The single states that src/protocol.rs compiles.
use kusd.Base.{ℕ, Bool, not, ◌||◌, ◌==◌, ltb, length, Result, ◌>>=◌, ◌>>◌, reject_if}
use kusd.Int.{ℤ, pos, ltb_ℤ, leb_ℤ}
use kusd.Order.{text}
use kusd.Protocol.{Bytes, ProtocolParams, GovernanceParams, Artifact, Compiler}
use kusd.Protocol.Args.{
  kcc_args, kps_args, delegation_args, reserve_args, module_args, position_args,
}
use kusd.Protocol.GovernanceArgs.{
  proposal_args_with_activation, governance_args, root_args_with_state,
}
use kusd.Protocol.Validate.{Error, validate_governance}
use kusd.Protocol.Compile.{compile, compile_stack, compile_governance_stack}

module _ (c : Compiler) where
  unfoldable pub compile_governance_state :
      (p : ProtocolParams) (g : GovernanceParams) (active_proposal_id : Bytes)
      → Result Error Artifact
  compile_governance_state p g active_proposal_id = do
    validate_governance p g
    reject_if (not ((length active_proposal_id) == 32))
        (Error.refused (text "active_proposal_id: 32 bytes required"))
    stack ← compile_governance_stack c p g
    compile c (text "contracts/governance.sil")
        (governance_args c p g stack.proposal active_proposal_id stack.base)

  unfoldable pub compile_proposal_state :
      (p : ProtocolParams) (g : GovernanceParams) (activated : Bool) → Result Error Artifact
  compile_proposal_state p g activated = do
    validate_governance p g
    stack ← compile_governance_stack c p g
    compile c (text "contracts/module-proposal.sil")
        (proposal_args_with_activation c p g stack.base activated)

  unfoldable pub compile_delegation_state :
      (p : ProtocolParams) (owner : Bytes) (delegate : Bytes) (amount : ℤ) (weight : ℤ)
      → Result Error Artifact
  compile_delegation_state p owner delegate amount weight = do
    reject_if (not ((length owner) == 32) || not ((length delegate) == 32) || leb_ℤ amount (pos 0))
        (Error.refused (text "invalid delegation state"))
    compile c (text "contracts/kps-delegation.sil")
        (delegation_args c p owner delegate amount weight)

  unfoldable pub compile_kcc_state :
      (owner : Bytes) (amount : ℤ) (identifier_type : ℕ) (is_minter : Bool) → Result Error Artifact
  compile_kcc_state owner amount identifier_type is_minter = do
    reject_if (not ((length owner) == 32) || ltb_ℤ amount (pos 0) || ltb 2 identifier_type)
        (Error.refused (text "invalid KCC state"))
    compile c (text "contracts/kcc20.sil") (kcc_args c owner amount identifier_type is_minter)

  unfoldable pub compile_kps_state :
      (p : ProtocolParams) (owner : Bytes) (amount : ℤ) (identifier_type : ℕ) (is_minter : Bool)
      → Result Error Artifact
  compile_kps_state p owner amount identifier_type is_minter = do
    stack ← compile_stack c p
    compile c (text "contracts/kps.sil")
        (kps_args c p stack.delegation owner amount identifier_type is_minter)

  unfoldable pub compile_reserve_state :
      (p : ProtocolParams) (reserve_kusd : ℤ) (total_kps : ℤ) (collateral_sompi : ℤ)
      → Result Error Artifact
  compile_reserve_state p reserve_kusd total_kps collateral_sompi = do
    stack ← compile_stack c p
    compile c (text "contracts/equity-reserve-base.sil")
        (reserve_args c p stack reserve_kusd total_kps collateral_sompi)

  unfoldable pub compile_module_state :
      (p : ProtocolParams) (remaining_mint : ℤ) (position_nonce : ℤ) → Result Error Artifact
  compile_module_state p remaining_mint position_nonce = do
    let state : ProtocolParams = record p {
      module_remaining_mint = remaining_mint;
      position_nonce = position_nonce;
    }
    stack ← compile_stack c state
    compile c (text "contracts/minting-module.sil") (module_args c state stack)

  unfoldable pub compile_position_state :
      (p : ProtocolParams) (debt : ℤ) (assigned_reserve : ℤ) (challenge_id : Bytes)
      → Result Error Artifact
  compile_position_state p debt assigned_reserve challenge_id = do
    stack ← compile_stack c p
    let state : ProtocolParams = record p { debt = debt; assigned_reserve = assigned_reserve }
    compile c (text "contracts/position.sil") (position_args c state stack challenge_id)

  unfoldable pub compile_root_state :
      (p : ProtocolParams) (g : GovernanceParams) (initialized : Bool) (module_nonce : ℤ)
      (remaining_allocation : ℤ) (authority : Bytes) (authority_type : ℕ)
      → Result Error Artifact
  compile_root_state p g initialized module_nonce remaining_allocation authority authority_type = do
    stack ← compile_governance_stack c p g
    compile c (text "contracts/root-issuance.sil") (
        root_args_with_state c p stack initialized module_nonce remaining_allocation authority
          authority_type)
