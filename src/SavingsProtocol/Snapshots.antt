-- ===== src/SavingsProtocol/Snapshots.antt =====
-- The single states that src/savings_protocol.rs compiles.
use kusd.Base.{ℕ, Bool, not, ◌==◌, [], ◌∷◌, length, Result, ok, ◌>>=◌, ◌>>◌, reject_if}
use kusd.Int.{ℤ}
use kusd.Order.{text}
use kusd.SavingsProtocol.{
  Bytes, ProtocolParams, GovernanceParams, Artifact, Compiler, SavingsParams,
}
use kusd.Protocol.Args.{kps_args, position_args, challenged_position_args, module_args}
use kusd.Protocol.GovernanceArgs.{
  proposal_args_with_activation, governance_args, root_args_with_state,
}
use kusd.Protocol.Validate.{Error}
use kusd.SavingsProtocol.Validate.{validate}
use kusd.SavingsProtocol.Args.{proposal_args, governor_args, account_args, controller_args}
use kusd.Protocol.Compile.{compile}
use kusd.SavingsProtocol.Compile.{compile_stack, compile_full_stack}

module _ (c : Compiler) where
  unfoldable pub compile_proposal_state :
      (base : ProtocolParams) (p : SavingsParams) (activated : Bool) → Result Error Artifact
  compile_proposal_state base p activated = do
    validate base p
    compile c (text "contracts/savings-proposal.sil") (proposal_args c p base activated)

  unfoldable pub compile_registry_state :
      (p : SavingsParams) (initialized : Bool) → Result Error Artifact
  compile_registry_state p initialized =
      compile c (text "contracts/savings-registry.sil")
        (c.bytes p.owner ∷ c.bytes p.controller_id ∷ c.bool initialized ∷ [])

  unfoldable pub compile_governor_state :
      (base : ProtocolParams) (p : SavingsParams) → Result Error Artifact
  compile_governor_state base p = do
    stack ← compile_stack c base p
    compile c (text "contracts/savings-governor.sil")
        (governor_args c p base stack.proposal stack.base.kps stack.base.delegation stack.reserve)

  unfoldable pub compile_controller_state :
      (base : ProtocolParams) (p : SavingsParams) → Result Error Artifact
  compile_controller_state base p = do
    stack ← compile_stack c base p
    compile c (text "contracts/savings-controller.sil") (
        controller_args c p base stack.base.kcc stack.account stack.governor stack.proposal
          stack.controller stack.reserve)

  unfoldable pub compile_account_state :
      (base : ProtocolParams) (p : SavingsParams) → Result Error Artifact
  compile_account_state base p = do
    stack ← compile_stack c base p
    compile c (text "contracts/savings-account.sil")
        (account_args c p base stack.base.kcc stack.controller stack.reserve)

  unfoldable pub compile_reserve_state :
      (base : ProtocolParams) (p : SavingsParams) → Result Error Artifact
  compile_reserve_state base p = do stack ← compile_stack c base p; ok stack.reserve

  unfoldable pub compile_base_anchor_state :
      (base : ProtocolParams) (savings : SavingsParams) → Result Error Artifact
  compile_base_anchor_state base savings = do
    stack ← compile_stack c base savings
    ok stack.base.anchor

  unfoldable pub compile_base_challenge_state :
      (base : ProtocolParams) (savings : SavingsParams) → Result Error Artifact
  compile_base_challenge_state base savings = do
    stack ← compile_stack c base savings
    ok stack.base.challenge

  unfoldable pub compile_base_auction_state :
      (base : ProtocolParams) (savings : SavingsParams) → Result Error Artifact
  compile_base_auction_state base savings = do
    stack ← compile_stack c base savings
    ok stack.base.auction

  unfoldable pub compile_base_root_state :
      (base : ProtocolParams) (savings : SavingsParams) (governance : GovernanceParams)
      (initialized : Bool) (module_nonce : ℤ) (remaining_allocation : ℤ) (authority : Bytes)
      (authority_type : ℕ)
      → Result Error Artifact
  compile_base_root_state base savings governance initialized module_nonce remaining_allocation
        authority authority_type =
      do
        stack ← compile_full_stack c base savings governance
        compile c (text "contracts/root-issuance.sil") (
            root_args_with_state c base stack.base_governance initialized module_nonce
              remaining_allocation authority authority_type)

  unfoldable pub compile_base_module_state :
      (base : ProtocolParams) (savings : SavingsParams) (remaining_mint : ℤ) (position_nonce : ℤ)
      → Result Error Artifact
  compile_base_module_state base savings remaining_mint position_nonce = do
    let state : ProtocolParams = record base {
      module_remaining_mint = remaining_mint;
      position_nonce = position_nonce;
    }
    stack ← compile_stack c state savings
    compile c (text "contracts/minting-module.sil") (module_args c state stack.base)

  unfoldable pub compile_base_position_state :
      (base : ProtocolParams) (savings : SavingsParams) (debt : ℤ) (assigned_reserve : ℤ)
      (challenge_id : Bytes)
      → Result Error Artifact
  compile_base_position_state base savings debt assigned_reserve challenge_id = do
    stack ← compile_stack c base savings
    let state : ProtocolParams = record base { debt = debt; assigned_reserve = assigned_reserve }
    compile c (text "contracts/position.sil") (position_args c state stack.base challenge_id)

  unfoldable pub compile_base_challenged_position_state :
      (base : ProtocolParams) (savings : SavingsParams) (debt : ℤ) (assigned_reserve : ℤ)
      (challenge_id : Bytes)
      → Result Error Artifact
  compile_base_challenged_position_state base savings debt assigned_reserve challenge_id = do
    stack ← compile_stack c base savings
    let state : ProtocolParams = record base { debt = debt; assigned_reserve = assigned_reserve }
    compile c (text "contracts/challenged-position.sil")
        (challenged_position_args c state stack.base challenge_id)

  unfoldable pub compile_base_governance_state :
      (base : ProtocolParams) (savings : SavingsParams) (governance : GovernanceParams)
      (active_proposal_id : Bytes)
      → Result Error Artifact
  compile_base_governance_state base savings governance active_proposal_id = do
    reject_if (not ((length active_proposal_id) == 32))
        (Error.refused (text "active_proposal_id: 32 bytes required"))
    stack ← compile_full_stack c base savings governance
    compile c (text "contracts/governance.sil") (
        governance_args c base governance stack.base_governance.proposal active_proposal_id
          stack.savings.base)

  unfoldable pub compile_base_proposal_state :
      (base : ProtocolParams) (savings : SavingsParams) (governance : GovernanceParams)
      (activated : Bool)
      → Result Error Artifact
  compile_base_proposal_state base savings governance activated = do
    stack ← compile_full_stack c base savings governance
    compile c (text "contracts/module-proposal.sil")
        (proposal_args_with_activation c base governance stack.savings.base activated)

  unfoldable pub compile_base_kps_state :
      (base : ProtocolParams) (savings : SavingsParams) (owner : Bytes) (amount : ℤ)
      (identifier_type : ℕ) (is_minter : Bool)
      → Result Error Artifact
  compile_base_kps_state base savings owner amount identifier_type is_minter = do
    stack ← compile_stack c base savings
    compile c (text "contracts/kps.sil")
        (kps_args c base stack.base.delegation owner amount identifier_type is_minter)
