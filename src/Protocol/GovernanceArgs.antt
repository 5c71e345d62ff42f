-- ===== src/Protocol/GovernanceArgs.antt =====
-- The constructor arguments of the governance contracts in src/protocol.rs.
use kusd.Base.{ℕ, Bool, true, false, List, [], ◌∷◌}
use kusd.Int.{ℤ}
use kusd.Protocol.{
  Bytes, ProtocolParams, GovernanceParams, Artifact, ProtocolStack, GovernanceStack, Compiler,
}
use kusd.Protocol.Args.{size}

module _ (c : Compiler) where
  unfoldable pub proposal_args_with_activation :
      (p : ProtocolParams) (g : GovernanceParams) (stack : ProtocolStack) (activated : Bool)
      → List c.Expr
  proposal_args_with_activation p g stack activated =
      c.bytes g.proposer
      ∷ c.bytes g.governance_id
      ∷ c.bytes g.root_id
      ∷ c.bytes p.kps_id
      ∷ c.bytes p.reserve_id
      ∷ c.int g.proposal_nonce
      ∷ c.bool activated
      ∷ c.int g.voting_delay_daa
      ∷ c.int g.execution_window_daa
      ∷ c.int g.veto_threshold_ppm
      ∷ c.int g.proposal_deposit_sompi
      ∷ c.bytes p.asset_id
      ∷ c.int p.module_remaining_mint
      ∷ c.int p.max_debt_per_position
      ∷ c.int p.minimum_collateral_sompi
      ∷ c.int p.liquidation_price
      ∷ c.int p.module_expiration_daa
      ∷ c.int p.challenge_period_daa
      ∷ c.int p.auction_duration_daa
      ∷ c.int p.challenge_reward_ppm
      ∷ c.int p.reserve_contribution_ppm
      ∷ c.int p.risk_premium_ppm
      ∷ c.int g.proposal_fee_kusd
      ∷ c.int (size stack.kcc.prefix)
      ∷ c.int (size stack.kcc.suffix)
      ∷ c.bytes stack.kcc.template_hash
      ∷ c.int (size stack.kps.prefix)
      ∷ c.int (size stack.kps.suffix)
      ∷ c.bytes stack.kps.template_hash
      ∷ c.int (size stack.delegation.prefix)
      ∷ c.int (size stack.delegation.suffix)
      ∷ c.bytes stack.delegation.template_hash
      ∷ c.int p.max_kps_vote_weight
      ∷ c.int (size stack.reserve.prefix)
      ∷ c.int (size stack.reserve.suffix)
      ∷ c.bytes stack.reserve.template_hash
      ∷ []

  unfoldable pub proposal_args :
      (p : ProtocolParams) (g : GovernanceParams) (stack : ProtocolStack) → List c.Expr
  proposal_args p g stack = proposal_args_with_activation p g stack false

  unfoldable pub governance_args :
      (p : ProtocolParams) (g : GovernanceParams) (proposal : Artifact) (active_proposal_id : Bytes)
      (base : ProtocolStack)
      → List c.Expr
  governance_args p g proposal active_proposal_id base =
      c.bytes g.root_id
      ∷ c.bytes p.asset_id
      ∷ c.bytes p.kps_id
      ∷ c.bytes p.reserve_id
      ∷ c.int g.proposal_nonce
      ∷ c.int g.execution_nonce
      ∷ c.bytes active_proposal_id
      ∷ c.int g.voting_delay_daa
      ∷ c.int g.execution_window_daa
      ∷ c.int g.veto_threshold_ppm
      ∷ c.int g.proposal_deposit_sompi
      ∷ c.int g.proposal_fee_kusd
      ∷ c.int g.min_module_allocation
      ∷ c.int g.max_module_allocation
      ∷ c.int g.max_debt_per_position
      ∷ c.int g.min_collateral_sompi
      ∷ c.int g.max_collateral_sompi
      ∷ c.int g.min_module_duration_daa
      ∷ c.int g.max_module_duration_daa
      ∷ c.int g.min_challenge_period_daa
      ∷ c.int g.max_challenge_period_daa
      ∷ c.int g.min_auction_duration_daa
      ∷ c.int g.max_auction_duration_daa
      ∷ c.int g.max_risk_premium_ppm
      ∷ c.int g.min_reserve_contribution_ppm
      ∷ c.int g.max_reserve_contribution_ppm
      ∷ c.dynamic_bytes proposal.prefix
      ∷ c.dynamic_bytes proposal.suffix
      ∷ c.bytes proposal.template_hash
      ∷ c.int (size base.kcc.prefix)
      ∷ c.int (size base.kcc.suffix)
      ∷ c.bytes base.kcc.template_hash
      ∷ []

  unfoldable pub root_args_with_state :
      (p : ProtocolParams) (stack : GovernanceStack) (initialized : Bool) (module_nonce : ℤ)
      (remaining_allocation : ℤ) (authority : Bytes) (authority_type : ℕ)
      → List c.Expr
  root_args_with_state p stack initialized module_nonce remaining_allocation authority
        authority_type =
      c.bytes p.asset_id
      ∷ c.bool initialized
      ∷ c.int module_nonce
      ∷ c.int remaining_allocation
      ∷ c.bytes authority
      ∷ c.byte authority_type
      ∷ c.int (size stack.base.kcc.prefix)
      ∷ c.int (size stack.base.kcc.suffix)
      ∷ c.bytes stack.base.kcc.template_hash
      ∷ c.bytes stack.base.minting_module.template_hash
      ∷ c.int (size stack.governance.prefix)
      ∷ c.int (size stack.governance.suffix)
      ∷ c.bytes stack.governance.template_hash
      ∷ c.int (size stack.proposal.prefix)
      ∷ c.int (size stack.proposal.suffix)
      ∷ c.bytes stack.proposal.template_hash
      ∷ []

  unfoldable pub root_args :
      (p : ProtocolParams) (stack : GovernanceStack) (module_nonce : ℤ) (remaining_allocation : ℤ)
      (authority : Bytes) (authority_type : ℕ)
      → List c.Expr
  root_args p stack module_nonce remaining_allocation authority authority_type =
      root_args_with_state p stack true module_nonce remaining_allocation authority authority_type
