-- ===== src/Protocol/States.antt =====
-- The state objects of src/protocol.rs.
use kusd.Base.{ℕ, Bool, true, [], ◌∷◌}
use kusd.Int.{ℤ}
use kusd.Order.{Text, text}
use kusd.Protocol.{Bytes, ProtocolParams, GovernanceParams, ProtocolStack, Compiler}
use kusd.Protocol.Args.{size, zeros}

module _ (c : Compiler) where
  unfoldable pub governance_state_expr :
      (p : ProtocolParams) (g : GovernanceParams) (active_proposal_id : Bytes) (name : Text)
      → c.Expr
  governance_state_expr p g active_proposal_id name = c.struct_object name (
      (text "rootId", c.bytes g.root_id)
      ∷ (text "assetId", c.bytes p.asset_id)
      ∷ (text "reserveId", c.bytes p.reserve_id)
      ∷ (text "proposalNonce", c.int g.proposal_nonce)
      ∷ (text "executionNonce", c.int g.execution_nonce)
      ∷ (text "activeProposalId", c.bytes active_proposal_id)
      ∷ [])

  unfoldable pub proposal_state_expr :
      (p : ProtocolParams) (g : GovernanceParams) (activated : Bool) (name : Text) → c.Expr
  proposal_state_expr p g activated name = c.struct_object name (
      (text "proposer", c.bytes g.proposer)
      ∷ (text "governanceId", c.bytes g.governance_id)
      ∷ (text "proposalNonce", c.int g.proposal_nonce)
      ∷ (text "activated", c.bool activated)
      ∷ (text "votingDelayDaa", c.int g.voting_delay_daa)
      ∷ (text "executionWindowDaa", c.int g.execution_window_daa)
      ∷ (text "vetoThresholdPpm", c.int g.veto_threshold_ppm)
      ∷ (text "depositSompi", c.int g.proposal_deposit_sompi)
      ∷ (text "assetId", c.bytes p.asset_id)
      ∷ (text "allocation", c.int p.module_remaining_mint)
      ∷ (text "maxDebtPerPosition", c.int p.max_debt_per_position)
      ∷ (text "minimumCollateralSompi", c.int p.minimum_collateral_sompi)
      ∷ (text "liquidationPrice", c.int p.liquidation_price)
      ∷ (text "expirationDaa", c.int p.module_expiration_daa)
      ∷ (text "challengePeriodDaa", c.int p.challenge_period_daa)
      ∷ (text "auctionDurationDaa", c.int p.auction_duration_daa)
      ∷ (text "challengeRewardPpm", c.int p.challenge_reward_ppm)
      ∷ (text "reserveContributionPpm", c.int p.reserve_contribution_ppm)
      ∷ (text "riskPremiumPpm", c.int p.risk_premium_ppm)
      ∷ [])

  unfoldable pub delegation_state_expr :
      (p : ProtocolParams) (owner : Bytes) (delegate : Bytes) (amount : ℤ) (weight : ℤ)
      (name : Text)
      → c.Expr
  delegation_state_expr p owner delegate amount weight name = c.struct_object name (
      (text "owner", c.bytes owner)
      ∷ (text "delegate", c.bytes delegate)
      ∷ (text "kpsId", c.bytes p.kps_id)
      ∷ (text "amount", c.int amount)
      ∷ (text "weight", c.int weight)
      ∷ [])

  unfoldable pub token_state_expr :
      (owner : Bytes) (identifier_type : ℕ) (amount : ℤ) (is_minter : Bool) (name : Text) → c.Expr
  token_state_expr owner identifier_type amount is_minter name = c.struct_object name (
      (text "ownerIdentifier", c.bytes owner)
      ∷ (text "identifierType", c.byte identifier_type)
      ∷ (text "amount", c.int amount)
      ∷ (text "isMinter", c.bool is_minter)
      ∷ [])

  unfoldable pub module_state_expr : (p : ProtocolParams) (name : Text) → c.Expr
  module_state_expr p name = c.struct_object name (
      (text "assetId", c.bytes p.asset_id)
      ∷ (text "remainingMint", c.int p.module_remaining_mint)
      ∷ (text "maxDebtPerPosition", c.int p.max_debt_per_position)
      ∷ (text "minimumCollateralSompi", c.int p.minimum_collateral_sompi)
      ∷ (text "liquidationPrice", c.int p.liquidation_price)
      ∷ (text "expirationDaa", c.int p.module_expiration_daa)
      ∷ (text "challengePeriodDaa", c.int p.challenge_period_daa)
      ∷ (text "auctionDurationDaa", c.int p.auction_duration_daa)
      ∷ (text "challengeRewardPpm", c.int p.challenge_reward_ppm)
      ∷ (text "positionNonce", c.int p.position_nonce)
      ∷ (text "reserveId", c.bytes p.reserve_id)
      ∷ (text "reserveContributionPpm", c.int p.reserve_contribution_ppm)
      ∷ (text "riskPremiumPpm", c.int p.risk_premium_ppm)
      ∷ [])

  unfoldable pub root_state_expr :
      (p : ProtocolParams) (g : GovernanceParams) (module_nonce : ℤ) (remaining_allocation : ℤ)
      (name : Text)
      → c.Expr
  root_state_expr p g module_nonce remaining_allocation name = c.struct_object name (
      (text "assetId", c.bytes p.asset_id)
      ∷ (text "initialized", c.bool true)
      ∷ (text "moduleNonce", c.int module_nonce)
      ∷ (text "remainingAllocation", c.int remaining_allocation)
      ∷ (text "authorityIdentifier", c.bytes g.governance_id)
      ∷ (text "authorityType", c.byte 4)
      ∷ [])

  unfoldable pub reserve_state_expr :
      (p : ProtocolParams) (stack : ProtocolStack) (name : Text) → c.Expr
  reserve_state_expr p stack name = c.struct_object name (
      (text "kusdAssetId", c.bytes p.asset_id)
      ∷ (text "kpsAssetId", c.bytes p.kps_id)
      ∷ (text "reserveKusd", c.int p.reserve_kusd)
      ∷ (text "totalKps", c.int p.total_kps)
      ∷ (text "collateralSompi", c.int p.reserve_collateral_sompi)
      ∷ (text "auctionPrefixLenState", c.int (size stack.auction.prefix))
      ∷ (text "auctionSuffixLenState", c.int (size stack.auction.suffix))
      ∷ (text "auctionTemplateHashState", c.bytes stack.auction.template_hash)
      ∷ [])

  unfoldable pub position_state_for_module :
      (p : ProtocolParams) (stack : ProtocolStack) (position_id : Bytes) (name : Text) → c.Expr
  position_state_for_module p stack position_id name = c.struct_object name (
      (text "owner", c.bytes p.owner)
      ∷ (text "assetId", c.bytes p.asset_id)
      ∷ (text "debt", c.int p.debt)
      ∷ (text "assignedReserve", c.int p.assigned_reserve)
      ∷ (text "reserveId", c.bytes p.reserve_id)
      ∷ (text "reserveContributionPpm", c.int p.reserve_contribution_ppm)
      ∷ (text "liquidationPrice", c.int p.liquidation_price)
      ∷ (text "challengePeriodDaa", c.int p.challenge_period_daa)
      ∷ (text "auctionDurationDaa", c.int p.auction_duration_daa)
      ∷ (text "challengeRewardPpm", c.int p.challenge_reward_ppm)
      ∷ (text "challengeId", c.bytes (zeros 32))
      ∷ (text "kccPrefixLen", c.int (size stack.kcc.prefix))
      ∷ (text "kccSuffixLen", c.int (size stack.kcc.suffix))
      ∷ (text "kccTemplateHash", c.bytes stack.kcc.template_hash)
      ∷ (text "positionPrefixLen", c.int (size stack.position.prefix))
      ∷ (text "positionSuffixLen", c.int (size stack.position.suffix))
      ∷ (text "positionTemplateHash", c.bytes stack.position.template_hash)
      ∷ [])
