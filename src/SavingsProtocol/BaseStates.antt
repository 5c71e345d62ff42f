-- ===== src/SavingsProtocol/BaseStates.antt =====
-- The state objects of the other contracts in src/savings_protocol.rs.
use kusd.Base.{[], ◌∷◌}
use kusd.Order.{Text, text}
use kusd.SavingsProtocol.{Bytes, ProtocolParams, Compiler, SavingsStack}
use kusd.Protocol.Args.{size}

module _ (c : Compiler) where
  unfoldable pub base_challenge_state_expr :
      (base : ProtocolParams) (stack : SavingsStack) (challenger : Bytes) (name : Text) → c.Expr
  base_challenge_state_expr base stack challenger name = c.struct_object name (
      (text "owner", c.bytes base.owner)
      ∷ (text "challenger", c.bytes challenger)
      ∷ (text "positionId", c.bytes base.position_id)
      ∷ (text "assetId", c.bytes base.asset_id)
      ∷ (text "debt", c.int base.debt)
      ∷ (text "assignedReserve", c.int base.assigned_reserve)
      ∷ (text "reserveId", c.bytes base.reserve_id)
      ∷ (text "liquidationPrice", c.int base.liquidation_price)
      ∷ (text "rewardPpm", c.int base.challenge_reward_ppm)
      ∷ (text "challengePeriodDaa", c.int base.challenge_period_daa)
      ∷ (text "auctionDurationDaa", c.int base.auction_duration_daa)
      ∷ (text "collateralSompi", c.int base.collateral_sompi)
      ∷ (text "kccPrefixLen", c.int (size stack.base.kcc.prefix))
      ∷ (text "kccSuffixLen", c.int (size stack.base.kcc.suffix))
      ∷ (text "kccTemplateHash", c.bytes stack.base.kcc.template_hash)
      ∷ [])

  unfoldable pub base_auction_state_expr :
      (base : ProtocolParams) (stack : SavingsStack) (challenger : Bytes) (name : Text) → c.Expr
  base_auction_state_expr base stack challenger name = c.struct_object name (
      (text "positionOwner", c.bytes base.owner)
      ∷ (text "challenger", c.bytes challenger)
      ∷ (text "positionId", c.bytes base.position_id)
      ∷ (text "assetId", c.bytes base.asset_id)
      ∷ (text "debt", c.int base.debt)
      ∷ (text "assignedReserve", c.int base.assigned_reserve)
      ∷ (text "reserveId", c.bytes base.reserve_id)
      ∷ (text "liquidationPrice", c.int base.liquidation_price)
      ∷ (text "rewardPpm", c.int base.challenge_reward_ppm)
      ∷ (text "auctionDurationDaa", c.int base.auction_duration_daa)
      ∷ (text "collateralSompi", c.int base.collateral_sompi)
      ∷ (text "kccPrefixLen", c.int (size stack.base.kcc.prefix))
      ∷ (text "kccSuffixLen", c.int (size stack.base.kcc.suffix))
      ∷ (text "kccTemplateHash", c.bytes stack.base.kcc.template_hash)
      ∷ [])

  unfoldable pub base_position_state_expr :
      (base : ProtocolParams) (stack : SavingsStack) (challenge_id : Bytes) (name : Text) → c.Expr
  base_position_state_expr base stack challenge_id name = c.struct_object name (
      (text "owner", c.bytes base.owner)
      ∷ (text "assetId", c.bytes base.asset_id)
      ∷ (text "debt", c.int base.debt)
      ∷ (text "assignedReserve", c.int base.assigned_reserve)
      ∷ (text "reserveId", c.bytes base.reserve_id)
      ∷ (text "reserveContributionPpm", c.int base.reserve_contribution_ppm)
      ∷ (text "liquidationPrice", c.int base.liquidation_price)
      ∷ (text "challengePeriodDaa", c.int base.challenge_period_daa)
      ∷ (text "auctionDurationDaa", c.int base.auction_duration_daa)
      ∷ (text "challengeRewardPpm", c.int base.challenge_reward_ppm)
      ∷ (text "challengeId", c.bytes challenge_id)
      ∷ (text "kccPrefixLen", c.int (size stack.base.kcc.prefix))
      ∷ (text "kccSuffixLen", c.int (size stack.base.kcc.suffix))
      ∷ (text "kccTemplateHash", c.bytes stack.base.kcc.template_hash)
      ∷ (text "positionPrefixLen", c.int (size stack.base.position.prefix))
      ∷ (text "positionSuffixLen", c.int (size stack.base.position.suffix))
      ∷ (text "positionTemplateHash", c.bytes stack.base.position.template_hash)
      ∷ [])
