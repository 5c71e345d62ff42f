-- ===== src/SavingsProtocol/States.antt =====
-- The state objects of the savings in src/savings_protocol.rs.
use kusd.Base.{Bool, [], ◌∷◌}
use kusd.Order.{Text, text}
use kusd.SavingsProtocol.{ProtocolParams, TokenOutput, Compiler, SavingsParams, SavingsStack}
use kusd.Protocol.Args.{size}

module _ (c : Compiler) where
  unfoldable pub token_state : (name : Text) (output : TokenOutput) → c.Expr
  token_state name output = c.struct_object name (
      (text "ownerIdentifier", c.bytes output.owner)
      ∷ (text "identifierType", c.byte output.identifier_type)
      ∷ (text "amount", c.int output.amount)
      ∷ (text "isMinter", c.bool output.is_minter)
      ∷ [])

  unfoldable pub registry_state_expr :
      (p : SavingsParams) (initialized : Bool) (name : Text) → c.Expr
  registry_state_expr p initialized name = c.struct_object name (
      (text "bootstrapOwner", c.bytes p.owner)
      ∷ (text "controllerId", c.bytes p.controller_id)
      ∷ (text "initialized", c.bool initialized)
      ∷ [])

  unfoldable pub proposal_state_expr :
      (base : ProtocolParams) (p : SavingsParams) (activated : Bool) (name : Text) → c.Expr
  proposal_state_expr base p activated name = c.struct_object name (
      (text "proposer", c.bytes p.proposer)
      ∷ (text "governanceId", c.bytes p.governor_id)
      ∷ (text "controllerId", c.bytes p.controller_id)
      ∷ (text "assetId", c.bytes base.asset_id)
      ∷ (text "proposalNonce", c.int p.proposal_nonce)
      ∷ (text "activated", c.bool activated)
      ∷ (text "ratePpm", c.int p.rate_ppm)
      ∷ (text "interestDelayDaa", c.int p.interest_delay_daa)
      ∷ (text "maxAccrualDaa", c.int p.max_accrual_daa)
      ∷ (text "daaPerYear", c.int p.daa_per_year)
      ∷ (text "votingDelayDaa", c.int p.voting_delay_daa)
      ∷ (text "executionWindowDaa", c.int p.execution_window_daa)
      ∷ (text "depositSompi", c.int p.proposal_deposit_sompi)
      ∷ [])

  unfoldable pub governor_state_expr :
      (base : ProtocolParams) (p : SavingsParams) (stack : SavingsStack) (name : Text) → c.Expr
  governor_state_expr base p stack name = c.struct_object name (
      (text "assetId", c.bytes base.asset_id)
      ∷ (text "kpsId", c.bytes base.kps_id)
      ∷ (text "reserveId", c.bytes base.reserve_id)
      ∷ (text "controllerId", c.bytes p.controller_id)
      ∷ (text "proposalNonce", c.int p.proposal_nonce)
      ∷ (text "executionNonce", c.int p.execution_nonce)
      ∷ (text "activeProposalId", c.bytes p.active_proposal_id)
      ∷ (text "votingDelayDaa", c.int p.voting_delay_daa)
      ∷ (text "executionWindowDaa", c.int p.execution_window_daa)
      ∷ (text "vetoThresholdPpm", c.int p.veto_threshold_ppm)
      ∷ (text "proposalDepositSompi", c.int p.proposal_deposit_sompi)
      ∷ (text "reservePrefixLenState", c.int (size stack.reserve.prefix))
      ∷ (text "reserveSuffixLenState", c.int (size stack.reserve.suffix))
      ∷ (text "reserveTemplateHashState", c.bytes stack.reserve.template_hash)
      ∷ [])

  unfoldable pub controller_state_expr :
      (base : ProtocolParams) (p : SavingsParams) (stack : SavingsStack) (name : Text) → c.Expr
  controller_state_expr base p stack name = c.struct_object name (
      (text "assetId", c.bytes base.asset_id)
      ∷ (text "reserveId", c.bytes base.reserve_id)
      ∷ (text "governanceId", c.bytes p.governor_id)
      ∷ (text "enabled", c.bool p.enabled)
      ∷ (text "seriesNonce", c.int p.series_nonce)
      ∷ (text "accountNonce", c.int p.account_nonce)
      ∷ (text "totalSaved", c.int p.total_saved)
      ∷ (text "currentRatePpm", c.int p.current_rate_ppm)
      ∷ (text "interestDelayDaa", c.int p.interest_delay_daa)
      ∷ (text "maxAccrualDaa", c.int p.max_accrual_daa)
      ∷ (text "daaPerYear", c.int p.daa_per_year)
      ∷ (text "accountValueSompi", c.int p.account_value_sompi)
      ∷ (text "controllerPrefixLenState", c.int (size stack.controller.prefix))
      ∷ (text "controllerSuffixLenState", c.int (size stack.controller.suffix))
      ∷ (text "controllerTemplateHashState", c.bytes stack.controller.template_hash)
      ∷ (text "reservePrefixLenState", c.int (size stack.reserve.prefix))
      ∷ (text "reserveSuffixLenState", c.int (size stack.reserve.suffix))
      ∷ (text "reserveTemplateHashState", c.bytes stack.reserve.template_hash)
      ∷ [])

  unfoldable pub account_state_expr :
      (base : ProtocolParams) (p : SavingsParams) (stack : SavingsStack) (name : Text) → c.Expr
  account_state_expr base p stack name = c.struct_object name (
      (text "owner", c.bytes p.owner)
      ∷ (text "controllerId", c.bytes p.controller_id)
      ∷ (text "reserveId", c.bytes base.reserve_id)
      ∷ (text "assetId", c.bytes base.asset_id)
      ∷ (text "saved", c.int p.saved)
      ∷ (text "ratePpm", c.int p.rate_ppm)
      ∷ (text "delayRemainingDaa", c.int p.delay_remaining_daa)
      ∷ (text "remainingAccrualDaa", c.int p.remaining_accrual_daa)
      ∷ (text "daaPerYear", c.int p.daa_per_year)
      ∷ (text "referrer", c.bytes p.referrer)
      ∷ (text "referralFeePpm", c.int p.referral_fee_ppm)
      ∷ (text "controllerPrefixLen", c.int (size stack.controller.prefix))
      ∷ (text "controllerSuffixLen", c.int (size stack.controller.suffix))
      ∷ (text "controllerTemplateHash", c.bytes stack.controller.template_hash)
      ∷ (text "reservePrefixLen", c.int (size stack.reserve.prefix))
      ∷ (text "reserveSuffixLen", c.int (size stack.reserve.suffix))
      ∷ (text "reserveTemplateHash", c.bytes stack.reserve.template_hash)
      ∷ [])

  unfoldable pub reserve_state_expr :
      (base : ProtocolParams) (stack : SavingsStack) (name : Text) → c.Expr
  reserve_state_expr base stack name = c.struct_object name (
      (text "kusdAssetId", c.bytes base.asset_id)
      ∷ (text "kpsAssetId", c.bytes base.kps_id)
      ∷ (text "reserveKusd", c.int base.reserve_kusd)
      ∷ (text "totalKps", c.int base.total_kps)
      ∷ (text "collateralSompi", c.int base.reserve_collateral_sompi)
      ∷ (text "auctionPrefixLenState", c.int (size stack.base.auction.prefix))
      ∷ (text "auctionSuffixLenState", c.int (size stack.base.auction.suffix))
      ∷ (text "auctionTemplateHashState", c.bytes stack.base.auction.template_hash)
      ∷ [])
