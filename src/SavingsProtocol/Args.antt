-- ===== src/SavingsProtocol/Args.antt =====
-- The constructor arguments of the contracts in src/savings_protocol.rs.
use kusd.Base.{Bool, List, [], ◌∷◌}
use kusd.SavingsProtocol.{ProtocolParams, Artifact, Compiler, SavingsParams}
use kusd.Protocol.Args.{size}

module _ (c : Compiler) where
  unfoldable pub proposal_args :
      (p : SavingsParams) (base : ProtocolParams) (activated : Bool) → List c.Expr
  proposal_args p base activated =
      c.bytes p.proposer
      ∷ c.bytes p.governor_id
      ∷ c.bytes p.controller_id
      ∷ c.bytes base.asset_id
      ∷ c.int p.proposal_nonce
      ∷ c.bool activated
      ∷ c.int p.rate_ppm
      ∷ c.int p.interest_delay_daa
      ∷ c.int p.max_accrual_daa
      ∷ c.int p.daa_per_year
      ∷ c.int p.voting_delay_daa
      ∷ c.int p.execution_window_daa
      ∷ c.int p.proposal_deposit_sompi
      ∷ []

  unfoldable pub governor_args :
      (p : SavingsParams) (base : ProtocolParams) (proposal : Artifact) (kps : Artifact)
      (delegation : Artifact) (reserve : Artifact)
      → List c.Expr
  governor_args p base proposal kps delegation reserve =
      c.bytes base.asset_id
      ∷ c.bytes base.kps_id
      ∷ c.bytes base.reserve_id
      ∷ c.bytes p.controller_id
      ∷ c.int p.proposal_nonce
      ∷ c.int p.execution_nonce
      ∷ c.bytes p.active_proposal_id
      ∷ c.int p.voting_delay_daa
      ∷ c.int p.execution_window_daa
      ∷ c.int p.veto_threshold_ppm
      ∷ c.int p.proposal_deposit_sompi
      ∷ c.dynamic_bytes proposal.prefix
      ∷ c.dynamic_bytes proposal.suffix
      ∷ c.bytes proposal.template_hash
      ∷ c.int (size kps.prefix)
      ∷ c.int (size kps.suffix)
      ∷ c.bytes kps.template_hash
      ∷ c.int (size delegation.prefix)
      ∷ c.int (size delegation.suffix)
      ∷ c.bytes delegation.template_hash
      ∷ c.int (size reserve.prefix)
      ∷ c.int (size reserve.suffix)
      ∷ c.bytes reserve.template_hash
      ∷ c.int base.max_kps_vote_weight
      ∷ []

  unfoldable pub account_args :
      (p : SavingsParams) (base : ProtocolParams) (kcc : Artifact) (controller : Artifact)
      (reserve : Artifact)
      → List c.Expr
  account_args p base kcc controller reserve =
      c.bytes p.owner
      ∷ c.bytes p.controller_id
      ∷ c.bytes base.reserve_id
      ∷ c.bytes base.asset_id
      ∷ c.int p.saved
      ∷ c.int p.rate_ppm
      ∷ c.int p.delay_remaining_daa
      ∷ c.int p.remaining_accrual_daa
      ∷ c.int p.daa_per_year
      ∷ c.bytes p.referrer
      ∷ c.int p.referral_fee_ppm
      ∷ c.int (size kcc.prefix)
      ∷ c.int (size kcc.suffix)
      ∷ c.bytes kcc.template_hash
      ∷ c.int (size controller.prefix)
      ∷ c.int (size controller.suffix)
      ∷ c.bytes controller.template_hash
      ∷ c.int (size reserve.prefix)
      ∷ c.int (size reserve.suffix)
      ∷ c.bytes reserve.template_hash
      ∷ []

  unfoldable pub controller_args :
      (p : SavingsParams) (base : ProtocolParams) (kcc : Artifact) (account : Artifact)
      (governor : Artifact) (proposal : Artifact) (controller : Artifact) (reserve : Artifact)
      → List c.Expr
  controller_args p base kcc account governor proposal controller reserve =
      c.bytes p.owner
      ∷ c.bytes base.asset_id
      ∷ c.bytes base.reserve_id
      ∷ c.bytes p.governor_id
      ∷ c.bool p.enabled
      ∷ c.int p.series_nonce
      ∷ c.int p.account_nonce
      ∷ c.int p.total_saved
      ∷ c.int p.current_rate_ppm
      ∷ c.int p.interest_delay_daa
      ∷ c.int p.max_accrual_daa
      ∷ c.int p.daa_per_year
      ∷ c.int p.account_value_sompi
      ∷ c.int (size controller.prefix)
      ∷ c.int (size controller.suffix)
      ∷ c.bytes controller.template_hash
      ∷ c.int (size reserve.prefix)
      ∷ c.int (size reserve.suffix)
      ∷ c.bytes reserve.template_hash
      ∷ c.int (size kcc.prefix)
      ∷ c.int (size kcc.suffix)
      ∷ c.bytes kcc.template_hash
      ∷ c.int (size account.prefix)
      ∷ c.int (size account.suffix)
      ∷ c.bytes account.template_hash
      ∷ c.int (size governor.prefix)
      ∷ c.int (size governor.suffix)
      ∷ c.bytes governor.template_hash
      ∷ c.int (size proposal.prefix)
      ∷ c.int (size proposal.suffix)
      ∷ c.bytes proposal.template_hash
      ∷ []

  unfoldable pub reserve_args :
      (base : ProtocolParams) (p : SavingsParams) (kcc : Artifact) (kps : Artifact)
      (auction : Artifact) (account : Artifact) (controller : Artifact) (registry : Artifact)
      → List c.Expr
  reserve_args base p kcc kps auction account controller registry =
      c.bytes base.asset_id
      ∷ c.bytes base.kps_id
      ∷ c.int base.reserve_kusd
      ∷ c.int base.total_kps
      ∷ c.int base.reserve_collateral_sompi
      ∷ c.int (size kcc.prefix)
      ∷ c.int (size kcc.suffix)
      ∷ c.bytes kcc.template_hash
      ∷ c.int (size kps.prefix)
      ∷ c.int (size kps.suffix)
      ∷ c.bytes kps.template_hash
      ∷ c.int (size auction.prefix)
      ∷ c.int (size auction.suffix)
      ∷ c.bytes auction.template_hash
      ∷ c.bytes p.registry_id
      ∷ c.int (size registry.prefix)
      ∷ c.int (size registry.suffix)
      ∷ c.bytes registry.template_hash
      ∷ c.int (size account.prefix)
      ∷ c.int (size account.suffix)
      ∷ c.bytes account.template_hash
      ∷ c.int (size controller.prefix)
      ∷ c.int (size controller.suffix)
      ∷ c.bytes controller.template_hash
      ∷ []

  -- The arguments of the Registry, which the source writes out at each use.
  unfoldable pub registry_args : (p : SavingsParams) (initialized : Bool) → List c.Expr
  registry_args p initialized = c.bytes p.owner ∷ c.bytes p.controller_id ∷ c.bool initialized ∷ []
