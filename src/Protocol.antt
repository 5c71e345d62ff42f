-- ===== src/Protocol.antt =====
-- src/protocol.rs: the parameters of a deployment and the compiled contracts that refer to each other.
-- The SilverScript compiler is a package of its own and is a parameter here: how it builds an argument,
-- what it makes of a source and its arguments, and its ABI.
pub mod Votes
pub mod Thresholds
pub mod Validate
pub mod Args
pub mod GovernanceArgs
pub mod Compile
pub mod States
pub mod Calls
pub mod Snapshots
pub mod GovernanceCalls
pub mod RootCalls
pub mod DelegationCalls
pub mod TokenCalls
pub mod Opening
pub mod Opened
pub mod ReserveCalls
pub mod Stable
pub mod Positions
pub mod Fixpoint
pub mod Sample
mod Tests
use kusd.Base.{ℕ, Bool}
use kusd.Int.{ℤ}
pub use kusd.Silverscript.{Bytes, CompiledContract, Compiler}

pub record ProtocolParams : Type 0 where
  pub owner : Bytes
  pub challenger : Bytes
  pub asset_id : Bytes
  pub kps_id : Bytes
  pub reserve_id : Bytes
  pub module_id : Bytes
  pub position_id : Bytes
  pub debt : ℤ
  pub assigned_reserve : ℤ
  pub reserve_contribution_ppm : ℤ
  pub risk_premium_ppm : ℤ
  pub daa_per_year : ℤ
  pub liquidation_price : ℤ
  pub challenge_period_daa : ℤ
  pub auction_duration_daa : ℤ
  pub challenge_reward_ppm : ℤ
  pub collateral_sompi : ℤ
  pub minimum_collateral_sompi : ℤ
  pub current_daa : ℤ
  pub reserve_kusd : ℤ
  pub total_kps : ℤ
  pub reserve_collateral_sompi : ℤ
  pub minimum_kps_holding_daa : ℤ
  pub max_kps_vote_weight : ℤ
  pub module_remaining_mint : ℤ
  pub max_debt_per_position : ℤ
  pub module_expiration_daa : ℤ
  pub position_nonce : ℤ

pub record GovernanceParams : Type 0 where
  pub proposer : Bytes
  pub governance_id : Bytes
  pub root_id : Bytes
  pub proposal_nonce : ℤ
  pub execution_nonce : ℤ
  pub voting_delay_daa : ℤ
  pub execution_window_daa : ℤ
  pub veto_threshold_ppm : ℤ
  pub proposal_deposit_sompi : ℤ
  pub proposal_fee_kusd : ℤ
  pub min_module_allocation : ℤ
  pub max_module_allocation : ℤ
  pub max_debt_per_position : ℤ
  pub min_collateral_sompi : ℤ
  pub max_collateral_sompi : ℤ
  pub min_module_duration_daa : ℤ
  pub max_module_duration_daa : ℤ
  pub min_challenge_period_daa : ℤ
  pub max_challenge_period_daa : ℤ
  pub min_auction_duration_daa : ℤ
  pub max_auction_duration_daa : ℤ
  pub max_risk_premium_ppm : ℤ
  pub min_reserve_contribution_ppm : ℤ
  pub max_reserve_contribution_ppm : ℤ
  pub root_remaining_allocation : ℤ

-- src/artifact.rs
pub record Artifact : Type 0 where
  pub bytecode : Bytes
  pub prefix : Bytes
  pub suffix : Bytes
  pub template_hash : Bytes

pub record ProtocolStack : Type 0 where
  pub kcc : Artifact
  pub kps : Artifact
  pub delegation : Artifact
  pub reserve : Artifact
  pub auction : Artifact
  pub challenge : Artifact
  pub anchor : Artifact
  pub challenged_position : Artifact
  pub position : Artifact
  -- `module` in the source
  pub minting_module : Artifact

pub record GovernanceStack : Type 0 where
  pub base : ProtocolStack
  pub proposal : Artifact
  pub governance : Artifact
  pub root : Artifact

pub record GovernanceVote : Type 0 where
  pub owner : Bytes
  pub delegate : Bytes
  pub delegation_id : Bytes
  pub amount : ℤ
  pub weight : ℤ
  pub delegation_input_index : ℕ

pub record TokenOutput : Type 0 where
  pub owner : Bytes
  pub identifier_type : ℕ
  pub amount : ℤ
  pub is_minter : Bool
