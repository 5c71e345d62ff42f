-- ===== src/SavingsProtocol.antt =====
-- src/savings_protocol.rs: the contracts of the savings, with the Equity Reserve that pays them, and the
-- calls on them. It compiles with the functions of src/protocol.rs.
pub mod Validate
pub mod Args
pub mod Compile
pub mod Stable
pub mod Based
pub mod Prepared
pub mod Fixpoint
pub mod Snapshots
pub mod Recompiled
pub mod States
pub mod BaseStates
pub mod GovernorCalls
pub mod AccountCalls
pub mod PositionCalls
pub mod ModuleCalls
pub mod Repayment
pub mod AuctionCalls
pub mod Settlement
pub mod ReserveCalls
pub mod Redemption
pub mod Repaid
pub mod InRange
pub mod RepayCall
pub mod Stuck
pub mod Settled
pub mod Redeemed
pub mod GovernanceCalls
pub mod RootCalls
pub mod Sample
mod Tests
mod AmountTests
use kusd.Base.{Bool}
use kusd.Int.{ℤ}
pub use kusd.Protocol.{
  Bytes, ProtocolParams, GovernanceParams, Artifact, ProtocolStack, GovernanceStack, TokenOutput,
  Compiler,
}

pub record SavingsParams : Type 0 where
  pub owner : Bytes
  pub referrer : Bytes
  pub proposer : Bytes
  pub controller_id : Bytes
  pub governor_id : Bytes
  pub registry_id : Bytes
  pub active_proposal_id : Bytes
  pub enabled : Bool
  pub proposal_nonce : ℤ
  pub execution_nonce : ℤ
  pub series_nonce : ℤ
  pub account_nonce : ℤ
  pub total_saved : ℤ
  pub saved : ℤ
  pub rate_ppm : ℤ
  pub current_rate_ppm : ℤ
  pub interest_delay_daa : ℤ
  pub delay_remaining_daa : ℤ
  pub max_accrual_daa : ℤ
  pub remaining_accrual_daa : ℤ
  pub daa_per_year : ℤ
  pub referral_fee_ppm : ℤ
  pub voting_delay_daa : ℤ
  pub execution_window_daa : ℤ
  pub veto_threshold_ppm : ℤ
  pub proposal_deposit_sompi : ℤ
  pub account_value_sompi : ℤ

pub record SavingsStack : Type 0 where
  pub base : ProtocolStack
  pub proposal : Artifact
  pub governor : Artifact
  pub account : Artifact
  pub controller : Artifact
  pub reserve : Artifact
  pub registry : Artifact

pub record FullStack : Type 0 where
  pub savings : SavingsStack
  pub base_governance : GovernanceStack
