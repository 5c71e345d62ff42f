-- ===== src/Indexer/Data.antt =====
-- The data of src/indexer.rs: outpoints, tracked entities, the snapshot, the journal and the blocks.
-- `i64` is an integer, `u64` and `usize` a number, `String` its bytes.
use Prim.Native.Nat.{compare}
use kusd.Base.{ℕ, ◌≡◌, Bool, Option, List, Ordering, arith}
use kusd.Int.{ℤ}
use kusd.Order.{
  Order, Text, text_order, lex, swap, cmp_text, cmp_text_eq, cmp_text_refl, cmp_text_flip,
  cmp_text_trans,
}
use kusd.OrderedMap.{OrderedMap}

pub record Outpoint : Type 0 where
  pub transaction_id : Text
  pub index : ℕ

-- `#[derive(Ord)]`: the fields in turn
unfoldable pub cmp_outpoint : Outpoint → Outpoint → Ordering
cmp_outpoint a b = lex (cmp_text a.transaction_id b.transaction_id) (compare a.index b.index)

pub cmp_outpoint_eq : (a b : Outpoint) → cmp_outpoint a b ≡ Ordering.eq → a ≡ b
unfolding cmp_outpoint
cmp_outpoint_eq a b h = ground (arith, cmp_text_eq a.transaction_id b.transaction_id)

pub cmp_outpoint_refl : (a : Outpoint) → cmp_outpoint a a ≡ Ordering.eq
unfolding cmp_outpoint
cmp_outpoint_refl a = ground (arith, cmp_text_refl a.transaction_id)

pub cmp_outpoint_flip : (a b : Outpoint) → cmp_outpoint a b ≡ swap (cmp_outpoint b a)
unfolding cmp_outpoint
cmp_outpoint_flip a b = ground (arith, cmp_text_flip a.transaction_id b.transaction_id)

pub cmp_outpoint_trans :
    (a b c : Outpoint)
    → cmp_outpoint a b ≡ Ordering.lt
    → cmp_outpoint b c ≡ Ordering.lt
    → cmp_outpoint a c ≡ Ordering.lt
unfolding cmp_outpoint
cmp_outpoint_trans a b c h k = ground (
  arith,
  cmp_text_trans a.transaction_id b.transaction_id c.transaction_id,
  cmp_text_eq a.transaction_id b.transaction_id,
  cmp_text_eq b.transaction_id c.transaction_id,
  cmp_text_refl a.transaction_id,
)

instance abbrev pub outpoint_order : Order Outpoint
outpoint_order = record {
  cmp = cmp_outpoint;
  cmp_eq = cmp_outpoint_eq;
  cmp_refl = cmp_outpoint_refl;
  cmp_flip = cmp_outpoint_flip;
  cmp_trans = cmp_outpoint_trans;
}

pub record ModuleEconomicBounds : Type 0 where
  pub min_module_allocation : ℤ
  pub max_module_allocation : ℤ
  pub max_debt_per_position : ℤ
  pub min_collateral_sompi : ℕ
  pub max_collateral_sompi : ℕ
  pub min_module_duration_daa : ℤ
  pub max_module_duration_daa : ℤ
  pub min_challenge_period_daa : ℤ
  pub max_challenge_period_daa : ℤ
  pub min_auction_duration_daa : ℤ
  pub max_auction_duration_daa : ℤ
  pub max_risk_premium_ppm : ℤ
  pub min_reserve_contribution_ppm : ℤ
  pub max_reserve_contribution_ppm : ℤ

-- The fields of `Entity::Governance`.
pub record GovernanceFields : Type 0 where
  pub proposal_nonce : ℤ
  pub execution_nonce : ℤ
  pub active_proposal_id : Option Text
  pub voting_delay_daa : ℤ
  pub execution_window_daa : ℤ
  pub veto_threshold_ppm : ℤ
  pub proposal_deposit_sompi : ℕ
  pub proposal_fee_kusd : ℤ
  pub daa_per_year : ℤ
  pub economic_bounds : Option ModuleEconomicBounds

-- The fields of `Entity::ModuleProposal`.
pub record ProposalFields : Type 0 where
  pub governance_id : Text
  pub proposer : Text
  pub proposal_nonce : ℤ
  pub activated : Bool
  pub allocation : ℤ
  pub max_debt_per_position : ℤ
  pub minimum_collateral_sompi : ℕ
  pub liquidation_price : ℤ
  pub expiration_daa : ℤ
  pub challenge_period_daa : ℤ
  pub auction_duration_daa : ℤ
  pub challenge_reward_ppm : ℤ
  pub reserve_contribution_ppm : ℤ
  pub risk_premium_ppm : ℤ
  pub daa_per_year : ℤ
  pub deposit_sompi : ℕ

-- The fields of `Entity::SavingsController`.
pub record ControllerFields : Type 0 where
  pub enabled : Bool
  pub series_nonce : ℤ
  pub account_nonce : ℤ
  pub total_saved : ℤ
  pub current_rate_ppm : ℤ
  pub interest_delay_daa : ℤ
  pub max_accrual_daa : ℤ

-- The fields of `Entity::SavingsAccount`.
pub record AccountFields : Type 0 where
  pub owner : Text
  pub saved : ℤ
  pub rate_ppm : ℤ
  pub delay_remaining_daa : ℤ
  pub remaining_accrual_daa : ℤ
  pub referral_fee_ppm : ℤ

-- The smaller variants have their fields in the order of the source.
pub data Entity : Type 0 where
  governance : GovernanceFields → Entity
  module_proposal : ProposalFields → Entity
  kps_delegation : (owner delegate : Text) (amount weight : ℤ) → Entity
  root : (remaining_allocation module_nonce : ℤ) → Entity
  minting_module : (remaining_mint position_nonce expiration_daa : ℤ) → Entity
  position : (collateral_sompi : ℕ) (debt : ℤ) (challenge_id : Option Text) → Entity
  challenged_position : (collateral_sompi : ℕ) (debt : ℤ) (challenge_id : Text) → Entity
  challenge_anchor : (collateral_sompi : ℕ) (debt : ℤ) → Entity
  challenge : (collateral_sompi : ℕ) (debt : ℤ) → Entity
  auction : (collateral_sompi : ℕ) (debt reward : ℤ) → Entity
  reserve : (kusd_balance total_kps : ℤ) (collateral_sompi : ℕ) → Entity
  savings_registry : (controller_id : Option Text) (initialized : Bool) → Entity
  savings_governor :
      (proposal_nonce execution_nonce : ℤ) (active_proposal_id : Option Text) → Entity
  savings_proposal : (activated : Bool) (rate_ppm interest_delay_daa max_accrual_daa : ℤ) → Entity
  savings_controller : ControllerFields → Entity
  savings_account : AccountFields → Entity
  token : (amount : ℤ) (is_minter : Bool) → Entity
  equity_token : (amount : ℤ) (is_minter : Bool) → Entity

abbrev pub Entities : Type 0
Entities = OrderedMap Outpoint Entity

pub record Snapshot : Type 0 where
  pub entities : Entities
  pub circulating_supply : ℤ
  pub position_debt : ℤ
  pub kps_supply : ℤ
  pub reserve_kusd : ℤ
  pub reserve_total_kps : ℤ
  pub reserve_collateral_sompi : ℕ
  pub active_governance_proposals : ℕ
  pub proposed_module_allocation : ℤ
  pub delegated_kps : ℤ
  pub weighted_kps_votes : ℤ
  pub savings_balance : ℤ
  pub savings_accounts : ℕ
  pub savings_enabled : Bool
  pub savings_rate_ppm : ℤ
  pub challenged_positions : ℕ
  pub active_challenges : ℕ
  pub active_auctions : ℕ

pub record AppliedTransaction : Type 0 where
  pub transaction_id : Text
  pub consumed : List (Outpoint × Entity)
  pub created : List Outpoint
  pub previous_supply : ℤ
  pub previous_debt : ℤ
  pub previous_kps_supply : ℤ
  pub previous_active_governance_proposals : ℕ
  pub previous_proposed_module_allocation : ℤ
  pub previous_delegated_kps : ℤ
  pub previous_weighted_kps_votes : ℤ
  pub previous_savings_balance : ℤ
  pub previous_savings_accounts : ℕ
  pub previous_savings_enabled : Bool
  pub previous_savings_rate_ppm : ℤ
  pub previous_challenged_positions : ℕ
  pub previous_active_challenges : ℕ
  pub previous_active_auctions : ℕ

pub record AppliedBlock : Type 0 where
  pub hash : Text
  pub parent : Text
  pub daa_score : ℕ
  pub transaction_count : ℕ

-- The journal and the blocks are vectors that are pushed and popped at their end; here that end is
-- the head of the list.
pub record Indexer : Type 0 where
  pub snapshot : Snapshot
  pub journal : List AppliedTransaction
  pub blocks : List AppliedBlock
