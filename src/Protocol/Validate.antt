-- ===== src/Protocol/Validate.antt =====
-- `validate` and `validate_governance` of src/protocol.rs.
use kusd.Base.{Bool, not, ◌||◌, ◌==◌, List, [], ◌∷◌, ok_or, Result, ok, ◌>>=◌, ◌>>◌, reject_if}
use kusd.Int.{ℤ, pos, ltb_ℤ, leb_ℤ, within, checked_sub}
use kusd.Order.{Text, text}
use kusd.Fees
use kusd.Equity.MulDiv
use kusd.Silverscript.Encode.{CompilerError}
use kusd.Protocol.{Bytes, ProtocolParams, GovernanceParams}
use kusd.Protocol.Args.{length}

-- The messages of src/protocol.rs and src/savings_protocol.rs: `refused` is a fixed one, and the
-- others have the values that they print. A slice out of range and `unwrap` panic in the source.
pub data Error : Type 0 where
  refused bytes_required unstable : Text → Error
  invalid_economic invalid_duration invalid_governance : Error
  read_failed : Text → Bytes → Error
  compile_failed : Text → CompilerError → Error
  call_failed : CompilerError → Error
  script_failed type_ref_failed type_ref_panics : Bytes → Error
  mint_quote : Fees.Error → Error
  mul_div : MulDiv.Error → Error
  slice_out_of_range unstable_reserve unstable_auction unstable_position unstable_challenged : Error

-- The loop over the names and the identifiers.
unfoldable pub check_lengths : List (Text × Bytes) → Result Error (Unit {0})
check_lengths [] = ok tt
check_lengths ((name, value) ∷ rest) = do
  reject_if (not (length value == 32)) (Error.bytes_required name)
  check_lengths rest

abbrev pub identifiers : ProtocolParams → List (Text × Bytes)
identifiers p =
    (text "owner", p.owner)
    ∷ (text "challenger", p.challenger)
    ∷ (text "asset_id", p.asset_id)
    ∷ (text "kps_id", p.kps_id)
    ∷ (text "reserve_id", p.reserve_id)
    ∷ (text "module_id", p.module_id)
    ∷ (text "position_id", p.position_id)
    ∷ []

unfoldable pub rejects_economics : ProtocolParams → Bool
rejects_economics p =
    leb_ℤ p.debt (pos 0)
    || ltb_ℤ p.assigned_reserve (pos 0)
    || ltb_ℤ p.debt p.assigned_reserve
    || ltb_ℤ p.reserve_contribution_ppm (pos 0)
    || not (within (pos 0) (pos 1000000) p.risk_premium_ppm)
    || leb_ℤ p.daa_per_year (pos 0)
    || leb_ℤ (pos 1000000) p.reserve_contribution_ppm
    || leb_ℤ p.liquidation_price (pos 0)
    || leb_ℤ p.challenge_period_daa (pos 0)
    || leb_ℤ p.auction_duration_daa (pos 0)
    || not (within (pos 1) (pos 100000) p.challenge_reward_ppm)
    || leb_ℤ p.collateral_sompi (pos 0)
    || leb_ℤ p.minimum_collateral_sompi (pos 0)
    || ltb_ℤ p.collateral_sompi p.minimum_collateral_sompi
    || leb_ℤ p.current_daa (pos 0)
    || ltb_ℤ p.reserve_kusd (pos 0)
    || ltb_ℤ p.total_kps (pos 0)
    || ltb_ℤ p.reserve_collateral_sompi (pos 0)
    || leb_ℤ p.minimum_kps_holding_daa (pos 0)
    || not (within (pos 1) (pos 16) p.max_kps_vote_weight)
    || ltb_ℤ p.module_remaining_mint p.debt
    || ltb_ℤ p.max_debt_per_position p.debt
    || leb_ℤ p.module_expiration_daa (pos 0)
    || ltb_ℤ p.position_nonce (pos 0)

unfoldable pub validate : ProtocolParams → Result Error (Unit {0})
validate p = do
  check_lengths (identifiers p)
  reject_if (rejects_economics p) Error.invalid_economic

abbrev pub governance_identifiers : GovernanceParams → List (Text × Bytes)
governance_identifiers g =
    (text "proposer", g.proposer)
    ∷ (text "governance_id", g.governance_id)
    ∷ (text "root_id", g.root_id)
    ∷ []

unfoldable pub rejects_governance : ProtocolParams → GovernanceParams → ℤ → Bool
rejects_governance p g module_duration =
    ltb_ℤ g.proposal_nonce (pos 0)
    || ltb_ℤ g.execution_nonce (pos 0)
    || leb_ℤ g.voting_delay_daa (pos 0)
    || leb_ℤ g.execution_window_daa (pos 0)
    || not (within (pos 1) (pos 1000000) g.veto_threshold_ppm)
    || leb_ℤ g.proposal_deposit_sompi (pos 0)
    || leb_ℤ g.proposal_fee_kusd (pos 0)
    || leb_ℤ g.min_module_allocation (pos 0)
    || ltb_ℤ g.max_module_allocation g.min_module_allocation
    || leb_ℤ g.max_debt_per_position (pos 0)
    || leb_ℤ g.min_collateral_sompi (pos 0)
    || ltb_ℤ g.max_collateral_sompi g.min_collateral_sompi
    || leb_ℤ g.min_module_duration_daa (pos 0)
    || ltb_ℤ g.max_module_duration_daa g.min_module_duration_daa
    || leb_ℤ g.min_challenge_period_daa (pos 0)
    || ltb_ℤ g.max_challenge_period_daa g.min_challenge_period_daa
    || leb_ℤ g.min_auction_duration_daa (pos 0)
    || ltb_ℤ g.max_auction_duration_daa g.min_auction_duration_daa
    || not (within (pos 0) (pos 1000000) g.max_risk_premium_ppm)
    || ltb_ℤ g.min_reserve_contribution_ppm (pos 0)
    || ltb_ℤ g.max_reserve_contribution_ppm g.min_reserve_contribution_ppm
    || leb_ℤ (pos 1000000) g.max_reserve_contribution_ppm
    || ltb_ℤ g.root_remaining_allocation p.module_remaining_mint
    || ltb_ℤ p.module_remaining_mint g.min_module_allocation
    || ltb_ℤ g.max_module_allocation p.module_remaining_mint
    || ltb_ℤ g.max_debt_per_position p.max_debt_per_position
    || ltb_ℤ p.minimum_collateral_sompi g.min_collateral_sompi
    || ltb_ℤ g.max_collateral_sompi p.minimum_collateral_sompi
    || leb_ℤ p.liquidation_price (pos 0)
    || ltb_ℤ module_duration g.min_module_duration_daa
    || ltb_ℤ g.max_module_duration_daa module_duration
    || ltb_ℤ p.challenge_period_daa g.min_challenge_period_daa
    || ltb_ℤ g.max_challenge_period_daa p.challenge_period_daa
    || ltb_ℤ p.auction_duration_daa g.min_auction_duration_daa
    || ltb_ℤ g.max_auction_duration_daa p.auction_duration_daa
    || ltb_ℤ g.max_risk_premium_ppm p.risk_premium_ppm
    || ltb_ℤ p.reserve_contribution_ppm g.min_reserve_contribution_ppm
    || ltb_ℤ g.max_reserve_contribution_ppm p.reserve_contribution_ppm

unfoldable pub validate_governance : ProtocolParams → GovernanceParams → Result Error (Unit {0})
validate_governance p g = do
  check_lengths (governance_identifiers g)
  module_duration ← ok_or (checked_sub p.module_expiration_daa p.current_daa) Error.invalid_duration
  reject_if (rejects_governance p g module_duration) Error.invalid_governance
