-- ===== src/SavingsProtocol/Validate.antt =====
-- `validate` of src/savings_protocol.rs.
use kusd.Base.{Bool, not, ◌||◌, ◌==◌, List, [], ◌∷◌, length, Result, ◌>>◌, reject_if}
use kusd.Int.{ℤ, pos, ltb_ℤ, leb_ℤ, within}
use kusd.Order.{Text, text}
use kusd.SavingsProtocol.{Bytes, ProtocolParams, SavingsParams}
use kusd.Protocol.Validate.{Error, check_lengths}

-- `PPM`
abbrev pub ppm : ℤ
ppm = pos 1000000

-- `MAX_AMOUNT`
abbrev pub max_amount : ℤ
max_amount = pos 36028797018963967

abbrev pub identifiers : SavingsParams → List (Text × Bytes)
identifiers p =
    (text "owner", p.owner)
    ∷ (text "referrer", p.referrer)
    ∷ (text "proposer", p.proposer)
    ∷ (text "controller_id", p.controller_id)
    ∷ (text "governor_id", p.governor_id)
    ∷ (text "registry_id", p.registry_id)
    ∷ (text "active_proposal_id", p.active_proposal_id)
    ∷ []

unfoldable pub rejects_savings : SavingsParams → Bool
rejects_savings p =
    not (within (pos 0) ppm p.rate_ppm)
    || not (within (pos 0) ppm p.current_rate_ppm)
    || not (within (pos 0) (pos 250000) p.referral_fee_ppm)
    || not (within (pos 1) ppm p.veto_threshold_ppm)
    || leb_ℤ p.interest_delay_daa (pos 0)
    || ltb_ℤ p.delay_remaining_daa (pos 0)
    || leb_ℤ p.max_accrual_daa (pos 0)
    || ltb_ℤ p.remaining_accrual_daa (pos 0)
    || leb_ℤ p.daa_per_year (pos 0)
    || leb_ℤ p.voting_delay_daa (pos 0)
    || leb_ℤ p.execution_window_daa (pos 0)
    || leb_ℤ p.proposal_deposit_sompi (pos 0)
    || leb_ℤ p.account_value_sompi (pos 0)
    || ltb_ℤ p.saved (pos 0)
    || ltb_ℤ p.total_saved (pos 0)
    || ltb_ℤ max_amount p.saved
    || ltb_ℤ max_amount p.total_saved

unfoldable pub validate : ProtocolParams → SavingsParams → Result Error (Unit {0})
validate base p = do
  check_lengths (identifiers p)
  reject_if
      (not (length base.asset_id == 32)
        || not (length base.kps_id == 32)
        || not (length base.reserve_id == 32))
      (Error.refused (text "Asset/KPS/Reserve ID: 32 bytes required"))
  reject_if (rejects_savings p) (Error.refused (text "invalid Savings parameters"))
