-- ===== src/Protocol/Sample.antt =====
-- Parameters for the runs of src/protocol.rs and src/savings_protocol.rs, and the stacks that they give
-- with the compiler of the runs.
use kusd.Base.{[], ◌∷◌}
use kusd.Int.{pos}
use kusd.Order.{text}
use kusd.Protocol.{
  Bytes, ProtocolParams, GovernanceParams, Artifact, ProtocolStack, GovernanceStack,
}
use kusd.Protocol.Args.{zeros}

abbrev pub compiled : Bytes → Artifact
compiled path = record {
  bytecode = 7 ∷ 8 ∷ path;
  prefix = 7 ∷ [];
  suffix = path;
  template_hash = path;
}

abbrev pub params : ProtocolParams
params = record {
  owner = zeros 32;
  challenger = zeros 32;
  asset_id = zeros 32;
  kps_id = zeros 32;
  reserve_id = zeros 32;
  module_id = zeros 32;
  position_id = zeros 32;
  debt = pos 100;
  assigned_reserve = pos 10;
  reserve_contribution_ppm = pos 100000;
  risk_premium_ppm = pos 50000;
  daa_per_year = pos 1000;
  liquidation_price = pos 2;
  challenge_period_daa = pos 10;
  auction_duration_daa = pos 20;
  challenge_reward_ppm = pos 20000;
  collateral_sompi = pos 500;
  minimum_collateral_sompi = pos 100;
  current_daa = pos 5;
  reserve_kusd = pos 0;
  total_kps = pos 0;
  reserve_collateral_sompi = pos 0;
  minimum_kps_holding_daa = pos 10;
  max_kps_vote_weight = pos 4;
  module_remaining_mint = pos 1000;
  max_debt_per_position = pos 100;
  module_expiration_daa = pos 105;
  position_nonce = pos 0;
}

abbrev pub governance : GovernanceParams
governance = record {
  proposer = zeros 32;
  governance_id = zeros 32;
  root_id = zeros 32;
  proposal_nonce = pos 0;
  execution_nonce = pos 0;
  voting_delay_daa = pos 10;
  execution_window_daa = pos 10;
  veto_threshold_ppm = pos 200000;
  proposal_deposit_sompi = pos 100;
  proposal_fee_kusd = pos 50;
  min_module_allocation = pos 100;
  max_module_allocation = pos 2000;
  max_debt_per_position = pos 100;
  min_collateral_sompi = pos 100;
  max_collateral_sompi = pos 1000;
  min_module_duration_daa = pos 50;
  max_module_duration_daa = pos 500;
  min_challenge_period_daa = pos 5;
  max_challenge_period_daa = pos 50;
  min_auction_duration_daa = pos 5;
  max_auction_duration_daa = pos 50;
  max_risk_premium_ppm = pos 100000;
  min_reserve_contribution_ppm = pos 0;
  max_reserve_contribution_ppm = pos 200000;
  root_remaining_allocation = pos 5000;
}

abbrev pub stack : ProtocolStack
stack = record {
  kcc = compiled (text "contracts/kcc20.sil");
  kps = compiled (text "contracts/kps.sil");
  delegation = compiled (text "contracts/kps-delegation.sil");
  reserve = compiled (text "contracts/equity-reserve-base.sil");
  auction = compiled (text "contracts/auction.sil");
  challenge = compiled (text "contracts/challenge.sil");
  anchor = compiled (text "contracts/challenge-anchor.sil");
  challenged_position = compiled (text "contracts/challenged-position.sil");
  position = compiled (text "contracts/position.sil");
  minting_module = compiled (text "contracts/minting-module.sil");
}

abbrev pub governed : GovernanceStack
governed = record {
  base = stack;
  proposal = compiled (text "contracts/module-proposal.sil");
  governance = compiled (text "contracts/governance.sil");
  root = compiled (text "contracts/root-issuance.sil");
}
