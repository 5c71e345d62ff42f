-- ===== src/SavingsProtocol/Sample.antt =====
-- Parameters for the runs of src/savings_protocol.rs, and the stack that they give.
use kusd.Base.{true}
use kusd.Int.{pos}
use kusd.Order.{text}
use kusd.Protocol.Args.{zeros}
use kusd.Protocol.Sample.{stack, compiled}
use kusd.SavingsProtocol.{SavingsParams, SavingsStack}

abbrev pub savings : SavingsParams
savings = record {
  owner = zeros 32;
  referrer = zeros 32;
  proposer = zeros 32;
  controller_id = zeros 32;
  governor_id = zeros 32;
  registry_id = zeros 32;
  active_proposal_id = zeros 32;
  enabled = true;
  proposal_nonce = pos 0;
  execution_nonce = pos 0;
  series_nonce = pos 0;
  account_nonce = pos 0;
  total_saved = pos 700;
  saved = pos 70;
  rate_ppm = pos 30000;
  current_rate_ppm = pos 30000;
  interest_delay_daa = pos 10;
  delay_remaining_daa = pos 0;
  max_accrual_daa = pos 1000;
  remaining_accrual_daa = pos 1000;
  daa_per_year = pos 1000;
  referral_fee_ppm = pos 50000;
  voting_delay_daa = pos 10;
  execution_window_daa = pos 10;
  veto_threshold_ppm = pos 200000;
  proposal_deposit_sompi = pos 100;
  account_value_sompi = pos 100;
}

abbrev pub savings_stack : SavingsStack
savings_stack = record {
  base = record stack { reserve = compiled (text "contracts/equity-reserve.sil") };
  proposal = compiled (text "contracts/savings-proposal.sil");
  governor = compiled (text "contracts/savings-governor.sil");
  account = compiled (text "contracts/savings-account.sil");
  controller = compiled (text "contracts/savings-controller.sil");
  reserve = compiled (text "contracts/equity-reserve.sil");
  registry = compiled (text "contracts/savings-registry.sil");
}
