-- ===== src/SavingsProtocol/Tests.antt =====
-- Runs of src/savings_protocol.rs, and the theorems at these runs.
use kusd.Base.{ℕ, ◌≡◌, ◌≤◌, ◌∷◌, refl, true, false, not, ok, arith}
use kusd.Int.{pos}
use kusd.Order.{text, text_eq, cmp_text}
use kusd.SavingsProtocol.{ProtocolParams}
use kusd.Silverscript.Sample.{compiler}
use kusd.Protocol.Sample.{params}
use kusd.Silverscript.Encode.{Contract, compile_contract}
use kusd.Protocol.Args.{zeros, truncate, position_args}
use kusd.Protocol.Calls.{covenant_call}
use kusd.Protocol.Validate.{check_lengths, rejects_economics, validate as validate_protocol}
use kusd.Protocol.Compile.{
  compile_tokens, compile, source, split_artifact, changed, drop, compile_position_pair,
  compile_reserve_pair as compile_protocol_pair, compile_stack as compile_protocol_stack,
}
use kusd.SavingsProtocol.Prepared.{SettledSavings}
use kusd.SavingsProtocol.Fixpoint.{compile_stack-SettledSavings}
use kusd.SavingsProtocol.Snapshots.{
  compile_proposal_state, compile_registry_state, compile_governor_state, compile_controller_state,
  compile_account_state, compile_reserve_state, compile_base_anchor_state,
  compile_base_challenge_state, compile_base_auction_state, compile_base_module_state,
  compile_base_position_state, compile_base_challenged_position_state,
}
use kusd.SavingsProtocol.Recompiled.{compile_states_agree}
use kusd.SavingsProtocol.Validate.{validate, rejects_savings}
use kusd.SavingsProtocol.Repayment.{repay_arguments, base_position_repay_call}
use kusd.SavingsProtocol.Repaid.{Numbers, Repaid}
use kusd.SavingsProtocol.RepayCall.{repay_keeps_reserve}
use kusd.SavingsProtocol.Compile.{
  compile_for_call, compile_stack, compile_base, compile_finals, compile_probes,
  compile_reserve_pair,
}
use kusd.SavingsProtocol.Sample.{savings, savings_stack}

stack_run : compile_stack compiler params savings ≡ ok savings_stack
unfolding compile_stack validate check_lengths zeros rejects_savings compile_protocol_stack
    validate_protocol rejects_economics compile_tokens compile source compile_contract
    split_artifact compile_protocol_pair changed text_eq cmp_text truncate drop
    compile_position_pair compile_base compile_finals compile_probes compile_reserve_pair
stack_run = refl

compile_stack-SettledSavings_example :
    (validate params savings ≡ ok tt) × SettledSavings compiler params savings savings_stack
compile_stack-SettledSavings_example =
    compile_stack-SettledSavings compiler params savings savings_stack stack_run

compile_states_agree_example :
    (compile_registry_state compiler savings (not (text_eq savings.controller_id (zeros 32)))
      ≡ ok savings_stack.registry)
    × (compile_proposal_state compiler params savings false ≡ ok savings_stack.proposal)
    × (compile_governor_state compiler params savings ≡ ok savings_stack.governor)
    × (compile_controller_state compiler params savings ≡ ok savings_stack.controller)
    × (compile_account_state compiler params savings ≡ ok savings_stack.account)
    × (compile_reserve_state compiler params savings ≡ ok savings_stack.reserve)
    × (compile_base_anchor_state compiler params savings ≡ ok savings_stack.base.anchor)
    × (compile_base_challenge_state compiler params savings ≡ ok savings_stack.base.challenge)
    × (compile_base_auction_state compiler params savings ≡ ok savings_stack.base.auction)
    × (compile_base_module_state compiler params savings params.module_remaining_mint
          params.position_nonce
        ≡ ok savings_stack.base.minting_module)
    × (compile_base_position_state compiler params savings params.debt params.assigned_reserve
          (zeros 32)
        ≡ ok savings_stack.base.position)
    × (compile_base_challenged_position_state compiler params savings params.debt
          params.assigned_reserve
          (zeros 32)
        ≡ ok savings_stack.base.challenged_position)
compile_states_agree_example = compile_states_agree compiler params savings savings_stack stack_run

-- A debt of 100 atoms, 10 of them assigned, at ten percent, of which 55 are repaid.
params-Numbers : Numbers params 100 10 100000
params-Numbers = record {
  debt = refl;
  assigned = refl;
  rate = refl;
  rate_below = omega arith;
  debt_fits = omega arith;
  assigned_fits = omega arith;
}

abbrev position : Contract compiler
position = record {
  compiled = record {
    contract_name = text "contracts/position.sil";
    bytecode = 7 ∷ 8 ∷ text "contracts/position.sil";
    state_start = 1;
    state_len = 1;
    template_hash = text "contracts/position.sil";
  };
  abi = tt;
}

position_source :
    source compiler (text "contracts/position.sil") ≡ ok (text "contracts/position.sil")
unfolding source
position_source = refl

position_compiled :
    compile_for_call compiler
      (text "Position")
      (text "contracts/position.sil")
      (position_args compiler params savings_stack.base (zeros 32))
    ≡ ok position
unfolding compile_for_call compile_contract
position_compiled = refl

repay_keeps_reserve_example :
    (next : ProtocolParams) × (kept : ℕ) × (base_position_repay_call compiler params savings
        (pos 55)
      ≡ covenant_call compiler position
          (text "repayPolicy")
          (repay_arguments compiler params savings_stack next (pos 55))
          true)
    × (10 ≤ 100)
    × Repaid 100 10 100000 55 next kept
repay_keeps_reserve_example =
    repay_keeps_reserve compiler params savings savings_stack (text "contracts/position.sil")
      position 100 10 100000 55 params-Numbers stack_run position_source position_compiled
      (omega arith) (omega arith) (omega arith)
