-- ===== src/Protocol/Opening.antt =====
-- `module_open_call` of src/protocol.rs: a Position is opened from a Module, with the split of its debt
-- that src/fees.rs quotes.
use kusd.Base.{
  ℕ, true, false, not, ◌||◌, ◌==◌, List, [], ◌∷◌, length, ok_or, map_err, and_then, Result, ok,
  ◌>>=◌, ◌>>◌, reject_if,
}
use kusd.Int.{ℤ, pos, ◌+ℤ◌, ◌-ℤ◌, leb_ℤ, eqb_ℤ, wrap_i64, checked_sub}
use kusd.Order.{Text, text}
use kusd.Protocol.{Bytes, ProtocolParams, ProtocolStack, Compiler}
use kusd.Protocol.Args.{module_args}
use kusd.Protocol.Validate.{Error}
use kusd.Silverscript.Encode.{compile_contract}
use kusd.Protocol.Compile.{source, compile_stack}
use kusd.Protocol.States.{token_state_expr, module_state_expr, position_state_for_module}
use kusd.Protocol.Calls.{covenant_call}
use kusd.Fees.{quote}

pub record OpenTerms : Type 0 where
  pub contribution : ℤ
  pub fee : ℤ
  pub usable : ℤ

-- The quote, what is left to the owner, and the check against the declared reserve.
unfoldable pub open_terms : Text → ProtocolParams → Result Error OpenTerms
open_terms incompatible p = do
  quoted ← map_err Error.mint_quote (
      quote
        (record {
          reserve_contribution_ppm = p.reserve_contribution_ppm;
          annual_interest_ppm = p.risk_premium_ppm;
          daa_per_year = p.daa_per_year;
        })
        p.debt (wrap_i64 (p.module_expiration_daa -ℤ p.current_daa)))
  usable ←
      ok_or
        (and_then (checked_sub p.debt quoted.assigned_reserve_kusd)
          (λ value. checked_sub value quoted.equity_fee_kusd))
        (Error.refused (text "underflow mint utilisable"))
  reject_if (not (eqb_ℤ quoted.assigned_reserve_kusd p.assigned_reserve) || leb_ℤ usable (pos 0))
      (Error.refused incompatible)
  ok (record {
    contribution = quoted.assigned_reserve_kusd;
    fee = quoted.equity_fee_kusd;
    usable = usable;
  })

-- The Module after it.
unfoldable pub opened : ProtocolParams → ProtocolParams
opened p = record p {
  module_remaining_mint = wrap_i64 (p.module_remaining_mint -ℤ p.debt);
  position_nonce = wrap_i64 (p.position_nonce +ℤ pos 1);
}

module _ (c : Compiler) where
  -- The arguments of the call, which src/savings_protocol.rs has too.
  unfoldable pub open_args : ProtocolParams → ProtocolStack → Bytes → ℕ → OpenTerms → List c.Expr
  open_args p stack position_id position_output_index terms =
      module_state_expr c (opened p) (text "State")
      ∷ c.byte position_output_index
      ∷ c.dynamic_bytes stack.position.prefix
      ∷ c.dynamic_bytes stack.position.suffix
      ∷ position_state_for_module c p stack position_id (text "PositionState")
      ∷ token_state_expr c p.module_id 2 (pos 0) true (text "KCC20State")
      ∷ token_state_expr c position_id 2 (pos 0) true (text "KCC20State")
      ∷ token_state_expr c p.owner 0 terms.usable false (text "KCC20State")
      ∷ token_state_expr c position_id 2 terms.contribution false (text "KCC20State")
      ∷ token_state_expr c p.reserve_id 2 terms.fee false (text "KCC20State")
      ∷ []

  unfoldable pub module_open_call :
      (p : ProtocolParams) (position_id : Bytes) (position_output_index : ℕ) → Result Error Bytes
  module_open_call p position_id position_output_index = do
    reject_if (not (length position_id == 32))
        (Error.refused (text "position_id: 32 bytes required"))
    stack ← compile_stack c p
    src ← source c (text "contracts/minting-module.sil")
    contract ← map_err Error.call_failed (compile_contract c src (module_args c p stack))
    terms ← open_terms (text "assignedReserve is incompatible with Module rates") p
    covenant_call c contract (text "openPolicy")
        (open_args p stack position_id position_output_index terms) true
