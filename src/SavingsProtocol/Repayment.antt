-- ===== src/SavingsProtocol/Repayment.antt =====
-- `base_position_repay_call` of src/savings_protocol.rs: a part of the debt of a Position is burnt, with
-- its share of the assigned reserve.
use kusd.Base.{
  true, false, ◌||◌, if◌then◌else◌, List, [], ◌∷◌, ok_or, Result, ok, ◌>>=◌, ◌>>◌, reject_if,
}
use kusd.Int.{ℤ, pos, ◌+ℤ◌, ◌*ℤ◌, ◌/ℤ◌, ◌%ℤ◌, ltb_ℤ, leb_ℤ, eqb_ℤ, wrap_i64, checked_sub}
use kusd.Order.{text}
use kusd.SavingsProtocol.{Bytes, ProtocolParams, Compiler, SavingsParams, SavingsStack}
use kusd.Protocol.Args.{zeros, position_args}
use kusd.Protocol.Validate.{Error}
use kusd.SavingsProtocol.Validate.{ppm}
use kusd.Protocol.Compile.{source}
use kusd.SavingsProtocol.Compile.{compile_for_call, compile_stack}
use kusd.Protocol.Calls.{covenant_call}
use kusd.SavingsProtocol.States.{token_state}
use kusd.SavingsProtocol.BaseStates.{base_position_state_expr}

-- The share, computed on the quotient and the remainder so that no product overflows.
unfoldable pub assigned_burn : ProtocolParams → ℤ → ℤ
assigned_burn base repay_amount =
    if eqb_ℤ repay_amount base.debt
    then base.assigned_reserve
    else wrap_i64 (
        wrap_i64 (repay_amount /ℤ ppm *ℤ base.reserve_contribution_ppm)
        +ℤ wrap_i64 (repay_amount %ℤ ppm *ℤ base.reserve_contribution_ppm) /ℤ ppm)

-- The Position after it.
unfoldable pub repaid : ProtocolParams → ℤ → Result Error ProtocolParams
repaid base repay_amount = do
  debt ← ok_or (checked_sub base.debt repay_amount) (Error.refused (text "Position debt underflow"))
  assigned_reserve ←
      ok_or (checked_sub base.assigned_reserve (assigned_burn base repay_amount))
        (Error.refused (text "assigned reserve underflow"))
  ok (record base { debt = debt; assigned_reserve = assigned_reserve })

module _ (c : Compiler) where
  abbrev pub repay_arguments : ProtocolParams → SavingsStack → ProtocolParams → ℤ → List c.Expr
  repay_arguments base stack next repay_amount =
      base_position_state_expr c next stack (zeros 32) (text "State")
      ∷ c.int repay_amount
      ∷ token_state c (text "KCC20State") (record {
        owner = base.position_id;
        identifier_type = 2;
        amount = pos 0;
        is_minter = true;
      })
      ∷ token_state c (text "KCC20State") (record {
        owner = base.position_id;
        identifier_type = 2;
        amount = next.assigned_reserve;
        is_minter = false;
      })
      ∷ []

  unfoldable pub base_position_repay_call :
      (base : ProtocolParams) (savings : SavingsParams) (repay_amount : ℤ) → Result Error Bytes
  base_position_repay_call base savings repay_amount = do
    reject_if (leb_ℤ repay_amount (pos 0) || ltb_ℤ base.debt repay_amount)
        (Error.refused (text "invalid repayAmount"))
    stack ← compile_stack c base savings
    src ← source c (text "contracts/position.sil")
    contract ← compile_for_call c (text "Position") src (position_args c base stack.base (zeros 32))
    next ← repaid base repay_amount
    covenant_call c contract (text "repayPolicy") (repay_arguments base stack next repay_amount)
        true
