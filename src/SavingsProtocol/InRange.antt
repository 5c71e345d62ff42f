-- ===== src/SavingsProtocol/InRange.antt =====
-- What compiles in src/savings_protocol.rs has parameters in the range of src/protocol.rs.
use kusd.Base.{ℕ, ◌≤◌, ◌<◌, ◌≡◌, refl, Bool, true, false, ◌||◌, ok, bind-ok, reject_if-ok, arith}
use kusd.Int.{pos, ltb_ℤ, leb_ℤ}
use kusd.SavingsProtocol.{ProtocolParams, ProtocolStack, Compiler, SavingsParams, SavingsStack}
use kusd.Protocol.Validate.{
  Error, check_lengths, identifiers, rejects_economics, validate as validate_protocol,
}
use kusd.Protocol.Compile.{compile_stack as compile_protocol_stack}
use kusd.Protocol.Fixpoint.{compile_stack-Settled}
use kusd.SavingsProtocol.Validate.{validate}
use kusd.SavingsProtocol.Compile.{compile_stack}
use kusd.SavingsProtocol.Repaid.{Numbers}

or_true : (b : Bool) → (b || true) ≡ true
or_true true = refl
or_true false = refl

pub over_debt :
    (base : ProtocolParams) (d s r : ℕ) → Numbers base d s r → d < s → rejects_economics base ≡ true
unfolding rejects_economics
over_debt base d s r n less =
    let test : ltb_ℤ base.debt base.assigned_reserve ≡ true =
      rw (n.debt, n.assigned) (ground arith) in
    rw (test, or_true (leb_ℤ base.debt (pos 0) || ltb_ℤ base.assigned_reserve (pos 0))) refl

module _ (c : Compiler) where
  compile_protocol_stack_accepts :
      (p : ProtocolParams) (s : ProtocolStack)
      → compile_protocol_stack c p ≡ ok s
      → rejects_economics p ≡ false
  unfolding validate_protocol
  compile_protocol_stack_accepts p s h =
      bind-ok (check_lengths (identifiers p)) (compile_stack-Settled c p s h).0
        λ _ _ rest. reject_if-ok (rejects_economics p) Error.invalid_economic rest

  pub compile_stack-InRange :
      (base : ProtocolParams) (savings : SavingsParams) (stack : SavingsStack)
      → compile_stack c base savings ≡ ok stack
      → rejects_economics base ≡ false
  unfolding compile_stack
  compile_stack-InRange base savings stack h = bind-ok (validate base savings) h λ _ _ h1.
      bind-ok (compile_protocol_stack c base) h1
        λ s built _. compile_protocol_stack_accepts base s built

  pub assigned_in_debt :
      (base : ProtocolParams) (savings : SavingsParams) (stack : SavingsStack) (d s r : ℕ)
      → Numbers base d s r
      → compile_stack c base savings ≡ ok stack
      → s ≤ d
  assigned_in_debt base savings stack d s r n h =
      ground (arith, compile_stack-InRange base savings stack h, over_debt base d s r n)
