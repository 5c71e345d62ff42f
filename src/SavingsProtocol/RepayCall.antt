-- ===== src/SavingsProtocol/RepayCall.antt =====
-- `base_position_repay_call` of src/savings_protocol.rs: when it is built, and for which Position.
use kusd.Base.{ℕ, ◌≤◌, ◌<◌, ◌≡◌, refl, true, false, ◌||◌, ok, arith}
use kusd.Int.{pos, ltb_ℤ, leb_ℤ}
use kusd.Order.{text}
use kusd.SavingsProtocol.{Bytes, ProtocolParams, Compiler, SavingsParams, SavingsStack}
use kusd.Silverscript.Encode.{Contract}
use kusd.Protocol.Args.{zeros, position_args}
use kusd.Protocol.Compile.{source}
use kusd.Protocol.Calls.{covenant_call}
use kusd.SavingsProtocol.Compile.{compile_for_call, compile_stack}
use kusd.SavingsProtocol.Repayment.{repaid, repay_arguments, base_position_repay_call}
use kusd.SavingsProtocol.Repaid.{Numbers, Repaid, part_of, repaid_keeps}
use kusd.SavingsProtocol.InRange.{assigned_in_debt}

amount_accepted :
    (base : ProtocolParams) (d s r a : ℕ)
    → Numbers base d s r
    → 0 < a
    → a ≤ d
    → (leb_ℤ (pos a) (pos 0) || ltb_ℤ base.debt (pos a)) ≡ false
amount_accepted base d s r a n positive le = rw n.debt (ground arith)

module _ (c : Compiler) (base : ProtocolParams) (savings : SavingsParams) (stack : SavingsStack)
    (src : Bytes) (contract : Contract c) where
  call_built :
      (a : ℕ) (next : ProtocolParams)
      → (leb_ℤ (pos a) (pos 0) || ltb_ℤ base.debt (pos a)) ≡ false
      → compile_stack c base savings ≡ ok stack
      → source c (text "contracts/position.sil") ≡ ok src
      → compile_for_call c (text "Position") src (position_args c base stack.base (zeros 32))
        ≡ ok contract
      → repaid base (pos a) ≡ ok next
      → base_position_repay_call c base savings (pos a)
        ≡ covenant_call c contract
            (text "repayPolicy")
            (repay_arguments c base stack next (pos a))
            true
  unfolding base_position_repay_call
  call_built a next accepted built read compiled done =
      simp (accepted, built, read, compiled, done) refl

  -- Where the stack and the Position compile and the assigned reserve covers the rate's part of the debt,
  -- a repayment of at most the debt passes every check of the call, and its result is that of encoding the call
  -- whose next state is the Position after it. The reserve is at most the debt before, and covers the part of
  -- what is left after. A part of the debt burns the rate's part of the repaid amount, rounded down and computed
  -- without overflow, and the whole debt burns the whole reserve. What the reserve has over the part of the
  -- debt grows by at most one atom, and a reserve that is exactly the part is again at most the debt that is
  -- left. The owner's own burn is positive, unless the reserve is the whole debt that is repaid.
  pub repay_keeps_reserve :
      (d s r a : ℕ)
      → Numbers base d s r
      → compile_stack c base savings ≡ ok stack
      → source c (text "contracts/position.sil") ≡ ok src
      → compile_for_call c (text "Position") src (position_args c base stack.base (zeros 32))
        ≡ ok contract
      → 0 < a
      → a ≤ d
      → part_of d r ≤ s
      → (next : ProtocolParams) × (kept : ℕ) × (base_position_repay_call c base savings (pos a)
          ≡ covenant_call c contract
              (text "repayPolicy")
              (repay_arguments c base stack next (pos a))
              true)
        × (s ≤ d)
        × Repaid d s r a next kept
  repay_keeps_reserve d s r a n built read compiled positive le covered =
      let (next, kept, done, after) = repaid_keeps base d s r a n positive le covered in
      let accepted = amount_accepted base d s r a n positive le in
      (
        next,
        kept,
        call_built a next accepted built read compiled done,
        assigned_in_debt c base savings stack d s r n built,
        after,
      )
