-- ===== src/SavingsProtocol/Settlement.antt =====
-- The Auction in src/savings_protocol.rs: `base_auction_settle_call`, `base_challenge_avert_call`, and the
-- reward of the backstop calls.
use kusd.Base.{
  ℕ, true, false, not, if◌then◌else◌, [], ◌∷◌, ok_or, map_err, Result, ok, ◌>>=◌, ◌>>◌, reject_if,
}
use kusd.Int.{
  ℤ, pos, ◌+ℤ◌, ◌-ℤ◌, ◌*ℤ◌, ◌/ℤ◌, ◌%ℤ◌, ltb_ℤ, within, wrap_i64, checked_mul_i128, try_i64,
}
use kusd.Order.{Text, text}
use kusd.SavingsProtocol.{Bytes, ProtocolParams, Compiler, SavingsParams}
use kusd.Protocol.Args.{auction_args, challenge_args}
use kusd.Protocol.Validate.{Error}
use kusd.SavingsProtocol.Validate.{ppm}
use kusd.Protocol.Compile.{source}
use kusd.SavingsProtocol.Compile.{compile_for_call, compile_stack}
use kusd.Protocol.Calls.{covenant_call}
use kusd.SavingsProtocol.States.{token_state}
use kusd.Equity.MulDiv.{mul_div_floor}

-- The reward of a settlement, computed on the quotient and the remainder.
unfoldable pub settle_reward : ProtocolParams → ℤ
settle_reward base = wrap_i64 (
    wrap_i64 (base.debt /ℤ ppm *ℤ base.challenge_reward_ppm)
    +ℤ wrap_i64 (base.debt %ℤ ppm *ℤ base.challenge_reward_ppm) /ℤ ppm)

-- The price of the collateral at the liquidation price.
unfoldable pub collateral_price : Text → Text → ProtocolParams → Result Error ℤ
collateral_price overflow range base = do
  product ←
      ok_or (checked_mul_i128 base.collateral_sompi base.liquidation_price) (Error.refused overflow)
  ok_or (try_i64 (product /ℤ pos 100000000)) (Error.refused range)

-- `i64::max`
abbrev pub max_ℤ : ℤ → ℤ → ℤ
max_ℤ a b = if ltb_ℤ a b then b else a

-- What the owner of the Position has of the payment at the elapsed time.
unfoldable pub owner_surplus : ProtocolParams → ℤ → Result Error ℤ
owner_surplus base elapsed_daa = do
  reject_if (not (within (pos 0) base.auction_duration_daa elapsed_daa))
      (Error.refused (text "elapsed DAA exceeds the Auction duration"))
  let floor_payment = wrap_i64 (wrap_i64 (base.debt -ℤ base.assigned_reserve) +ℤ settle_reward base)
  price ← collateral_price (text "overflow prix Auction") (text "prix Auction hors i64") base
  let start_payment = max_ℤ price floor_payment
  discount ← map_err Error.mul_div (
      mul_div_floor (wrap_i64 (start_payment -ℤ floor_payment)) elapsed_daa
        base.auction_duration_daa)
  ok (wrap_i64 (wrap_i64 (start_payment -ℤ discount) -ℤ floor_payment))

module _ (c : Compiler) where
  unfoldable pub base_auction_settle_call :
      (base : ProtocolParams) (savings : SavingsParams) (bidder : Bytes)
      (bidder_collateral_output : ℕ) (challenger_deposit_output : ℕ) (elapsed_daa : ℤ)
      → Result Error Bytes
  base_auction_settle_call base savings bidder bidder_collateral_output challenger_deposit_output
        elapsed_daa =
      do
        stack ← compile_stack c base savings
        src ← source c (text "contracts/auction.sil")
        contract ← compile_for_call c (text "Auction") src (auction_args c base stack.base)
        surplus ← owner_surplus base elapsed_daa
        type_ref ← map_err Error.type_ref_failed (c.parse_type_ref (text "State[]"))
        covenant_call c contract (text "settlePolicy")
            (c.array type_ref []
              ∷ c.bytes bidder
              ∷ c.byte bidder_collateral_output
              ∷ c.byte challenger_deposit_output
              ∷ token_state c (text "TokenState") (record {
                owner = base.challenger;
                identifier_type = 0;
                amount = settle_reward base;
                is_minter = false;
              })
              ∷ token_state c (text "TokenState") (record {
                owner = base.owner;
                identifier_type = 0;
                amount = surplus;
                is_minter = false;
              })
              ∷ [])
            true

  unfoldable pub base_challenge_avert_call :
      (base : ProtocolParams) (savings : SavingsParams) (buyer : Bytes) (deposit_output : ℕ)
      → Result Error Bytes
  base_challenge_avert_call base savings buyer deposit_output = do
    stack ← compile_stack c base savings
    src ← source c (text "contracts/challenge.sil")
    contract ← compile_for_call c (text "Challenge") src (challenge_args c base stack.base)
    price ← collateral_price (text "overflow prix avert") (text "prix avert hors plage i64") base
    type_ref ← map_err Error.type_ref_failed (c.parse_type_ref (text "State[]"))
    covenant_call c contract (text "avertPolicy")
        (c.array type_ref []
          ∷ c.bytes buyer
          ∷ c.byte deposit_output
          ∷ token_state c (text "TokenState") (record {
            owner = base.challenger;
            identifier_type = 0;
            amount = price;
            is_minter = false;
          })
          ∷ [])
        true
