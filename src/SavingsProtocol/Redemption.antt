-- ===== src/SavingsProtocol/Redemption.antt =====
-- `base_reserve_redeem_call` of src/savings_protocol.rs: shares of the Reserve are burnt for their part of
-- its KUSD and of its KAS.
use kusd.Base.{◌&&◌, ℕ, Bool, true, false, ◌||◌, [], ◌∷◌, ok_or, Result, ok, ◌>>=◌, ◌>>◌, reject_if}
use kusd.Int.{ℤ, pos, ◌-ℤ◌, ◌/ℤ◌, ltb_ℤ, leb_ℤ, eqb_ℤ, wrap_i64, checked_mul_i128, try_i64}
use kusd.Order.{text}
use kusd.SavingsProtocol.{Bytes, ProtocolParams, Compiler, SavingsParams}
use kusd.Protocol.Validate.{Error}
use kusd.SavingsProtocol.Args.{reserve_args}
use kusd.Protocol.Compile.{source}
use kusd.SavingsProtocol.Compile.{compile_for_call, compile_stack}
use kusd.Protocol.Calls.{covenant_call}
use kusd.SavingsProtocol.States.{token_state, reserve_state_expr}

-- The closure `mul_div`.
unfoldable pub redeemed_part : ProtocolParams → ℤ → ℤ → Result Error ℤ
redeemed_part base burned_shares value = do
  product ←
      ok_or (checked_mul_i128 burned_shares value) (Error.refused (text "overflow calcul redeem"))
  ok_or (try_i64 (product /ℤ base.total_kps))
      (Error.refused (text "redeem result exceeds the i64 range"))

pub record Redemption : Type 0 where
  pub next : ProtocolParams
  pub payout : ℤ
  pub payout_kas : ℤ

-- The payments and the Reserve after them.
unfoldable pub redeemed : ProtocolParams → ℤ → Result Error Redemption
redeemed base burned_shares = do
  payout ← redeemed_part base burned_shares base.reserve_kusd
  payout_kas ← redeemed_part base burned_shares base.reserve_collateral_sompi
  reject_if (eqb_ℤ payout (pos 0) && eqb_ℤ payout_kas (pos 0))
      (Error.refused (text "redeem without payment"))
  ok (record {
    next = record base {
      reserve_kusd = wrap_i64 (base.reserve_kusd -ℤ payout);
      total_kps = wrap_i64 (base.total_kps -ℤ burned_shares);
      reserve_collateral_sompi = wrap_i64 (base.reserve_collateral_sompi -ℤ payout_kas);
    };
    payout = payout;
    payout_kas = payout_kas;
  })

-- The first guard of the call.
abbrev pub rejects_shares : ProtocolParams → ℤ → Bool
rejects_shares base burned_shares =
    leb_ℤ burned_shares (pos 0)
    || ltb_ℤ base.total_kps burned_shares
    || leb_ℤ base.total_kps (pos 0)

module _ (c : Compiler) where
  unfoldable pub base_reserve_redeem_call :
      (base : ProtocolParams) (savings : SavingsParams) (redeemer : Bytes) (burned_shares : ℤ)
      (collateral_output : ℕ)
      → Result Error Bytes
  base_reserve_redeem_call base savings redeemer burned_shares collateral_output = do
    reject_if (rejects_shares base burned_shares) (Error.refused (text "invalid burnedShares"))
    stack ← compile_stack c base savings
    src ← source c (text "contracts/equity-reserve.sil")
    contract ← compile_for_call c (text "EquityReserve") src (
        reserve_args c base savings stack.base.kcc stack.base.kps stack.base.auction stack.account
          stack.controller stack.registry)
    r ← redeemed base burned_shares
    covenant_call c contract (text "redeemPolicy")
        (reserve_state_expr c r.next stack (text "State")
          ∷ c.bytes redeemer
          ∷ c.int burned_shares
          ∷ token_state c (text "TokenState") (record {
            owner = base.reserve_id;
            identifier_type = 2;
            amount = r.next.reserve_kusd;
            is_minter = false;
          })
          ∷ token_state c (text "TokenState") (record {
            owner = redeemer;
            identifier_type = 0;
            amount = r.payout;
            is_minter = false;
          })
          ∷ token_state c (text "TokenState") (record {
            owner = base.reserve_id;
            identifier_type = 2;
            amount = pos 0;
            is_minter = true;
          })
          ∷ c.byte collateral_output
          ∷ [])
        true
