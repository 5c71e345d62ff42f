-- ===== src/SavingsProtocol/AuctionCalls.antt =====
-- The calls of src/savings_protocol.rs on an Auction.
use kusd.Base.{ℕ, true, false, [], ◌∷◌, map_err, Result, ◌>>=◌}
use kusd.Int.{ℤ, ◌*ℤ◌, ◌/ℤ◌, wrap_i64}
use kusd.Order.{text}
use kusd.SavingsProtocol.{Bytes, ProtocolParams, Compiler, SavingsParams}
use kusd.Protocol.Args.{auction_args}
use kusd.Protocol.Validate.{Error}
use kusd.SavingsProtocol.Validate.{ppm}
use kusd.SavingsProtocol.Args.{reserve_args}
use kusd.Protocol.Compile.{source}
use kusd.SavingsProtocol.Compile.{compile_for_call, compile_stack}
use kusd.Protocol.Calls.{covenant_call}
use kusd.SavingsProtocol.States.{token_state, reserve_state_expr}
use kusd.SavingsProtocol.BaseStates.{base_auction_state_expr}

-- The reward of a backstop, whose product may wrap around.
unfoldable pub backstop_reward : ProtocolParams → ℤ
backstop_reward base = wrap_i64 (base.debt *ℤ base.challenge_reward_ppm) /ℤ ppm

module _ (c : Compiler) where
  unfoldable pub base_auction_backstop_call :
      (base : ProtocolParams) (savings : SavingsParams) (challenger : Bytes) (next_reserve_kusd : ℤ)
      (next_collateral_sompi : ℤ) (reserve_input : ℕ) (challenger_deposit_output : ℕ)
      → Result Error Bytes
  base_auction_backstop_call base savings challenger next_reserve_kusd next_collateral_sompi
        reserve_input challenger_deposit_output =
      do
        stack ← compile_stack c base savings
        src ← source c (text "contracts/auction.sil")
        contract ← compile_for_call c (text "Auction") src (auction_args c base stack.base)
        let reward = backstop_reward base
        type_ref ← map_err Error.type_ref_failed (c.parse_type_ref (text "State[]"))
        let next : ProtocolParams = record base {
          reserve_kusd = next_reserve_kusd;
          reserve_collateral_sompi = next_collateral_sompi;
        }
        covenant_call c contract (text "backstopPolicy")
            (c.array type_ref []
              ∷ c.byte reserve_input
              ∷ reserve_state_expr c next stack (text "ReserveState")
              ∷ c.byte challenger_deposit_output
              ∷ token_state c (text "TokenState") (record {
                owner = challenger;
                identifier_type = 0;
                amount = reward;
                is_minter = false;
              })
              ∷ [])
            true

  unfoldable pub base_reserve_backstop_call :
      (base : ProtocolParams) (savings : SavingsParams) (challenger : Bytes) (next_reserve_kusd : ℤ)
      (next_collateral_sompi : ℤ) (auction_input : ℕ)
      → Result Error Bytes
  base_reserve_backstop_call base savings challenger next_reserve_kusd next_collateral_sompi
        auction_input =
      do
        stack ← compile_stack c base savings
        src ← source c (text "contracts/equity-reserve.sil")
        contract ← compile_for_call c (text "EquityReserve") src (
            reserve_args c base savings stack.base.kcc stack.base.kps stack.base.auction
              stack.account stack.controller stack.registry)
        let reward = backstop_reward base
        let next : ProtocolParams = record base {
          reserve_kusd = next_reserve_kusd;
          reserve_collateral_sompi = next_collateral_sompi;
        }
        covenant_call c contract (text "backstopPolicy")
            (reserve_state_expr c next stack (text "State")
              ∷ c.byte auction_input
              ∷ base_auction_state_expr c base stack challenger (text "AuctionState")
              ∷ token_state c (text "TokenState") (record {
                owner = base.reserve_id;
                identifier_type = 2;
                amount = next_reserve_kusd;
                is_minter = false;
              })
              ∷ token_state c (text "TokenState") (record {
                owner = challenger;
                identifier_type = 0;
                amount = reward;
                is_minter = false;
              })
              ∷ [])
            true
