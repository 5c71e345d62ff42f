-- ===== src/SavingsProtocol/PositionCalls.antt =====
-- The calls of src/savings_protocol.rs on a Position and its challenge.
use kusd.Base.{ℕ, true, not, ◌==◌, [], ◌∷◌, length, map_err, Result, ◌>>=◌, ◌>>◌, reject_if}
use kusd.Int.{pos}
use kusd.Order.{text}
use kusd.SavingsProtocol.{Bytes, ProtocolParams, Compiler, SavingsParams}
use kusd.Protocol.Args.{zeros, challenge_args, anchor_args, position_args, challenged_position_args}
use kusd.Protocol.Validate.{Error}
use kusd.Protocol.Compile.{source}
use kusd.SavingsProtocol.Compile.{compile_for_call, compile_stack}
use kusd.Protocol.Calls.{covenant_call, entry_call}
use kusd.SavingsProtocol.BaseStates.{
  base_challenge_state_expr, base_auction_state_expr, base_position_state_expr,
}

module _ (c : Compiler) where
  unfoldable pub base_start_challenge_call :
      (base : ProtocolParams) (savings : SavingsParams) (challenger : Bytes) (challenge_id : Bytes)
      (challenge_output : ℕ)
      → Result Error Bytes
  base_start_challenge_call base savings challenger challenge_id challenge_output = do
    stack ← compile_stack c base savings
    src ← source c (text "contracts/position.sil")
    contract ← compile_for_call c (text "Position") src (position_args c base stack.base (zeros 32))
    entry_call c contract (text "startChallengePolicy") (
        c.byte 0
        ∷ base_position_state_expr c base stack challenge_id (text "State")
        ∷ c.byte challenge_output
        ∷ base_challenge_state_expr c base stack challenger (text "ChallengeState")
        ∷ [])

  unfoldable pub base_anchor_init_call :
      (base : ProtocolParams) (savings : SavingsParams) (challenger : Bytes) (challenge_output : ℕ)
      → Result Error Bytes
  base_anchor_init_call base savings challenger challenge_output = do
    stack ← compile_stack c base savings
    src ← source c (text "contracts/challenge-anchor.sil")
    contract ← compile_for_call c (text "ChallengeAnchor") src (anchor_args c base stack.base)
    entry_call c contract (text "initPolicy") (
        c.byte challenge_output
        ∷ base_challenge_state_expr c base stack challenger (text "ChallengeState")
        ∷ [])

  unfoldable pub base_challenge_activate_call :
      (base : ProtocolParams) (savings : SavingsParams) (challenger : Bytes) (auction_output : ℕ)
      → Result Error Bytes
  base_challenge_activate_call base savings challenger auction_output = do
    stack ← compile_stack c base savings
    src ← source c (text "contracts/challenge.sil")
    contract ← compile_for_call c (text "Challenge") src (challenge_args c base stack.base)
    entry_call c contract (text "activatePolicy") (
        c.byte auction_output
        ∷ base_auction_state_expr c base stack challenger (text "AuctionState")
        ∷ [])

  unfoldable pub base_position_settle_auction_call :
      (base : ProtocolParams) (savings : SavingsParams) (challenger : Bytes) (challenge_id : Bytes)
      → Result Error Bytes
  base_position_settle_auction_call base savings challenger challenge_id = do
    stack ← compile_stack c base savings
    src ← source c (text "contracts/challenged-position.sil")
    contract ←
        compile_for_call c (text "ChallengedPosition") src
          (challenged_position_args c base stack.base challenge_id)
    entry_call c contract (text "settleAuctionPolicy") []

  unfoldable pub base_position_close_call :
      (base : ProtocolParams) (savings : SavingsParams) (owner_signature : Bytes)
      → Result Error Bytes
  base_position_close_call base savings owner_signature = do
    reject_if (not ((length owner_signature) == 65))
        (Error.refused (text "owner signature: 65 bytes required"))
    stack ← compile_stack c base savings
    src ← source c (text "contracts/position.sil")
    let repaid : ProtocolParams = record base { debt = pos 0; assigned_reserve = pos 0 }
    contract ←
        compile_for_call c (text "Position") src (position_args c repaid stack.base (zeros 32))
    type_ref ← map_err Error.type_ref_failed (c.parse_type_ref (text "State[]"))
    covenant_call c contract (text "closePolicy")
        (c.array type_ref [] ∷ c.bytes owner_signature ∷ []) true

  unfoldable pub base_challenged_position_avert_call :
      (base : ProtocolParams) (savings : SavingsParams) (challenger : Bytes) (challenge_id : Bytes)
      (active_position_output : ℕ)
      → Result Error Bytes
  base_challenged_position_avert_call base savings challenger challenge_id active_position_output =
      do
        stack ← compile_stack c base savings
        src ← source c (text "contracts/challenged-position.sil")
        contract ←
            compile_for_call c (text "ChallengedPosition") src
              (challenged_position_args c base stack.base challenge_id)
        entry_call c contract (text "avertChallengePolicy") (
            c.byte active_position_output
            ∷ base_position_state_expr c base stack (zeros 32) (text "State")
            ∷ c.dynamic_bytes stack.base.position.prefix
            ∷ c.dynamic_bytes stack.base.position.suffix
            ∷ base_challenge_state_expr c base stack challenger (text "ChallengeState")
            ∷ [])
