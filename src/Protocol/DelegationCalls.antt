-- ===== src/Protocol/DelegationCalls.antt =====
-- The calls of src/protocol.rs on the delegations.
use kusd.Base.{ℕ, true, false, [], ◌∷◌, map_err, Result, ◌>>=◌}
use kusd.Int.{ℤ, pos, ◌+ℤ◌, wrap_i64}
use kusd.Order.{text}
use kusd.Protocol.{Bytes, ProtocolParams, GovernanceVote, Compiler}
use kusd.Protocol.Args.{delegation_args}
use kusd.Protocol.Validate.{Error}
use kusd.Silverscript.Encode.{compile_contract}
use kusd.Protocol.Compile.{source}
use kusd.Protocol.States.{delegation_state_expr, token_state_expr}
use kusd.Protocol.Calls.{covenant_call, entry_call}

module _ (c : Compiler) where
  unfoldable pub delegation_mature_call :
      (p : ProtocolParams) (owner : Bytes) (delegate : Bytes) (amount : ℤ) (weight : ℤ)
      (delegation_id : Bytes) (kps_input_index : ℕ) (kps_output_index : ℕ)
      → Result Error Bytes
  delegation_mature_call p owner delegate amount weight delegation_id kps_input_index
        kps_output_index =
      do
        src ← source c (text "contracts/kps-delegation.sil")
        contract ←
            map_err Error.call_failed
              (compile_contract c src (delegation_args c p owner delegate amount weight))
        covenant_call c contract (text "maturePolicy")
            (delegation_state_expr c p owner delegate amount (wrap_i64 (weight +ℤ (pos 1)))
                (text "State")
              ∷ token_state_expr c delegation_id 2 amount false (text "TokenState")
              ∷ c.byte kps_input_index
              ∷ c.byte kps_output_index
              ∷ [])
            true

  unfoldable pub delegation_redelegate_call :
      (p : ProtocolParams) (owner : Bytes) (old_delegate : Bytes) (new_delegate : Bytes)
      (amount : ℤ) (weight : ℤ) (delegation_id : Bytes) (owner_signature : Bytes)
      (kps_input_index : ℕ) (kps_output_index : ℕ)
      → Result Error Bytes
  delegation_redelegate_call p owner old_delegate new_delegate amount weight delegation_id
        owner_signature kps_input_index kps_output_index =
      do
        src ← source c (text "contracts/kps-delegation.sil")
        contract ←
            map_err Error.call_failed
              (compile_contract c src (delegation_args c p owner old_delegate amount weight))
        covenant_call c contract (text "redelegatePolicy")
            (delegation_state_expr c p owner new_delegate amount weight (text "State")
              ∷ c.bytes owner_signature
              ∷ token_state_expr c delegation_id 2 amount false (text "TokenState")
              ∷ c.byte kps_input_index
              ∷ c.byte kps_output_index
              ∷ [])
            true

  unfoldable pub delegation_unlock_call :
      (p : ProtocolParams) (owner : Bytes) (delegate : Bytes) (amount : ℤ) (weight : ℤ)
      (owner_signature : Bytes) (kps_input_index : ℕ) (kps_output_index : ℕ)
      → Result Error Bytes
  delegation_unlock_call p owner delegate amount weight owner_signature kps_input_index
        kps_output_index =
      do
        src ← source c (text "contracts/kps-delegation.sil")
        contract ←
            map_err Error.call_failed
              (compile_contract c src (delegation_args c p owner delegate amount weight))
        entry_call c contract (text "unlockPolicy") (
            c.bytes owner_signature
            ∷ token_state_expr c owner 0 amount false (text "TokenState")
            ∷ c.byte kps_input_index
            ∷ c.byte kps_output_index
            ∷ [])

  unfoldable pub delegation_veto_call :
      (p : ProtocolParams) (vote : GovernanceVote) (proposal_id : Bytes)
      (delegate_signature : Bytes) (kps_input_index : ℕ) (kps_output_index : ℕ)
      → Result Error Bytes
  delegation_veto_call p vote proposal_id delegate_signature kps_input_index kps_output_index = do
    src ← source c (text "contracts/kps-delegation.sil")
    contract ← map_err Error.call_failed (
        compile_contract c src
          (delegation_args c p vote.owner vote.delegate vote.amount vote.weight))
    entry_call c contract (text "vetoPolicy") (
        c.bytes delegate_signature
        ∷ c.bytes proposal_id
        ∷ delegation_state_expr c p vote.owner vote.delegate vote.amount vote.weight (text "State")
        ∷ token_state_expr c vote.delegation_id 2 vote.amount false (text "TokenState")
        ∷ c.byte kps_input_index
        ∷ c.byte kps_output_index
        ∷ [])
