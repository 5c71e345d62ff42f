-- ===== src/Protocol/TokenCalls.antt =====
-- The calls of src/protocol.rs on the tokens.
use kusd.Base.{
  ℕ, Bool, true, false, not, ◌||◌, ◌==◌, if◌then◌else◌, List, [], ◌∷◌, map, length, map_err, Result,
  ok, ◌>>=◌, ◌>>◌, reject_if,
}
use kusd.Int.{ℤ, pos, leb_ℤ}
use kusd.Order.{text}
use kusd.Protocol.{Bytes, ProtocolParams, TokenOutput, Compiler}
use kusd.Protocol.Args.{zeros, kcc_args, kps_args}
use kusd.Protocol.Validate.{Error}
use kusd.Silverscript.Encode.{compile_contract}
use kusd.Protocol.Compile.{source, compile_stack}
use kusd.Protocol.States.{delegation_state_expr, token_state_expr}
use kusd.Protocol.Calls.{covenant_call, entry_call}

module _ (c : Compiler) where
  unfoldable pub kps_lock_delegation_call :
      (p : ProtocolParams) (owner_signature : Bytes) (witness : ℕ) (delegate : Bytes) (amount : ℤ)
      (delegation_id : Bytes) (delegation_output_index : ℕ) (kps_output_index : ℕ)
      → Result Error Bytes
  kps_lock_delegation_call p owner_signature witness delegate amount delegation_id
        delegation_output_index kps_output_index =
      do
        reject_if
            (not ((length delegate) == 32)
              || not ((length delegation_id) == 32)
              || leb_ℤ amount (pos 0))
            (Error.refused (text "invalid KPS lock parameters"))
        stack ← compile_stack c p
        src ← source c (text "contracts/kps.sil")
        contract ←
            map_err Error.call_failed
              (compile_contract c src (kps_args c p stack.delegation p.owner amount 0 false))
        entry_call c contract (text "lockDelegationPolicy") (
            c.bytes owner_signature
            ∷ c.byte witness
            ∷ delegation_state_expr c p p.owner delegate amount (pos 0) (text "DelegationState")
            ∷ token_state_expr c delegation_id 2 amount false (text "State")
            ∷ c.byte delegation_output_index
            ∷ c.byte kps_output_index
            ∷ [])

  unfoldable pub kps_locked_transfer_call :
      (p : ProtocolParams) (delegation_id : Bytes) (amount : ℤ) → Result Error Bytes
  kps_locked_transfer_call p delegation_id amount = do
    stack ← compile_stack c p
    src ← source c (text "contracts/kps.sil")
    contract ←
        map_err Error.call_failed
          (compile_contract c src (kps_args c p stack.delegation delegation_id amount 2 false))
    type_ref ← map_err Error.type_ref_panics (c.parse_type_ref (text "State[]"))
    covenant_call c contract (text "transferPolicy")
        (c.array type_ref (token_state_expr c delegation_id 2 amount false (text "State") ∷ [])
          ∷ c.bytes (zeros 65)
          ∷ c.byte 0
          ∷ [])
        true

  unfoldable pub kps_unlock_delegation_call :
      (p : ProtocolParams) (owner : Bytes) (delegate : Bytes) (delegation_id : Bytes) (amount : ℤ)
      (weight : ℤ) (delegation_input_index : ℕ) (kps_output_index : ℕ)
      → Result Error Bytes
  kps_unlock_delegation_call p owner delegate delegation_id amount weight delegation_input_index
        kps_output_index =
      do
        stack ← compile_stack c p
        src ← source c (text "contracts/kps.sil")
        contract ←
            map_err Error.call_failed
              (compile_contract c src (kps_args c p stack.delegation delegation_id amount 2 false))
        entry_call c contract (text "unlockDelegationPolicy") (
            delegation_state_expr c p owner delegate amount weight (text "DelegationState")
            ∷ token_state_expr c owner 0 amount false (text "State")
            ∷ c.byte delegation_input_index
            ∷ c.byte kps_output_index
            ∷ [])

  -- The arguments of a transfer: only the leader has the outputs.
  unfoldable pub transfer_args : List TokenOutput → Bytes → ℕ → Bool → Result Error (List c.Expr)
  transfer_args outputs signature witness true = do
    type_ref ← map_err Error.type_ref_panics (c.parse_type_ref (text "State[]"))
    let states =
        map
          (λ (output : TokenOutput).
            token_state_expr c output.owner output.identifier_type output.amount output.is_minter
              (text "State"))
          outputs
    ok (c.array type_ref states ∷ c.bytes signature ∷ c.byte witness ∷ [])
  transfer_args outputs signature witness false = ok (c.bytes signature ∷ c.byte witness ∷ [])

  abbrev signature_or_zeros : Bytes → Bytes
  signature_or_zeros signature = if length signature == 0 then zeros 65 else signature

  unfoldable pub kcc_transfer_call :
      (current_owner : Bytes) (current_amount : ℤ) (current_identifier_type : ℕ)
      (current_is_minter : Bool) (outputs : List TokenOutput) (signature : Bytes) (witness : ℕ)
      (leader : Bool)
      → Result Error Bytes
  kcc_transfer_call current_owner current_amount current_identifier_type current_is_minter outputs
        signature witness leader =
      do
        src ← source c (text "contracts/kcc20.sil")
        contract ← map_err Error.call_failed (
            compile_contract c src
              (kcc_args c current_owner current_amount current_identifier_type current_is_minter))
        args ← transfer_args outputs (signature_or_zeros signature) witness leader
        covenant_call c contract (text "transferPolicy") args leader

  unfoldable pub kps_transfer_call :
      (p : ProtocolParams) (current_owner : Bytes) (current_amount : ℤ)
      (current_identifier_type : ℕ) (current_is_minter : Bool) (outputs : List TokenOutput)
      (signature : Bytes) (witness : ℕ) (leader : Bool)
      → Result Error Bytes
  kps_transfer_call p current_owner current_amount current_identifier_type current_is_minter outputs
        signature witness leader =
      do
        stack ← compile_stack c p
        src ← source c (text "contracts/kps.sil")
        contract ← map_err Error.call_failed (
            compile_contract c src (
              kps_args c p stack.delegation current_owner current_amount current_identifier_type
                current_is_minter))
        args ← transfer_args outputs (signature_or_zeros signature) witness leader
        covenant_call c contract (text "transferPolicy") args leader
