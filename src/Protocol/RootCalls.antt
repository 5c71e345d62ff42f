-- ===== src/Protocol/RootCalls.antt =====
-- The calls of src/protocol.rs on the Root.
use kusd.Base.{
  ℕ, true, false, not, ◌||◌, ◌==◌, [], ◌∷◌, length, ok_or, map_err, Result, ◌>>=◌, ◌>>◌, reject_if,
}
use kusd.Int.{ℤ, pos, ◌+ℤ◌, ◌-ℤ◌, wrap_i64, checked_add, checked_sub}
use kusd.Order.{text}
use kusd.Protocol.{Bytes, ProtocolParams, GovernanceParams, Compiler}
use kusd.Protocol.Args.{zeros}
use kusd.Protocol.GovernanceArgs.{root_args, root_args_with_state}
use kusd.Protocol.Validate.{Error}
use kusd.Silverscript.Encode.{compile_contract}
use kusd.Protocol.Compile.{source, compile_governance_stack}
use kusd.Protocol.States.{
  governance_state_expr, token_state_expr, module_state_expr, root_state_expr,
}
use kusd.Protocol.Calls.{covenant_call}

module _ (c : Compiler) where
  unfoldable pub root_execute_module_call :
      (p : ProtocolParams) (g : GovernanceParams) (active_proposal_id : Bytes) (root_id : Bytes)
      (module_id : Bytes) (previous_module_nonce : ℤ) (previous_remaining_allocation : ℤ)
      (module_output_index : ℕ)
      → Result Error Bytes
  root_execute_module_call p g active_proposal_id root_id module_id previous_module_nonce
        previous_remaining_allocation module_output_index =
      do
        reject_if
            (not ((length active_proposal_id) == 32)
              || not ((length root_id) == 32)
              || not ((length module_id) == 32))
            (Error.refused (text "Covenant ID: 32 bytes required"))
        stack ← compile_governance_stack c p g
        src ← source c (text "contracts/root-issuance.sil")
        contract ← map_err Error.call_failed (
            compile_contract c src (
              root_args c p stack previous_module_nonce previous_remaining_allocation
                g.governance_id 4))
        remaining ←
            ok_or (checked_sub previous_remaining_allocation p.module_remaining_mint)
              (Error.refused (text "Root allocation underflow"))
        execution_nonce ←
            ok_or (checked_add g.execution_nonce (pos 1))
              (Error.refused (text "overflow execution nonce"))
        let executed : GovernanceParams = record g { execution_nonce = execution_nonce }
        covenant_call c contract (text "createModulePolicy")
            (root_state_expr c p g (wrap_i64 (previous_module_nonce +ℤ (pos 1))) remaining
                (text "State")
              ∷ c.bytes (zeros 65)
              ∷ c.byte module_output_index
              ∷ c.dynamic_bytes stack.base.minting_module.prefix
              ∷ c.dynamic_bytes stack.base.minting_module.suffix
              ∷ module_state_expr c p (text "ModuleState")
              ∷ governance_state_expr c p executed (zeros 32) (text "GovernanceState")
              ∷ token_state_expr c root_id 2 (pos 0) true (text "KCC20State")
              ∷ token_state_expr c module_id 2 (pos 0) true (text "KCC20State")
              ∷ [])
            true

  unfoldable pub root_handover_to_governance_call :
      (p : ProtocolParams) (g : GovernanceParams) (current_authority : Bytes)
      (authority_signature : Bytes) (module_nonce : ℤ) (remaining_allocation : ℤ)
      → Result Error Bytes
  root_handover_to_governance_call p g current_authority authority_signature module_nonce
        remaining_allocation =
      do
        reject_if (not ((length current_authority) == 32) || length authority_signature == 0)
            (Error.refused (text "invalid handover authority or signature"))
        stack ← compile_governance_stack c p g
        src ← source c (text "contracts/root-issuance.sil")
        contract ← map_err Error.call_failed (
            compile_contract c src
              (root_args c p stack module_nonce remaining_allocation current_authority 0))
        covenant_call c contract (text "handoverPolicy")
            (root_state_expr c p g module_nonce remaining_allocation (text "State")
              ∷ c.bytes authority_signature
              ∷ c.bytes g.governance_id
              ∷ c.byte 4
              ∷ [])
            true

  unfoldable pub root_init_call :
      (p : ProtocolParams) (g : GovernanceParams) (current_authority : Bytes)
      (next_asset_id : Bytes) (root_allocation : ℤ)
      → Result Error Bytes
  root_init_call p g current_authority next_asset_id root_allocation = do
    stack ← compile_governance_stack c p g
    src ← source c (text "contracts/root-issuance.sil")
    let previous : ProtocolParams = record p { asset_id = zeros 32 }
    contract ← map_err Error.call_failed (
        compile_contract c src
          (root_args_with_state c previous stack false (pos 0) (pos 0) current_authority 0))
    let next = c.struct_object (text "State") (
        (text "assetId", c.bytes next_asset_id)
        ∷ (text "initialized", c.bool true)
        ∷ (text "moduleNonce", c.int (pos 0))
        ∷ (text "remainingAllocation", c.int root_allocation)
        ∷ (text "authorityIdentifier", c.bytes current_authority)
        ∷ (text "authorityType", c.byte 0)
        ∷ [])
    covenant_call c contract (text "initPolicy") (next ∷ []) true

  unfoldable pub root_bootstrap_module_call :
      (p : ProtocolParams) (g : GovernanceParams) (current_authority : Bytes)
      (authority_signature : Bytes) (root_id : Bytes) (module_id : Bytes)
      (previous_module_nonce : ℤ) (previous_remaining_allocation : ℤ) (module_output_index : ℕ)
      → Result Error Bytes
  root_bootstrap_module_call p g current_authority authority_signature root_id module_id
        previous_module_nonce previous_remaining_allocation module_output_index =
      do
        stack ← compile_governance_stack c p g
        src ← source c (text "contracts/root-issuance.sil")
        contract ← map_err Error.call_failed (
            compile_contract c src (
              root_args_with_state c p stack true previous_module_nonce
                previous_remaining_allocation current_authority 0))
        let next_root = c.struct_object (text "State") (
            (text "assetId", c.bytes p.asset_id)
            ∷ (text "initialized", c.bool true)
            ∷ (text "moduleNonce", c.int (wrap_i64 (previous_module_nonce +ℤ (pos 1))))
            ∷ (
              text "remainingAllocation",
              c.int (wrap_i64 (previous_remaining_allocation -ℤ p.module_remaining_mint)),
            )
            ∷ (text "authorityIdentifier", c.bytes current_authority)
            ∷ (text "authorityType", c.byte 0)
            ∷ [])
        covenant_call c contract (text "createModulePolicy")
            (next_root
              ∷ c.bytes authority_signature
              ∷ c.byte module_output_index
              ∷ c.dynamic_bytes stack.base.minting_module.prefix
              ∷ c.dynamic_bytes stack.base.minting_module.suffix
              ∷ module_state_expr c p (text "ModuleState")
              ∷ governance_state_expr c p g (zeros 32) (text "GovernanceState")
              ∷ token_state_expr c root_id 2 (pos 0) true (text "KCC20State")
              ∷ token_state_expr c module_id 2 (pos 0) true (text "KCC20State")
              ∷ [])
            true
