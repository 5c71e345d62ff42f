-- ===== src/SavingsProtocol/RootCalls.antt =====
-- The calls of src/savings_protocol.rs on the Root.
use kusd.Base.{ℕ, true, false, [], ◌∷◌, ok_or, Result, ◌>>=◌}
use kusd.Int.{ℤ, pos, ◌+ℤ◌, ◌-ℤ◌, wrap_i64, checked_sub}
use kusd.Order.{text}
use kusd.SavingsProtocol.{Bytes, ProtocolParams, GovernanceParams, Compiler, SavingsParams}
use kusd.Protocol.Args.{zeros}
use kusd.Protocol.GovernanceArgs.{root_args, root_args_with_state}
use kusd.Protocol.Validate.{Error}
use kusd.Protocol.Compile.{source}
use kusd.SavingsProtocol.Compile.{compile_for_call, compile_full_stack}
use kusd.Protocol.States.{
  governance_state_expr, token_state_expr, module_state_expr, root_state_expr,
}
use kusd.Protocol.Calls.{covenant_call}

module _ (c : Compiler) where
  unfoldable pub base_root_init_call :
      (base : ProtocolParams) (savings : SavingsParams) (governance : GovernanceParams)
      (current_authority : Bytes) (next_asset_id : Bytes) (root_allocation : ℤ)
      → Result Error Bytes
  base_root_init_call base savings governance current_authority next_asset_id root_allocation = do
    stack ← compile_full_stack c base savings governance
    src ← source c (text "contracts/root-issuance.sil")
    let previous : ProtocolParams = record base { asset_id = zeros 32 }
    contract ← compile_for_call c (text "RootIssuance") src (
        root_args_with_state c previous stack.base_governance false (pos 0) (pos 0)
          current_authority 0)
    let next = c.struct_object (text "State") (
        (text "assetId", c.bytes next_asset_id)
        ∷ (text "initialized", c.bool true)
        ∷ (text "moduleNonce", c.int (pos 0))
        ∷ (text "remainingAllocation", c.int root_allocation)
        ∷ (text "authorityIdentifier", c.bytes current_authority)
        ∷ (text "authorityType", c.byte 0)
        ∷ [])
    covenant_call c contract (text "initPolicy") (next ∷ []) true

  unfoldable pub base_root_bootstrap_module_call :
      (base : ProtocolParams) (savings : SavingsParams) (governance : GovernanceParams)
      (current_authority : Bytes) (authority_signature : Bytes) (root_id : Bytes)
      (module_id : Bytes) (previous_module_nonce : ℤ) (previous_remaining_allocation : ℤ)
      (module_output_index : ℕ)
      → Result Error Bytes
  base_root_bootstrap_module_call base savings governance current_authority authority_signature
        root_id module_id previous_module_nonce previous_remaining_allocation module_output_index =
      do
        stack ← compile_full_stack c base savings governance
        src ← source c (text "contracts/root-issuance.sil")
        contract ← compile_for_call c (text "RootIssuance") src (
            root_args_with_state c base stack.base_governance true previous_module_nonce
              previous_remaining_allocation current_authority 0)
        let next_root = c.struct_object (text "State") (
            (text "assetId", c.bytes base.asset_id)
            ∷ (text "initialized", c.bool true)
            ∷ (text "moduleNonce", c.int (wrap_i64 (previous_module_nonce +ℤ (pos 1))))
            ∷ (
              text "remainingAllocation",
              c.int (wrap_i64 (previous_remaining_allocation -ℤ base.module_remaining_mint)),
            )
            ∷ (text "authorityIdentifier", c.bytes current_authority)
            ∷ (text "authorityType", c.byte 0)
            ∷ [])
        covenant_call c contract (text "createModulePolicy")
            (next_root
              ∷ c.bytes authority_signature
              ∷ c.byte module_output_index
              ∷ c.dynamic_bytes stack.savings.base.minting_module.prefix
              ∷ c.dynamic_bytes stack.savings.base.minting_module.suffix
              ∷ module_state_expr c base (text "ModuleState")
              ∷ governance_state_expr c base governance (zeros 32) (text "GovernanceState")
              ∷ token_state_expr c root_id 2 (pos 0) true (text "KCC20State")
              ∷ token_state_expr c module_id 2 (pos 0) true (text "KCC20State")
              ∷ [])
            true

  unfoldable pub base_root_handover_call :
      (base : ProtocolParams) (savings : SavingsParams) (governance : GovernanceParams)
      (current_authority : Bytes) (signature : Bytes) (module_nonce : ℤ) (remaining : ℤ)
      → Result Error Bytes
  base_root_handover_call base savings governance current_authority signature module_nonce
        remaining =
      do
        stack ← compile_full_stack c base savings governance
        src ← source c (text "contracts/root-issuance.sil")
        contract ←
            compile_for_call c (text "RootIssuance") src
              (root_args c base stack.base_governance module_nonce remaining current_authority 0)
        covenant_call c contract (text "handoverPolicy")
            (root_state_expr c base governance module_nonce remaining (text "State")
              ∷ c.bytes signature
              ∷ c.bytes governance.governance_id
              ∷ c.byte 4
              ∷ [])
            true

  unfoldable pub base_root_execute_module_call :
      (base : ProtocolParams) (savings : SavingsParams) (governance : GovernanceParams)
      (root_id : Bytes) (module_id : Bytes) (previous_nonce : ℤ) (previous_remaining : ℤ)
      (module_output : ℕ)
      → Result Error Bytes
  base_root_execute_module_call base savings governance root_id module_id previous_nonce
        previous_remaining module_output =
      do
        stack ← compile_full_stack c base savings governance
        src ← source c (text "contracts/root-issuance.sil")
        contract ← compile_for_call c (text "RootIssuance") src (
            root_args c base stack.base_governance previous_nonce previous_remaining
              governance.governance_id 4)
        remaining ←
            ok_or (checked_sub previous_remaining base.module_remaining_mint)
              (Error.refused (text "Root allocation underflow"))
        let executed : GovernanceParams = record governance {
          execution_nonce = wrap_i64 (governance.execution_nonce +ℤ (pos 1));
        }
        covenant_call c contract (text "createModulePolicy")
            (root_state_expr c base governance (wrap_i64 (previous_nonce +ℤ (pos 1))) remaining
                (text "State")
              ∷ c.bytes (zeros 65)
              ∷ c.byte module_output
              ∷ c.dynamic_bytes stack.savings.base.minting_module.prefix
              ∷ c.dynamic_bytes stack.savings.base.minting_module.suffix
              ∷ module_state_expr c base (text "ModuleState")
              ∷ governance_state_expr c base executed (zeros 32) (text "GovernanceState")
              ∷ token_state_expr c root_id 2 (pos 0) true (text "KCC20State")
              ∷ token_state_expr c module_id 2 (pos 0) true (text "KCC20State")
              ∷ [])
            true
