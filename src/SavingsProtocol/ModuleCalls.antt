-- ===== src/SavingsProtocol/ModuleCalls.antt =====
-- `base_module_open_call` of src/savings_protocol.rs, with the split of src/protocol.rs.
use kusd.Base.{ℕ, true, not, ◌==◌, length, Result, ◌>>=◌, ◌>>◌, reject_if}
use kusd.Order.{text}
use kusd.SavingsProtocol.{Bytes, ProtocolParams, Compiler, SavingsParams}
use kusd.Protocol.Args.{module_args}
use kusd.Protocol.Validate.{Error}
use kusd.Protocol.Compile.{source}
use kusd.SavingsProtocol.Compile.{compile_for_call, compile_stack}
use kusd.Protocol.Calls.{covenant_call}
use kusd.Protocol.Opening.{open_terms, open_args}

module _ (c : Compiler) where
  unfoldable pub base_module_open_call :
      (base : ProtocolParams) (savings : SavingsParams) (position_id : Bytes)
      (position_output_index : ℕ)
      → Result Error Bytes
  base_module_open_call base savings position_id position_output_index = do
    reject_if (not (length position_id == 32))
        (Error.refused (text "position_id: 32 bytes required"))
    stack ← compile_stack c base savings
    src ← source c (text "contracts/minting-module.sil")
    contract ← compile_for_call c (text "MintingModule") src (module_args c base stack.base)
    terms ← open_terms (text "assignedReserve incompatible") base
    covenant_call c contract (text "openPolicy")
        (open_args c base stack.base position_id position_output_index terms) true
