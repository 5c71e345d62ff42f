-- ===== src/Protocol/Calls.antt =====
-- `covenant_call` and `entry_call`, which src/protocol.rs and src/savings_protocol.rs both have: the
-- signature script of a call, and after it the contract's code as one push.
use kusd.Base.{Bool, List, ◌++◌, map_err, Result, ok, ◌>>=◌}
use kusd.Order.{Text}
use kusd.Silverscript.Encode.{Contract, build_sig_script, build_sig_script_for_covenant_decl}
use kusd.Protocol.{Bytes, Compiler}
use kusd.Protocol.Validate.{Error}

module _ (c : Compiler) where
  unfoldable pub covenant_call : Contract c → Text → List c.Expr → Bool → Result Error Bytes
  covenant_call contract policy args leader = do
    script ←
        map_err Error.call_failed (build_sig_script_for_covenant_decl c contract policy args leader)
    pushed ← map_err Error.script_failed (c.add_data contract.compiled.bytecode)
    ok (script ++ pushed)

  unfoldable pub entry_call : Contract c → Text → List c.Expr → Result Error Bytes
  entry_call contract entry args = do
    script ← map_err Error.call_failed (build_sig_script c contract entry args)
    pushed ← map_err Error.script_failed (c.add_data contract.compiled.bytecode)
    ok (script ++ pushed)
