-- ===== src/SavingsProtocol/Compile.antt =====
-- `compile_stack` and `compile_full_stack` of src/savings_protocol.rs: the contracts of the savings hold
-- each other's templates, and are compiled once with empty ones and once with those of the first
-- pass. What the source has in one function is in four parts here.
use kusd.Base.{false, not, Result, ok, map_err, List, ◌>>=◌, ◌>>◌, reject_if}
use kusd.Order.{Text, text, text_eq}
use kusd.Silverscript.Encode.{Contract, compile_contract}
use kusd.SavingsProtocol.{
  Bytes, ProtocolParams, GovernanceParams, Artifact, ProtocolStack, Compiler, SavingsParams,
  SavingsStack, FullStack,
}
use kusd.Protocol.Args.{zeros, challenge_args, anchor_args, module_args}
use kusd.Protocol.Validate.{Error}
use kusd.Protocol.Compile.{
  empty_artifact, changed, compile, compile_auction, compile_position_pair,
  compile_stack as compile_protocol_stack, compile_governance_stack_with_base,
}
use kusd.SavingsProtocol.Validate.{validate}
use kusd.SavingsProtocol.Args.{
  proposal_args, governor_args, account_args, controller_args, reserve_args, registry_args,
}

-- The artifacts of the first pass.
pub record Probes : Type 0 where
  pub registry : Artifact
  pub proposal : Artifact
  pub governor : Artifact
  pub account : Artifact
  pub controller : Artifact

module _ (c : Compiler) where
  unfoldable pub compile_for_call : Text → Bytes → List c.Expr → Result Error (Contract c)
  compile_for_call path src args = map_err (Error.compile_failed path) (compile_contract c src args)

  abbrev pub compile_governor :
      ProtocolParams → SavingsParams → Artifact → ProtocolStack → Artifact → Result Error Artifact
  compile_governor base p proposal stack reserve =
      compile c (text "contracts/savings-governor.sil")
        (governor_args c p base proposal stack.kps stack.delegation reserve)

  abbrev pub compile_account :
      ProtocolParams → SavingsParams → ProtocolStack → Artifact → Artifact → Result Error Artifact
  compile_account base p stack controller reserve =
      compile c (text "contracts/savings-account.sil")
        (account_args c p base stack.kcc controller reserve)

  abbrev pub compile_controller :
      ProtocolParams
      → SavingsParams
      → ProtocolStack
      → Artifact
      → Artifact
      → Artifact
      → Artifact
      → Artifact
      → Result Error Artifact
  compile_controller base p stack account governor proposal controller reserve =
      compile c (text "contracts/savings-controller.sil")
        (controller_args c p base stack.kcc account governor proposal controller reserve)

  abbrev pub compile_reserve :
      ProtocolParams
      → SavingsParams
      → ProtocolStack
      → Artifact
      → Artifact
      → Artifact
      → Artifact
      → Result Error Artifact
  compile_reserve base p stack auction account controller registry =
      compile c (text "contracts/equity-reserve.sil")
        (reserve_args c base p stack.kcc stack.kps auction account controller registry)

  unfoldable pub compile_probes :
      ProtocolParams → SavingsParams → ProtocolStack → Result Error Probes
  compile_probes base p stack = do
    registry ←
        compile c (text "contracts/savings-registry.sil")
          (registry_args c p (not (text_eq p.controller_id (zeros 32))))
    proposal ← compile c (text "contracts/savings-proposal.sil") (proposal_args c p base false)
    governor ← compile_governor base p proposal stack empty_artifact
    account ← compile_account base p stack empty_artifact empty_artifact
    controller ←
        compile_controller base p stack account governor proposal empty_artifact empty_artifact
    ok (record {
      registry = registry;
      proposal = proposal;
      governor = governor;
      account = account;
      controller = controller;
    })

  -- The Reserve and the Auction; the stack with both.
  unfoldable pub compile_reserve_pair :
      ProtocolParams → SavingsParams → Probes → ProtocolStack → Result Error ProtocolStack
  compile_reserve_pair base p probes s0 = do
    reserve_probe ←
        compile_reserve base p s0 empty_artifact probes.account probes.controller probes.registry
    let s1 = record s0 { reserve = reserve_probe }
    auction ← compile_auction c base s1
    let s2 = record s1 { auction = auction }
    reserve ← compile_reserve base p s2 auction probes.account probes.controller probes.registry
    reject_if (changed reserve reserve_probe) Error.unstable_reserve
    let s3 = record s2 { reserve = reserve }
    final_auction ← compile_auction c base s3
    reject_if (changed final_auction auction) Error.unstable_auction
    ok (record s3 { auction = final_auction })

  -- The contracts of src/protocol.rs that refer to the Reserve, which is now another.
  unfoldable pub compile_base : ProtocolParams → ProtocolStack → Result Error ProtocolStack
  compile_base base s0 = do
    challenge ← compile c (text "contracts/challenge.sil") (challenge_args c base s0)
    let s1 = record s0 { challenge = challenge }
    anchor ← compile c (text "contracts/challenge-anchor.sil") (anchor_args c base s1)
    let s2 = record s1 { anchor = anchor }
    s3 ← compile_position_pair c base s2
    mint ← compile c (text "contracts/minting-module.sil") (module_args c base s3)
    ok (record s3 { minting_module = mint })

  unfoldable pub compile_finals :
      ProtocolParams → SavingsParams → Probes → ProtocolStack → Result Error SavingsStack
  compile_finals base p probes stack = do
    governor ← compile_governor base p probes.proposal stack stack.reserve
    account ← compile_account base p stack probes.controller stack.reserve
    controller ←
        compile_controller base p stack account governor probes.proposal probes.controller
          stack.reserve
    reject_if (changed governor probes.governor) (Error.unstable (text "Governor"))
    reject_if (changed account probes.account) (Error.unstable (text "Account"))
    reject_if (changed controller probes.controller) (Error.unstable (text "Controller"))
    ok (record {
      base = stack;
      proposal = probes.proposal;
      governor = governor;
      account = account;
      controller = controller;
      reserve = stack.reserve;
      registry = probes.registry;
    })

  unfoldable pub compile_stack : ProtocolParams → SavingsParams → Result Error SavingsStack
  compile_stack base p = do
    validate base p
    s0 ← compile_protocol_stack c base
    probes ← compile_probes base p s0
    s1 ← compile_reserve_pair base p probes s0
    s2 ← compile_base base s1
    compile_finals base p probes s2

  unfoldable pub compile_full_stack :
      ProtocolParams → SavingsParams → GovernanceParams → Result Error FullStack
  compile_full_stack base savings governance = do
    savings_stack ← compile_stack base savings
    base_governance ← compile_governance_stack_with_base c base governance savings_stack.base
    ok (record { savings = savings_stack; base_governance = base_governance })
