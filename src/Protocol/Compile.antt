-- ===== src/Protocol/Compile.antt =====
-- `compile` and the stacks of src/protocol.rs: contracts that hold each other's templates are compiled
-- until their identity no longer changes. A stack that the source updates is passed on here.
use kusd.Base.{
  ℕ, zero, suc, ◌+◌, Bool, true, not, ◌||◌, ltb, List, [], ◌∷◌, Result, ok, map_err, ◌>>=◌, ◌>>◌,
  reject_if,
}
use kusd.Int.{pos}
use kusd.Order.{Text, text, text_eq}
use kusd.Silverscript.Encode.{compile_contract}
use kusd.Protocol.{
  Bytes, ProtocolParams, GovernanceParams, Artifact, ProtocolStack, GovernanceStack,
  CompiledContract, Compiler,
}
use kusd.Protocol.Args.{
  length, zeros, truncate, kcc_args, kps_args, delegation_args, reserve_args, auction_args,
  challenge_args, anchor_args, position_args, challenged_position_args, module_args,
}
use kusd.Protocol.GovernanceArgs.{proposal_args, governance_args, root_args}
use kusd.Protocol.Validate.{Error, validate, validate_governance}

unfoldable pub drop {ℓ} : {A : Type ℓ} → ℕ → List A → List A
drop zero xs = xs
drop (suc n) [] = []
drop (suc n) (x ∷ xs) = drop n xs

-- The code without its state; a slice that leaves the code panics in the source.
unfoldable pub split_artifact : CompiledContract → Result Error Artifact
split_artifact k = do
  reject_if (ltb (length k.bytecode) (k.state_start + k.state_len)) Error.slice_out_of_range
  ok (record {
    bytecode = k.bytecode;
    prefix = truncate k.state_start k.bytecode;
    suffix = drop (k.state_start + k.state_len) k.bytecode;
    template_hash = k.template_hash;
  })

abbrev pub empty_artifact : Artifact
empty_artifact = record { bytecode = []; prefix = []; suffix = []; template_hash = zeros 32 }

-- `a.template_hash != b.template_hash || a.prefix != b.prefix || a.suffix != b.suffix`
unfoldable pub changed : Artifact → Artifact → Bool
changed a b =
    not (text_eq a.template_hash b.template_hash)
    || not (text_eq a.prefix b.prefix)
    || not (text_eq a.suffix b.suffix)

module _ (c : Compiler) where
  -- `source`
  unfoldable pub source : Text → Result Error Bytes
  source path = map_err (Error.read_failed path) (c.read_to_string path)

  unfoldable pub compile : Text → List c.Expr → Result Error Artifact
  compile path args = do
    code ← source path
    contract ← map_err (Error.compile_failed path) (compile_contract c code args)
    split_artifact contract.compiled

  abbrev pub compile_auction : ProtocolParams → ProtocolStack → Result Error Artifact
  compile_auction p stack = compile (text "contracts/auction.sil") (auction_args c p stack)

  abbrev pub compile_reserve : ProtocolParams → ProtocolStack → Result Error Artifact
  compile_reserve p stack =
      compile (text "contracts/equity-reserve-base.sil")
        (reserve_args c p stack p.reserve_kusd p.total_kps p.reserve_collateral_sompi)

  abbrev pub compile_position : ProtocolParams → ProtocolStack → Result Error Artifact
  compile_position p stack =
      compile (text "contracts/position.sil") (position_args c p stack (zeros 32))

  abbrev pub compile_challenged : ProtocolParams → ProtocolStack → Result Error Artifact
  compile_challenged p stack =
      compile (text "contracts/challenged-position.sil")
        (challenged_position_args c p stack (zeros 32))

  -- The first part of `compile_stack`: what refers to no contract of a cycle.
  unfoldable pub compile_tokens : ProtocolParams → Result Error ProtocolStack
  compile_tokens p = do
    kcc ← compile (text "contracts/kcc20.sil") (kcc_args c (zeros 32) (pos 0) 2 true)
    delegation ←
        compile (text "contracts/kps-delegation.sil")
          (delegation_args c p (zeros 32) (zeros 32) (pos 1) (pos 0))
    kps ← compile (text "contracts/kps.sil") (kps_args c p delegation (zeros 32) (pos 0) 2 true)
    ok (record {
      kcc = kcc;
      kps = kps;
      delegation = delegation;
      reserve = empty_artifact;
      auction = empty_artifact;
      challenge = empty_artifact;
      anchor = empty_artifact;
      challenged_position = empty_artifact;
      position = empty_artifact;
      minting_module = empty_artifact;
    })

  -- The Reserve and the Auction, which hold each other's template.
  unfoldable pub compile_reserve_pair : ProtocolParams → ProtocolStack → Result Error ProtocolStack
  compile_reserve_pair p s0 = do
    auction_probe ← compile_auction p s0
    let s1 = record s0 { auction = auction_probe }
    reserve_probe ← compile_reserve p s1
    let s2 = record s1 { reserve = reserve_probe }
    auction ← compile_auction p s2
    let s3 = record s2 { auction = auction }
    final_reserve ← compile_reserve p s3
    reject_if (changed final_reserve reserve_probe) Error.unstable_reserve
    let s4 = record s3 { reserve = final_reserve }
    final_auction ← compile_auction p s4
    reject_if (changed final_auction auction) Error.unstable_auction
    ok (record s4 { auction = final_auction })

  unfoldable pub compile_position_pair : ProtocolParams → ProtocolStack → Result Error ProtocolStack
  compile_position_pair p s0 = do
    challenged_probe ← compile_challenged p s0
    let s1 = record s0 { challenged_position = challenged_probe }
    position_probe ← compile_position p s1
    let s2 = record s1 { position = position_probe }
    position ← compile_position p s2
    reject_if (changed position position_probe) Error.unstable_position
    let s3 = record s2 { position = position }
    challenged ← compile_challenged p s3
    reject_if (changed challenged challenged_probe) Error.unstable_challenged
    ok (record s3 { challenged_position = challenged })

  unfoldable pub compile_stack : ProtocolParams → Result Error ProtocolStack
  compile_stack p = do
    validate p
    s0 ← compile_tokens p
    s1 ← compile_reserve_pair p s0
    challenge ← compile (text "contracts/challenge.sil") (challenge_args c p s1)
    let s2 = record s1 { challenge = challenge }
    anchor ← compile (text "contracts/challenge-anchor.sil") (anchor_args c p s2)
    let s3 = record s2 { anchor = anchor }
    s4 ← compile_position_pair p s3
    mint ← compile (text "contracts/minting-module.sil") (module_args c p s4)
    ok (record s4 { minting_module = mint })

  unfoldable pub compile_governance_stack_with_base :
      ProtocolParams → GovernanceParams → ProtocolStack → Result Error GovernanceStack
  compile_governance_stack_with_base p g base = do
    validate_governance p g
    proposal ← compile (text "contracts/module-proposal.sil") (proposal_args c p g base)
    governance ←
        compile (text "contracts/governance.sil") (governance_args c p g proposal (zeros 32) base)
    let provisional : GovernanceStack = record {
      base = base;
      proposal = proposal;
      governance = governance;
      root = empty_artifact;
    }
    root ←
        compile (text "contracts/root-issuance.sil")
          (root_args c p provisional (pos 0) g.root_remaining_allocation g.governance_id 4)
    ok (record provisional { root = root })

  unfoldable pub compile_governance_stack :
      ProtocolParams → GovernanceParams → Result Error GovernanceStack
  compile_governance_stack p g = do
    base ← compile_stack p
    compile_governance_stack_with_base p g base
