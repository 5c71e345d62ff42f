-- ===== src/SavingsProtocol/Prepared.antt =====
-- What a stack of src/savings_protocol.rs promises, and what its parts contribute to it.
use kusd.Base.{◌≡◌, refl, sym, ◌∙◌, subst, true, false, not, ok, bind-ok, ok_inj}
use kusd.Int.{pos}
use kusd.Order.{text, text_eq}
use kusd.SavingsProtocol.{
  ProtocolParams, Artifact, ProtocolStack, Compiler, SavingsParams, SavingsStack,
}
use kusd.Protocol.Args.{
  zeros, kcc_args, kps_args, delegation_args, auction_args, challenge_args, anchor_args,
  module_args,
}
use kusd.Protocol.Compile.{
  empty_artifact, compile, compile_auction, compile_position, compile_challenged,
}
use kusd.Protocol.Stable.{SameTemplate}
use kusd.Protocol.Fixpoint.{Tokens, Settled}
use kusd.SavingsProtocol.Args.{proposal_args, reserve_args, registry_args}
use kusd.SavingsProtocol.Compile.{
  Probes, compile_governor, compile_account, compile_controller, compile_reserve, compile_probes,
}
use kusd.SavingsProtocol.Stable.{account-same, controller-same, reserve-same, ReservePair}
use kusd.SavingsProtocol.Based.{Based}

-- Every artifact of the stack is what the compiler makes of arguments that are computed from the
-- stack itself. The Reserve is that of the savings, also in the part of src/protocol.rs.
pub record SettledSavings (c : Compiler) (base : ProtocolParams) (p : SavingsParams)
    (s : SavingsStack) : Type 0 where
  pub kcc :
      compile c (text "contracts/kcc20.sil") (kcc_args c (zeros 32) (pos 0) 2 true) ≡ ok s.base.kcc
  pub delegation :
      compile c
        (text "contracts/kps-delegation.sil")
        (delegation_args c base (zeros 32) (zeros 32) (pos 1) (pos 0))
      ≡ ok s.base.delegation
  pub kps :
      compile c
        (text "contracts/kps.sil")
        (kps_args c base s.base.delegation (zeros 32) (pos 0) 2 true)
      ≡ ok s.base.kps
  pub registry :
      compile c
        (text "contracts/savings-registry.sil")
        (registry_args c p (not (text_eq p.controller_id (zeros 32))))
      ≡ ok s.registry
  pub proposal :
      compile c (text "contracts/savings-proposal.sil") (proposal_args c p base false)
      ≡ ok s.proposal
  pub governor : compile_governor c base p s.proposal s.base s.reserve ≡ ok s.governor
  pub account : compile_account c base p s.base s.controller s.reserve ≡ ok s.account
  pub controller :
      compile_controller c base p s.base s.account s.governor s.proposal s.controller s.reserve
      ≡ ok s.controller
  pub reserve :
      compile_reserve c base p s.base s.base.auction s.account s.controller s.registry
      ≡ ok s.reserve
  pub base_reserve : s.base.reserve ≡ s.reserve
  pub auction : compile_auction c base s.base ≡ ok s.base.auction
  pub challenge :
      compile c (text "contracts/challenge.sil") (challenge_args c base s.base)
      ≡ ok s.base.challenge
  pub anchor :
      compile c (text "contracts/challenge-anchor.sil") (anchor_args c base s.base)
      ≡ ok s.base.anchor
  pub position : compile_position c base s.base ≡ ok s.base.position
  pub challenged_position : compile_challenged c base s.base ≡ ok s.base.challenged_position
  pub minting_module :
      compile c (text "contracts/minting-module.sil") (module_args c base s.base)
      ≡ ok s.base.minting_module

module _ (c : Compiler) (base : ProtocolParams) (p : SavingsParams) where
  pub record Probed (probes : Probes) : Type 0 where
    registry :
        compile c
          (text "contracts/savings-registry.sil")
          (registry_args c p (not (text_eq p.controller_id (zeros 32))))
        ≡ ok probes.registry
    proposal :
        compile c (text "contracts/savings-proposal.sil") (proposal_args c p base false)
        ≡ ok probes.proposal

  pub compile_probes-Probed :
      (s : ProtocolStack) (probes : Probes) → compile_probes c base p s ≡ ok probes → Probed probes
  unfolding compile_probes
  compile_probes-Probed s probes h =
      bind-ok
        (compile c (text "contracts/savings-registry.sil")
          (registry_args c p (not (text_eq p.controller_id (zeros 32)))))
        h
        λ registry e h1.
          bind-ok (compile c (text "contracts/savings-proposal.sil") (proposal_args c p base false))
            h1
            λ proposal f h2.
              bind-ok (compile_governor c base p proposal s empty_artifact) h2 λ governor _ h3.
                bind-ok (compile_account c base p s empty_artifact empty_artifact) h3
                  λ account _ h4.
                    bind-ok
                      (compile_controller c base p s account governor proposal empty_artifact
                        empty_artifact)
                      h4
                      λ controller _ h5.
                        subst Probed (ok_inj h5) (record { registry = e; proposal = f })

  -- What was compiled before `s`, of the stack `s`.
  pub record Prepared (probes : Probes) (s : ProtocolStack) : Type 0 where
    tokens : Tokens c base s
    reserve :
        compile_reserve c base p s s.auction probes.account probes.controller probes.registry
        ≡ ok s.reserve
    auction : compile_auction c base s ≡ ok s.auction

  pub prepare_pair :
      (probes : Probes) (s0 s1 : ProtocolStack)
      → Settled c base s0
      → ReservePair c base p probes s0 s1
      → Prepared probes s1
  prepare_pair probes s0 s1 t r = record {
    tokens =
        subst (Tokens c base) (sym r.rest)
          (record { kcc = t.kcc; delegation = t.delegation; kps = t.kps });
    reserve = r.reserve;
    auction = r.auction;
  }

  pub prepare_base :
      (probes : Probes) (s1 s2 : ProtocolStack)
      → Prepared probes s1
      → Based c base s1 s2
      → Prepared probes s2
  unfolding reserve_args auction_args
  prepare_base probes s1 s2 t b = subst (Prepared probes) (sym b.rest) (record {
    tokens = record { kcc = t.tokens.kcc; delegation = t.tokens.delegation; kps = t.tokens.kps };
    reserve = t.reserve;
    auction = t.auction;
  })

  pub settle :
      (probes : Probes) (s : ProtocolStack) (governor account controller : Artifact)
      → Probed probes
      → Prepared probes s
      → (s1 : ProtocolStack) → Based c base s1 s
      → compile_governor c base p probes.proposal s s.reserve ≡ ok governor
      → compile_account c base p s probes.controller s.reserve ≡ ok account
      → compile_controller c base p s account governor probes.proposal probes.controller s.reserve
        ≡ ok controller
      → SameTemplate account probes.account
      → SameTemplate controller probes.controller
      → SettledSavings c base p (record {
        base = s;
        proposal = probes.proposal;
        governor = governor;
        account = account;
        controller = controller;
        reserve = s.reserve;
        registry = probes.registry;
      })
  settle probes s governor account controller made t s1 b e f g same_account same_controller =
      record {
        kcc = t.tokens.kcc;
        delegation = t.tokens.delegation;
        kps = t.tokens.kps;
        registry = made.registry;
        proposal = made.proposal;
        governor = e;
        account =
            account-same c base p s controller probes.controller s.reserve same_controller ∙ f;
        controller =
            controller-same c base p s account governor probes.proposal controller probes.controller
              s.reserve same_controller
            ∙ g;
        reserve =
            reserve-same c base p s s.auction s.auction account probes.account controller
              probes.controller probes.registry
              (record { hash = refl; prefix = refl; suffix = refl }) same_account same_controller
            ∙ t.reserve;
        base_reserve = refl;
        auction = t.auction;
        challenge = b.challenge;
        anchor = b.anchor;
        position = b.position;
        challenged_position = b.challenged_position;
        minting_module = b.minting_module;
      }
