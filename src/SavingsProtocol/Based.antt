-- ===== src/SavingsProtocol/Based.antt =====
-- What `compile_stack` of src/savings_protocol.rs compiles again of src/protocol.rs, with the Reserve of
-- the savings.
use kusd.Base.{◌≡◌, refl, sym, ◌∙◌, ap, subst, ok, bind-ok, ok_inj}
use kusd.Order.{text}
use kusd.SavingsProtocol.{ProtocolParams, Artifact, ProtocolStack, Compiler}
use kusd.Protocol.Args.{
  challenge_args, anchor_args, position_args, challenged_position_args, module_args,
}
use kusd.Protocol.Compile.{compile, compile_position, compile_challenged, compile_position_pair}
use kusd.Protocol.Positions.{PositionPair, compile_position_pair-PositionPair}
use kusd.SavingsProtocol.Compile.{compile_base}

-- The contracts that hold the template of the Reserve, but the Auction.
pub record Based (c : Compiler) (base : ProtocolParams) (s0 s : ProtocolStack) : Type 0 where
  pub challenge :
      compile c (text "contracts/challenge.sil") (challenge_args c base s) ≡ ok s.challenge
  pub anchor :
      compile c (text "contracts/challenge-anchor.sil") (anchor_args c base s) ≡ ok s.anchor
  pub position : compile_position c base s ≡ ok s.position
  pub challenged_position : compile_challenged c base s ≡ ok s.challenged_position
  pub minting_module :
      compile c (text "contracts/minting-module.sil") (module_args c base s) ≡ ok s.minting_module
  pub rest : s ≡ record s0 {
    challenge = s.challenge;
    anchor = s.anchor;
    position = s.position;
    challenged_position = s.challenged_position;
    minting_module = s.minting_module;
  }

module _ (c : Compiler) (base : ProtocolParams) where
  settle_base :
      (s0 : ProtocolStack) (challenge anchor position challenged mint : Artifact)
      → compile c (text "contracts/challenge.sil") (challenge_args c base s0) ≡ ok challenge
      → compile c
          (text "contracts/challenge-anchor.sil")
          (anchor_args c base (record s0 { challenge = challenge }))
        ≡ ok anchor
      → let s4 : ProtocolStack = record s0 {
        challenge = challenge;
        anchor = anchor;
        position = position;
        challenged_position = challenged;
      } in
        (compile_position c base s4 ≡ ok position)
        → (compile_challenged c base s4 ≡ ok challenged)
        → (compile c (text "contracts/minting-module.sil") (module_args c base s4) ≡ ok mint)
        → Based c base s0 (record s4 { minting_module = mint })
  unfolding challenge_args anchor_args position_args challenged_position_args module_args
  settle_base s0 challenge anchor position challenged mint e f g h k = record {
    challenge = e;
    anchor = f;
    position = g;
    challenged_position = h;
    minting_module = k;
    rest = refl;
  }

  -- The same, from the stack that the pair of Positions leaves.
  settle_positions :
      (s0 s3 s4 : ProtocolStack) (challenge anchor mint : Artifact)
      → s3 ≡ record s0 { challenge = challenge; anchor = anchor }
      → compile c (text "contracts/challenge.sil") (challenge_args c base s0) ≡ ok challenge
      → compile c
          (text "contracts/challenge-anchor.sil")
          (anchor_args c base (record s0 { challenge = challenge }))
        ≡ ok anchor
      → PositionPair c base s3 s4
      → compile c (text "contracts/minting-module.sil") (module_args c base s4) ≡ ok mint
      → Based c base s0 (record s4 { minting_module = mint })
  settle_positions s0 s3 s4 challenge anchor mint d e f q k =
      let full : s4 ≡ record s0 {
        challenge = challenge;
        anchor = anchor;
        position = s4.position;
        challenged_position = s4.challenged_position;
      } =
        q.rest
        ∙ ap
            (λ (x : ProtocolStack). record x {
              position = s4.position;
              challenged_position = s4.challenged_position;
            })
            d in
      subst (Based c base s0)
        (ap (λ (x : ProtocolStack). record x { minting_module = mint }) (sym full))
        (settle_base s0 challenge anchor s4.position s4.challenged_position mint e f
          (ap (compile_position c base) (sym full) ∙ q.position)
          (ap (compile_challenged c base) (sym full) ∙ q.challenged)
          (ap (λ x. compile c (text "contracts/minting-module.sil") (module_args c base x))
              (sym full)
            ∙ k))

  pub compile_base-Based :
      (s0 s : ProtocolStack) → compile_base c base s0 ≡ ok s → Based c base s0 s
  unfolding compile_base
  compile_base-Based s0 s h =
      bind-ok (compile c (text "contracts/challenge.sil") (challenge_args c base s0)) h
        λ challenge e h1.
          let s1 : ProtocolStack = record s0 { challenge = challenge } in
          bind-ok (compile c (text "contracts/challenge-anchor.sil") (anchor_args c base s1)) h1
            λ anchor f h2.
              let s3 : ProtocolStack = record s1 { anchor = anchor } in
              bind-ok (compile_position_pair c base s3) h2 λ s4 pair h3.
                bind-ok (compile c (text "contracts/minting-module.sil") (module_args c base s4)) h3
                  λ mint k h4. subst (Based c base s0) (ok_inj h4) (
                    settle_positions s0 s3 s4 challenge anchor mint refl e f
                      (compile_position_pair-PositionPair c base s3 s4 pair) k)
