-- ===== src/Protocol/Fixpoint.antt =====
-- A compiled stack of src/protocol.rs is a fixed point of the compiler.
use kusd.Base.{◌≡◌, refl, sym, ◌∙◌, ap, subst, true, ok, bind-ok, ok_inj}
use kusd.Int.{pos}
use kusd.Order.{text}
use kusd.Protocol.{ProtocolParams, Artifact, ProtocolStack, Compiler}
use kusd.Protocol.Args.{
  zeros, kcc_args, kps_args, delegation_args, reserve_args, auction_args, challenge_args,
  anchor_args, position_args, challenged_position_args, module_args,
}
use kusd.Protocol.Validate.{validate}
use kusd.Protocol.Compile.{
  compile, compile_auction, compile_reserve, compile_position, compile_challenged, compile_tokens,
  compile_reserve_pair, compile_position_pair, compile_stack,
}
use kusd.Protocol.Stable.{ReservePair, compile_reserve_pair-ReservePair}
use kusd.Protocol.Positions.{PositionPair, compile_position_pair-PositionPair}

-- Every artifact is what the compiler makes of arguments that are computed from the stack itself.
pub record Settled (c : Compiler) (p : ProtocolParams) (s : ProtocolStack) : Type 0 where
  pub kcc : compile c (text "contracts/kcc20.sil") (kcc_args c (zeros 32) (pos 0) 2 true) ≡ ok s.kcc
  pub delegation :
      compile c
        (text "contracts/kps-delegation.sil")
        (delegation_args c p (zeros 32) (zeros 32) (pos 1) (pos 0))
      ≡ ok s.delegation
  pub kps :
      compile c (text "contracts/kps.sil") (kps_args c p s.delegation (zeros 32) (pos 0) 2 true)
      ≡ ok s.kps
  pub reserve : compile_reserve c p s ≡ ok s.reserve
  pub auction : compile_auction c p s ≡ ok s.auction
  pub challenge : compile c (text "contracts/challenge.sil") (challenge_args c p s) ≡ ok s.challenge
  pub anchor : compile c (text "contracts/challenge-anchor.sil") (anchor_args c p s) ≡ ok s.anchor
  pub position : compile_position c p s ≡ ok s.position
  pub challenged_position : compile_challenged c p s ≡ ok s.challenged_position
  pub minting_module :
      compile c (text "contracts/minting-module.sil") (module_args c p s) ≡ ok s.minting_module

module _ (c : Compiler) (p : ProtocolParams) where
  pub record Tokens (s : ProtocolStack) : Type 0 where
    pub kcc :
        compile c (text "contracts/kcc20.sil") (kcc_args c (zeros 32) (pos 0) 2 true) ≡ ok s.kcc
    pub delegation :
        compile c
          (text "contracts/kps-delegation.sil")
          (delegation_args c p (zeros 32) (zeros 32) (pos 1) (pos 0))
        ≡ ok s.delegation
    pub kps :
        compile c (text "contracts/kps.sil") (kps_args c p s.delegation (zeros 32) (pos 0) 2 true)
        ≡ ok s.kps

  compile_tokens-Tokens : (s : ProtocolStack) → compile_tokens c p ≡ ok s → Tokens s
  unfolding compile_tokens
  compile_tokens-Tokens s h =
      bind-ok (compile c (text "contracts/kcc20.sil") (kcc_args c (zeros 32) (pos 0) 2 true)) h
        λ kcc e h1.
          bind-ok
            (compile c (text "contracts/kps-delegation.sil")
              (delegation_args c p (zeros 32) (zeros 32) (pos 1) (pos 0)))
            h1
            λ delegation f h2.
              bind-ok
                (compile c (text "contracts/kps.sil")
                  (kps_args c p delegation (zeros 32) (pos 0) 2 true))
                h2
                λ kps g h3. subst Tokens (ok_inj h3) (record { kcc = e; delegation = f; kps = g })

  assemble :
      (s0 s1 : ProtocolStack) (challenge anchor position challenged mint : Artifact)
      → Tokens s0
      → ReservePair c p s0 s1
      → compile c (text "contracts/challenge.sil") (challenge_args c p s1) ≡ ok challenge
      → compile c
          (text "contracts/challenge-anchor.sil")
          (anchor_args c p (record s1 { challenge = challenge }))
        ≡ ok anchor
      → let s4 : ProtocolStack = record s1 {
        challenge = challenge;
        anchor = anchor;
        position = position;
        challenged_position = challenged;
      } in
        (compile_position c p s4 ≡ ok position)
        → (compile_challenged c p s4 ≡ ok challenged)
        → (compile c (text "contracts/minting-module.sil") (module_args c p s4) ≡ ok mint)
        → Settled c p (record s4 { minting_module = mint })
  unfolding reserve_args auction_args challenge_args anchor_args position_args
      challenged_position_args module_args
  assemble s0 s1 challenge anchor position challenged mint t r e f g h k =
      let u : Tokens s1 =
        subst Tokens (sym r.rest)
          (record { kcc = t.kcc; delegation = t.delegation; kps = t.kps }) in
      record {
        kcc = u.kcc;
        delegation = u.delegation;
        kps = u.kps;
        reserve = r.reserve;
        auction = r.auction;
        challenge = e;
        anchor = f;
        position = g;
        challenged_position = h;
        minting_module = k;
      }

  -- The end of `compile_stack`, from the stack that has the Challenge and its anchor.
  close :
      (s0 s1 s3 s4 s : ProtocolStack) (challenge anchor mint : Artifact)
      → s3 ≡ record s1 { challenge = challenge; anchor = anchor }
      → Tokens s0
      → ReservePair c p s0 s1
      → compile c (text "contracts/challenge.sil") (challenge_args c p s1) ≡ ok challenge
      → compile c
          (text "contracts/challenge-anchor.sil")
          (anchor_args c p (record s1 { challenge = challenge }))
        ≡ ok anchor
      → PositionPair c p s3 s4
      → compile c (text "contracts/minting-module.sil") (module_args c p s4) ≡ ok mint
      → s ≡ record s4 { minting_module = mint }
      → Settled c p s
  close s0 s1 s3 s4 s challenge anchor mint d t r e f q k last =
      let full : s4 ≡ record s1 {
        challenge = challenge;
        anchor = anchor;
        position = s4.position;
        challenged_position = s4.challenged_position;
      } =
        q.rest
        ∙ ap
            (λ (x : ProtocolStack). record x {
              position = s4.position;
              challenged_position = s4.challenged_position;
            })
            d in
      subst (Settled c p)
        (sym (last ∙ ap (λ (x : ProtocolStack). record x { minting_module = mint }) full))
        (assemble s0 s1 challenge anchor s4.position s4.challenged_position mint t r e f
          (ap (compile_position c p) (sym full) ∙ q.position)
          (ap (compile_challenged c p) (sym full) ∙ q.challenged)
          (ap (λ x. compile c (text "contracts/minting-module.sil") (module_args c p x)) (sym full)
            ∙ k))

  -- A stack that `compile_stack` returns was compiled from valid parameters and is a fixed point:
  -- compiling each of its contracts again, with arguments computed from the stack itself, gives the
  -- artifact that the stack holds.
  pub compile_stack-Settled :
      (s : ProtocolStack) → compile_stack c p ≡ ok s → (validate p ≡ ok tt) × Settled c p s
  unfolding compile_stack
  compile_stack-Settled s h = bind-ok (validate p) h λ _ valid h1.
      bind-ok (compile_tokens c p) h1 λ s0 tokens h2.
        bind-ok (compile_reserve_pair c p s0) h2 λ s1 pair h3.
          bind-ok (compile c (text "contracts/challenge.sil") (challenge_args c p s1)) h3
            λ challenge e h4.
              bind-ok
                (compile c (text "contracts/challenge-anchor.sil")
                  (anchor_args c p (record s1 { challenge = challenge })))
                h4
                λ anchor f h5.
                  bind-ok
                    (compile_position_pair c p
                      (record s1 { challenge = challenge; anchor = anchor }))
                    h5
                    λ s4 positions h6.
                      bind-ok (compile c (text "contracts/minting-module.sil") (module_args c p s4))
                        h6
                        λ mint k h7. (
                          valid,
                          close s0 s1 (record s1 { challenge = challenge; anchor = anchor }) s4 s
                              challenge anchor mint refl (compile_tokens-Tokens s0 tokens)
                              (compile_reserve_pair-ReservePair c p s0 s1 pair) e f
                              (compile_position_pair-PositionPair c p
                                (record s1 { challenge = challenge; anchor = anchor }) s4 positions)
                              k (sym (ok_inj h7)),
                        )
