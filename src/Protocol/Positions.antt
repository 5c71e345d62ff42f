-- ===== src/Protocol/Positions.antt =====
-- The second cycle of src/protocol.rs: a Position holds its own template and that of the challenged
-- Position, which holds the Position's.
use kusd.Base.{◌≡◌, refl, ◌∙◌, subst, ok, bind-ok, reject_if, reject_if-ok, arith}
use kusd.Protocol.{ProtocolParams, Artifact, ProtocolStack, Compiler}
use kusd.Protocol.Args.{position_args, challenged_position_args}
use kusd.Protocol.Validate.{Error}
use kusd.Protocol.Compile.{changed, compile_position, compile_challenged, compile_position_pair}
use kusd.Protocol.Stable.{SameTemplate, changed-SameTemplate}

module _ (c : Compiler) (p : ProtocolParams) where
  -- The arguments of the Position have nothing of the two but their templates.
  position-same :
      (s : ProtocolStack) (a b k l : Artifact)
      → SameTemplate a b
      → SameTemplate k l
      → compile_position c p (record s { position = a; challenged_position = k })
        ≡ compile_position c p (record s { position = b; challenged_position = l })
  unfolding position_args
  position-same s a b k l e f = rw (e.hash, e.prefix, e.suffix, f.hash, f.prefix, f.suffix) refl

  challenged_self :
      (s : ProtocolStack) (a : Artifact)
      → compile_challenged c p (record s { challenged_position = a }) ≡ compile_challenged c p s
  unfolding challenged_position_args
  challenged_self s a = refl

  pub record PositionPair (s0 s : ProtocolStack) : Type 0 where
    pub position : compile_position c p s ≡ ok s.position
    pub challenged : compile_challenged c p s ≡ ok s.challenged_position
    pub rest : s ≡ record s0 { position = s.position; challenged_position = s.challenged_position }

  settle_position :
      (s0 : ProtocolStack) (challenged_probe position_probe position challenged : Artifact)
      → compile_position c p
          (record s0 { position = position_probe; challenged_position = challenged_probe })
        ≡ ok position
      → SameTemplate position position_probe
      → compile_challenged c p
          (record s0 { position = position; challenged_position = challenged_probe })
        ≡ ok challenged
      → SameTemplate challenged challenged_probe
      → PositionPair s0 (record s0 { position = position; challenged_position = challenged })
  settle_position s0 challenged_probe position_probe position challenged made e built f = record {
    position = position-same s0 position position_probe challenged challenged_probe e f ∙ made;
    challenged =
        challenged_self (record s0 { position = position; challenged_position = challenged_probe })
          challenged
        ∙ built;
    rest = refl;
  }

  pub compile_position_pair-PositionPair :
      (s0 s : ProtocolStack) → compile_position_pair c p s0 ≡ ok s → PositionPair s0 s
  unfolding compile_position_pair
  compile_position_pair-PositionPair s0 s h =
      bind-ok (compile_challenged c p s0) h λ challenged_probe _ h1.
        bind-ok (compile_position c p (record s0 { challenged_position = challenged_probe })) h1
          λ position_probe _ h2.
            bind-ok
              (compile_position c p
                (record s0 { position = position_probe; challenged_position = challenged_probe }))
              h2
              λ position made h3.
                bind-ok (reject_if (changed position position_probe) Error.unstable_position) h3
                  λ _ kept h4.
                    bind-ok
                      (compile_challenged c p
                        (record s0 { position = position; challenged_position = challenged_probe }))
                      h4
                      λ challenged built h5.
                        bind-ok
                          (reject_if (changed challenged challenged_probe)
                            Error.unstable_challenged)
                          h5
                          λ _ same h6.
                            let e : record s0 {
                              position = position;
                              challenged_position = challenged;
                            }
                                ≡ s =
                              ground (arith, h6) in
                            subst (PositionPair s0) e (
                              settle_position s0 challenged_probe position_probe position challenged
                                made
                                (changed-SameTemplate position position_probe (
                                  reject_if-ok (changed position position_probe)
                                    Error.unstable_position kept))
                                built
                                (changed-SameTemplate challenged challenged_probe (
                                  reject_if-ok (changed challenged challenged_probe)
                                    Error.unstable_challenged same)))
