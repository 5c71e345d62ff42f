-- ===== src/SavingsProtocol/Stable.antt =====
-- The cycles of src/savings_protocol.rs: what each part of `compile_stack` leaves. A stack is changed in
-- the places that the part compiles, and nowhere else.
use kusd.Base.{◌≡◌, refl, ◌∙◌, subst, ok, bind-ok, ok_inj, reject_if, reject_if-ok}
use kusd.SavingsProtocol.{ProtocolParams, Artifact, ProtocolStack, Compiler, SavingsParams}
use kusd.Protocol.Validate.{Error}
use kusd.Protocol.Compile.{empty_artifact, changed, compile_auction}
use kusd.Protocol.Stable.{SameTemplate, changed-SameTemplate, auction_self}
use kusd.SavingsProtocol.Args.{account_args, controller_args, reserve_args}
use kusd.SavingsProtocol.Compile.{
  Probes, compile_account, compile_controller, compile_reserve, compile_reserve_pair,
}

pub not_changed :
    (a b : Artifact) (e : Error) {u : Unit {0}}
    → reject_if (changed a b) e ≡ ok u
    → SameTemplate a b
not_changed a b e h = changed-SameTemplate a b (reject_if-ok (changed a b) e h)

module _ (c : Compiler) (base : ProtocolParams) (p : SavingsParams) where
  -- The arguments have nothing of another contract but its template.
  pub account-same :
      (s : ProtocolStack) (a b reserve : Artifact)
      → SameTemplate a b
      → compile_account c base p s a reserve ≡ compile_account c base p s b reserve
  unfolding account_args
  account-same s a b reserve e = rw (e.hash, e.prefix, e.suffix) refl

  pub controller-same :
      (s : ProtocolStack) (account governor proposal a b reserve : Artifact)
      → SameTemplate a b
      → compile_controller c base p s account governor proposal a reserve
        ≡ compile_controller c base p s account governor proposal b reserve
  unfolding controller_args
  controller-same s account governor proposal a b reserve e = rw (e.hash, e.prefix, e.suffix) refl

  pub reserve-same :
      (s : ProtocolStack)
      (auction auction' account account' controller controller' registry : Artifact)
      → SameTemplate auction auction'
      → SameTemplate account account'
      → SameTemplate controller controller'
      → compile_reserve c base p s auction account controller registry
        ≡ compile_reserve c base p s auction' account' controller' registry
  unfolding reserve_args
  reserve-same s auction auction' account account' controller controller' registry e f g =
      rw (e.hash, e.prefix, e.suffix, f.hash, f.prefix, f.suffix, g.hash, g.prefix, g.suffix) refl

  pub record ReservePair (probes : Probes) (s0 s : ProtocolStack) : Type 0 where
    pub reserve :
        compile_reserve c base p s s.auction probes.account probes.controller probes.registry
        ≡ ok s.reserve
    pub auction : compile_auction c base s ≡ ok s.auction
    pub rest : s ≡ record s0 { auction = s.auction; reserve = s.reserve }

  settle_reserve :
      (probes : Probes) (s0 : ProtocolStack) (auction reserve last : Artifact)
      → compile_reserve c base p s0 auction probes.account probes.controller probes.registry
        ≡ ok reserve
      → compile_auction c base (record s0 { reserve = reserve; auction = auction }) ≡ ok last
      → SameTemplate last auction
      → ReservePair probes s0 (record s0 { reserve = reserve; auction = last })
  settle_reserve probes s0 auction reserve last made settled same = record {
    reserve =
        reserve-same s0 last auction probes.account probes.account probes.controller
          probes.controller probes.registry same
          (record { hash = refl; prefix = refl; suffix = refl })
          (record { hash = refl; prefix = refl; suffix = refl })
        ∙ made;
    auction =
        auction_self c base (record s0 { reserve = reserve; auction = auction }) last ∙ settled;
    rest = refl;
  }

  pub compile_reserve_pair-ReservePair :
      (probes : Probes) (s0 s : ProtocolStack)
      → compile_reserve_pair c base p probes s0 ≡ ok s
      → ReservePair probes s0 s
  unfolding compile_reserve_pair
  compile_reserve_pair-ReservePair probes s0 s h =
      bind-ok
        (compile_reserve c base p s0 empty_artifact probes.account probes.controller
          probes.registry)
        h
        λ probe _ h1.
          bind-ok (compile_auction c base (record s0 { reserve = probe })) h1 λ auction _ h2.
            bind-ok
              (compile_reserve c base p s0 auction probes.account probes.controller probes.registry)
              h2
              λ reserve made h3.
                bind-ok (reject_if (changed reserve probe) Error.unstable_reserve) h3 λ _ _ h4.
                  bind-ok
                    (compile_auction c base (record s0 { reserve = reserve; auction = auction })) h4
                    λ last settled h5.
                      bind-ok (reject_if (changed last auction) Error.unstable_auction) h5
                        λ _ kept h6. subst (ReservePair probes s0) (ok_inj h6) (
                          settle_reserve probes s0 auction reserve last made settled
                            (not_changed last auction Error.unstable_auction kept))
