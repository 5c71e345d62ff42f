-- ===== src/Protocol/Stable.antt =====
-- The cycles of src/protocol.rs are closed: what a compiled stack holds is what the compiler makes of
-- arguments that are computed from that very stack.
use kusd.Base.{◌≡◌, refl, ◌∙◌, false, ok, arith, subst, bind-ok, reject_if, reject_if-ok}
use kusd.Order.{text_eq→eq}
use kusd.Protocol.{ProtocolParams, Artifact, ProtocolStack, Compiler}
use kusd.Protocol.Args.{reserve_args, auction_args}
use kusd.Protocol.Validate.{Error}
use kusd.Protocol.Compile.{changed, compile_auction, compile_reserve, compile_reserve_pair}

pub record SameTemplate (a b : Artifact) : Type 0 where
  pub hash : a.template_hash ≡ b.template_hash
  pub prefix : a.prefix ≡ b.prefix
  pub suffix : a.suffix ≡ b.suffix

pub changed-SameTemplate : (a b : Artifact) → changed a b ≡ false → SameTemplate a b
unfolding changed
changed-SameTemplate a b h = ground (
  arith,
  text_eq→eq a.template_hash b.template_hash,
  text_eq→eq a.prefix b.prefix,
  text_eq→eq a.suffix b.suffix,
)

module _ (c : Compiler) (p : ProtocolParams) where
  -- The arguments of the Reserve have nothing of the Auction but its template.
  reserve-same :
      (s : ProtocolStack) (a b : Artifact)
      → SameTemplate a b
      → compile_reserve c p (record s { auction = a })
        ≡ compile_reserve c p (record s { auction = b })
  unfolding reserve_args
  reserve-same s a b e = rw (e.hash, e.prefix, e.suffix) refl

  -- Nor does a contract's own place in the stack matter to its arguments.
  pub auction_self :
      (s : ProtocolStack) (a : Artifact)
      → compile_auction c p (record s { auction = a }) ≡ compile_auction c p s
  unfolding auction_args
  auction_self s a = refl

  reserve_self :
      (s : ProtocolStack) (a : Artifact)
      → compile_reserve c p (record s { reserve = a }) ≡ compile_reserve c p s
  unfolding reserve_args
  reserve_self s a = refl

  pub record ReservePair (s0 s : ProtocolStack) : Type 0 where
    pub auction : compile_auction c p s ≡ ok s.auction
    pub reserve : compile_reserve c p s ≡ ok s.reserve
    pub rest : s ≡ record s0 { auction = s.auction; reserve = s.reserve }

  settle_reserve :
      (s0 : ProtocolStack) (reserve_probe auction reserve last : Artifact)
      → compile_reserve c p (record s0 { reserve = reserve_probe; auction = auction }) ≡ ok reserve
      → compile_auction c p (record s0 { reserve = reserve; auction = auction }) ≡ ok last
      → SameTemplate last auction
      → ReservePair s0 (record s0 { reserve = reserve; auction = last })
  settle_reserve s0 reserve_probe auction reserve last made settled same =
      let s : ProtocolStack = record s0 { reserve = reserve; auction = last } in
      record {
        auction = auction_self (record s0 { reserve = reserve; auction = auction }) last ∙ settled;
        reserve =
            reserve-same s last auction same
            ∙ reserve_self (record s0 { reserve = reserve_probe; auction = auction }) reserve
            ∙ made;
        rest = refl;
      }

  pub compile_reserve_pair-ReservePair :
      (s0 s : ProtocolStack) → compile_reserve_pair c p s0 ≡ ok s → ReservePair s0 s
  unfolding compile_reserve_pair
  compile_reserve_pair-ReservePair s0 s h = bind-ok (compile_auction c p s0) h λ probe _ h1.
      bind-ok (compile_reserve c p (record s0 { auction = probe })) h1 λ reserve_probe _ h2.
        bind-ok (compile_auction c p (record s0 { auction = probe; reserve = reserve_probe })) h2
          λ auction _ h3.
            bind-ok (compile_reserve c p (record s0 { reserve = reserve_probe; auction = auction }))
              h3
              λ reserve made h4.
                bind-ok (reject_if (changed reserve reserve_probe) Error.unstable_reserve) h4
                  λ _ _ h5.
                    bind-ok
                      (compile_auction c p (record s0 { reserve = reserve; auction = auction })) h5
                      λ last settled h6.
                        bind-ok (reject_if (changed last auction) Error.unstable_auction) h6
                          λ _ kept h7.
                            let e : record s0 { reserve = reserve; auction = last } ≡ s =
                              ground (arith, h7) in
                            subst (ReservePair s0) e (
                              settle_reserve s0 reserve_probe auction reserve last made settled (
                                changed-SameTemplate last auction (
                                  reject_if-ok (changed last auction) Error.unstable_auction kept)))
