-- ===== src/SavingsProtocol/Fixpoint.antt =====
-- A stack of src/savings_protocol.rs is a fixed point of the compiler.
use kusd.Base.{◌≡◌, subst, ok, bind-ok, ok_inj, reject_if}
use kusd.Order.{text}
use kusd.SavingsProtocol.{ProtocolParams, ProtocolStack, Compiler, SavingsParams, SavingsStack}
use kusd.Protocol.Validate.{Error}
use kusd.Protocol.Compile.{changed, compile_stack as compile_protocol_stack}
use kusd.Protocol.Fixpoint.{compile_stack-Settled}
use kusd.SavingsProtocol.Validate.{validate}
use kusd.SavingsProtocol.Compile.{
  Probes, compile_governor, compile_account, compile_controller, compile_probes,
  compile_reserve_pair, compile_base, compile_finals, compile_stack,
}
use kusd.SavingsProtocol.Stable.{not_changed, compile_reserve_pair-ReservePair}
use kusd.SavingsProtocol.Based.{Based, compile_base-Based}
use kusd.SavingsProtocol.Prepared.{
  SettledSavings, Probed, compile_probes-Probed, Prepared, prepare_pair, prepare_base, settle,
}

module _ (c : Compiler) (base : ProtocolParams) (p : SavingsParams) where
  settle_finals :
      (probes : Probes) (s1 s2 : ProtocolStack) (s : SavingsStack)
      → Probed c base p probes
      → Prepared c base p probes s2
      → Based c base s1 s2
      → compile_finals c base p probes s2 ≡ ok s
      → SettledSavings c base p s
  unfolding compile_finals
  settle_finals probes s1 s2 s made t b h =
      bind-ok (compile_governor c base p probes.proposal s2 s2.reserve) h λ governor e h1.
        bind-ok (compile_account c base p s2 probes.controller s2.reserve) h1 λ account f h2.
          bind-ok
            (compile_controller c base p s2 account governor probes.proposal probes.controller
              s2.reserve)
            h2
            λ controller g h3.
              bind-ok
                (reject_if (changed governor probes.governor) (Error.unstable (text "Governor"))) h3
                λ _ _ h4.
                  bind-ok
                    (reject_if (changed account probes.account) (Error.unstable (text "Account")))
                    h4
                    λ _ same_account h5.
                      bind-ok
                        (reject_if (changed controller probes.controller)
                          (Error.unstable (text "Controller")))
                        h5
                        λ _ same_controller h6. subst (SettledSavings c base p) (ok_inj h6) (
                          settle c base p probes s2 governor account controller made t s1 b e f g
                            (not_changed account probes.account (Error.unstable (text "Account"))
                              same_account)
                            (not_changed controller probes.controller
                              (Error.unstable (text "Controller")) same_controller))

  -- A savings stack that is returned was compiled from valid parameters and is a fixed point of the
  -- compiler: compiling each of its contracts again, with arguments computed from the stack itself,
  -- gives the artifact that the stack holds. That is so for the contracts of the savings, whose
  -- controller holds its own template, and for the base, whose Reserve is that of the savings.
  pub compile_stack-SettledSavings :
      (s : SavingsStack)
      → compile_stack c base p ≡ ok s
      → (validate base p ≡ ok tt) × SettledSavings c base p s
  unfolding compile_stack
  compile_stack-SettledSavings s h = bind-ok (validate base p) h λ _ valid h1.
      bind-ok (compile_protocol_stack c base) h1 λ s0 made h2.
        bind-ok (compile_probes c base p s0) h2 λ probes probed h3.
          bind-ok (compile_reserve_pair c base p probes s0) h3 λ s1 pair h4.
            bind-ok (compile_base c base s1) h4 λ s2 built h5.
              let based : Based c base s1 s2 = compile_base-Based c base s1 s2 built in
              let settled = compile_stack-Settled c base s0 made in
              let prepared : Prepared c base p probes s1 =
                prepare_pair c base p probes s0 s1 settled.1
                  (compile_reserve_pair-ReservePair c base p probes s0 s1 pair) in
              (
                valid,
                settle_finals probes s1 s2 s (compile_probes-Probed c base p s0 probes probed)
                    (prepare_base c base p probes s1 s2 prepared based) based h5,
              )
