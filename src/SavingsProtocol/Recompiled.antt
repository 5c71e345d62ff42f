-- ===== src/SavingsProtocol/Recompiled.antt =====
-- The single states of src/savings_protocol.rs against the stack.
use kusd.SavingsProtocol.Args.{registry_args}
use kusd.Base.{◌≡◌, refl, false, not, ok}
use kusd.Order.{text_eq}
use kusd.SavingsProtocol.{ProtocolParams, Compiler, SavingsParams, SavingsStack}
use kusd.Protocol.Args.{zeros}
use kusd.SavingsProtocol.Compile.{compile_stack}
use kusd.SavingsProtocol.Fixpoint.{compile_stack-SettledSavings}
use kusd.SavingsProtocol.Snapshots.{
  compile_proposal_state, compile_registry_state, compile_governor_state, compile_controller_state,
  compile_account_state, compile_reserve_state, compile_base_anchor_state,
  compile_base_challenge_state, compile_base_auction_state, compile_base_module_state,
  compile_base_position_state, compile_base_challenged_position_state,
}

module _ (c : Compiler) (base : ProtocolParams) (p : SavingsParams) where
  -- Where the stack of the parameters compiles, each state that is compiled alone is the one that the
  -- stack holds: the Registry, the proposal, the Governor, the controller, the account and the Reserve,
  -- and of the base the anchor, the challenge, the Auction, the Module, and both Positions when no
  -- challenge is declared.
  pub compile_states_agree :
      (s : SavingsStack)
      → compile_stack c base p ≡ ok s
      → (compile_registry_state c p (not (text_eq p.controller_id (zeros 32))) ≡ ok s.registry)
        × (compile_proposal_state c base p false ≡ ok s.proposal)
        × (compile_governor_state c base p ≡ ok s.governor)
        × (compile_controller_state c base p ≡ ok s.controller)
        × (compile_account_state c base p ≡ ok s.account)
        × (compile_reserve_state c base p ≡ ok s.reserve)
        × (compile_base_anchor_state c base p ≡ ok s.base.anchor)
        × (compile_base_challenge_state c base p ≡ ok s.base.challenge)
        × (compile_base_auction_state c base p ≡ ok s.base.auction)
        × (compile_base_module_state c base p base.module_remaining_mint base.position_nonce
            ≡ ok s.base.minting_module)
        × (compile_base_position_state c base p base.debt base.assigned_reserve (zeros 32)
            ≡ ok s.base.position)
        × (compile_base_challenged_position_state c base p base.debt base.assigned_reserve
              (zeros 32)
            ≡ ok s.base.challenged_position)
  unfolding compile_registry_state compile_proposal_state compile_governor_state
      compile_controller_state compile_account_state compile_reserve_state compile_base_anchor_state
      compile_base_challenge_state compile_base_auction_state compile_base_module_state
      compile_base_position_state compile_base_challenged_position_state registry_args
  compile_states_agree s h =
      let (valid, e) = compile_stack-SettledSavings c base p s h in
      (
        e.registry,
        rw valid e.proposal,
        rw h e.governor,
        rw h e.controller,
        rw h e.account,
        rw h refl,
        rw h refl,
        rw h refl,
        rw h refl,
        rw h e.minting_module,
        rw h e.position,
        rw h e.challenged_position,
      )
