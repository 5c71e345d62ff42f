-- ===== src/Indexer/Refinement.antt =====
-- `recalculate` of src/indexer.rs computes the aggregates that the entities have.
use kusd.Base.{
  ℕ, ◌+◌, ◌≤◌, ◌≡◌, refl, sym, ap, ◌∙◌, Bool, false, Option, none, some, List, ok, Result-cases,
  inl, inr, arith,
}
use kusd.Int.{ℤ, pos, ◌+ℤ◌, zero_+ℤ}
use kusd.OrderedMap.{values}
use kusd.Indexer.Data.{Entity, Snapshot}
use kusd.Indexer.Recalculate.{
  Totals, no_totals, tally, scan, finish, recalculate, reserve_or_default,
}
use kusd.Indexer.Aggregates.{
  sum, scan-sum, supply_of, debt_of, kps_of, allocation_of, delegated_of, votes_of, saved_of,
  supply_law, debt_law, kps_law, allocation_law, delegated_law, votes_law, saved_law,
}
use kusd.Indexer.Counts.{
  count_of, collect, to_list, scan-count, scan-collect, challenged_of, challenge_of, auction_of,
  account_of, activated_of, reserve_of, controller_of, challenged_law, challenge_law, auction_law,
  account_law, activated_law, reserve_law, controller_law,
}

-- The controller's flag and rate, or what stands for a missing controller.
abbrev pub flag_and_rate : Option (Bool × ℤ × ℤ) → Bool × ℤ
flag_and_rate none = (false, pos 0)
flag_and_rate (some (enabled, total, rate)) = (enabled, rate)

-- The controller declares the sum of the accounts.
abbrev pub Declares : Option (Bool × ℤ × ℤ) → ℤ → Type 0
Declares none balance = Unit
Declares (some (enabled, total, rate)) balance = total ≡ balance

-- The aggregates of a list of entities.
pub record Summary (es : List Entity) (s : Snapshot) : Type 0 where
  pub supply : s.circulating_supply ≡ sum supply_of es
  pub debt : s.position_debt ≡ sum debt_of es
  pub kps : s.kps_supply ≡ sum kps_of es
  pub allocation : s.proposed_module_allocation ≡ sum allocation_of es
  pub delegated : s.delegated_kps ≡ sum delegated_of es
  pub votes : s.weighted_kps_votes ≡ sum votes_of es
  pub balance : s.savings_balance ≡ sum saved_of es
  pub accounts : s.savings_accounts ≡ count_of account_of es
  pub challenged : s.challenged_positions ≡ count_of challenged_of es
  pub challenges : s.active_challenges ≡ count_of challenge_of es
  pub auctions : s.active_auctions ≡ count_of auction_of es
  pub proposals : s.active_governance_proposals ≡ count_of activated_of es
  pub one_proposal : count_of activated_of es ≤ 1
  pub reserve : Option (ℤ × ℤ × ℕ)
  pub one_reserve : collect reserve_of es ≡ to_list reserve
  pub reserve_fields :
      (s.reserve_kusd ≡ (reserve_or_default reserve).0)
      × (s.reserve_total_kps ≡ (reserve_or_default reserve).1)
      × (s.reserve_collateral_sompi ≡ (reserve_or_default reserve).2)
  pub controller : Option (Bool × ℤ × ℤ)
  pub one_controller : collect controller_of es ≡ to_list controller
  pub controller_fields :
      (s.savings_enabled ≡ (flag_and_rate controller).0)
      × (s.savings_rate_ppm ≡ (flag_and_rate controller).1)
  pub declares : Declares controller s.savings_balance

-- What `finish` writes when it succeeds.
record Written (t : Totals) (s : Snapshot) : Type 0 where
  supply : s.circulating_supply ≡ t.supply
  debt : s.position_debt ≡ t.debt
  kps : s.kps_supply ≡ t.kps_supply
  allocation : s.proposed_module_allocation ≡ t.proposed_module_allocation
  delegated : s.delegated_kps ≡ t.delegated_kps
  votes : s.weighted_kps_votes ≡ t.weighted_kps_votes
  balance : s.savings_balance ≡ t.savings_balance
  accounts : s.savings_accounts ≡ t.savings_accounts
  challenged : s.challenged_positions ≡ t.challenged_positions
  challenges : s.active_challenges ≡ t.active_challenges
  auctions : s.active_auctions ≡ t.active_auctions
  proposals : s.active_governance_proposals ≡ t.active_governance_proposals
  one_proposal : t.active_governance_proposals ≤ 1
  reserve_fields :
      (s.reserve_kusd ≡ (reserve_or_default t.reserve).0)
      × (s.reserve_total_kps ≡ (reserve_or_default t.reserve).1)
      × (s.reserve_collateral_sompi ≡ (reserve_or_default t.reserve).2)
  controller_fields :
      (s.savings_enabled ≡ (flag_and_rate t.savings_controller).0)
      × (s.savings_rate_ppm ≡ (flag_and_rate t.savings_controller).1)
  declares : Declares t.savings_controller s.savings_balance

finish-Written : (t : Totals) (s s' : Snapshot) → finish t s ≡ (ok tt, s') → Written t s'
unfolding finish
finish-Written t s s' h = ground (arith)

module _ (es : List Entity) (t : Totals) (q : scan no_totals es ≡ ok t) where
  summed :
      (field : Totals → ℤ) (part : Entity → ℤ)
      → ((u u' : Totals) (e : Entity) → tally u e ≡ ok u' → field u' ≡ field u +ℤ part e)
      → field no_totals ≡ pos 0
      → field t ≡ sum part es
  summed field part law zero_field =
      scan-sum field part law es no_totals t q
      ∙ ap (λ z. z +ℤ sum part es) zero_field
      ∙ zero_+ℤ (sum part es)

  counted :
      (field : Totals → ℕ) (part : Entity → ℕ)
      → ((u u' : Totals) (e : Entity) → tally u e ≡ ok u' → field u' ≡ field u + part e)
      → field no_totals ≡ 0
      → field t ≡ count_of part es
  counted field part law zero_field = omega (arith, scan-count field part law es no_totals t q)

  described : (s : Snapshot) → Written t s → Summary es s
  described s w = record {
    supply = w.supply ∙ summed (λ u. u.supply) supply_of supply_law refl;
    debt = w.debt ∙ summed (λ u. u.debt) debt_of debt_law refl;
    kps = w.kps ∙ summed (λ u. u.kps_supply) kps_of kps_law refl;
    allocation =
        w.allocation ∙ summed (λ u. u.proposed_module_allocation) allocation_of allocation_law refl;
    delegated = w.delegated ∙ summed (λ u. u.delegated_kps) delegated_of delegated_law refl;
    votes = w.votes ∙ summed (λ u. u.weighted_kps_votes) votes_of votes_law refl;
    balance = w.balance ∙ summed (λ u. u.savings_balance) saved_of saved_law refl;
    accounts = w.accounts ∙ counted (λ u. u.savings_accounts) account_of account_law refl;
    challenged =
        w.challenged ∙ counted (λ u. u.challenged_positions) challenged_of challenged_law refl;
    challenges = w.challenges ∙ counted (λ u. u.active_challenges) challenge_of challenge_law refl;
    auctions = w.auctions ∙ counted (λ u. u.active_auctions) auction_of auction_law refl;
    proposals =
        w.proposals ∙ counted (λ u. u.active_governance_proposals) activated_of activated_law refl;
    one_proposal = omega (
      arith,
      w.one_proposal,
      counted (λ u. u.active_governance_proposals) activated_of activated_law refl,
    );
    reserve = t.reserve;
    one_reserve = sym (scan-collect (λ u. u.reserve) reserve_of reserve_law es no_totals t q);
    reserve_fields = w.reserve_fields;
    controller = t.savings_controller;
    one_controller =
        sym
          (scan-collect (λ u. u.savings_controller) controller_of controller_law es no_totals t q);
    controller_fields = w.controller_fields;
    declares = w.declares;
  }

-- When `recalculate` succeeds, every aggregate is the sum or the count that its entities have: the
-- supply of the tokens that are no minters, the debt of Positions and challenged Positions, the KPS,
-- proposed allocations, delegated and weighted votes, Savings balances and accounts, challenges and
-- auctions. At most one proposal is activated, one Reserve and one controller live, their fields
-- are those of the snapshot, and the controller declares the sum of the accounts.
pub recalculate_refines :
    (s s' : Snapshot) → recalculate s ≡ (ok tt, s') → Summary (values s.entities) s'
unfolding recalculate
recalculate_refines s s' h = elim (Result-cases (scan no_totals (values s.entities))) [
  | inr (x, q) ↦ absurd (ground arith)
  | inl (t, q) ↦ described (values s.entities) t q s' (finish-Written t s s' (ground arith))
]
