-- ===== src/Indexer/Recalculate.antt =====
-- `Indexer::recalculate` of src/indexer.rs: the aggregates of a snapshot from its entities.
use kusd.Base.{
  ℕ, Bool, true, false, not, ◌||◌, Option, none, some, List, [], ◌∷◌, Result, ok, err, ◌>>=◌, ◌>>◌,
  ok_or, reject_if, ltb, if◌then◌else◌,
}
use kusd.Int.{ℤ, pos, ltb_ℤ, leb_ℤ, eqb_ℤ, within, checked_add, checked_mul, checked_add_u64}
use kusd.Order.{Text}
use kusd.OrderedMap.{values}
use kusd.Indexer.Data.{Entity, Snapshot}
use kusd.Indexer.Error.{Error}

-- The local variables of the loop.
pub record Totals : Type 0 where
  pub supply : ℤ
  pub debt : ℤ
  pub kps_supply : ℤ
  pub reserve : Option (ℤ × ℤ × ℕ)
  pub active_governance_proposals : ℕ
  pub proposed_module_allocation : ℤ
  pub delegated_kps : ℤ
  pub weighted_kps_votes : ℤ
  pub savings_balance : ℤ
  pub savings_accounts : ℕ
  pub savings_controller : Option (Bool × ℤ × ℤ)
  pub savings_registry : Option (Option Text × Bool)
  pub challenged_positions : ℕ
  pub active_challenges : ℕ
  pub active_auctions : ℕ

abbrev pub no_totals : Totals
no_totals = record {
  supply = pos 0;
  debt = pos 0;
  kps_supply = pos 0;
  reserve = none;
  active_governance_proposals = 0;
  proposed_module_allocation = pos 0;
  delegated_kps = pos 0;
  weighted_kps_votes = pos 0;
  savings_balance = pos 0;
  savings_accounts = 0;
  savings_controller = none;
  savings_registry = none;
  challenged_positions = 0;
  active_challenges = 0;
  active_auctions = 0;
}

abbrev pub is_some {ℓ} : {A : Type ℓ} → Option A → Bool
is_some none = false
is_some (some _) = true

-- `a != b` on `bool`
abbrev pub differ : Bool → Bool → Bool
differ true b = not b
differ false b = b

-- One round of the loop.
unfoldable pub tally : Totals → Entity → Result Error Totals
tally t (Entity.token amount false) = do
  supply ← ok_or (checked_add t.supply amount) Error.supply_overflow
  ok (record t { supply = supply })
tally t (Entity.position collateral value challenge) = do
  debt ← ok_or (checked_add t.debt value) Error.debt_overflow
  ok (record t { debt = debt })
tally t (Entity.challenged_position collateral value challenge) = do
  debt ← ok_or (checked_add t.debt value) Error.debt_overflow
  n ← ok_or (checked_add_u64 t.challenged_positions 1) Error.challenged_overflow
  ok (record t { debt = debt; challenged_positions = n })
tally t (Entity.challenge collateral debt) = do
  n ← ok_or (checked_add_u64 t.active_challenges 1) Error.challenge_overflow
  ok (record t { active_challenges = n })
tally t (Entity.auction collateral debt reward) = do
  n ← ok_or (checked_add_u64 t.active_auctions 1) Error.auction_overflow
  ok (record t { active_auctions = n })
tally t (Entity.equity_token amount false) = do
  supply ← ok_or (checked_add t.kps_supply amount) Error.kps_supply_overflow
  ok (record t { kps_supply = supply })
tally t (Entity.reserve kusd_balance total_kps collateral) = do
  reject_if (is_some t.reserve) Error.two_reserves
  reject_if (ltb_ℤ kusd_balance (pos 0) || ltb_ℤ total_kps (pos 0)) Error.invalid_reserve
  ok (record t { reserve = some (kusd_balance, total_kps, collateral) })
tally t (Entity.module_proposal p) = do
  allocation ←
      ok_or (checked_add t.proposed_module_allocation p.allocation) Error.allocation_overflow
  n ←
      if p.activated
      then ok_or (checked_add_u64 t.active_governance_proposals 1) Error.proposal_count_overflow
      else ok t.active_governance_proposals
  ok (record t { proposed_module_allocation = allocation; active_governance_proposals = n })
tally t (Entity.kps_delegation owner delegate amount weight) = do
  reject_if (leb_ℤ amount (pos 0) || ltb_ℤ weight (pos 0)) Error.invalid_delegation
  delegated ← ok_or (checked_add t.delegated_kps amount) Error.delegated_overflow
  votes ← ok_or (checked_mul amount weight) Error.weighted_overflow
  weighted ← ok_or (checked_add t.weighted_kps_votes votes) Error.weighted_total_overflow
  ok (record t { delegated_kps = delegated; weighted_kps_votes = weighted })
tally t (Entity.savings_account a) = do
  reject_if (leb_ℤ a.saved (pos 0)) Error.invalid_account
  balance ← ok_or (checked_add t.savings_balance a.saved) Error.savings_overflow
  n ← ok_or (checked_add_u64 t.savings_accounts 1) Error.account_count_overflow
  ok (record t { savings_balance = balance; savings_accounts = n })
tally t (Entity.savings_controller c) = do
  reject_if (is_some t.savings_controller) Error.two_controllers
  reject_if (ltb_ℤ c.total_saved (pos 0) || not (within (pos 0) (pos 1000000) c.current_rate_ppm))
      Error.invalid_controller
  ok (record t { savings_controller = some (c.enabled, c.total_saved, c.current_rate_ppm) })
tally t (Entity.savings_registry controller_id initialized) = do
  reject_if (is_some t.savings_registry) Error.two_registries
  reject_if (differ initialized (is_some controller_id)) Error.invalid_registry
  ok (record t { savings_registry = some (controller_id, initialized) })
tally t e = ok t

unfoldable pub scan : Totals → List Entity → Result Error Totals
scan t [] = ok t
scan t (e ∷ es) = do next ← tally t e; scan next es

-- `reserve.unwrap_or_default()`
abbrev pub reserve_or_default : Option (ℤ × ℤ × ℕ) → ℤ × ℤ × ℕ
reserve_or_default none = (pos 0, pos 0, 0)
reserve_or_default (some r) = r

-- The fields that are written before the Savings total is compared.
abbrev pub write_totals : Totals → Snapshot → Snapshot
write_totals t s =
    let (kusd, kps, collateral) = reserve_or_default t.reserve in
    record s {
      circulating_supply = t.supply;
      position_debt = t.debt;
      kps_supply = t.kps_supply;
      reserve_kusd = kusd;
      reserve_total_kps = kps;
      reserve_collateral_sompi = collateral;
      active_governance_proposals = t.active_governance_proposals;
      proposed_module_allocation = t.proposed_module_allocation;
      delegated_kps = t.delegated_kps;
      weighted_kps_votes = t.weighted_kps_votes;
    }

-- The fields that are written after it.
abbrev pub write_rest : Totals → Bool → ℤ → Snapshot → Snapshot
write_rest t enabled rate s = record s {
  savings_balance = t.savings_balance;
  savings_accounts = t.savings_accounts;
  savings_enabled = enabled;
  savings_rate_ppm = rate;
  challenged_positions = t.challenged_positions;
  active_challenges = t.active_challenges;
  active_auctions = t.active_auctions;
}

abbrev pub Outcome : Type 0
Outcome = Result Error (Unit {0}) × Snapshot

abbrev pub finish_savings : Totals → Option (Bool × ℤ × ℤ) → Snapshot → Outcome
finish_savings t none s = (ok tt, write_rest t false (pos 0) s)
finish_savings t (some (enabled, declared, rate)) s =
    if not (eqb_ℤ declared t.savings_balance)
    then (err (Error.divergent_savings declared t.savings_balance), s)
    else (ok tt, write_rest t enabled rate s)

-- What follows the loop.
unfoldable pub finish : Totals → Snapshot → Outcome
finish t s =
    if ltb 1 t.active_governance_proposals
    then (err Error.two_active_proposals, s)
    else finish_savings t t.savings_controller (write_totals t s)

abbrev pub finish_scan : Result Error Totals → Snapshot → Outcome
finish_scan (ok t) s = finish t s
finish_scan (err e) s = (err e, s)

-- On an error the snapshot comes back with what was written before it.
unfoldable pub recalculate : Snapshot → Outcome
recalculate s = finish_scan (scan no_totals (values s.entities)) s
