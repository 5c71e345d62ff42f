-- ===== src/Indexer/ManifestTests.antt =====
-- Runs of the manifest and the governed actions of src/indexer.rs, and the theorems at these runs.
use mathlib.Core.List.{Memᴰ}
use kusd.Indexer.Governed.{count, looked_up, fold_balance, proposal_fee}
use kusd.Base.{◌≡◌, ◌↔◌, refl, ok, err, true, List, [], ◌∷◌, none, some, false, arith}
use kusd.Int.{pos, checked_add, ◌+ℤ◌}
use kusd.Order.{Text, text_eq, cmp_text}
use kusd.OrderedMap.{get, insert, remove}
use kusd.Indexer.Data.{
  Outpoint, outpoint_order, GovernanceFields, ProposalFields, Entity, Snapshot, Indexer,
  cmp_outpoint,
}
use kusd.Indexer.Error.{Error}
use kusd.Indexer.Recalculate.{is_some, scan, recalculate, finish, tally}
use kusd.Indexer.Ledger.{
  empty_snapshot, empty_indexer, journal_entry, apply, consume, create, attempt,
}
use kusd.Indexer.Manifest.{
  TrackedEntity, LiveUtxo, GovernanceAction, ManifestTransaction, DeploymentManifest, outputs,
}
use kusd.Indexer.Shapes.{validate_governance_action, valid_shape}
use kusd.Indexer.Live.{OutpointSet, validate_live_utxos, collect_tracked, check_entry, scan_live}
use kusd.Indexer.LiveSet.{Proves, live_is_proved, reported_is_live}
use kusd.Indexer.Rebuild.{
  rebuild_from_manifest, rebuild_history_from_manifest, live_entities, replay, expected_set,
  indexed_set, same_set,
}
use kusd.Indexer.Rebuilt.{Tracked, rebuild_tracks}
use kusd.Indexer.Reachable.{Reachable}
use kusd.Indexer.History.{Listed, rebuild_history_matches}
use kusd.Indexer.Consistency.{IsConsistent}
use kusd.Indexer.Escrow.{governed_action_keeps_supply}

abbrev tx1 : Text
tx1 = 1 ∷ []

abbrev tx2 : Text
tx2 = 2 ∷ []

abbrev at : Text → Outpoint
at txid = record { transaction_id = txid; index = 0 }

abbrev gov : GovernanceFields
gov = record {
  proposal_nonce = pos 0;
  execution_nonce = pos 0;
  active_proposal_id = none;
  voting_delay_daa = pos 10;
  execution_window_daa = pos 10;
  veto_threshold_ppm = pos 200000;
  proposal_deposit_sompi = 100;
  proposal_fee_kusd = pos 50;
  daa_per_year = pos 1000;
  economic_bounds = none;
}

abbrev plan : ProposalFields
plan = record {
  governance_id = 5 ∷ [];
  proposer = 6 ∷ [];
  proposal_nonce = pos 0;
  activated = false;
  allocation = pos 1000;
  max_debt_per_position = pos 100;
  minimum_collateral_sompi = 10;
  liquidation_price = pos 1;
  expiration_daa = pos 100;
  challenge_period_daa = pos 10;
  auction_duration_daa = pos 10;
  challenge_reward_ppm = pos 1000;
  reserve_contribution_ppm = pos 1000;
  risk_premium_ppm = pos 1000;
  daa_per_year = pos 1000;
  deposit_sompi = 100;
}

abbrev second : Text → Outpoint
second txid = record { transaction_id = txid; index = 1 }

abbrev third : Text → Outpoint
third txid = record { transaction_id = txid; index = 2 }

abbrev genesis : ManifestTransaction
genesis = record {
  transaction_id = tx1;
  governance_action = none;
  consumed = [];
  created =
      record { outpoint = at tx1; entity = Entity.governance gov }
      ∷ record { outpoint = second tx1; entity = Entity.token (pos 50) false }
      ∷ [];
}

-- The fee goes into escrow.
abbrev propose : ManifestTransaction
propose = record {
  transaction_id = tx2;
  governance_action = some GovernanceAction.propose_module;
  consumed = at tx1 ∷ second tx1 ∷ [];
  created =
      record { outpoint = at tx2; entity = Entity.governance gov }
      ∷ record { outpoint = second tx2; entity = Entity.module_proposal plan }
      ∷ record { outpoint = third tx2; entity = Entity.token (pos 50) false }
      ∷ [];
}

abbrev founded_snapshot : Snapshot
founded_snapshot = record empty_snapshot {
  entities = (at tx1, Entity.governance gov) ∷ (second tx1, Entity.token (pos 50) false) ∷ [];
  circulating_supply = pos 50;
}

abbrev founded : Indexer
founded = record {
  snapshot = founded_snapshot;
  journal = journal_entry tx1 [] (at tx1 ∷ second tx1 ∷ []) empty_snapshot ∷ [];
  blocks = [];
}

abbrev proposed : Indexer
proposed = record {
  snapshot = record founded_snapshot {
    entities =
        (at tx2, Entity.governance gov)
        ∷ (second tx2, Entity.module_proposal plan)
        ∷ (third tx2, Entity.token (pos 50) false)
        ∷ [];
    proposed_module_allocation = pos 1000;
  };
  journal =
      journal_entry tx2
        ((at tx1, Entity.governance gov) ∷ (second tx1, Entity.token (pos 50) false) ∷ [])
        (at tx2 ∷ second tx2 ∷ third tx2 ∷ []) founded_snapshot
      ∷ founded.journal;
  blocks = [];
}

abbrev contract : Outpoint → Entity → TrackedEntity
contract o e = record { address = 9 ∷ []; outpoint = o; covenant_id = 8 ∷ []; entity = e }

abbrev gov_contract : TrackedEntity
gov_contract = contract (at tx1) (Entity.governance gov)

abbrev token_contract : TrackedEntity
token_contract = contract (second tx1) (Entity.token (pos 50) false)

abbrev manifest : DeploymentManifest
manifest = record {
  network = [];
  protocol = none;
  history_scope = none;
  tracked = gov_contract ∷ token_contract ∷ [];
  history = genesis ∷ [];
}

abbrev report : Outpoint → LiveUtxo
report o = record { outpoint = o; address = 9 ∷ []; covenant_id = some (8 ∷ []) }

abbrev reports : List LiveUtxo
reports = report (second tx1) ∷ report (third tx2) ∷ report (at tx1) ∷ []

abbrev live : OutpointSet
live = (at tx1, tt) ∷ (second tx1, tt) ∷ []

abbrev rebuilt : Indexer
rebuilt = record founded { journal = [] }

live_run : validate_live_utxos manifest reports ≡ ok live
unfolding validate_live_utxos collect_tracked insert cmp_outpoint cmp_text scan_live check_entry get
    text_eq
live_run = refl

-- The third report, under another covenant, is at an outpoint that is not tracked.
wrong_covenant :
    validate_live_utxos manifest (record (report (at tx1)) { covenant_id = none } ∷ [])
    ≡ err (Error.covenant_mismatch (at tx1))
unfolding validate_live_utxos collect_tracked insert cmp_outpoint cmp_text scan_live check_entry get
    text_eq
wrong_covenant = refl

genesis_run : apply tx1 [] (outputs genesis.created) empty_indexer ≡ (ok tt, founded)
unfolding apply attempt consume create text_eq cmp_text get insert cmp_outpoint recalculate scan
    tally checked_add ◌+ℤ◌ finish
genesis_run = refl

propose_run : apply tx2 propose.consumed (outputs propose.created) founded ≡ (ok tt, proposed)
unfolding apply attempt consume get cmp_outpoint cmp_text remove create text_eq insert recalculate
    scan tally checked_add ◌+ℤ◌ finish
propose_run = refl

propose_valid : validate_governance_action propose founded_snapshot ≡ ok tt
unfolding validate_governance_action looked_up get cmp_outpoint cmp_text valid_shape count
    fold_balance checked_add ◌+ℤ◌ proposal_fee
propose_valid = refl

founded-IsConsistent : IsConsistent founded_snapshot
unfolding cmp_outpoint cmp_text recalculate scan tally checked_add ◌+ℤ◌ finish
founded-IsConsistent = record { sorted = ((refl, tt), (tt, tt)); aggregates = refl }

rebuild_run : rebuild_from_manifest manifest live proposed ≡ (ok tt, rebuilt)
unfolding rebuild_from_manifest live_entities get cmp_outpoint cmp_text insert recalculate scan
    tally checked_add ◌+ℤ◌ finish
rebuild_run = refl

history_run : rebuild_history_from_manifest manifest live proposed ≡ (ok tt, founded)
unfolding rebuild_history_from_manifest replay validate_governance_action apply attempt consume
    create text_eq cmp_text get insert cmp_outpoint recalculate scan tally checked_add ◌+ℤ◌ finish
    expected_set indexed_set same_set
history_run = refl

governed_action_keeps_supply_example : pos 50 ≡ founded_snapshot.circulating_supply
governed_action_keeps_supply_example =
    governed_action_keeps_supply propose GovernanceAction.propose_module founded proposed refl tt
      (tt, (tt, (ground arith, tt))) founded-IsConsistent propose_valid propose_run

live_is_proved_example :
    (entry : LiveUtxo) × (t : TrackedEntity) × Memᴰ entry reports
    × Memᴰ t manifest.tracked
    × Proves entry t (at tx1)
unfolding get cmp_outpoint cmp_text
live_is_proved_example = live_is_proved manifest reports live (at tx1) live_run refl

reported_is_live_example : get (second tx1) live ≡ some tt
reported_is_live_example =
    reported_is_live manifest reports live (report (second tx1)) token_contract live_run
      (Memᴰ.head refl) (Memᴰ.tail (Memᴰ.head refl)) refl

rebuild_tracks_example :
    IsConsistent founded_snapshot
    × (rebuilt.journal ≡ [])
    × (rebuilt.blocks ≡ [])
    × ((get (at tx1) founded_snapshot.entities ≡ some (Entity.governance gov)) ↔ (
        (get (at tx1) live ≡ some tt) × Tracked manifest.tracked (at tx1) (Entity.governance gov)))
rebuild_tracks_example =
    rebuild_tracks manifest live proposed (rebuilt) (at tx1) (Entity.governance gov) rebuild_run

rebuild_history_matches_example :
    Reachable founded
    × IsConsistent founded_snapshot
    × ((is_some (get (at tx1) founded_snapshot.entities) ≡ true)
        ↔ ((get (at tx1) live ≡ some tt) × Listed manifest.tracked (at tx1)))
rebuild_history_matches_example =
    rebuild_history_matches manifest live proposed founded genesis [] (at tx1) refl history_run
