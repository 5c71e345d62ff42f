-- ===== src/Indexer/VetoTests.antt =====
-- A veto in src/indexer.rs, run, and the theorem at this run.
use kusd.Base.{◌≡◌, refl, ok, [], ◌∷◌, none, some, false}
use kusd.Int.{ℤ, pos, ◌+ℤ◌, ◌≤ℤ◌, checked_add, checked_mul, ◌*ℤ◌}
use kusd.Order.{Text, text_eq, cmp_text}
use kusd.OrderedMap.{get, insert, remove}
use kusd.Indexer.Data.{Outpoint, outpoint_order, cmp_outpoint, Entity, Snapshot, Indexer}
use kusd.Indexer.Recalculate.{recalculate, scan, tally, finish}
use kusd.Indexer.Ledger.{empty_snapshot, journal_entry, apply, attempt, consume, create}
use kusd.Indexer.Manifest.{GovernanceAction, ManifestTransaction, outputs}
use kusd.Indexer.Governed.{looked_up, count, fold_balance, proposal_fee, reserve_balance}
use kusd.Indexer.Shapes.{valid_shape, validate_governance_action}
use kusd.Indexer.Consistency.{IsConsistent}
use kusd.Indexer.Veto.{veto_pays_reserve}

abbrev tx1 : Text
tx1 = 1 ∷ []

abbrev tx2 : Text
tx2 = 2 ∷ []

abbrev gov : Entity
gov = Entity.governance (record {
  proposal_nonce = pos 0;
  execution_nonce = pos 0;
  active_proposal_id = none;
  voting_delay_daa = pos 10;
  execution_window_daa = pos 10;
  veto_threshold_ppm = pos 200000;
  proposal_deposit_sompi = 100;
  proposal_fee_kusd = pos 50;
  daa_per_year = pos 1000;
  economic_bounds = none;
})

abbrev plan : Entity
plan = Entity.module_proposal (record {
  governance_id = 5 ∷ [];
  proposer = 6 ∷ [];
  proposal_nonce = pos 0;
  activated = false;
  allocation = pos 1000;
  max_debt_per_position = pos 100;
  minimum_collateral_sompi = 10;
  liquidation_price = pos 1;
  expiration_daa = pos 100;
  challenge_period_daa = pos 10;
  auction_duration_daa = pos 10;
  challenge_reward_ppm = pos 1000;
  reserve_contribution_ppm = pos 1000;
  risk_premium_ppm = pos 1000;
  daa_per_year = pos 1000;
  deposit_sompi = 100;
})

abbrev voter : Entity
voter = Entity.kps_delegation (3 ∷ []) (4 ∷ []) (pos 40) (pos 2)

abbrev at : Text → Outpoint
at txid = record { transaction_id = txid; index = 0 }

abbrev second : Text → Outpoint
second txid = record { transaction_id = txid; index = 1 }

abbrev third : Text → Outpoint
third txid = record { transaction_id = txid; index = 2 }

abbrev fourth : Text → Outpoint
fourth txid = record { transaction_id = txid; index = 3 }

abbrev fifth : Outpoint
fifth = record { transaction_id = tx1; index = 4 }

abbrev sixth : Outpoint
sixth = record { transaction_id = tx1; index = 5 }

-- The Reserve has 300 and its token, and the fee of 50 is in escrow.
abbrev open_snapshot : Snapshot
open_snapshot = record empty_snapshot {
  entities =
      (at tx1, gov)
      ∷ (second tx1, plan)
      ∷ (third tx1, Entity.reserve (pos 300) (pos 100) 0)
      ∷ (fourth tx1, Entity.token (pos 300) false)
      ∷ (fifth, Entity.token (pos 50) false)
      ∷ (sixth, voter)
      ∷ [];
  circulating_supply = pos 350;
  reserve_kusd = pos 300;
  reserve_total_kps = pos 100;
  proposed_module_allocation = pos 1000;
  delegated_kps = pos 40;
  weighted_kps_votes = pos 80;
}

abbrev opened : Indexer
opened = record { snapshot = open_snapshot; journal = []; blocks = [] }

abbrev veto : ManifestTransaction
veto = record {
  transaction_id = tx2;
  governance_action = some GovernanceAction.veto_proposal;
  consumed = at tx1 ∷ second tx1 ∷ third tx1 ∷ fourth tx1 ∷ fifth ∷ sixth ∷ [];
  created =
      record { outpoint = at tx2; entity = gov }
      ∷ record { outpoint = second tx2; entity = Entity.reserve (pos 350) (pos 100) 0 }
      ∷ record { outpoint = third tx2; entity = Entity.token (pos 350) false }
      ∷ record { outpoint = fourth tx2; entity = voter }
      ∷ [];
}

abbrev vetoed : Indexer
vetoed = record {
  snapshot = record open_snapshot {
    entities =
        (at tx2, gov)
        ∷ (second tx2, Entity.reserve (pos 350) (pos 100) 0)
        ∷ (third tx2, Entity.token (pos 350) false)
        ∷ (fourth tx2, voter)
        ∷ [];
    reserve_kusd = pos 350;
    proposed_module_allocation = pos 0;
  };
  journal =
      journal_entry tx2 open_snapshot.entities (at tx2 ∷ second tx2 ∷ third tx2 ∷ fourth tx2 ∷ [])
        open_snapshot
      ∷ [];
  blocks = [];
}

veto_run : apply tx2 veto.consumed (outputs veto.created) opened ≡ (ok tt, vetoed)
unfolding apply attempt consume create text_eq cmp_text get insert remove cmp_outpoint recalculate
    scan tally checked_add checked_mul ◌*ℤ◌ ◌+ℤ◌ finish
veto_run = refl

veto_valid : validate_governance_action veto open_snapshot ≡ ok tt
unfolding validate_governance_action valid_shape looked_up get cmp_outpoint cmp_text count
    fold_balance reserve_balance proposal_fee checked_add ◌+ℤ◌
veto_valid = refl

opened-IsConsistent : IsConsistent open_snapshot
unfolding recalculate scan tally checked_add checked_mul ◌*ℤ◌ ◌+ℤ◌ finish cmp_outpoint cmp_text
opened-IsConsistent = record {
  sorted = (
    (refl, (refl, (refl, (refl, (refl, tt))))),
    (
      (refl, (refl, (refl, (refl, tt)))),
      ((refl, (refl, (refl, tt))), ((refl, (refl, tt)), ((refl, tt), (tt, tt)))),
    ),
  );
  aggregates = refl;
}

veto_pays_reserve_example :
    (fee : ℤ) × (proposal_fee (looked_up veto.consumed open_snapshot.entities) ≡ some fee)
    × (pos 1 ≤ℤ fee)
    × (pos 350 ≡ pos 300 +ℤ fee)
veto_pays_reserve_example =
    veto_pays_reserve veto opened vetoed refl opened-IsConsistent veto_valid veto_run
