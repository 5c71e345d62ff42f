-- ===== src/Indexer/CalledTests.antt =====
-- Runs of `rebuild_from_manifest` and `rollback_tip` of src/indexer.rs, refused ones too, and the theorems at
-- these runs.
use kusd.Base.{subst, ap, ◌≡◌, ◌≢◌, refl, ok, err, [], ◌∷◌, none, inl, inr, ◌⊎◌, List, arith}
use kusd.Int.{pos}
use kusd.Order.{Text, text_eq, cmp_text}
use kusd.OrderedMap.{get, insert, remove}
use kusd.Indexer.Data.{
  Outpoint, outpoint_order, Entity, Snapshot, AppliedTransaction, Indexer, cmp_outpoint,
}
use kusd.Indexer.Error.{Error}
use kusd.Indexer.Recalculate.{recalculate, tally, scan, finish}
use kusd.Indexer.Ledger.{
  Call, attempt, consume, create, empty_snapshot, empty_indexer, journal_entry, apply, rollback_tip,
}
use kusd.Indexer.Manifest.{TrackedEntity, DeploymentManifest}
use kusd.Indexer.Live.{OutpointSet}
use kusd.Indexer.Rebuild.{rebuild_from_manifest, live_entities}
use kusd.Indexer.Consistency.{IsConsistent}
use kusd.Indexer.Called.{Called, Called-IsConsistent, Called-rollback}
use kusd.Indexer.Refused.{refused_rollback_atomic}
use kusd.Indexer.Stale.{refused_rebuild_blocks_rollback}

abbrev at : Text → Outpoint
at txid = record { transaction_id = txid; index = 0 }

abbrev tx1 : Text
tx1 = 1 ∷ []

abbrev tx2 : Text
tx2 = 2 ∷ []

abbrev tx3 : Text
tx3 = 3 ∷ []

abbrev fund : Entity
fund = Entity.reserve (pos 10) (pos 5) 7

abbrev contract : Text → TrackedEntity
contract txid = record { address = 9 ∷ []; outpoint = at txid; covenant_id = 8 ∷ []; entity = fund }

abbrev tracking : List TrackedEntity → DeploymentManifest
tracking contracts = record {
  network = [];
  protocol = none;
  history_scope = none;
  tracked = contracts;
  history = [];
}

abbrev live : OutpointSet
live = (at tx1, tt) ∷ (at tx2, tt) ∷ []

abbrev one : DeploymentManifest
one = tracking (contract tx1 ∷ [])

abbrev twice : DeploymentManifest
twice = tracking (contract tx1 ∷ contract tx1 ∷ [])

abbrev two : DeploymentManifest
two = tracking (contract tx1 ∷ contract tx2 ∷ [])

abbrev funded_snapshot : Snapshot
funded_snapshot = record empty_snapshot {
  entities = (at tx1, fund) ∷ [];
  reserve_kusd = pos 10;
  reserve_total_kps = pos 5;
  reserve_collateral_sompi = 7;
}

abbrev funded : Indexer
funded = record { snapshot = funded_snapshot; journal = []; blocks = [] }

abbrev move_entry : AppliedTransaction
move_entry = journal_entry tx3 ((at tx1, fund) ∷ []) (at tx3 ∷ []) funded_snapshot

abbrev moved : Indexer
moved = record {
  snapshot = record funded_snapshot { entities = (at tx3, fund) ∷ [] };
  journal = move_entry ∷ [];
  blocks = [];
}

-- The same outpoint is tracked twice: nothing is changed.
twice_run :
    rebuild_from_manifest twice live empty_indexer
    ≡ (err Error.duplicate_in_manifest, empty_indexer)
unfolding rebuild_from_manifest live_entities get insert cmp_outpoint cmp_text
twice_run = refl

one_run : rebuild_from_manifest one live empty_indexer ≡ (ok tt, funded)
unfolding rebuild_from_manifest live_entities get insert cmp_outpoint cmp_text recalculate scan
    tally finish
one_run = refl

move_run : apply tx3 (at tx1 ∷ []) ((at tx3, fund) ∷ []) funded ≡ (ok tt, moved)
unfolding apply attempt consume create text_eq cmp_text get cmp_outpoint remove recalculate scan
    insert tally finish
move_run = refl

indexer_of : {c d : Call (Unit {0})} → c ≡ d → Called c.1 → Called d.1
indexer_of e r = subst (λ (c : Call (Unit {0})). Called c.1) e r

-- A refused rebuild, one that succeeds, and a transaction.
moved-Called : Called moved
moved-Called =
    let start =
      indexer_of twice_run (
        Called.rebuilt Called.new twice live (inr (ap (λ (c : Call (Unit {0})). c.1) twice_run))) in
    let rebuilt =
      indexer_of one_run
        (Called.rebuilt start one live (inl (ap (λ (c : Call (Unit {0})). c.0) one_run))) in
    indexer_of move_run (Called.applied rebuilt tx3 (at tx1 ∷ []) ((at tx3, fund) ∷ []))

Called-IsConsistent_example : IsConsistent moved.snapshot
Called-IsConsistent_example = Called-IsConsistent moved moved-Called

Called-rollback_example :
    (s' : Snapshot) × IsConsistent s'
    × (rollback_tip tx3 moved ≡ (ok tt, record { snapshot = s'; journal = []; blocks = [] }))
Called-rollback_example = Called-rollback moved move_entry [] moved-Called refl

-- Another id than that of the last transaction.
refused_rollback_run : rollback_tip tx2 moved ≡ (err Error.out_of_order_rollback, moved)
unfolding rollback_tip text_eq cmp_text
refused_rollback_run = refl

refused_rollback_atomic_example :
    (moved ≡ moved)
    × (((moved.journal ≡ []) × (Error.out_of_order_rollback ≡ Error.empty_journal))
        ⊎ ((a : AppliedTransaction) × (rest : List AppliedTransaction) × (moved.journal ≡ a ∷ rest)
            × (a.transaction_id ≢ tx2)
            × (Error.out_of_order_rollback ≡ Error.out_of_order_rollback)))
refused_rollback_atomic_example =
    refused_rollback_atomic tx2 moved moved Error.out_of_order_rollback moved-Called
      refused_rollback_run

-- Two Reserves are live, and then the first is spent.
two_run :
    rebuild_from_manifest two live moved
    ≡ (err Error.two_reserves, (rebuild_from_manifest two live moved).1)
unfolding rebuild_from_manifest live_entities get insert cmp_outpoint cmp_text recalculate scan
    tally finish
two_run = refl

abbrev after_two : Indexer
after_two = (rebuild_from_manifest two live moved).1

abbrev mended : Indexer
mended = (apply tx3 (at tx1 ∷ []) [] after_two).1

mend_run : apply tx3 (at tx1 ∷ []) [] after_two ≡ (ok tt, mended)
unfolding apply attempt consume create text_eq cmp_text get cmp_outpoint remove recalculate scan
    insert tally finish rebuild_from_manifest live_entities
mend_run = refl

refused_rebuild_blocks_rollback_example :
    ((recalculate after_two.snapshot).0 ≡ err Error.two_reserves)
    × ((recalculate mended.snapshot).0 ≡ ok tt)
    × ((rollback_tip tx3 mended).0 ≡ err Error.two_reserves)
    × ((rollback_tip tx3 mended).1.journal ≡ [])
refused_rebuild_blocks_rollback_example =
    refused_rebuild_blocks_rollback two live moved after_two mended Error.two_reserves tx3
      (at tx1 ∷ []) [] two_run (ground arith) mend_run
