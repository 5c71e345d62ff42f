-- ===== src/Indexer/Tests.antt =====
-- Runs of src/indexer.rs, after the tests of that file, and the theorems at these runs.
use kusd.Base.{◌≡◌, refl, ok, err, [], ◌∷◌, none, false}
use kusd.Int.{pos, ◌+ℤ◌, checked_add}
use kusd.Order.{Text, text_eq, cmp_text}
use kusd.OrderedMap.{get, insert, remove, values}
use kusd.Indexer.Data.{
  Outpoint, outpoint_order, Entity, Snapshot, AppliedTransaction, AppliedBlock, Indexer,
  cmp_outpoint,
}
use kusd.Indexer.Error.{Error}
use kusd.Indexer.Recalculate.{recalculate, tally, scan, finish}
use kusd.Indexer.Ledger.{
  attempt, consume, create, restored, remove_all, insert_all, empty_snapshot, empty_indexer,
  journal_entry, apply, rollback_tip, consume, create, attempt,
}
use kusd.Indexer.BlockLedger.{
  check_parent, apply_all, unwind, BlockTransaction, apply_block, rollback_block, apply_all,
  check_parent,
}
use kusd.Indexer.Consistency.{IsConsistent}
use kusd.Indexer.RoundTrip.{apply_then_rollback}
use kusd.Indexer.Blocks.{apply_block_atomic, apply_block_then_rollback}
use kusd.Indexer.Governed.{looked_up}
use kusd.Indexer.Aggregates.{sum, supply_of, debt_of, kps_of}
use kusd.Indexer.Conserve.{apply_balances}
use kusd.Indexer.Unpaired.{rollback_tip_unpairs_block}
use kusd.Indexer.Refinement.{Summary, recalculate_refines}

abbrev tx1 : Text
tx1 = (1 ∷ [])

abbrev tx2 : Text
tx2 = (2 ∷ [])

abbrev op1 : Outpoint
op1 = record { transaction_id = tx1; index = 0 }

abbrev op2 : Outpoint
op2 = record { transaction_id = tx1; index = 1 }

abbrev op3 : Outpoint
op3 = record { transaction_id = tx2; index = 0 }

-- A minted Position and its KUSD, then a transfer of it.
abbrev mint : BlockTransaction
mint = (
  tx1,
  [],
  ((op1, Entity.position 5000 (pos 100) none) ∷ (op2, Entity.token (pos 100) false) ∷ []),
)

abbrev transfer : BlockTransaction
transfer = (tx2, (op2 ∷ []), ((op3, Entity.token (pos 100) false) ∷ []))

abbrev spend_unknown : BlockTransaction
spend_unknown = (tx2, (op3 ∷ []), [])

-- The indexer after the mint, and after the transfer.
abbrev mint_entry : AppliedTransaction
mint_entry = journal_entry tx1 [] (op1 ∷ op2 ∷ []) empty_snapshot

abbrev minted_snapshot : Snapshot
minted_snapshot = record empty_snapshot {
  entities =
      ((op1, Entity.position 5000 (pos 100) none) ∷ (op2, Entity.token (pos 100) false) ∷ []);
  circulating_supply = pos 100;
  position_debt = pos 100;
}

abbrev minted : Indexer
minted = record { snapshot = minted_snapshot; journal = (mint_entry ∷ []); blocks = [] }

abbrev transfer_entry : AppliedTransaction
transfer_entry =
    journal_entry tx2 ((op2, Entity.token (pos 100) false) ∷ []) (op3 ∷ []) minted_snapshot

abbrev moved_snapshot : Snapshot
moved_snapshot = record minted_snapshot {
  entities =
      ((op1, Entity.position 5000 (pos 100) none) ∷ (op3, Entity.token (pos 100) false) ∷ []);
}

abbrev first_block : AppliedBlock
first_block = record { hash = (7 ∷ []); parent = []; daa_score = 10; transaction_count = 2 }

abbrev one_block : Indexer
one_block = record {
  snapshot = moved_snapshot;
  journal = (transfer_entry ∷ mint_entry ∷ []);
  blocks = (first_block ∷ []);
}

abbrev second_block : AppliedBlock
second_block = record { hash = (8 ∷ []); parent = (7 ∷ []); daa_score = 11; transaction_count = 0 }

abbrev two_blocks : Indexer
two_blocks = record one_block { blocks = (second_block ∷ first_block ∷ []) }

empty-IsConsistent : IsConsistent empty_snapshot
unfolding apply_block check_parent apply_all apply attempt consume create text_eq cmp_text get
    insert remove cmp_outpoint recalculate scan tally checked_add ◌+ℤ◌ finish
empty-IsConsistent = record { sorted = tt; aggregates = refl }

minted-IsConsistent : IsConsistent minted_snapshot
unfolding apply_block check_parent apply_all apply attempt consume create text_eq cmp_text get
    insert remove cmp_outpoint recalculate scan tally checked_add ◌+ℤ◌ finish
minted-IsConsistent = record { sorted = ((refl, tt), (tt, tt)); aggregates = refl }

mint_run : apply tx1 [] mint.2 empty_indexer ≡ (ok tt, minted)
unfolding apply_block check_parent apply_all apply attempt consume create text_eq cmp_text get
    insert remove cmp_outpoint recalculate scan tally checked_add ◌+ℤ◌ finish
mint_run = refl

unknown_run : apply tx2 (op3 ∷ []) [] minted ≡ (err (Error.unknown_outpoint op3), minted)
unfolding apply_block check_parent apply_all apply attempt consume create text_eq cmp_text get
    insert remove cmp_outpoint recalculate scan tally checked_add ◌+ℤ◌ finish
unknown_run = refl

block_run : apply_block (7 ∷ []) [] 10 (mint ∷ transfer ∷ []) empty_indexer ≡ (ok tt, one_block)
unfolding apply_block check_parent apply_all apply attempt consume create text_eq cmp_text get
    insert remove cmp_outpoint recalculate scan tally checked_add ◌+ℤ◌ finish
block_run = refl

-- The second transaction is refused, so the first is undone.
refused_run :
    apply_block (7 ∷ []) [] 10 (mint ∷ spend_unknown ∷ []) empty_indexer
    ≡ (err (Error.unknown_outpoint op3), empty_indexer)
unfolding apply_block check_parent apply_all apply attempt consume create text_eq cmp_text get
    insert remove cmp_outpoint recalculate scan tally checked_add ◌+ℤ◌ finish unwind rollback_tip
    restored remove_all insert_all
refused_run = refl

second_run : apply_block (8 ∷ []) (7 ∷ []) 11 [] one_block ≡ (ok tt, two_blocks)
unfolding apply_block check_parent apply_all apply attempt consume create text_eq cmp_text get
    insert remove cmp_outpoint recalculate scan tally checked_add ◌+ℤ◌ finish
second_run = refl

apply_then_rollback_example :
    IsConsistent minted_snapshot
    × (minted.blocks ≡ empty_indexer.blocks)
    × (rollback_tip tx1 minted ≡ (ok tt, empty_indexer))
apply_then_rollback_example =
    apply_then_rollback tx1 [] mint.2 empty_indexer minted empty-IsConsistent mint_run

apply_block_atomic_example : empty_indexer ≡ empty_indexer
apply_block_atomic_example =
    apply_block_atomic (7 ∷ []) [] 10 (mint ∷ spend_unknown ∷ []) empty_indexer empty_indexer
      (Error.unknown_outpoint op3) empty-IsConsistent refused_run

apply_block_then_rollback_example :
    IsConsistent moved_snapshot × (rollback_block (7 ∷ []) one_block ≡ (ok tt, empty_indexer))
apply_block_then_rollback_example =
    apply_block_then_rollback (7 ∷ []) [] 10 (mint ∷ transfer ∷ []) empty_indexer one_block
      empty-IsConsistent block_run

recalculate_refines_example : Summary (values minted_snapshot.entities) minted_snapshot
recalculate_refines_example =
    recalculate_refines minted_snapshot minted_snapshot minted-IsConsistent.aggregates

-- The transfer after the mint.
abbrev moved : Indexer
moved = record {
  snapshot = moved_snapshot;
  journal = transfer_entry ∷ mint_entry ∷ [];
  blocks = [];
}

abbrev transfer_block : AppliedBlock
transfer_block = record { hash = 7 ∷ []; parent = []; daa_score = 10; transaction_count = 1 }

abbrev on_block : Indexer
on_block = record moved { blocks = transfer_block ∷ [] }

transfer_run : apply tx2 (op2 ∷ []) transfer.2 minted ≡ (ok tt, moved)
unfolding apply_block check_parent apply_all apply attempt consume create text_eq cmp_text get
    cmp_outpoint remove recalculate scan insert tally checked_add ◌+ℤ◌ finish
transfer_run = refl

transfer_block_run : apply_block (7 ∷ []) [] 10 (transfer ∷ []) minted ≡ (ok tt, on_block)
unfolding apply_block check_parent apply_all apply attempt consume create text_eq cmp_text get
    cmp_outpoint remove recalculate scan insert tally checked_add ◌+ℤ◌ finish
transfer_block_run = refl

apply_balances_example :
    let held = looked_up (op2 ∷ []) minted_snapshot.entities in
    (sum supply_of held +ℤ pos 100 ≡ sum supply_of (values transfer.2) +ℤ pos 100)
    × (sum debt_of held +ℤ pos 100 ≡ sum debt_of (values transfer.2) +ℤ pos 100)
    × (sum kps_of held +ℤ pos 0 ≡ sum kps_of (values transfer.2) +ℤ pos 0)
apply_balances_example =
    apply_balances tx2 (op2 ∷ []) transfer.2 minted moved minted-IsConsistent transfer_run

rollback_tip_unpairs_block_example :
    (rollback_tip tx2 on_block ≡ (ok tt, record minted { blocks = transfer_block ∷ [] }))
    × (rollback_block (7 ∷ []) (record minted { blocks = transfer_block ∷ [] })
        ≡ (ok tt, empty_indexer))
rollback_tip_unpairs_block_example =
    rollback_tip_unpairs_block mint transfer (7 ∷ []) [] 10 empty_indexer minted on_block
      empty-IsConsistent mint_run transfer_block_run
