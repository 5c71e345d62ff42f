-- ===== src/Indexer/Unpaired.antt =====
-- A corner of src/indexer.rs: `rollback_block` counts transactions, so a `rollback_tip` inside a
-- block makes it take one more from below.
use kusd.Base.{ℕ, ◌-◌, ◌≡◌, sym, ◌∙◌, ap, List, [], ◌∷◌, Result-cases, inl, inr, ok, arith}
use kusd.Order.{Text}
use kusd.Indexer.Data.{Outpoint, Entity, AppliedTransaction, AppliedBlock, Indexer}
use kusd.Indexer.Ledger.{apply, rollback_tip, length}
use kusd.Indexer.BlockLedger.{
  apply_all, rollback_block, unwind, unwound, apply_block, BlockTransaction,
}
use kusd.Indexer.Consistency.{IsConsistent}
use kusd.Indexer.RoundTrip.{apply-Undoable}
use kusd.Indexer.Blocks.{
  Extends, rewind-Extends, apply_block-ok, pushed, rollback_pushed, unwound-ne-ok,
}

-- Blocks play no part in `rollback_tip`.
rollback_tip-blocks :
    (expected : Text) (ix ix' : Indexer) (bs : List AppliedBlock)
    → rollback_tip expected ix ≡ (ok tt, ix')
    → rollback_tip expected (record ix { blocks = bs }) ≡ (ok tt, record ix' { blocks = bs })
unfolding rollback_tip
rollback_tip-blocks expected ix ix' bs h = ground (arith, h)

one_transaction :
    (checkpoint : ℕ) (txid : Text) (consumed : List Outpoint) (created : List (Outpoint × Entity))
    (ix next : Indexer)
    → apply_all checkpoint ((txid, consumed, created) ∷ []) ix ≡ (ok tt, next)
    → apply txid consumed created ix ≡ (ok tt, next)
unfolding apply_all
one_transaction checkpoint txid consumed created ix next h =
    elim (Result-cases (apply txid consumed created ix).0) [
      | inl (u, q) ↦ ground arith
      | inr (x, q) ↦
          let last = (apply txid consumed created ix).1 in
          let ended : unwound x (unwind (length last.journal - checkpoint) last) ≡ (ok tt, next) =
            ground arith in
          absurd (unwound-ne-ok x (unwind (length last.journal - checkpoint) last) next ended)
    ]

-- From an indexer with a consistent snapshot, after a transaction and, on top of it, a block of one
-- transaction: rolling the latter back on its own succeeds and leaves the block on the list of
-- blocks; rolling that block back then succeeds and takes the transaction below it too.
pub rollback_tip_unpairs_block :
    (below : BlockTransaction) (tx : BlockTransaction) (hash parent : Text) (daa_score : ℕ)
    (prev ix ix' : Indexer)
    → IsConsistent prev.snapshot
    → apply below.0 below.1 below.2 prev ≡ (ok tt, ix)
    → apply_block hash parent daa_score (tx ∷ []) ix ≡ (ok tt, ix')
    → (rollback_tip tx.0 ix' ≡ (ok tt, record ix { blocks = ix'.blocks }))
      × (rollback_block hash (record ix { blocks = ix'.blocks }) ≡ (ok tt, prev))
rollback_tip_unpairs_block (id, taken, made) (txid, consumed, created) hash parent daa_score prev ix
      ix' c h k =
    let (next, q, e) =
      apply_block-ok hash parent daa_score ((txid, consumed, created) ∷ []) ix ix' k in
    let below = apply-Undoable id taken made prev ix c h in
    let u =
      apply-Undoable txid consumed created ix next below.consistent
        (one_transaction (length ix.journal) txid consumed created ix next q) in
    let count : length next.journal - length ix.journal ≡ 1 =
      ap (λ (j : List AppliedTransaction). length j - length ix.journal) u.journal ∙ omega arith in
    let one : ix' ≡ pushed hash parent daa_score 1 next =
      e ∙ ap (λ n. pushed hash parent daa_score n next) count in
    let whole : record next { blocks = ix'.blocks } ≡ ix' =
      ap (λ (i : Indexer). record next { blocks = i.blocks }) one ∙ sym one in
    let empty : record ix { blocks = ix'.blocks } ≡ pushed hash parent daa_score 1 ix =
      ap (λ (i : Indexer). record ix { blocks = i.blocks }) one
      ∙ ap (λ bs. pushed hash parent daa_score 1 (record ix { blocks = bs })) u.blocks in
    (
      ap (rollback_tip txid) (sym whole) ∙ rollback_tip-blocks txid next ix ix'.blocks u.undo,
      ap (rollback_block hash) empty
          ∙ rollback_pushed hash parent daa_score 1 ix
          ∙ rewind-Extends prev c (Extends.more Extends.here id taken made h),
    )
