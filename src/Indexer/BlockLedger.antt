-- ===== src/Indexer/BlockLedger.antt =====
-- The blocks of src/indexer.rs: `apply_block` and `rollback_block` over the journal.
use kusd.Base.{
  ℕ, zero, suc, ◌-◌, not, List, [], ◌∷◌, Result, ok, err, ◌>>◌, reject_if, leb, if◌then◌else◌,
}
use kusd.Order.{Text, text_eq}
use kusd.Indexer.Data.{Outpoint, outpoint_order, Entity, AppliedBlock, Indexer}
use kusd.Indexer.Error.{Error}
use kusd.Indexer.Ledger.{Call, length, apply, rollback_tip}

-- A transaction of a block: its id, the consumed outpoints, the created outputs.
abbrev pub BlockTransaction : Type 0
BlockTransaction = Text × List Outpoint × List (Outpoint × Entity)

-- The `while` loop of `apply_block`, with the number of rounds that it makes: the entries above the
-- checkpoint.
unfoldable pub unwind : ℕ → Indexer → Call (Unit {0})
unwind zero ix = (ok tt, ix)
unwind (suc n) ix = elim ix.journal [
  | [] ↦ (ok tt, ix)
  | a ∷ rest ↦
      let (r, next) = rollback_tip a.transaction_id ix in
      elim r [ ok _ ↦ unwind n next | err e ↦ (err e, next) ]
]

-- `rollback_tip(...)?` failing inside the loop replaces the error of the transaction.
abbrev pub unwound : Error → Call (Unit {0}) → Call (Unit {0})
unwound e (ok _, ix) = (err e, ix)
unwound e (err x, ix) = (err x, ix)

-- The `for` loop of `apply_block` over its transactions.
unfoldable pub apply_all : ℕ → List BlockTransaction → Indexer → Call (Unit {0})
apply_all checkpoint [] ix = (ok tt, ix)
apply_all checkpoint ((txid, consumed, created) ∷ txs) ix =
    let (r, next) = apply txid consumed created ix in
    elim r [
      | ok _ ↦ apply_all checkpoint txs next
      | err e ↦ unwound e (unwind (length next.journal - checkpoint) next)
    ]

-- The checks against the tip.
unfoldable pub check_parent : Text → ℕ → List AppliedBlock → Result Error (Unit {0})
check_parent parent daa_score [] = ok tt
check_parent parent daa_score (tip ∷ _) = do
  reject_if (not (text_eq tip.hash parent)) (Error.unexpected_parent parent tip.hash)
  reject_if (leb daa_score tip.daa_score) Error.daa_not_increasing

abbrev pub push_block : Text → Text → ℕ → ℕ → Call (Unit {0}) → Call (Unit {0})
push_block hash parent daa_score checkpoint (err e, ix) = (err e, ix)
push_block hash parent daa_score checkpoint (ok _, ix) = (
  ok tt,
  record ix {
    blocks =
        record {
          hash = hash;
          parent = parent;
          daa_score = daa_score;
          transaction_count = length ix.journal - checkpoint;
        }
        ∷ ix.blocks;
  },
)

unfoldable pub apply_block : Text → Text → ℕ → List BlockTransaction → Indexer → Call (Unit {0})
apply_block hash parent daa_score transactions ix = elim (check_parent parent daa_score ix.blocks) [
  | err e ↦ (err e, ix)
  | ok _ ↦
      let checkpoint = length ix.journal in
      push_block hash parent daa_score checkpoint (apply_all checkpoint transactions ix)
]

-- The `for` loop of `rollback_block`.
unfoldable pub rewind : ℕ → Indexer → Call (Unit {0})
rewind zero ix = (ok tt, ix)
rewind (suc n) ix = elim ix.journal [
  | [] ↦ (err Error.incomplete_journal, ix)
  | a ∷ rest ↦
      let (r, next) = rollback_tip a.transaction_id ix in
      elim r [ ok _ ↦ rewind n next | err e ↦ (err e, next) ]
]

unfoldable pub rollback_block : Text → Indexer → Call (Unit {0})
rollback_block expected_hash ix = elim ix.blocks [
  | [] ↦ (err Error.empty_blocks, ix)
  | block ∷ rest ↦
      if not (text_eq block.hash expected_hash)
      then (err Error.out_of_order_block, record ix { blocks = block ∷ rest })
      else rewind block.transaction_count (record ix { blocks = rest })
]
