-- ===== src/Indexer/Blocks.antt =====
-- `apply_block` and `rollback_block` of src/indexer.rs: a block goes in whole or not at all, and comes
-- out whole.
use kusd.Base.{
  ℕ, zero, suc, ◌+◌, ◌-◌, ◌<◌, ◌≡◌, ◌⊎◌, refl, sym, subst, ◌∙◌, ap, List, [], ◌∷◌, ok, err,
  Result-cases, inl, inr, arith, ◌≢◌,
}
use kusd.Order.{Text, text_eq_refl, text_eq→eq}
use kusd.Indexer.Data.{Outpoint, Entity, AppliedBlock, Indexer}
use kusd.Indexer.Error.{Error}
use kusd.Indexer.Ledger.{Call, length, apply}
use kusd.Indexer.BlockLedger.{
  unwind, unwound, rewind, BlockTransaction, apply_all, check_parent, apply_block, rollback_block,
}
use kusd.Indexer.Consistency.{IsConsistent}
use kusd.Indexer.RoundTrip.{apply-Undoable, apply_atomic}

-- `Extends base n ix`: `n` successful calls of `apply` lead from `base` to `ix`.
pub data Extends (base : Indexer) : ℕ → Indexer → Type 0 where
  here : Extends base zero base
  more :
      {n : ℕ} {ix ix' : Indexer}
      → Extends base n ix
      → (txid : Text) (consumed : List Outpoint) (created : List (Outpoint × Entity))
      → apply txid consumed created ix ≡ (ok tt, ix')
      → Extends base (suc n) ix'

Call-cases :
    (c : Call (Unit {0}))
    → ((ix : Indexer) × (c ≡ (ok tt, ix))) ⊎ ((e : Error) × (ix : Indexer) × (c ≡ (err e, ix)))
Call-cases (ok tt, ix) = inl (ix, refl)
Call-cases (err e, ix) = inr (e, ix, refl)

pub unwound-ne-ok : (x : Error) (c : Call (Unit {0})) (ix : Indexer) → unwound x c ≢ (ok tt, ix)
unwound-ne-ok x (ok tt, s) ix h = cc (ap (λ (o : Call (Unit {0})). o.0) h)
unwound-ne-ok x (err e, s) ix h = cc (ap (λ (o : Call (Unit {0})). o.0) h)

module _ (base : Indexer) (c : IsConsistent base.snapshot) where
  pub Extends-IsConsistent : {n : ℕ} {ix : Indexer} → Extends base n ix → IsConsistent ix.snapshot
  Extends-IsConsistent here = c
  Extends-IsConsistent (more {ix = ix} {ix' = ix'} e txid consumed created h) =
      (apply-Undoable txid consumed created ix ix' (Extends-IsConsistent e) h).consistent

  pub Extends-blocks : {n : ℕ} {ix : Indexer} → Extends base n ix → ix.blocks ≡ base.blocks
  Extends-blocks here = refl
  Extends-blocks (more {ix = ix} {ix' = ix'} e txid consumed created h) =
      (apply-Undoable txid consumed created ix ix' (Extends-IsConsistent e) h).blocks
      ∙ Extends-blocks e

  pub Extends-length :
      {n : ℕ} {ix : Indexer} → Extends base n ix → length ix.journal ≡ n + length base.journal
  Extends-length here = omega arith
  Extends-length (more {n = n} {ix = ix} {ix' = ix'} e txid consumed created h) =
      let u = apply-Undoable txid consumed created ix ix' (Extends-IsConsistent e) h in
      ap length u.journal ∙ omega (arith, Extends-length e)

  -- Both loops lead back to the base.
  pub unwind-Extends : {n : ℕ} {ix : Indexer} → Extends base n ix → unwind n ix ≡ (ok tt, base)
  unfolding unwind
  unwind-Extends here = refl
  unwind-Extends (more {n = n} {ix = ix} {ix' = ix'} e txid consumed created h) =
      let u = apply-Undoable txid consumed created ix ix' (Extends-IsConsistent e) h in
      ground (arith, u.journal, u.id, u.undo, unwind-Extends e)

  pub rewind-Extends : {n : ℕ} {ix : Indexer} → Extends base n ix → rewind n ix ≡ (ok tt, base)
  unfolding rewind
  rewind-Extends here = refl
  rewind-Extends (more {n = n} {ix = ix} {ix' = ix'} e txid consumed created h) =
      let u = apply-Undoable txid consumed created ix ix' (Extends-IsConsistent e) h in
      ground (arith, u.journal, u.id, u.undo, rewind-Extends e)

  -- A refused transaction inside a block: the block so far is undone.
  undo_block :
      (n : ℕ) (ix ix' : Indexer) (e x : Error)
      → Extends base n ix
      → unwound x (unwind (length ix.journal - length base.journal) ix) ≡ (err e, ix')
      → (e ≡ x) × (ix' ≡ base)
  undo_block n ix ix' e x ext h =
      let rounds : length ix.journal - length base.journal ≡ n =
        omega (arith, Extends-length ext) in
      let done : unwind (length ix.journal - length base.journal) ix ≡ (ok tt, base) =
        rw rounds (unwind-Extends ext) in
      ground (arith, done)

  -- The transactions all go in, or the indexer is the base again.
  apply_all-Extends :
      (txs : List BlockTransaction) (n : ℕ) (ix ix' : Indexer)
      → Extends base n ix
      → apply_all (length base.journal) txs ix ≡ (ok tt, ix')
      → (m : ℕ) × Extends base m ix'
  unfolding apply_all
  apply_all-Extends [] n ix ix' ext h = (n, subst (Extends base n) (ground arith) ext)
  apply_all-Extends ((txid, consumed, created) ∷ txs) n ix ix' ext h =
      elim (Call-cases (apply txid consumed created ix)) [
        | inl (next, q) ↦
            apply_all-Extends txs (suc n) next ix' (more ext txid consumed created q) (ground arith)
        | inr (x, next, q) ↦
            let same = apply_atomic txid consumed created ix next x q in
            let ended : unwound x (unwind (length ix.journal - length base.journal) ix)
                ≡ (ok tt, ix') =
              ground (arith, same) in
            absurd (unwound-ne-ok x (unwind (length ix.journal - length base.journal) ix) ix' ended)
      ]

  apply_all-err :
      (txs : List BlockTransaction) (n : ℕ) (ix ix' : Indexer) (e : Error)
      → Extends base n ix
      → apply_all (length base.journal) txs ix ≡ (err e, ix')
      → ix' ≡ base
  unfolding apply_all
  apply_all-err [] n ix ix' e ext h = ground arith
  apply_all-err ((txid, consumed, created) ∷ txs) n ix ix' e ext h =
      elim (Call-cases (apply txid consumed created ix)) [
        | inl (next, q) ↦
            apply_all-err txs (suc n) next ix' e (more ext txid consumed created q) (ground arith)
        | inr (x, next, q) ↦
            let same = apply_atomic txid consumed created ix next x q in
            (undo_block n ix ix' e x ext (ground (arith, same))).1
      ]

-- A refused block leaves an indexer with a consistent snapshot as it was, also when some of its
-- transactions had gone in.
pub apply_block_atomic :
    (hash parent : Text) (daa_score : ℕ) (txs : List BlockTransaction) (ix ix' : Indexer)
    (e : Error)
    → IsConsistent ix.snapshot
    → apply_block hash parent daa_score txs ix ≡ (err e, ix')
    → ix' ≡ ix
unfolding apply_block
apply_block_atomic hash parent daa_score txs ix ix' e c h =
    elim (Result-cases (check_parent parent daa_score ix.blocks)) [
      | inr (x, q) ↦ ground arith
      | inl (tt, q) ↦ elim (Call-cases (apply_all (length ix.journal) txs ix)) [
        | inl (next, r) ↦ ground arith
        | inr (x, next, r) ↦
            let same = apply_all-err ix c txs 0 ix next x here r in ground (arith, same)
      ]
    ]

abbrev pub pushed : Text → Text → ℕ → ℕ → Indexer → Indexer
pushed hash parent daa_score count next = record next {
  blocks =
      record { hash = hash; parent = parent; daa_score = daa_score; transaction_count = count }
      ∷ next.blocks;
}

pub apply_block-ok :
    (hash parent : Text) (daa_score : ℕ) (txs : List BlockTransaction) (ix ix' : Indexer)
    → apply_block hash parent daa_score txs ix ≡ (ok tt, ix')
    → (next : Indexer) × (apply_all (length ix.journal) txs ix ≡ (ok tt, next))
      × (ix' ≡ pushed hash parent daa_score (length next.journal - length ix.journal) next)
unfolding apply_block
apply_block-ok hash parent daa_score txs ix ix' h =
    elim (Result-cases (check_parent parent daa_score ix.blocks)) [
      | inr (x, q) ↦ absurd (ground arith)
      | inl (tt, q) ↦ elim (Call-cases (apply_all (length ix.journal) txs ix)) [
        | inl (next, r) ↦ (next, r, ground arith)
        | inr (x, next, r) ↦ absurd (ground arith)
      ]
    ]

pub rollback_pushed :
    (hash parent : Text) (daa_score count : ℕ) (next : Indexer)
    → rollback_block hash (pushed hash parent daa_score count next) ≡ rewind count next
unfolding rollback_block
rollback_pushed hash parent daa_score count next = ground (arith, text_eq_refl hash)

-- From an indexer with a consistent snapshot, a block that was accepted leaves a consistent
-- snapshot, and rolling it back by its hash succeeds and restores the very indexer.
pub apply_block_then_rollback :
    (hash parent : Text) (daa_score : ℕ) (txs : List BlockTransaction) (ix ix' : Indexer)
    → IsConsistent ix.snapshot
    → apply_block hash parent daa_score txs ix ≡ (ok tt, ix')
    → IsConsistent ix'.snapshot × (rollback_block hash ix' ≡ (ok tt, ix))
apply_block_then_rollback hash parent daa_score txs ix ix' c h =
    let (next, q, e) = apply_block-ok hash parent daa_score txs ix ix' h in
    let (m, ext) = apply_all-Extends ix c txs 0 ix next here q in
    let count : length next.journal - length ix.journal ≡ m =
      omega (arith, Extends-length ix c ext) in
    let last = pushed hash parent daa_score (length next.journal - length ix.journal) next in
    (
      subst (λ (i : Indexer). IsConsistent i.snapshot) (sym e) (Extends-IsConsistent ix c ext),
      ap (rollback_block hash) e
          ∙ rollback_pushed hash parent daa_score (length next.journal - length ix.journal) next
          ∙ ap (λ n. rewind n next) count
          ∙ rewind-Extends ix c ext,
    )

check_parent-ok :
    (parent : Text) (daa_score : ℕ) (tip : AppliedBlock) (rest : List AppliedBlock)
    → check_parent parent daa_score (tip ∷ rest) ≡ ok tt
    → (parent ≡ tip.hash) × (tip.daa_score < daa_score)
unfolding check_parent
check_parent-ok parent daa_score tip rest h = ground (arith, text_eq→eq tip.hash parent)

-- Where there is a tip, an accepted block names its hash as the parent and has a greater score.
pub accepted_block_extends_tip :
    (hash parent : Text) (daa_score : ℕ) (txs : List BlockTransaction) (ix ix' : Indexer)
    (tip : AppliedBlock) (rest : List AppliedBlock)
    → ix.blocks ≡ tip ∷ rest
    → apply_block hash parent daa_score txs ix ≡ (ok tt, ix')
    → (parent ≡ tip.hash) × (tip.daa_score < daa_score)
unfolding apply_block
accepted_block_extends_tip hash parent daa_score txs ix ix' tip rest e h =
    elim (Result-cases (check_parent parent daa_score ix.blocks)) [
      | inr (x, q) ↦ absurd (ground arith)
      | inl (tt, q) ↦
          check_parent-ok parent daa_score tip rest (ap (check_parent parent daa_score) (sym e) ∙ q)
    ]
