-- ===== src/Indexer/Refused.antt =====
-- A refused `rollback_tip` of src/indexer.rs, in a state that calls lead to.
use kusd.Base.{◌≡◌, ◌≢◌, ◌⊎◌, refl, sym, ap, inl, inr, false, Bool-cases, List, [], ◌∷◌, err, arith}
use kusd.Order.{Text, text_eq, text_eq_refl}
use kusd.Indexer.Data.{AppliedTransaction, AppliedBlock, Snapshot, Indexer}
use kusd.Indexer.Error.{Error}
use kusd.Indexer.Ledger.{rollback_tip}
use kusd.Indexer.Reachable.{Undoes}
use kusd.Indexer.Called.{Called, Called-Good}

-- Why a rollback was refused.
abbrev pub Refusal : Text → List AppliedTransaction → Error → Type 0
Refusal expected journal e =
    ((journal ≡ []) × (e ≡ Error.empty_journal))
    ⊎ ((a : AppliedTransaction) × (rest : List AppliedTransaction) × (journal ≡ a ∷ rest)
        × (a.transaction_id ≢ expected)
        × (e ≡ Error.out_of_order_rollback))

differs : (expected id : Text) → text_eq id expected ≡ false → id ≢ expected
differs expected id q h = ground (arith, q, ap (λ x. text_eq id x) (sym h), text_eq_refl id)

refused :
    (expected : Text) (s : Snapshot) (j : List AppliedTransaction) (bs : List AppliedBlock)
    (ix' : Indexer) (e : Error)
    → Undoes s j
    → rollback_tip expected (record { snapshot = s; journal = j; blocks = bs }) ≡ (err e, ix')
    → (ix' ≡ record { snapshot = s; journal = j; blocks = bs }) × Refusal expected j e
unfolding rollback_tip
refused expected s [] bs ix' e u h = (ground arith, inl (refl, ground arith))
refused expected s' (a ∷ j) bs ix' e (Undoes.more {s = s} u c k) h =
    elim (Bool-cases (text_eq a.transaction_id expected)) [
      | inl q ↦ absurd (ground (arith, q, k, h))
      | inr q ↦ (
        ground (arith, q, h),
        inr (a, j, refl, differs expected a.transaction_id q, ground (arith, q, h)),
      )
    ]

-- In a state that any calls lead to, but for a rebuild from the tracked contracts that is refused and
-- changes the indexer all the same, a rollback is refused for two reasons only, an empty journal or another id
-- than that of its last entry, and then changes nothing: the aggregates never stop it half way.
pub refused_rollback_atomic :
    (expected : Text) (ix ix' : Indexer) (e : Error)
    → Called ix
    → rollback_tip expected ix ≡ (err e, ix')
    → (ix' ≡ ix) × Refusal expected ix.journal e
refused_rollback_atomic expected ix ix' e r h =
    refused expected ix.snapshot ix.journal ix.blocks ix' e (Called-Good r) h
