-- ===== src/Indexer/Reachable.antt =====
-- The states that `apply`, `rollback_tip`, `apply_block` and `rollback_block` of src/indexer.rs lead to
-- from the default indexer, in any interleaving, refused calls included. Called adds the rebuilds.
use kusd.Base.{
  ℕ, zero, suc, ◌≡◌, refl, sym, ◌-◌, subst, List, [], ◌∷◌, Result-cases, ok, err, inl, inr,
  Bool-cases, arith,
}
use kusd.Order.{Text, text_eq, text_eq_refl}
use kusd.Indexer.Data.{Outpoint, Entity, Snapshot, AppliedTransaction, AppliedBlock, Indexer}
use kusd.Indexer.Error.{Error}
use kusd.Indexer.Recalculate.{recalculate, scan, finish}
use kusd.Indexer.Ledger.{
  Call, length, attempt, apply, restored, rollback_tip, empty_snapshot, empty_indexer,
}
use kusd.Indexer.BlockLedger.{
  BlockTransaction, unwind, unwound, apply_all, check_parent, push_block, apply_block, rewind,
  rollback_block,
}
use kusd.Indexer.Consistency.{IsConsistent}
use kusd.Indexer.RoundTrip.{attempt-Steps, restored_before}

-- The journal leads back from a snapshot to one where it is empty, through consistent snapshots.
pub data Undoes : Snapshot → List AppliedTransaction → Type 0 where
  start : {s : Snapshot} → IsConsistent s → Undoes s []
  more :
      {s s' : Snapshot} {a : AppliedTransaction} {journal : List AppliedTransaction}
      → Undoes s journal
      → IsConsistent s'
      → recalculate (restored a s') ≡ (ok tt, s)
      → Undoes s' (a ∷ journal)

abbrev pub Good : Indexer → Type 0
Good ix = Undoes ix.snapshot ix.journal

pub Undoes-IsConsistent : {s : Snapshot} {j : List AppliedTransaction} → Undoes s j → IsConsistent s
Undoes-IsConsistent (start c) = c
Undoes-IsConsistent (more u c e) = c

pub apply-Good :
    (txid : Text) (consumed : List Outpoint) (created : List (Outpoint × Entity)) (ix : Indexer)
    → Good ix
    → Good (apply txid consumed created ix).1
unfolding apply
apply-Good txid consumed created ix g =
    elim (Result-cases (attempt txid consumed created ix.snapshot)) [
      | inr (x, q) ↦
          let e : (apply txid consumed created ix).1 ≡ ix = ground arith in subst Good (sym e) g
      | inl ((a, s'), q) ↦
          let st = attempt-Steps txid consumed created ix.snapshot a s' q in
          let r =
            restored_before txid consumed created ix.snapshot a s' (Undoes-IsConsistent g) st in
          let e : (apply txid consumed created ix).1
              ≡ record ix { snapshot = s'; journal = a ∷ ix.journal } =
            ground arith in
          subst Good (sym e) (more g r.0 r.1)
    ]

rollback_tip-Undoes :
    (expected : Text) (s : Snapshot) (j : List AppliedTransaction) (bs : List AppliedBlock)
    → Undoes s j
    → Good (rollback_tip expected (record { snapshot = s; journal = j; blocks = bs })).1
unfolding rollback_tip
rollback_tip-Undoes expected s [] bs g = g
rollback_tip-Undoes expected s' (a ∷ j) bs (more {s = s} u c e) =
    elim (Bool-cases (text_eq a.transaction_id expected)) [
      | inl q ↦ simp (q, e) u
      | inr q ↦ simp q (more u c e)
    ]

pub rollback_tip-Good :
    (expected : Text) (ix : Indexer) → Good ix → Good (rollback_tip expected ix).1
rollback_tip-Good expected ix g = rollback_tip-Undoes expected ix.snapshot ix.journal ix.blocks g

-- The loops, with the call that stops one.
unwind-Good :
    (n : ℕ) (s : Snapshot) (j : List AppliedTransaction) (bs : List AppliedBlock)
    → Undoes s j
    → Good (unwind n (record { snapshot = s; journal = j; blocks = bs })).1
unfolding unwind
unwind-Good zero s j bs g = g
unwind-Good (suc n) s [] bs g = g
unwind-Good (suc n) s (a ∷ j) bs g =
    let ix : Indexer = record { snapshot = s; journal = a ∷ j; blocks = bs } in
    let next = (rollback_tip a.transaction_id ix).1 in
    let kept : Good next = rollback_tip-Good a.transaction_id ix g in
    elim (Result-cases (rollback_tip a.transaction_id ix).0) [
      | inl (u, q) ↦
          let e : (unwind (suc n) ix).1 ≡ (unwind n next).1 = ground arith in
          subst Good (sym e) (unwind-Good n next.snapshot next.journal next.blocks kept)
      | inr (x, q) ↦ let e : (unwind (suc n) ix).1 ≡ next = ground arith in subst Good (sym e) kept
    ]

rewind-Good :
    (n : ℕ) (s : Snapshot) (j : List AppliedTransaction) (bs : List AppliedBlock)
    → Undoes s j
    → Good (rewind n (record { snapshot = s; journal = j; blocks = bs })).1
unfolding rewind
rewind-Good zero s j bs g = g
rewind-Good (suc n) s [] bs g = g
rewind-Good (suc n) s (a ∷ j) bs g =
    let ix : Indexer = record { snapshot = s; journal = a ∷ j; blocks = bs } in
    let next = (rollback_tip a.transaction_id ix).1 in
    let kept : Good next = rollback_tip-Good a.transaction_id ix g in
    elim (Result-cases (rollback_tip a.transaction_id ix).0) [
      | inl (u, q) ↦
          let e : (rewind (suc n) ix).1 ≡ (rewind n next).1 = ground arith in
          subst Good (sym e) (rewind-Good n next.snapshot next.journal next.blocks kept)
      | inr (x, q) ↦ let e : (rewind (suc n) ix).1 ≡ next = ground arith in subst Good (sym e) kept
    ]

unwound-Good : (e : Error) (c : Call (Unit {0})) → Good c.1 → Good (unwound e c).1
unwound-Good e (ok tt, ix) g = g
unwound-Good e (err x, ix) g = g

apply_all-Good :
    (checkpoint : ℕ) (txs : List BlockTransaction) (ix : Indexer)
    → Good ix
    → Good (apply_all checkpoint txs ix).1
unfolding apply_all
apply_all-Good checkpoint [] ix g = g
apply_all-Good checkpoint ((txid, consumed, created) ∷ txs) ix g =
    let next = (apply txid consumed created ix).1 in
    let kept : Good next = apply-Good txid consumed created ix g in
    elim (Result-cases (apply txid consumed created ix).0) [
      | inl (u, q) ↦
          let e : apply_all checkpoint ((txid, consumed, created) ∷ txs) ix
              ≡ apply_all checkpoint txs next =
            ground arith in
          subst (λ c. Good c.1) (sym e) (apply_all-Good checkpoint txs next kept)
      | inr (x, q) ↦
          let n = length next.journal - checkpoint in
          let e : apply_all checkpoint ((txid, consumed, created) ∷ txs) ix
              ≡ unwound x (unwind n next) =
            ground arith in
          subst (λ c. Good c.1) (sym e)
            (unwound-Good x (unwind n next)
              (unwind-Good n next.snapshot next.journal next.blocks kept))
    ]

push_block-Good :
    (hash parent : Text) (daa_score checkpoint : ℕ) (c : Call (Unit {0}))
    → Good c.1
    → Good (push_block hash parent daa_score checkpoint c).1
push_block-Good hash parent daa_score checkpoint (ok tt, ix) g = g
push_block-Good hash parent daa_score checkpoint (err x, ix) g = g

pub apply_block-Good :
    (hash parent : Text) (daa_score : ℕ) (txs : List BlockTransaction) (ix : Indexer)
    → Good ix
    → Good (apply_block hash parent daa_score txs ix).1
unfolding apply_block
apply_block-Good hash parent daa_score txs ix g =
    elim (Result-cases (check_parent parent daa_score ix.blocks)) [
      | inr (x, q) ↦
          let e : (apply_block hash parent daa_score txs ix).1 ≡ ix = ground arith in
          subst Good (sym e) g
      | inl (u, q) ↦
          let checkpoint = length ix.journal in
          let e : apply_block hash parent daa_score txs ix
              ≡ push_block hash parent daa_score checkpoint (apply_all checkpoint txs ix) =
            ground arith in
          subst (λ c. Good c.1) (sym e)
            (push_block-Good hash parent daa_score checkpoint (apply_all checkpoint txs ix)
              (apply_all-Good checkpoint txs ix g))
    ]

pub rollback_block-Good :
    (hash : Text) (s : Snapshot) (j : List AppliedTransaction) (bs : List AppliedBlock)
    → Undoes s j
    → Good (rollback_block hash (record { snapshot = s; journal = j; blocks = bs })).1
unfolding rollback_block
rollback_block-Good hash s j [] g = g
rollback_block-Good hash s j (b ∷ bs) g = elim (Bool-cases (text_eq b.hash hash)) [
  | inl q ↦ simp q (rewind-Good b.transaction_count s j bs g)
  | inr q ↦ simp q g
]

-- The calls, whatever they return.
pub data Reachable : Indexer → Type 0 where
  new : Reachable empty_indexer
  applied :
      {ix : Indexer}
      → Reachable ix
      → (txid : Text) (consumed : List Outpoint) (created : List (Outpoint × Entity))
      → Reachable (apply txid consumed created ix).1
  rolled_back : {ix : Indexer} → Reachable ix → (txid : Text) → Reachable (rollback_tip txid ix).1
  block_applied :
      {ix : Indexer}
      → Reachable ix
      → (hash parent : Text) (daa_score : ℕ) (txs : List BlockTransaction)
      → Reachable (apply_block hash parent daa_score txs ix).1
  block_rolled_back :
      {ix : Indexer} → Reachable ix → (hash : Text) → Reachable (rollback_block hash ix).1

pub empty-Undoes : Undoes empty_snapshot []
unfolding recalculate scan finish
empty-Undoes = start (record { sorted = tt; aggregates = refl })

pub Reachable-Good : {ix : Indexer} → Reachable ix → Good ix
Reachable-Good new = empty-Undoes
Reachable-Good (applied {ix = ix} r txid consumed created) =
    apply-Good txid consumed created ix (Reachable-Good r)
Reachable-Good (rolled_back {ix = ix} r txid) = rollback_tip-Good txid ix (Reachable-Good r)
Reachable-Good (block_applied {ix = ix} r hash parent daa_score txs) =
    apply_block-Good hash parent daa_score txs ix (Reachable-Good r)
Reachable-Good (block_rolled_back {ix = ix} r hash) =
    rollback_block-Good hash ix.snapshot ix.journal ix.blocks (Reachable-Good r)

pub Reachable-IsConsistent : (ix : Indexer) → Reachable ix → IsConsistent ix.snapshot
Reachable-IsConsistent ix r = Undoes-IsConsistent (Reachable-Good r)

pub undo_last :
    (s : Snapshot) (a : AppliedTransaction) (j : List AppliedTransaction) (bs : List AppliedBlock)
    → Undoes s (a ∷ j)
    → (s' : Snapshot) × IsConsistent s'
      × (rollback_tip a.transaction_id (record { snapshot = s; journal = a ∷ j; blocks = bs })
          ≡ (ok tt, record { snapshot = s'; journal = j; blocks = bs }))
unfolding rollback_tip
undo_last s a j bs (more {s = s'} u c e) =
    (s', Undoes-IsConsistent u, simp (text_eq_refl a.transaction_id, e) refl)
