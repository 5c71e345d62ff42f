-- ===== src/Indexer/RoundTrip.antt =====
-- `rollback_tip` undoes `apply` in src/indexer.rs, and a failed `apply` changes nothing.
use kusd.Base.{◌≡◌, refl, sym, subst, ◌∙◌, ap, List, ◌∷◌, ok, err, Result-cases, inl, inr, arith}
use kusd.Order.{Text, text_eq_refl}
use kusd.OrderedMap.Laws.{Sorted}
use kusd.Indexer.Data.{
  Outpoint, outpoint_order, Entity, Entities, Snapshot, AppliedTransaction, Indexer,
}
use kusd.Indexer.Error.{Error}
use kusd.Indexer.Recalculate.{Outcome, recalculate}
use kusd.Indexer.Ledger.{
  consume, create, insert_all, remove_all, attempt, recalculated, journal_entry, apply, restored,
  rollback_tip,
}
use kusd.Indexer.Consistency.{
  IsConsistent, recalculate_same, recalculate-entities, recalculate-IsConsistent,
}
use kusd.Indexer.Rollback.{create-Sorted, consume-Sorted, remove_all-create, insert_all-consume}

-- The steps of a successful `attempt`.
pub record Steps (txid : Text) (consumed : List Outpoint) (created : List (Outpoint × Entity))
    (s : Snapshot) (a : AppliedTransaction) (s' : Snapshot) : Type 0 where
  pub between : Entities
  pub after : Entities
  pub takes : consume consumed s.entities ≡ ok (a.consumed, between)
  pub puts : create txid created between ≡ ok (a.created, after)
  pub recalculates : recalculate (record s { entities = after }) ≡ (ok tt, s')
  pub entry : a ≡ journal_entry txid a.consumed a.created s

recalculated-ok : (o : Outcome) (s' : Snapshot) → recalculated o ≡ ok s' → o ≡ (ok tt, s')
recalculated-ok (ok tt, s) s' h = ground arith
recalculated-ok (err e, s) s' h = cc

pub attempt-Steps :
    (txid : Text) (consumed : List Outpoint) (created : List (Outpoint × Entity)) (s : Snapshot)
    (a : AppliedTransaction) (s' : Snapshot)
    → attempt txid consumed created s ≡ ok (a, s')
    → Steps txid consumed created s a s'
unfolding attempt
attempt-Steps txid consumed created s a s' h = elim (Result-cases (consume consumed s.entities)) [
  | inr (x, q) ↦ absurd (ground arith)
  | inl ((taken, between), q) ↦ elim (Result-cases (create txid created between)) [
    | inr (x, r) ↦ absurd (ground arith)
    | inl ((made, after), r) ↦
        elim (Result-cases (recalculated (recalculate (record s { entities = after })))) [
          | inr (x, u) ↦ absurd (ground arith)
          | inl (next, u) ↦
              let parts : (a ≡ journal_entry txid taken made s) × (s' ≡ next) = ground arith in
              record {
                between = between;
                after = after;
                takes = rw parts.0 q;
                puts = rw parts.0 r;
                recalculates =
                    rw parts.1
                      (recalculated-ok (recalculate (record s { entities = after })) next u);
                entry = rw parts.0 refl;
              }
        ]
  ]
]

pub entities_after :
    (txid : Text) (consumed : List Outpoint) (created : List (Outpoint × Entity)) (s : Snapshot)
    (a : AppliedTransaction) (s' : Snapshot) (st : Steps txid consumed created s a s')
    → s'.entities ≡ st.after
entities_after txid consumed created s a s' st =
    ap (λ (o : Outcome). o.1.entities) (sym st.recalculates)
    ∙ recalculate-entities (record s { entities = st.after })

-- The entities that `rollback_tip` puts back are those before.
pub restored-entities :
    (txid : Text) (consumed : List Outpoint) (created : List (Outpoint × Entity)) (s : Snapshot)
    (a : AppliedTransaction) (s' : Snapshot)
    → Sorted s.entities
    → Steps txid consumed created s a s'
    → (restored a s').entities ≡ s.entities
unfolding restored
restored-entities txid consumed created s a s' sorted st =
    let middle = consume-Sorted consumed s.entities st.between a.consumed sorted st.takes in
    ap (λ m. insert_all a.consumed (remove_all a.created m))
      (entities_after txid consumed created s a s' st)
    ∙ ap (insert_all a.consumed)
        (remove_all-create txid created st.between st.after a.created middle st.puts)
    ∙ insert_all-consume consumed s.entities st.between a.consumed sorted st.takes

-- What `rollback_tip` recalculates is the snapshot before.
pub restored_before :
    (txid : Text) (consumed : List Outpoint) (created : List (Outpoint × Entity)) (s : Snapshot)
    (a : AppliedTransaction) (s' : Snapshot)
    → IsConsistent s
    → Steps txid consumed created s a s'
    → IsConsistent s' × (recalculate (restored a s') ≡ (ok tt, s))
restored_before txid consumed created s a s' c st =
    let middle = consume-Sorted consumed s.entities st.between a.consumed c.sorted st.takes in
    let last = create-Sorted txid created st.between st.after a.created middle st.puts in
    (
      recalculate-IsConsistent (record s { entities = st.after }) s' last st.recalculates,
      recalculate_same s (restored a s') s
          (restored-entities txid consumed created s a s' c.sorted st) c.aggregates,
    )

-- A successful `apply`, taken apart.
pub apply-ok :
    (txid : Text) (consumed : List Outpoint) (created : List (Outpoint × Entity)) (ix ix' : Indexer)
    → apply txid consumed created ix ≡ (ok tt, ix')
    → (a : AppliedTransaction) × (s' : Snapshot) × Steps txid consumed created ix.snapshot a s'
      × (ix' ≡ record ix { snapshot = s'; journal = a ∷ ix.journal })
unfolding apply
apply-ok txid consumed created ix ix' h =
    elim (Result-cases (attempt txid consumed created ix.snapshot)) [
      | inr (x, q) ↦ absurd (ground arith)
      | inl ((a, s'), q) ↦
          (a, s', attempt-Steps txid consumed created ix.snapshot a s' q, ground arith)
    ]

pub record Undoable (txid : Text) (ix ix' : Indexer) : Type 0 where
  pub entry : AppliedTransaction
  pub journal : ix'.journal ≡ entry ∷ ix.journal
  pub id : entry.transaction_id ≡ txid
  pub blocks : ix'.blocks ≡ ix.blocks
  pub consistent : IsConsistent ix'.snapshot
  pub undo : rollback_tip txid ix' ≡ (ok tt, ix)

rollback_entry-ok :
    (txid : Text) (a : AppliedTransaction) (s' : Snapshot) (ix : Indexer)
    → a.transaction_id ≡ txid
    → recalculate (restored a s') ≡ (ok tt, ix.snapshot)
    → rollback_tip txid (record ix { snapshot = s'; journal = a ∷ ix.journal }) ≡ (ok tt, ix)
unfolding rollback_tip
rollback_entry-ok txid a s' ix e h = ground (arith, text_eq_refl txid)

pub apply-Undoable :
    (txid : Text) (consumed : List Outpoint) (created : List (Outpoint × Entity)) (ix ix' : Indexer)
    → IsConsistent ix.snapshot
    → apply txid consumed created ix ≡ (ok tt, ix')
    → Undoable txid ix ix'
apply-Undoable txid consumed created ix ix' c h =
    let (a, s', st, e) = apply-ok txid consumed created ix ix' h in
    let (c', back) = restored_before txid consumed created ix.snapshot a s' c st in
    let id : a.transaction_id ≡ txid = ap (λ (b : AppliedTransaction). b.transaction_id) st.entry in
    subst (Undoable txid ix) (sym e) (record {
      entry = a;
      journal = refl;
      id = id;
      blocks = refl;
      consistent = c';
      undo = rollback_entry-ok txid a s' ix id back;
    })

-- From an indexer whose snapshot is consistent, a successful `apply` leaves a consistent snapshot,
-- puts one entry with its id on the journal, leaves the blocks alone, and `rollback_tip` with that id succeeds and
-- restores the very indexer.
pub apply_then_rollback :
    (txid : Text) (consumed : List Outpoint) (created : List (Outpoint × Entity)) (ix ix' : Indexer)
    → IsConsistent ix.snapshot
    → apply txid consumed created ix ≡ (ok tt, ix')
    → IsConsistent ix'.snapshot × (ix'.blocks ≡ ix.blocks) × (rollback_tip txid ix' ≡ (ok tt, ix))
apply_then_rollback txid consumed created ix ix' c h =
    let u = apply-Undoable txid consumed created ix ix' c h in (u.consistent, u.blocks, u.undo)

-- A refused `apply` leaves the indexer as it was.
pub apply_atomic :
    (txid : Text) (consumed : List Outpoint) (created : List (Outpoint × Entity)) (ix ix' : Indexer)
    (e : Error)
    → apply txid consumed created ix ≡ (err e, ix')
    → ix' ≡ ix
unfolding apply
apply_atomic txid consumed created ix ix' e h = ground arith
