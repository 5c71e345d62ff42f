-- ===== src/Indexer/Consistency.antt =====
-- `recalculate` reads only the entities: on success every aggregate is written anew, so its result
-- does not depend on what the fields held before.
use kusd.Base.{◌≡◌, refl, sym, ap, ◌∙◌, Result, ok, err, arith}
use kusd.OrderedMap.{values}
use kusd.OrderedMap.Laws.{Sorted}
use kusd.Indexer.Data.{outpoint_order, Snapshot}
use kusd.Indexer.Error.{Error}
use kusd.Indexer.Recalculate.{Totals, Outcome, no_totals, scan, finish, finish_scan, recalculate}

finish_same :
    (t : Totals) (s r s' : Snapshot)
    → r.entities ≡ s.entities
    → finish t s ≡ (ok tt, s')
    → finish t r ≡ (ok tt, s')
unfolding finish
finish_same t s r s' e h = ground arith

finish-entities : (t : Totals) (s : Snapshot) → (finish t s).1.entities ≡ s.entities
unfolding finish
finish-entities t s = ground arith

pub recalculate-entities : (s : Snapshot) → (recalculate s).1.entities ≡ s.entities
unfolding recalculate
recalculate-entities s = go (scan no_totals (values s.entities))
  where
    go : (r : Result Error Totals) → (finish_scan r s).1.entities ≡ s.entities
    go (ok t) = finish-entities t s
    go (err e) = refl

finish_scan_same :
    (q : Result Error Totals) (s r s' : Snapshot)
    → r.entities ≡ s.entities
    → finish_scan q s ≡ (ok tt, s')
    → finish_scan q r ≡ (ok tt, s')
finish_scan_same (ok t) s r s' e h = finish_same t s r s' e h
finish_scan_same (err x) s r s' e h = ground arith

pub recalculate_same :
    (s r s' : Snapshot)
    → r.entities ≡ s.entities
    → recalculate s ≡ (ok tt, s')
    → recalculate r ≡ (ok tt, s')
unfolding recalculate
recalculate_same s r s' e h =
    simp e (finish_scan_same (scan no_totals (values s.entities)) s r s' e h)

finish_scan_result :
    (q : Result Error Totals) (s r : Snapshot) → (finish_scan q r).0 ≡ (finish_scan q s).0
unfolding finish
finish_scan_result (ok t) s r = ground arith
finish_scan_result (err e) s r = refl

-- Whether the aggregates are refused, and how, is read from the entities alone too.
pub recalculate_result :
    (s r : Snapshot) → r.entities ≡ s.entities → (recalculate r).0 ≡ (recalculate s).0
unfolding recalculate
recalculate_result s r e = simp e (finish_scan_result (scan no_totals (values s.entities)) s r)

-- The entities are in order, and every aggregate is the one that the entities have.
pub record IsConsistent (s : Snapshot) : Type 0 where
  pub sorted : Sorted s.entities
  pub aggregates : recalculate s ≡ (ok tt, s)

pub recalculate-IsConsistent :
    (s s' : Snapshot) → Sorted s.entities → recalculate s ≡ (ok tt, s') → IsConsistent s'
recalculate-IsConsistent s s' sorted h =
    let e : s'.entities ≡ s.entities =
      ap (λ (c : Outcome). c.1.entities) (sym h) ∙ recalculate-entities s in
    record { sorted = rw e sorted; aggregates = recalculate_same s s' s' e h }
