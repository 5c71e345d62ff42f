-- ===== src/Indexer/Stale.antt =====
-- A refused `rebuild_from_manifest` of src/indexer.rs, and the rollback of a transaction on top of it.
use kusd.Base.{
  ◌≡◌, ◌≢◌, sym, ap, ◌∙◌, subst, List, [], ◌∷◌, Option-cases, Result-cases, inl, inr, ok, err,
  arith,
}
use kusd.Order.{Text, text_eq_refl}
use kusd.OrderedMap.{get, insert}
use kusd.OrderedMap.Laws.{Sorted}
use kusd.Indexer.Data.{
  Outpoint, outpoint_order, Entity, Entities, Snapshot, AppliedTransaction, Indexer,
}
use kusd.Indexer.Error.{Error}
use kusd.Indexer.Recalculate.{Outcome, recalculate}
use kusd.Indexer.Ledger.{Call, apply, restored, rollback_tip}
use kusd.Indexer.Manifest.{TrackedEntity, DeploymentManifest}
use kusd.Indexer.Live.{OutpointSet}
use kusd.Indexer.Rebuild.{live_entities, rebuild_from_manifest}
use kusd.Indexer.Consistency.{recalculate-entities, recalculate_result}
use kusd.Indexer.Rebuilt.{live_entities-Sorted}
use kusd.Indexer.RoundTrip.{apply-ok, entities_after, restored-entities}

-- The loop is refused for a duplicate only.
live_entities_refusal :
    (live : OutpointSet) (ts : List TrackedEntity) (m : Entities) (e : Error)
    → live_entities live ts m ≡ err e
    → e ≡ Error.duplicate_in_manifest
unfolding live_entities
live_entities_refusal live [] m e h = absurd (ground arith)
live_entities_refusal live (t ∷ ts) m e h =
    let skipped = live_entities_refusal live ts m e in
    let taken = live_entities_refusal live ts (insert t.outpoint t.entity m) e in
    elim (Option-cases (get t.outpoint live)) [
      | inl q ↦ ground (arith, skipped)
      | inr (u, q) ↦ elim (Option-cases (get t.outpoint m)) [
        | inl p ↦ ground (arith, taken)
        | inr (x, p) ↦ ground arith
      ]
    ]

-- What is left where the aggregates are refused.
left_behind :
    (manifest : DeploymentManifest) (live : OutpointSet) (ix ix' : Indexer) (e : Error)
    → rebuild_from_manifest manifest live ix ≡ (err e, ix')
    → e ≢ Error.duplicate_in_manifest
    → Sorted ix'.snapshot.entities × ((recalculate ix'.snapshot).0 ≡ err e) × (ix'.journal ≡ [])
unfolding rebuild_from_manifest
left_behind manifest live ix ix' e h other =
    elim (Result-cases (live_entities live manifest.tracked [])) [
      | inr (x, q) ↦
          absurd (other (live_entities_refusal live manifest.tracked [] e (ground arith)))
      | inl (m, q) ↦
          let s : Snapshot = record ix.snapshot { entities = m } in
          let made : recalculate s ≡ (err e, ix'.snapshot) = ground arith in
          let same : ix'.snapshot.entities ≡ m =
            ap (λ (o : Outcome). o.1.entities) (sym made) ∙ recalculate-entities s in
          (
            subst Sorted (sym same) (live_entities-Sorted live manifest.tracked [] m tt q),
            recalculate_result s ix'.snapshot same ∙ ap (λ (o : Outcome). o.0) made,
            ground arith,
          )
    ]

rollback_refused :
    (txid : Text) (a : AppliedTransaction) (s' : Snapshot) (ix : Indexer) (e : Error)
    → a.transaction_id ≡ txid
    → (recalculate (restored a s')).0 ≡ err e
    → (let c : Call (Unit {0}) =
          rollback_tip txid (record ix { snapshot = s'; journal = a ∷ ix.journal }) in
        (c.0 ≡ err e) × (c.1.journal ≡ ix.journal))
unfolding rollback_tip
rollback_refused txid a s' ix e p h =
    (ground (arith, text_eq_refl txid), ground (arith, text_eq_refl txid))

-- A rebuild from the tracked contracts that is refused, but not for a duplicate, leaves a snapshot whose
-- aggregates are refused for the reason that was reported. Where `apply` succeeds on top of it, the snapshot has
-- aggregates again, but that transaction can not be rolled back: `rollback_tip` of it reports the reason of the
-- rebuild once more, and has taken the entry off the journal, which is empty after.
pub refused_rebuild_blocks_rollback :
    (manifest : DeploymentManifest) (live : OutpointSet) (ix ix' ix'' : Indexer) (e : Error)
    (txid : Text) (consumed : List Outpoint) (created : List (Outpoint × Entity))
    → rebuild_from_manifest manifest live ix ≡ (err e, ix')
    → e ≢ Error.duplicate_in_manifest
    → apply txid consumed created ix' ≡ (ok tt, ix'')
    → ((recalculate ix'.snapshot).0 ≡ err e)
      × ((recalculate ix''.snapshot).0 ≡ ok tt)
      × ((rollback_tip txid ix'').0 ≡ err e)
      × ((rollback_tip txid ix'').1.journal ≡ [])
refused_rebuild_blocks_rollback manifest live ix ix' ix'' e txid consumed created h other done =
    let (sorted, refused, nothing) = left_behind manifest live ix ix' e h other in
    let (a, s', st, last) = apply-ok txid consumed created ix' ix'' done in
    let same = restored-entities txid consumed created ix'.snapshot a s' sorted st in
    let again : (recalculate (restored a s')).0 ≡ err e =
      recalculate_result ix'.snapshot (restored a s') same ∙ refused in
    let id : a.transaction_id ≡ txid = ap (λ (b : AppliedTransaction). b.transaction_id) st.entry in
    let (result, left) = rollback_refused txid a s' ix' e id again in
    let kept = entities_after txid consumed created ix'.snapshot a s' st in
    let mended : (recalculate s').0 ≡ ok tt =
      recalculate_result (record ix'.snapshot { entities = st.after }) s' kept
      ∙ ap (λ (o : Outcome). o.0) st.recalculates in
    subst
      (λ (x : Indexer).
        ((recalculate ix'.snapshot).0 ≡ err e)
        × ((recalculate x.snapshot).0 ≡ ok tt)
        × ((rollback_tip txid x).0 ≡ err e)
        × ((rollback_tip txid x).1.journal ≡ []))
      (sym last) (refused, mended, result, left ∙ nothing)
