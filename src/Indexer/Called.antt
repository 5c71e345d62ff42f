-- ===== src/Indexer/Called.antt =====
-- Every state that the methods of src/indexer.rs on `&mut self` lead to from the default indexer, in any
-- interleaving: the four of Reachable and the two rebuilds.
use kusd.Base.{
  ℕ, ◌≡◌, refl, sym, ap, ◌∙◌, subst, ◌⊎◌, inl, inr, List, [], ◌∷◌, Result-cases, ok, arith,
}
use kusd.Order.{Text}
use kusd.Indexer.Data.{Outpoint, outpoint_order, Entity, Snapshot, AppliedTransaction, Indexer}
use kusd.Indexer.Recalculate.{recalculate}
use kusd.Indexer.Ledger.{Call, apply, rollback_tip, empty_indexer}
use kusd.Indexer.BlockLedger.{BlockTransaction, apply_block, rollback_block}
use kusd.Indexer.Manifest.{ManifestTransaction, DeploymentManifest}
use kusd.Indexer.Live.{OutpointSet}
use kusd.Indexer.Rebuild.{
  live_entities, replay, rebuild_from_manifest, rebuild_history_from_manifest,
}
use kusd.Indexer.Consistency.{IsConsistent, recalculate-IsConsistent}
use kusd.Indexer.Rebuilt.{live_entities-Sorted}
use kusd.Indexer.Reachable.{
  Undoes, Good, Undoes-IsConsistent, empty-Undoes, apply-Good, rollback_tip-Good, apply_block-Good,
  rollback_block-Good, undo_last, Reachable, Reachable-Good,
}
use kusd.Indexer.History.{replay-Reachable}

-- A rebuild from the tracked contracts succeeds, or leaves the indexer as it was.
abbrev pub Settles : DeploymentManifest → OutpointSet → Indexer → Type 0
Settles manifest live ix =
    ((rebuild_from_manifest manifest live ix).0 ≡ ok tt)
    ⊎ ((rebuild_from_manifest manifest live ix).1 ≡ ix)

-- The calls, whatever they return; of the rebuilds from the tracked contracts, those that settle. A
-- rebuild from a history may be refused at any transaction.
pub data Called : Indexer → Type 0 where
  new : Called empty_indexer
  applied :
      {ix : Indexer}
      → Called ix
      → (txid : Text) (consumed : List Outpoint) (created : List (Outpoint × Entity))
      → Called (apply txid consumed created ix).1
  rolled_back : {ix : Indexer} → Called ix → (txid : Text) → Called (rollback_tip txid ix).1
  block_applied :
      {ix : Indexer}
      → Called ix
      → (hash parent : Text) (daa_score : ℕ) (txs : List BlockTransaction)
      → Called (apply_block hash parent daa_score txs ix).1
  block_rolled_back : {ix : Indexer} → Called ix → (hash : Text) → Called (rollback_block hash ix).1
  rebuilt :
      {ix : Indexer}
      → Called ix
      → (manifest : DeploymentManifest) (live : OutpointSet) → Settles manifest live ix
      → Called (rebuild_from_manifest manifest live ix).1
  history_rebuilt :
      {ix : Indexer}
      → Called ix
      → (manifest : DeploymentManifest) (live : OutpointSet)
      → (manifest.history ≡ [] → Settles manifest live ix)
      → Called (rebuild_history_from_manifest manifest live ix).1

recalculated-Good :
    (manifest : DeploymentManifest) (live : OutpointSet) (ix : Indexer)
    → (rebuild_from_manifest manifest live ix).0 ≡ ok tt
    → Good (rebuild_from_manifest manifest live ix).1
unfolding rebuild_from_manifest
recalculated-Good manifest live ix h =
    elim (Result-cases (live_entities live manifest.tracked [])) [
      | inr (x, q) ↦ absurd (ground arith)
      | inl (m, q) ↦
          let s : Snapshot = record ix.snapshot { entities = m } in
          let last = (recalculate s).1 in
          let made : recalculate s ≡ (ok tt, last) = ground arith in
          let e : (rebuild_from_manifest manifest live ix).1
              ≡ record { snapshot = last; journal = []; blocks = [] } =
            ground arith in
          let sorted = live_entities-Sorted live manifest.tracked [] m tt q in
          subst Good (sym e) (Undoes.start (recalculate-IsConsistent s last sorted made))
    ]

rebuild-Good :
    (manifest : DeploymentManifest) (live : OutpointSet) (ix : Indexer)
    → Good ix
    → Settles manifest live ix
    → Good (rebuild_from_manifest manifest live ix).1
rebuild-Good manifest live ix g (inl done) = recalculated-Good manifest live ix done
rebuild-Good manifest live ix g (inr same) = subst Good (sym same) g

-- A rebuild from a history that is not empty forgets the indexer, and ends where the replay does.
replayed-to :
    (manifest : DeploymentManifest) (live : OutpointSet) (ix : Indexer) (tx : ManifestTransaction)
    (txs : List ManifestTransaction)
    → manifest.history ≡ tx ∷ txs
    → (rebuild_history_from_manifest manifest live ix).1 ≡ (replay manifest.history empty_indexer).1
unfolding rebuild_history_from_manifest
replayed-to manifest live ix tx txs e =
    elim (Result-cases (replay manifest.history empty_indexer).0) [
      | inr (x, q) ↦ ground arith
      | inl (u, q) ↦ ground arith
    ]

not_replayed :
    (manifest : DeploymentManifest) (live : OutpointSet) (ix : Indexer)
    → manifest.history ≡ []
    → rebuild_history_from_manifest manifest live ix ≡ rebuild_from_manifest manifest live ix
unfolding rebuild_history_from_manifest
not_replayed manifest live ix e = ground arith

rebuild_history-Good :
    (manifest : DeploymentManifest) (live : OutpointSet) (ix : Indexer)
    (history : List ManifestTransaction)
    → manifest.history ≡ history
    → Good ix
    → (history ≡ [] → Settles manifest live ix)
    → Good (rebuild_history_from_manifest manifest live ix).1
rebuild_history-Good manifest live ix [] e g settles =
    subst (λ (c : Call (Unit {0})). Good c.1) (sym (not_replayed manifest live ix e))
      (rebuild-Good manifest live ix g (settles refl))
rebuild_history-Good manifest live ix (tx ∷ txs) e g settles =
    subst Good (sym (replayed-to manifest live ix tx txs e))
      (Reachable-Good (replay-Reachable manifest.history empty_indexer Reachable.new))

pub Called-Good : {ix : Indexer} → Called ix → Good ix
Called-Good new = empty-Undoes
Called-Good (applied {ix = ix} r txid consumed created) =
    apply-Good txid consumed created ix (Called-Good r)
Called-Good (rolled_back {ix = ix} r txid) = rollback_tip-Good txid ix (Called-Good r)
Called-Good (block_applied {ix = ix} r hash parent daa_score txs) =
    apply_block-Good hash parent daa_score txs ix (Called-Good r)
Called-Good (block_rolled_back {ix = ix} r hash) =
    rollback_block-Good hash ix.snapshot ix.journal ix.blocks (Called-Good r)
Called-Good (rebuilt {ix = ix} r manifest live settles) =
    rebuild-Good manifest live ix (Called-Good r) settles
Called-Good (history_rebuilt {ix = ix} r manifest live settles) =
    rebuild_history-Good manifest live ix manifest.history refl (Called-Good r) settles

-- After any calls from the default indexer, refused ones included, but for a rebuild from the tracked
-- contracts that is refused and changes the indexer all the same, the snapshot has its entities in order and the
-- aggregates that they have.
pub Called-IsConsistent : (ix : Indexer) → Called ix → IsConsistent ix.snapshot
Called-IsConsistent ix r = Undoes-IsConsistent (Called-Good r)

-- After any calls from the default indexer, refused ones included, but for a rebuild from the tracked
-- contracts that is refused and changes the indexer all the same, rolling back the last transaction of the
-- journal succeeds: the entry is gone, the blocks stay, and the snapshot is consistent again.
pub Called-rollback :
    (ix : Indexer) (a : AppliedTransaction) (rest : List AppliedTransaction)
    → Called ix
    → ix.journal ≡ a ∷ rest
    → (s' : Snapshot) × IsConsistent s'
      × (rollback_tip a.transaction_id ix
          ≡ (ok tt, record { snapshot = s'; journal = rest; blocks = ix.blocks }))
Called-rollback ix a rest r e =
    let g : Undoes ix.snapshot (a ∷ rest) = subst (Undoes ix.snapshot) e (Called-Good r) in
    let (s', c, h) = undo_last ix.snapshot a rest ix.blocks g in
    let same : ix ≡ record { snapshot = ix.snapshot; journal = a ∷ rest; blocks = ix.blocks } =
      ap (λ j. record ix { journal = j }) e in
    (s', c, ap (rollback_tip a.transaction_id) same ∙ h)
