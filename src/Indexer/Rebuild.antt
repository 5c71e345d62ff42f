-- ===== src/Indexer/Rebuild.antt =====
-- `rebuild_from_manifest` and `rebuild_history_from_manifest` of src/indexer.rs: an indexer from the
-- manifest and the live outpoints.
use kusd.Base.{
  Bool, true, false, not, List, [], ◌∷◌, Result, ok, err, ◌>>◌, reject_if, if◌then◌else◌, Ordering,
}
use kusd.OrderedMap.{get, insert}
use kusd.Indexer.Data.{Outpoint, outpoint_order, cmp_outpoint, Entities, Indexer}
use kusd.Indexer.Error.{Error}
use kusd.Indexer.Recalculate.{is_some, recalculate}
use kusd.Indexer.Ledger.{Call, empty_indexer, apply}
use kusd.Indexer.Manifest.{TrackedEntity, ManifestTransaction, DeploymentManifest, outputs}
use kusd.Indexer.Shapes.{validate_governance_action}
use kusd.Indexer.Live.{OutpointSet, contains}

-- The loop of `rebuild_from_manifest`.
unfoldable pub live_entities : OutpointSet → List TrackedEntity → Entities → Result Error Entities
live_entities live [] m = ok m
live_entities live (t ∷ ts) m =
    let rest = live_entities live ts in
    if contains t.outpoint live
    then reject_if (is_some (get t.outpoint m)) Error.duplicate_in_manifest
      >> rest (insert t.outpoint t.entity m)
    else rest m

-- A duplicate is found before anything of the indexer has changed.
unfoldable pub rebuild_from_manifest : DeploymentManifest → OutpointSet → Indexer → Call (Unit {0})
rebuild_from_manifest manifest live ix = elim (live_entities live manifest.tracked []) [
  | err e ↦ (err e, ix)
  | ok entities ↦
      let (r, s) = recalculate (record ix.snapshot { entities = entities }) in
      (r, record { snapshot = s; journal = []; blocks = [] })
]

-- The loop of `rebuild_history_from_manifest`.
unfoldable pub replay : List ManifestTransaction → Indexer → Call (Unit {0})
replay [] ix = (ok tt, ix)
replay (tx ∷ txs) ix = elim (validate_governance_action tx ix.snapshot) [
  | err e ↦ (err e, ix)
  | ok _ ↦
      let (r, next) = apply tx.transaction_id tx.consumed (outputs tx.created) ix in
      elim r [ ok _ ↦ replay txs next | err e ↦ (err e, next) ]
]

-- `expected`: the tracked outpoints that are live.
unfoldable pub expected_set : OutpointSet → List TrackedEntity → OutpointSet → OutpointSet
expected_set live [] s = s
expected_set live (t ∷ ts) s =
    let rest = expected_set live ts in
    if contains t.outpoint live then rest (insert t.outpoint tt s) else rest s

-- `indexed`: the keys of the entities, which are in order.
unfoldable pub indexed_set : Entities → OutpointSet
indexed_set [] = []
indexed_set ((o, e) ∷ m) = (o, tt) ∷ indexed_set m

-- `==` on sets.
unfoldable pub same_set : OutpointSet → OutpointSet → Bool
same_set [] [] = true
same_set [] (_ ∷ _) = false
same_set (_ ∷ _) [] = false
same_set ((o, _) ∷ s) ((p, _) ∷ t) = elim (cmp_outpoint o p) [
  | Ordering.eq ↦ same_set s t
  | _ ↦ false
]

-- `difference`
unfoldable pub difference : OutpointSet → OutpointSet → List Outpoint
difference [] t = []
difference ((o, _) ∷ s) t = if contains o t then difference s t else o ∷ difference s t

abbrev pub compare_sets : OutpointSet → OutpointSet → Result Error (Unit {0})
compare_sets indexed expected =
    reject_if (not (same_set indexed expected))
      (Error.history_mismatch (difference expected indexed) (difference indexed expected))

-- An empty history leaves the tracked entities; another one is replayed from the default indexer.
unfoldable pub rebuild_history_from_manifest :
    DeploymentManifest → OutpointSet → Indexer → Call (Unit {0})
rebuild_history_from_manifest manifest live ix = elim manifest.history [
  | [] ↦ rebuild_from_manifest manifest live ix
  | _ ∷ _ ↦
      let (r, last) = replay manifest.history empty_indexer in
      elim r [
        | err e ↦ (err e, last)
        | ok _ ↦ (
          compare_sets (indexed_set last.snapshot.entities) (expected_set live manifest.tracked []),
          last,
        )
      ]
]
