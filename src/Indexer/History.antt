-- ===== src/Indexer/History.antt =====
-- The replay of a history in src/indexer.rs: it goes through reachable states and ends where the
-- indexed outpoints are the tracked ones that are live.
use mathlib.Core.List.{Memᴰ}
use kusd.Base.{
  ◌≡◌, refl, sym, ap, ◌∙◌, subst, ◌⊎◌, ◌↔◌, inl, inr, true, some, Option-cases, List, [], ◌∷◌,
  Result-cases, ok, arith,
}
use kusd.OrderedMap.{get, insert}
use kusd.OrderedMap.Reads.{get-insert_split, get-insert_self, get-insert-some}
use kusd.Indexer.Data.{Outpoint, outpoint_order, cmp_outpoint_eq, Entities, Indexer}
use kusd.Indexer.Recalculate.{is_some}
use kusd.Indexer.Ledger.{apply, empty_indexer}
use kusd.Indexer.Manifest.{TrackedEntity, ManifestTransaction, DeploymentManifest, outputs}
use kusd.Indexer.Shapes.{validate_governance_action}
use kusd.Indexer.Live.{OutpointSet}
use kusd.Indexer.Rebuild.{
  replay, expected_set, indexed_set, same_set, rebuild_history_from_manifest,
}
use kusd.Indexer.Consistency.{IsConsistent}
use kusd.Indexer.Reachable.{Reachable, Reachable-IsConsistent}

-- A tracked contract stands at the outpoint.
pub record Listed (ts : List TrackedEntity) (o : Outpoint) : Type 0 where
  pub contract : TrackedEntity
  pub listed : Memᴰ contract ts
  pub at : contract.outpoint ≡ o

Listed-tail :
    {t : TrackedEntity} {ts : List TrackedEntity} {o : Outpoint} → Listed ts o → Listed (t ∷ ts) o
Listed-tail k = record { contract = k.contract; listed = Memᴰ.tail k.listed; at = k.at }

module _ (live : OutpointSet) where
  expected_set_sound :
      (ts : List TrackedEntity) (s : OutpointSet) (o : Outpoint)
      → get o (expected_set live ts s) ≡ some tt
      → ((get o live ≡ some tt) × Listed ts o) ⊎ (get o s ≡ some tt)
  unfolding expected_set
  expected_set_sound [] s o h = inr h
  expected_set_sound (t ∷ ts) s o h = elim (Option-cases (get t.outpoint live)) [
    | inl q ↦ elim (expected_set_sound ts s o (simp q at h)) [
      | inl (there, k) ↦ inl (there, Listed-tail k)
      | inr old ↦ inr old
    ]
    | inr (u, q) ↦ elim (expected_set_sound ts (insert t.outpoint tt s) o (simp q at h)) [
      | inl (there, k) ↦ inl (there, Listed-tail k)
      | inr here ↦ elim (get-insert_split o t.outpoint tt tt s here) [
        | inl (at, _) ↦ inl (rw at q, record { contract = t; listed = Memᴰ.head refl; at = sym at })
        | inr old ↦ inr old
      ]
    ]
  ]

  expected_set_keeps :
      (ts : List TrackedEntity) (s : OutpointSet) (o : Outpoint)
      → get o s ≡ some tt
      → get o (expected_set live ts s) ≡ some tt
  unfolding expected_set
  expected_set_keeps [] s o h = h
  expected_set_keeps (t ∷ ts) s o h = elim (Option-cases (get t.outpoint live)) [
    | inl q ↦ simp q (expected_set_keeps ts s o h)
    | inr (u, q) ↦ simp q (
        expected_set_keeps ts (insert t.outpoint tt s) o (get-insert-some o t.outpoint tt tt s h).1)
  ]

  expected_set_complete :
      (ts : List TrackedEntity) (s : OutpointSet) (c : TrackedEntity)
      → get c.outpoint live ≡ some tt
      → Memᴰ c ts
      → get c.outpoint (expected_set live ts s) ≡ some tt
  unfolding expected_set
  expected_set_complete [] s c there mem = elim mem [ ]
  expected_set_complete (t ∷ ts) s c there (Memᴰ.tail mem) =
      elim (Option-cases (get t.outpoint live)) [
        | inl q ↦ simp q (expected_set_complete ts s c there mem)
        | inr (u, q) ↦ simp q (expected_set_complete ts (insert t.outpoint tt s) c there mem)
      ]
  expected_set_complete (t ∷ ts) s c there (Memᴰ.head e) =
      let at : c.outpoint ≡ t.outpoint = ap (λ (x : TrackedEntity). x.outpoint) e in
      let q : get t.outpoint live ≡ some tt = rw (← at) there in
      simp q (
        expected_set_keeps ts (insert t.outpoint tt s) c.outpoint
          (rw at (get-insert_self t.outpoint tt s)))

indexed_set-get :
    (m : Entities) (o : Outpoint) → is_some (get o (indexed_set m)) ≡ is_some (get o m)
unfolding indexed_set get
indexed_set-get [] o = refl
indexed_set-get ((p, e) ∷ m) o = ground (arith, indexed_set-get m o)

same_set-eq : (s t : OutpointSet) → same_set s t ≡ true → s ≡ t
unfolding same_set
same_set-eq [] [] h = refl
same_set-eq [] (_ ∷ _) h = ground arith
same_set-eq (_ ∷ _) [] h = ground arith
same_set-eq ((o, u) ∷ s) ((p, v) ∷ t) h = ground (arith, same_set-eq s t, cmp_outpoint_eq o p)

pub replay-Reachable :
    (txs : List ManifestTransaction) (ix : Indexer) → Reachable ix → Reachable (replay txs ix).1
unfolding replay
replay-Reachable [] ix r = r
replay-Reachable (tx ∷ txs) ix r =
    let call = apply tx.transaction_id tx.consumed (outputs tx.created) ix in
    let reached = Reachable.applied r tx.transaction_id tx.consumed (outputs tx.created) in
    elim (Result-cases (validate_governance_action tx ix.snapshot)) [
      | inr (x, q) ↦
          let e : (replay (tx ∷ txs) ix).1 ≡ ix = ground arith in subst Reachable (sym e) r
      | inl (u, q) ↦ elim (Result-cases call.0) [
        | inr (x, k) ↦
            let e : (replay (tx ∷ txs) ix).1 ≡ call.1 = ground arith in
            subst Reachable (sym e) reached
        | inl (v, k) ↦
            let e : (replay (tx ∷ txs) ix).1 ≡ (replay txs call.1).1 = ground arith in
            subst Reachable (sym e) (replay-Reachable txs call.1 reached)
      ]
    ]

replayed :
    (manifest : DeploymentManifest) (live : OutpointSet) (ix ix' : Indexer)
    (tx : ManifestTransaction) (txs : List ManifestTransaction)
    → manifest.history ≡ tx ∷ txs
    → rebuild_history_from_manifest manifest live ix ≡ (ok tt, ix')
    → ((replay manifest.history empty_indexer).1 ≡ ix')
      × (same_set (indexed_set ix'.snapshot.entities) (expected_set live manifest.tracked [])
          ≡ true)
unfolding rebuild_history_from_manifest
replayed manifest live ix ix' tx txs e h =
    elim (Result-cases (replay manifest.history empty_indexer).0) [
      | inr (x, q) ↦ absurd (ground arith)
      | inl (u, q) ↦ ground arith
    ]

nothing : (o : Outpoint) → get {V = Unit {0}} o [] ≡ some tt → ⊥
unfolding get
nothing o h = ground arith

-- A rebuild from a history that is not empty, where it succeeds, ends in a reachable indexer with a
-- consistent snapshot, and an outpoint is indexed exactly when it is live and a tracked contract stands there.
pub rebuild_history_matches :
    (manifest : DeploymentManifest) (live : OutpointSet) (ix ix' : Indexer)
    (tx : ManifestTransaction) (txs : List ManifestTransaction) (o : Outpoint)
    → manifest.history ≡ tx ∷ txs
    → rebuild_history_from_manifest manifest live ix ≡ (ok tt, ix')
    → Reachable ix'
      × IsConsistent ix'.snapshot
      × ((is_some (get o ix'.snapshot.entities) ≡ true)
          ↔ ((get o live ≡ some tt) × Listed manifest.tracked o))
rebuild_history_matches manifest live ix ix' tx txs o e h =
    let (last, sets) = replayed manifest live ix ix' tx txs e h in
    let r : Reachable ix' =
      subst Reachable last (replay-Reachable manifest.history empty_indexer Reachable.new) in
    let same : is_some (get o (expected_set live manifest.tracked []))
        ≡ is_some (get o ix'.snapshot.entities) =
      ap (λ s. is_some (get o s)) (sym (same_set-eq _ _ sets))
      ∙ indexed_set-get ix'.snapshot.entities o in
    (
      r,
      Reachable-IsConsistent ix' r,
      (
        λ found.
            elim (expected_set_sound live manifest.tracked [] o (ground (arith, found, same))) [
              | inl k ↦ k
              | inr none_there ↦ absurd (nothing o none_there)
            ],
        λ k.
            sym same
            ∙ ap is_some (
                subst (λ p. get p (expected_set live manifest.tracked []) ≡ some tt) k.1.at
                  (expected_set_complete live manifest.tracked [] k.1.contract (rw k.1.at k.0)
                    k.1.listed)),
      ),
    )
