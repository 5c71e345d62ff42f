-- ===== src/Indexer/Rebuilt.antt =====
-- What the two rebuilds of src/indexer.rs leave: the tracked outpoints that are live, and aggregates
-- that their entities have.
use mathlib.Core.List.{Memᴰ}
use kusd.Base.{
  ◌≡◌, refl, sym, ap, ◌∙◌, subst, ◌⊎◌, ◌↔◌, inl, inr, none, some, Option-cases, List, [], ◌∷◌,
  Result-cases, ok, arith,
}
use kusd.OrderedMap.{get, insert}
use kusd.OrderedMap.Laws.{Sorted, insert-Sorted}
use kusd.OrderedMap.Reads.{get-insert_split, get-insert_self, get-insert_new}
use kusd.Indexer.Data.{Outpoint, outpoint_order, Entity, Entities, Indexer}
use kusd.Indexer.Recalculate.{recalculate, Outcome}
use kusd.Indexer.Manifest.{TrackedEntity, DeploymentManifest}
use kusd.Indexer.Live.{OutpointSet}
use kusd.Indexer.Rebuild.{live_entities, rebuild_from_manifest}
use kusd.Indexer.Consistency.{IsConsistent, recalculate-IsConsistent, recalculate-entities}

-- A tracked contract stands at the outpoint.
pub record Tracked (ts : List TrackedEntity) (o : Outpoint) (e : Entity) : Type 0 where
  pub contract : TrackedEntity
  pub listed : Memᴰ contract ts
  pub at : contract.outpoint ≡ o
  pub holds : contract.entity ≡ e

Tracked-tail :
    {t : TrackedEntity} {ts : List TrackedEntity} {o : Outpoint} {e : Entity}
    → Tracked ts o e
    → Tracked (t ∷ ts) o e
Tracked-tail k = record {
  contract = k.contract;
  listed = Memᴰ.tail k.listed;
  at = k.at;
  holds = k.holds;
}

module _ (live : OutpointSet) where
  -- One round of the loop.
  live_entities-cons :
      (t : TrackedEntity) (ts : List TrackedEntity) (m m' : Entities)
      → live_entities live (t ∷ ts) m ≡ ok m'
      → ((get t.outpoint live ≡ none) × (live_entities live ts m ≡ ok m'))
        ⊎ ((get t.outpoint live ≡ some tt)
            × (get t.outpoint m ≡ none)
            × (live_entities live ts (insert t.outpoint t.entity m) ≡ ok m'))
  unfolding live_entities
  live_entities-cons t ts m m' h = elim (Option-cases (get t.outpoint live)) [
    | inl q ↦ inl (ground arith)
    | inr (u, q) ↦ inr (ground arith)
  ]

  live_entities-nil : (m m' : Entities) → live_entities live [] m ≡ ok m' → m' ≡ m
  unfolding live_entities
  live_entities-nil m m' h = ground arith

  pub live_entities-Sorted :
      (ts : List TrackedEntity) (m m' : Entities)
      → Sorted m
      → live_entities live ts m ≡ ok m'
      → Sorted m'
  live_entities-Sorted [] m m' s h = rw (live_entities-nil m m' h) s
  live_entities-Sorted (t ∷ ts) m m' s h = elim (live_entities-cons t ts m m' h) [
    | inl (_, k) ↦ live_entities-Sorted ts m m' s k
    | inr (_, _, k) ↦
        live_entities-Sorted ts (insert t.outpoint t.entity m) m'
          (insert-Sorted t.outpoint t.entity m s) k
  ]

  live_entities_sound :
      (ts : List TrackedEntity) (m m' : Entities) (o : Outpoint) (e : Entity)
      → live_entities live ts m ≡ ok m'
      → get o m' ≡ some e
      → ((get o live ≡ some tt) × Tracked ts o e) ⊎ (get o m ≡ some e)
  live_entities_sound [] m m' o e h found = inr (rw (← live_entities-nil m m' h) found)
  live_entities_sound (t ∷ ts) m m' o e h found = elim (live_entities-cons t ts m m' h) [
    | inl (_, k) ↦ elim (live_entities_sound ts m m' o e k found) [
      | inl (there, tracked) ↦ inl (there, Tracked-tail tracked)
      | inr old ↦ inr old
    ]
    | inr (there, new, k) ↦
        elim (live_entities_sound ts (insert t.outpoint t.entity m) m' o e k found) [
          | inl (there', tracked) ↦ inl (there', Tracked-tail tracked)
          | inr here ↦ elim (get-insert_split o t.outpoint e t.entity m here) [
            | inl (at, holds) ↦ inl (
              rw at there,
              record { contract = t; listed = Memᴰ.head refl; at = sym at; holds = sym holds },
            )
            | inr old ↦ inr old
          ]
        ]
  ]

  live_entities_keeps :
      (ts : List TrackedEntity) (m m' : Entities) (o : Outpoint) (e : Entity)
      → live_entities live ts m ≡ ok m'
      → get o m ≡ some e
      → get o m' ≡ some e
  live_entities_keeps [] m m' o e h found = rw (live_entities-nil m m' h) found
  live_entities_keeps (t ∷ ts) m m' o e h found = elim (live_entities-cons t ts m m' h) [
    | inl (_, k) ↦ live_entities_keeps ts m m' o e k found
    | inr (_, new, k) ↦
        live_entities_keeps ts (insert t.outpoint t.entity m) m' o e k
          (get-insert_new o t.outpoint e t.entity m new found)
  ]

  live_entities_complete :
      (ts : List TrackedEntity) (m m' : Entities) (c : TrackedEntity)
      → live_entities live ts m ≡ ok m'
      → get c.outpoint live ≡ some tt
      → Memᴰ c ts
      → get c.outpoint m' ≡ some c.entity
  live_entities_complete [] m m' c h there mem = elim mem [ ]
  live_entities_complete (t ∷ ts) m m' c h there (Memᴰ.tail mem) =
      elim (live_entities-cons t ts m m' h) [
        | inl (_, k) ↦ live_entities_complete ts m m' c k there mem
        | inr (_, _, k) ↦ live_entities_complete ts (insert t.outpoint t.entity m) m' c k there mem
      ]
  live_entities_complete (t ∷ ts) m m' c h there (Memᴰ.head e) =
      elim (live_entities-cons t ts m m' h) [
        | inl (nowhere, k) ↦
            absurd
              (ground (arith, ap (λ (x : TrackedEntity). get x.outpoint live) e, nowhere, there))
        | inr (_, _, k) ↦
            live_entities_keeps ts (insert t.outpoint t.entity m) m' c.outpoint c.entity k (
              subst
                (λ (x : TrackedEntity).
                  get x.outpoint (insert t.outpoint t.entity m) ≡ some x.entity)
                (sym e) (get-insert_self t.outpoint t.entity m))
      ]

rebuilt :
    (manifest : DeploymentManifest) (live : OutpointSet) (ix ix' : Indexer)
    → rebuild_from_manifest manifest live ix ≡ (ok tt, ix')
    → (m : Entities) × (live_entities live manifest.tracked [] ≡ ok m)
      × (recalculate (record ix.snapshot { entities = m }) ≡ (ok tt, ix'.snapshot))
      × (ix'.journal ≡ [])
      × (ix'.blocks ≡ [])
unfolding rebuild_from_manifest
rebuilt manifest live ix ix' h = elim (Result-cases (live_entities live manifest.tracked [])) [
  | inr (x, q) ↦ absurd (ground arith)
  | inl (m, q) ↦ (m, q, ground arith, ground arith, ground arith)
]

nothing : (o : Outpoint) {e : Entity} → get o [] ≡ some e → ⊥
unfolding get
nothing o h = ground arith

-- A rebuild from the tracked contracts that succeeds forgets the journal and the blocks, leaves a
-- consistent snapshot, and an outpoint holds an entity exactly when it is live and a tracked
-- contract with that entity stands there.
pub rebuild_tracks :
    (manifest : DeploymentManifest) (live : OutpointSet) (ix ix' : Indexer) (o : Outpoint)
    (e : Entity)
    → rebuild_from_manifest manifest live ix ≡ (ok tt, ix')
    → IsConsistent ix'.snapshot
      × (ix'.journal ≡ [])
      × (ix'.blocks ≡ [])
      × ((get o ix'.snapshot.entities ≡ some e)
          ↔ ((get o live ≡ some tt) × Tracked manifest.tracked o e))
rebuild_tracks manifest live ix ix' o e h =
    let (m, q, r, j, b) = rebuilt manifest live ix ix' h in
    let same : ix'.snapshot.entities ≡ m =
      ap (λ (c : Outcome). c.1.entities) (sym r)
      ∙ recalculate-entities (record ix.snapshot { entities = m }) in
    let sorted = live_entities-Sorted live manifest.tracked [] m tt q in
    (
      recalculate-IsConsistent (record ix.snapshot { entities = m }) ix'.snapshot sorted r,
      j,
      b,
      (
        λ found. elim (live_entities_sound live manifest.tracked [] m o e q (rw same at found)) [
          | inl k ↦ k
          | inr none_there ↦ absurd (nothing o none_there)
        ],
        λ k. rw same (
            subst (λ p. get p m ≡ some e) k.1.at
              (live_entities_complete live manifest.tracked [] m k.1.contract q (rw k.1.at k.0)
                  k.1.listed
                ∙ ap some k.1.holds)),
      ),
    )
