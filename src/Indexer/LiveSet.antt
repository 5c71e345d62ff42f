-- ===== src/Indexer/LiveSet.antt =====
-- What src/indexer.rs takes for live: the tracked outpoints that the node reports with the tracked
-- address and covenant.
use mathlib.Core.List.{Memᴰ}
use kusd.Base.{
  ◌≡◌, refl, sym, ap, ◌∙◌, subst, ◌⊎◌, inl, inr, none, some, Option-cases, List, [], ◌∷◌,
  Result-cases, ok, arith,
}
use kusd.Order.{text_eq→eq}
use kusd.OrderedMap.{OrderedMap, get, insert}
use kusd.OrderedMap.Reads.{get-insert_split, get-insert_self, get-insert-some}
use kusd.Indexer.Data.{Outpoint, outpoint_order}
use kusd.Indexer.Manifest.{TrackedEntity, LiveUtxo, DeploymentManifest}
use kusd.Indexer.Live.{OutpointSet, collect_tracked, check_entry, scan_live, validate_live_utxos}

-- A reported UTXO and a tracked contract that agree on the outpoint, the address and the covenant.
pub record Proves (entry : LiveUtxo) (t : TrackedEntity) (o : Outpoint) : Type 0 where
  pub reported : entry.outpoint ≡ o
  pub tracked : t.outpoint ≡ o
  pub address : entry.address ≡ t.address
  pub covenant : entry.covenant_id ≡ some t.covenant_id

nothing : {V : Type 0} (o : Outpoint) {v : V} → get {V = V} o [] ≡ some v → ⊥
unfolding get
nothing o h = ground arith

collect_tracked_sound :
    (ts : List TrackedEntity) (o : Outpoint) (t : TrackedEntity)
    (m : OrderedMap Outpoint TrackedEntity)
    → get o (collect_tracked ts m) ≡ some t
    → (Memᴰ t ts × (t.outpoint ≡ o)) ⊎ (get o m ≡ some t)
unfolding collect_tracked
collect_tracked_sound [] o t m h = inr h
collect_tracked_sound (u ∷ ts) o t m h =
    elim (collect_tracked_sound ts o t (insert u.outpoint u m) h) [
      | inl (mem, e) ↦ inl (Memᴰ.tail mem, e)
      | inr found ↦ elim (get-insert_split o u.outpoint t u m found) [
        | inl (e, k) ↦ inl (Memᴰ.head k, ap (λ (x : TrackedEntity). x.outpoint) k ∙ sym e)
        | inr old ↦ inr old
      ]
    ]

collect_tracked_keeps :
    (ts : List TrackedEntity) (o : Outpoint) (t : TrackedEntity)
    (m : OrderedMap Outpoint TrackedEntity)
    → get o m ≡ some t
    → (u : TrackedEntity) × (get o (collect_tracked ts m) ≡ some u)
unfolding collect_tracked
collect_tracked_keeps [] o t m h = (t, h)
collect_tracked_keeps (u ∷ ts) o t m h =
    let (v, k) = get-insert-some o u.outpoint t u m h in
    collect_tracked_keeps ts o v (insert u.outpoint u m) k

collect_tracked_complete :
    (ts : List TrackedEntity) (t : TrackedEntity) (m : OrderedMap Outpoint TrackedEntity)
    → Memᴰ t ts
    → (u : TrackedEntity) × (get t.outpoint (collect_tracked ts m) ≡ some u)
unfolding collect_tracked
collect_tracked_complete [] t m mem = elim mem [ ]
collect_tracked_complete (u ∷ ts) t m (Memᴰ.head e) =
    collect_tracked_keeps ts t.outpoint t (insert u.outpoint u m) (
      subst (λ (x : TrackedEntity). get x.outpoint (insert u.outpoint u m) ≡ some x) (sym e)
        (get-insert_self u.outpoint u m))
collect_tracked_complete (u ∷ ts) t m (Memᴰ.tail mem) =
    collect_tracked_complete ts t (insert u.outpoint u m) mem

-- One round: the outpoint is not tracked, or it was checked and is in the set.
data Checked (tracked : OrderedMap Outpoint TrackedEntity) (entry : LiveUtxo)
    (live next : OutpointSet) : Type 0 where
  unrelated : get entry.outpoint tracked ≡ none → next ≡ live → Checked tracked entry live next
  proved :
      (t : TrackedEntity)
      → get entry.outpoint tracked ≡ some t
      → entry.address ≡ t.address
      → entry.covenant_id ≡ some t.covenant_id
      → next ≡ insert entry.outpoint tt live
      → Checked tracked entry live next

check_entry-Checked :
    (tracked : OrderedMap Outpoint TrackedEntity) (entry : LiveUtxo) (live next : OutpointSet)
    → check_entry tracked entry live ≡ ok next
    → Checked tracked entry live next
unfolding check_entry
check_entry-Checked tracked entry live next h = elim (Option-cases (get entry.outpoint tracked)) [
  | inl q ↦ Checked.unrelated q (ground arith)
  | inr (t, q) ↦ elim (Option-cases entry.covenant_id) [
    | inl r ↦ absurd (ground arith)
    | inr (id, r) ↦
        Checked.proved t q (ground (arith, text_eq→eq entry.address t.address))
          (ground (arith, text_eq→eq id t.covenant_id)) (ground arith)
  ]
]

-- What the set has: each of its outpoints has its proof, or was in it before.
scan_live_sound :
    (tracked : OrderedMap Outpoint TrackedEntity) (entries : List LiveUtxo)
    (live next : OutpointSet) (o : Outpoint)
    → scan_live tracked entries live ≡ ok next
    → get o next ≡ some tt
    → ((entry : LiveUtxo) × (t : TrackedEntity) × Memᴰ entry entries
        × (get o tracked ≡ some t)
        × (entry.outpoint ≡ o)
        × (entry.address ≡ t.address)
        × (entry.covenant_id ≡ some t.covenant_id))
      ⊎ (get o live ≡ some tt)
unfolding scan_live
scan_live_sound tracked [] live next o h found = inr (ground (arith, found))
scan_live_sound tracked (entry ∷ entries) live next o h found =
    elim (Result-cases (check_entry tracked entry live)) [
      | inr (x, q) ↦ absurd (ground arith)
      | inl (middle, q) ↦
          elim (scan_live_sound tracked entries middle next o (ground arith) found) [
            | inl (e, t, mem, there, at, address, covenant) ↦
                inl (e, t, Memᴰ.tail mem, there, at, address, covenant)
            | inr here ↦ elim (check_entry-Checked tracked entry live middle q) [
              | Checked.unrelated none_there same_set ↦ inr (rw (← same_set) here)
              | Checked.proved t there address covenant grown ↦
                  elim (get-insert_split o entry.outpoint tt tt live (rw (← grown) here)) [
                    | inl (e, _) ↦
                        inl (entry, t, Memᴰ.head refl, rw e there, sym e, address, covenant)
                    | inr old ↦ inr old
                  ]
            ]
          ]
    ]

scan_live_keeps :
    (tracked : OrderedMap Outpoint TrackedEntity) (entries : List LiveUtxo)
    (live next : OutpointSet) (o : Outpoint)
    → scan_live tracked entries live ≡ ok next
    → get o live ≡ some tt
    → get o next ≡ some tt
unfolding scan_live
scan_live_keeps tracked [] live next o h found = ground (arith, found)
scan_live_keeps tracked (entry ∷ entries) live next o h found =
    elim (Result-cases (check_entry tracked entry live)) [
      | inr (x, q) ↦ absurd (ground arith)
      | inl (middle, q) ↦
          scan_live_keeps tracked entries middle next o (ground arith)
            (elim (check_entry-Checked tracked entry live middle q) [
              | Checked.unrelated _ same_set ↦ rw same_set found
              | Checked.proved t there address covenant grown ↦
                  rw grown (get-insert-some o entry.outpoint tt tt live found).1
            ])
    ]

scan_live_complete :
    (tracked : OrderedMap Outpoint TrackedEntity) (entries : List LiveUtxo)
    (live next : OutpointSet) (entry : LiveUtxo) (t : TrackedEntity)
    → scan_live tracked entries live ≡ ok next
    → Memᴰ entry entries
    → get entry.outpoint tracked ≡ some t
    → get entry.outpoint next ≡ some tt
unfolding scan_live
scan_live_complete tracked [] live next entry t h mem found = elim mem [ ]
scan_live_complete tracked (e ∷ entries) live next entry t h mem found =
    elim (Result-cases (check_entry tracked e live)) [
      | inr (x, q) ↦ absurd (ground arith)
      | inl (middle, q) ↦ elim mem [
        | Memᴰ.tail more ↦
            scan_live_complete tracked entries middle next entry t (ground arith) more found
        | Memᴰ.head same_entry ↦
            scan_live_keeps tracked entries middle next entry.outpoint (ground arith)
              (elim (check_entry-Checked tracked e live middle q) [
                | Checked.unrelated none_there _ ↦ absurd (
                    ground (
                      arith,
                      ap (λ (x : LiveUtxo). get x.outpoint tracked) same_entry,
                      found,
                      none_there,
                    ))
                | Checked.proved _ _ _ _ grown ↦
                    rw (same_entry, grown) (get-insert_self e.outpoint tt live)
              ])
      ]
    ]

scanned :
    (manifest : DeploymentManifest) (entries : List LiveUtxo) (live : OutpointSet)
    → validate_live_utxos manifest entries ≡ ok live
    → scan_live (collect_tracked manifest.tracked []) entries [] ≡ ok live
unfolding validate_live_utxos
scanned manifest entries live h = ground arith

-- Whatever `validate_live_utxos` takes for live is a tracked outpoint that the node reports, at the
-- tracked address and with the tracked covenant.
pub live_is_proved :
    (manifest : DeploymentManifest) (entries : List LiveUtxo) (live : OutpointSet) (o : Outpoint)
    → validate_live_utxos manifest entries ≡ ok live
    → get o live ≡ some tt
    → (entry : LiveUtxo) × (t : TrackedEntity) × Memᴰ entry entries
      × Memᴰ t manifest.tracked
      × Proves entry t o
live_is_proved manifest entries live o h found =
    elim (scan_live_sound (collect_tracked manifest.tracked []) entries [] live o
      (scanned manifest entries live h) found) [
        | inr none_there ↦ absurd (nothing o none_there)
        | inl (entry, t, mem, there, at, address, covenant) ↦
            elim (collect_tracked_sound manifest.tracked o t [] there) [
              | inr none_there ↦ absurd (nothing o none_there)
              | inl (tracked, same_key) ↦ (
                entry,
                t,
                mem,
                tracked,
                record {
                  reported = at;
                  tracked = same_key;
                  address = address;
                  covenant = covenant;
                },
              )
            ]
      ]

-- Every report at a tracked outpoint is live, when the validation succeeds.
pub reported_is_live :
    (manifest : DeploymentManifest) (entries : List LiveUtxo) (live : OutpointSet)
    (entry : LiveUtxo) (t : TrackedEntity)
    → validate_live_utxos manifest entries ≡ ok live
    → Memᴰ entry entries
    → Memᴰ t manifest.tracked
    → t.outpoint ≡ entry.outpoint
    → get entry.outpoint live ≡ some tt
reported_is_live manifest entries live entry t h mem tracked e =
    let (u, found) = collect_tracked_complete manifest.tracked t [] tracked in
    scan_live_complete (collect_tracked manifest.tracked []) entries [] live entry u
      (scanned manifest entries live h) mem
      (subst (λ o. get o (collect_tracked manifest.tracked []) ≡ some u) e found)
