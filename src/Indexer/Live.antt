-- ===== src/Indexer/Live.antt =====
-- `validate_live_utxos` of src/indexer.rs: which tracked outpoints the node still has. A `BTreeSet`
-- is an ordered map to the unit type.
use kusd.Base.{
  Bool, false, not, ◌==◌, Option, none, some, List, [], ◌∷◌, Result, ok, ◌>>=◌, ◌>>◌, reject_if,
}
use kusd.Order.{Text, text_eq}
use kusd.OrderedMap.{OrderedMap, get, insert}
use kusd.Indexer.Data.{Outpoint, outpoint_order}
use kusd.Indexer.Error.{Error}
use kusd.Indexer.Recalculate.{is_some}
use kusd.Indexer.Ledger.{length}
use kusd.Indexer.Manifest.{TrackedEntity, LiveUtxo, DeploymentManifest}

abbrev pub OutpointSet : Type 0
OutpointSet = OrderedMap Outpoint (Unit {0})

abbrev pub contains : Outpoint → OutpointSet → Bool
contains o s = is_some (get o s)

-- `collect::<BTreeMap<_, _>>()`: a later entry replaces an earlier one.
unfoldable pub collect_tracked :
    List TrackedEntity → OrderedMap Outpoint TrackedEntity → OrderedMap Outpoint TrackedEntity
collect_tracked [] m = m
collect_tracked (t ∷ ts) m = collect_tracked ts (insert t.outpoint t m)

-- `entry.covenant_id.as_deref() == Some(expected.covenant_id.as_str())`
abbrev pub same_covenant : Option Text → Text → Bool
same_covenant none expected = false
same_covenant (some id) expected = text_eq id expected

-- One round of the loop.
unfoldable pub check_entry :
    OrderedMap Outpoint TrackedEntity → LiveUtxo → OutpointSet → Result Error OutpointSet
check_entry tracked entry live = elim (get entry.outpoint tracked) [
  | none ↦ ok live
  | some expected ↦
      reject_if (not (text_eq entry.address expected.address))
        (Error.address_mismatch entry.outpoint)
      >> reject_if (not (same_covenant entry.covenant_id expected.covenant_id))
          (Error.covenant_mismatch entry.outpoint)
      >> reject_if (contains entry.outpoint live) (Error.duplicate_rpc entry.outpoint)
      >> ok (insert entry.outpoint tt live)
]

unfoldable pub scan_live :
    OrderedMap Outpoint TrackedEntity → List LiveUtxo → OutpointSet → Result Error OutpointSet
scan_live tracked [] live = ok live
scan_live tracked (entry ∷ entries) live = do
  next ← check_entry tracked entry live
  scan_live tracked entries next

unfoldable pub validate_live_utxos : DeploymentManifest → List LiveUtxo → Result Error OutpointSet
validate_live_utxos manifest rpc_entries = do
  let tracked = collect_tracked manifest.tracked []
  reject_if (not (length tracked == length manifest.tracked)) Error.duplicate_in_manifest
  scan_live tracked rpc_entries []
