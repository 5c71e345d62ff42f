-- ===== src/Indexer/Ledger.antt =====
-- The journal of src/indexer.rs: `apply` and `rollback_tip`.
-- A method on `&mut self` returns its result and the indexer after it.
use kusd.Base.{
  ℕ, suc, false, not, List, [], ◌∷◌, Result, ok, err, ◌>>=◌, ◌>>◌, reject_if, ok_or, if◌then◌else◌,
}
use kusd.Int.{pos}
use kusd.Order.{Text, text_eq}
use kusd.OrderedMap.{get, insert, remove}
use kusd.Indexer.Data.{
  Outpoint, outpoint_order, Entity, Entities, Snapshot, AppliedTransaction, Indexer,
}
use kusd.Indexer.Error.{Error}
use kusd.Indexer.Recalculate.{is_some, recalculate}

abbrev pub Call : Type 0 → Type 0
Call A = Result Error A × Indexer

abbrev pub length {ℓ} : {A : Type ℓ} → List A → ℕ
length [] = 0
length (x ∷ xs) = suc (length xs)

-- `Snapshot::default()`, `Indexer::default()`
abbrev pub empty_snapshot : Snapshot
empty_snapshot = record {
  entities = [];
  circulating_supply = pos 0;
  position_debt = pos 0;
  kps_supply = pos 0;
  reserve_kusd = pos 0;
  reserve_total_kps = pos 0;
  reserve_collateral_sompi = 0;
  active_governance_proposals = 0;
  proposed_module_allocation = pos 0;
  delegated_kps = pos 0;
  weighted_kps_votes = pos 0;
  savings_balance = pos 0;
  savings_accounts = 0;
  savings_enabled = false;
  savings_rate_ppm = pos 0;
  challenged_positions = 0;
  active_challenges = 0;
  active_auctions = 0;
}

abbrev pub empty_indexer : Indexer
empty_indexer = record { snapshot = empty_snapshot; journal = []; blocks = [] }

-- The first loop of `apply`: the consumed outpoints leave the entities, with what they held.
unfoldable pub consume :
    List Outpoint → Entities → Result Error (List (Outpoint × Entity) × Entities)
consume [] m = ok ([], m)
consume (o ∷ os) m = do
  entity ← ok_or (get o m) (Error.unknown_outpoint o)
  rest ← consume os (remove o m)
  ok ((o, entity) ∷ rest.0, rest.1)

-- The second loop: the created outputs enter the entities.
unfoldable pub create :
    Text → List (Outpoint × Entity) → Entities → Result Error (List Outpoint × Entities)
create txid [] m = ok ([], m)
create txid ((o, entity) ∷ created) m = do
  reject_if (not (text_eq o.transaction_id txid)) (Error.wrong_transaction o txid)
  reject_if (is_some (get o m)) (Error.duplicate_outpoint o)
  rest ← create txid created (insert o entity m)
  ok (o ∷ rest.0, rest.1)

abbrev pub journal_entry :
    Text → List (Outpoint × Entity) → List Outpoint → Snapshot → AppliedTransaction
journal_entry txid removed created s = record {
  transaction_id = txid;
  consumed = removed;
  created = created;
  previous_supply = s.circulating_supply;
  previous_debt = s.position_debt;
  previous_kps_supply = s.kps_supply;
  previous_active_governance_proposals = s.active_governance_proposals;
  previous_proposed_module_allocation = s.proposed_module_allocation;
  previous_delegated_kps = s.delegated_kps;
  previous_weighted_kps_votes = s.weighted_kps_votes;
  previous_savings_balance = s.savings_balance;
  previous_savings_accounts = s.savings_accounts;
  previous_savings_enabled = s.savings_enabled;
  previous_savings_rate_ppm = s.savings_rate_ppm;
  previous_challenged_positions = s.challenged_positions;
  previous_active_challenges = s.active_challenges;
  previous_active_auctions = s.active_auctions;
}

-- `self.recalculate()?` on a snapshot that was changed
abbrev pub recalculated : Result Error (Unit {0}) × Snapshot → Result Error Snapshot
recalculated (ok _, s) = ok s
recalculated (err e, s) = err e

-- The closure of `apply`: the journal's entry and the snapshot, or an error.
unfoldable pub attempt :
    Text
    → List Outpoint
    → List (Outpoint × Entity)
    → Snapshot
    → Result Error (AppliedTransaction × Snapshot)
attempt txid consumed created s = do
  taken ← consume consumed s.entities
  put ← create txid created taken.1
  next ← recalculated (recalculate (record s { entities = put.1 }))
  ok (journal_entry txid taken.0 put.0 s, next)

-- `apply`; on an error the snapshot is the one that was saved first.
unfoldable pub apply : Text → List Outpoint → List (Outpoint × Entity) → Indexer → Call (Unit {0})
apply txid consumed created ix =
    let checkpoint = ix.snapshot in
    elim (attempt txid consumed created ix.snapshot) [
      | ok (applied, next) ↦ (ok tt, record ix { snapshot = next; journal = applied ∷ ix.journal })
      | err e ↦ (err e, record ix { snapshot = checkpoint })
    ]

unfoldable pub remove_all : List Outpoint → Entities → Entities
remove_all [] m = m
remove_all (o ∷ os) m = remove_all os (remove o m)

unfoldable pub insert_all : List (Outpoint × Entity) → Entities → Entities
insert_all [] m = m
insert_all ((o, e) ∷ es) m = insert_all es (insert o e m)

-- The snapshot that `rollback_tip` builds before it recalculates.
unfoldable pub restored : AppliedTransaction → Snapshot → Snapshot
restored a s = record s {
  entities = insert_all a.consumed (remove_all a.created s.entities);
  circulating_supply = a.previous_supply;
  position_debt = a.previous_debt;
  kps_supply = a.previous_kps_supply;
  active_governance_proposals = a.previous_active_governance_proposals;
  proposed_module_allocation = a.previous_proposed_module_allocation;
  delegated_kps = a.previous_delegated_kps;
  weighted_kps_votes = a.previous_weighted_kps_votes;
  savings_balance = a.previous_savings_balance;
  savings_accounts = a.previous_savings_accounts;
  savings_enabled = a.previous_savings_enabled;
  savings_rate_ppm = a.previous_savings_rate_ppm;
  challenged_positions = a.previous_challenged_positions;
  active_challenges = a.previous_active_challenges;
  active_auctions = a.previous_active_auctions;
}

abbrev pub rollback_entry :
    Text → AppliedTransaction → List AppliedTransaction → Indexer → Call (Unit {0})
rollback_entry expected a rest ix =
    if not (text_eq a.transaction_id expected)
    then (err Error.out_of_order_rollback, record ix { journal = a ∷ rest })
    else (let (r, s) = recalculate (restored a ix.snapshot) in
        (r, record ix { snapshot = s; journal = rest }))

unfoldable pub rollback_tip : Text → Indexer → Call (Unit {0})
rollback_tip expected ix = elim ix.journal [
  | [] ↦ (err Error.empty_journal, ix)
  | a ∷ rest ↦ rollback_entry expected a rest ix
]
