-- ===== src/Indexer/Governed.antt =====
-- `validate_governance_action` of src/indexer.rs: the shape that each governed action must have.
use kusd.Base.{
  ℕ, suc, Bool, true, false, ◌&&◌, Option, none, some, List, [], ◌∷◌, and_then, if◌then◌else◌,
}
use kusd.Int.{ℤ, pos, ltb_ℤ, eqb_ℤ, checked_add}
use kusd.OrderedMap.{get}
use kusd.Indexer.Data.{Outpoint, outpoint_order, Entity, Entities}

-- What the outpoints hold; one that holds nothing is left out.
unfoldable pub looked_up : List Outpoint → Entities → List Entity
looked_up [] m = []
looked_up (o ∷ os) m = elim (get o m) [ none ↦ looked_up os m | some e ↦ e ∷ looked_up os m ]

unfoldable pub count : List Entity → (Entity → Bool) → ℕ
count [] predicate = 0
count (e ∷ es) predicate = if predicate e then suc (count es predicate) else count es predicate

-- The predicates.
abbrev pub is_governance : Entity → Bool
is_governance (Entity.governance _) = true
is_governance _ = false

abbrev pub is_proposal : Entity → Bool
is_proposal (Entity.module_proposal _) = true
is_proposal _ = false

abbrev pub is_root : Entity → Bool
is_root (Entity.root _ _) = true
is_root _ = false

abbrev pub is_module : Entity → Bool
is_module (Entity.minting_module _ _ _) = true
is_module _ = false

abbrev pub is_reserve : Entity → Bool
is_reserve (Entity.reserve _ _ _) = true
is_reserve _ = false

abbrev pub is_delegation : Entity → Bool
is_delegation (Entity.kps_delegation _ _ _ _) = true
is_delegation _ = false

abbrev pub is_kps : Entity → Bool
is_kps (Entity.equity_token _ _) = true
is_kps _ = false

abbrev pub is_controller : Entity → Bool
is_controller (Entity.savings_controller _) = true
is_controller _ = false

abbrev pub is_registry : Entity → Bool
is_registry (Entity.savings_registry _ _) = true
is_registry _ = false

abbrev pub is_account : Entity → Bool
is_account (Entity.savings_account _) = true
is_account _ = false

abbrev pub is_governor : Entity → Bool
is_governor (Entity.savings_governor _ _ _) = true
is_governor _ = false

abbrev pub is_savings_proposal : Entity → Bool
is_savings_proposal (Entity.savings_proposal _ _ _ _) = true
is_savings_proposal _ = false

abbrev pub is_token : Entity → Bool
is_token (Entity.token _ _) = true
is_token _ = false

abbrev pub is_token_minter : Entity → Bool
is_token_minter (Entity.token _ is_minter) = is_minter
is_token_minter _ = false

-- `try_fold`: the first sum that overflows ends it.
unfoldable pub fold_balance : ℤ → List Entity → Option ℤ
fold_balance total [] = some total
fold_balance total (Entity.token amount false ∷ es) =
    and_then (checked_add total amount) (λ next. fold_balance next es)
fold_balance total (e ∷ es) = fold_balance total es

abbrev pub token_balance : List Entity → Option ℤ
token_balance es = fold_balance (pos 0) es

unfoldable pub reserve_balance : List Entity → Option ℤ
reserve_balance [] = none
reserve_balance (Entity.reserve kusd_balance _ _ ∷ es) = some kusd_balance
reserve_balance (e ∷ es) = reserve_balance es

unfoldable pub proposal_fee : List Entity → Option ℤ
proposal_fee [] = none
proposal_fee (Entity.governance g ∷ es) = some g.proposal_fee_kusd
proposal_fee (e ∷ es) = proposal_fee es

-- `==` on `Option<i64>`
abbrev pub same_balance : Option ℤ → Option ℤ → Bool
same_balance none none = true
same_balance none (some b) = false
same_balance (some a) none = false
same_balance (some a) (some b) = eqb_ℤ a b

-- The `matches!` of the proposal and of the veto.
abbrev pub escrows_fee : Option ℤ → Option ℤ → Option ℤ → Bool
escrows_fee (some before) (some after) (some fee) =
    ltb_ℤ (pos 0) fee && eqb_ℤ before fee && eqb_ℤ after fee
escrows_fee _ _ _ = false

abbrev pub credits_fee : Option ℤ → Option ℤ → Option ℤ → Bool
credits_fee (some before) (some after) (some fee) =
    ltb_ℤ (pos 0) fee && same_balance (checked_add before fee) (some after)
credits_fee _ _ _ = false
