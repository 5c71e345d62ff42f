-- ===== src/Indexer/Error.antt =====
-- The messages of src/indexer.rs, with the values that they print.
use kusd.Base.{List}
use kusd.Int.{ℤ}
use kusd.Order.{Text}
use kusd.Indexer.Data.{Outpoint}

pub data Error : Type 0 where
  supply_overflow debt_overflow challenged_overflow challenge_overflow auction_overflow : Error
  kps_supply_overflow two_reserves invalid_reserve allocation_overflow : Error
  proposal_count_overflow invalid_delegation delegated_overflow weighted_overflow : Error
  weighted_total_overflow invalid_account savings_overflow account_count_overflow : Error
  two_controllers invalid_controller two_registries invalid_registry two_active_proposals : Error
  divergent_savings : (declared accounts : ℤ) → Error
  unknown_outpoint duplicate_outpoint : Outpoint → Error
  wrong_transaction : Outpoint → Text → Error
  empty_journal out_of_order_rollback empty_blocks out_of_order_block incomplete_journal : Error
  unexpected_parent : (parent tip : Text) → Error
  daa_not_increasing duplicate_in_manifest : Error
  address_mismatch covenant_mismatch duplicate_rpc : Outpoint → Error
  unknown_governed invalid_shape : Text → Error
  history_mismatch : (missing stale : List Outpoint) → Error
