-- ===== src/Indexer/Shapes.antt =====
-- The table of `validate_governance_action` in src/indexer.rs, one line for each action, and the
-- function itself.
use kusd.Base.{Bool, not, ◌&&◌, ◌==◌, ltb, none, some, List, Result, ok, ◌>>◌, reject_if}
use kusd.Indexer.Data.{Entity, Snapshot}
use kusd.Indexer.Error.{Error}
use kusd.Indexer.Ledger.{length}
use kusd.Indexer.Manifest.{GovernanceAction, ManifestTransaction, created_entities}
use kusd.Indexer.Governed.{
  looked_up, count, is_governance, is_proposal, is_root, is_module, is_reserve, is_delegation,
  is_kps, is_controller, is_registry, is_account, is_governor, is_savings_proposal, is_token,
  is_token_minter, token_balance, reserve_balance, proposal_fee, same_balance, escrows_fee,
  credits_fee,
}

unfoldable pub valid_shape : GovernanceAction → List Entity → List Entity → Bool
valid_shape GovernanceAction.root_handover consumed created =
    count consumed is_root == 1 && count created is_root == 1
valid_shape GovernanceAction.propose_module consumed created =
    count consumed is_governance == 1
    && count consumed is_reserve == 0
    && count consumed is_token == 1
    && count created is_governance == 1
    && count created is_proposal == 1
    && count created is_reserve == 0
    && count created is_token == 1
    && escrows_fee (token_balance consumed) (token_balance created) (proposal_fee consumed)
valid_shape GovernanceAction.activate_proposal consumed created =
    count consumed is_proposal == 1 && count created is_proposal == 1
valid_shape GovernanceAction.execute_module consumed created =
    count consumed is_governance == 1
    && count consumed is_proposal == 1
    && count consumed is_root == 1
    && count consumed is_token == 1
    && count created is_governance == 1
    && count created is_root == 1
    && count created is_module == 1
    && count created is_token == 3
    && count created is_token_minter == 2
    && same_balance (token_balance consumed) (proposal_fee consumed)
    && same_balance (token_balance created) (proposal_fee consumed)
valid_shape GovernanceAction.veto_proposal consumed created =
    count consumed is_governance == 1
    && count consumed is_proposal == 1
    && count consumed is_reserve == 1
    && count consumed is_token == 2
    && ltb 0 (count consumed is_delegation)
    && count consumed is_delegation == count created is_delegation
    && count consumed is_kps == count created is_kps
    && count created is_governance == 1
    && count created is_reserve == 1
    && count created is_token == 1
    && credits_fee (reserve_balance consumed) (reserve_balance created) (proposal_fee consumed)
    && same_balance (token_balance consumed) (token_balance created)
valid_shape GovernanceAction.cancel_expired_proposal consumed created =
    count consumed is_governance == 1
    && count consumed is_proposal == 1
    && count consumed is_token == 1
    && count created is_governance == 1
    && count created is_proposal == 0
    && count created is_token == 1
    && same_balance (token_balance consumed) (proposal_fee consumed)
    && same_balance (token_balance created) (proposal_fee consumed)
valid_shape GovernanceAction.lock_delegation consumed created =
    count consumed is_kps == 1 && count created is_kps == 1 && count created is_delegation == 1
valid_shape GovernanceAction.mature_delegation consumed created =
    count consumed is_delegation == 1
    && count created is_delegation == 1
    && count consumed is_kps == 1
    && count created is_kps == 1
valid_shape GovernanceAction.redelegate consumed created =
    count consumed is_delegation == 1
    && count created is_delegation == 1
    && count consumed is_kps == 1
    && count created is_kps == 1
valid_shape GovernanceAction.unlock_delegation consumed created =
    count consumed is_delegation == 1
    && count created is_delegation == 0
    && count consumed is_kps == 1
    && count created is_kps == 1
valid_shape GovernanceAction.execute_savings_series consumed created =
    count consumed is_governor == 1
    && count consumed is_savings_proposal == 1
    && count consumed is_controller == 1
    && count created is_governor == 1
    && count created is_controller == 1
valid_shape GovernanceAction.propose_savings consumed created =
    count consumed is_governor == 1
    && count created is_governor == 1
    && count created is_savings_proposal == 1
valid_shape GovernanceAction.activate_savings_proposal consumed created =
    count consumed is_savings_proposal == 1 && count created is_savings_proposal == 1
valid_shape GovernanceAction.initialize_savings_registry consumed created =
    count consumed is_registry == 1 && count created is_registry == 1
valid_shape GovernanceAction.open_savings_account consumed created =
    count consumed is_controller == 1
    && count created is_controller == 1
    && count created is_account == 1
    && count consumed is_token == 1
    && count created is_token == 1
valid_shape GovernanceAction.refresh_savings_account consumed created =
    count consumed is_controller == 1
    && count consumed is_account == 1
    && count consumed is_reserve == 1
    && count consumed is_registry == 1
    && count created is_controller == 1
    && count created is_account == 1
    && count created is_reserve == 1
    && count created is_registry == 1
valid_shape GovernanceAction.close_savings_account consumed created =
    count consumed is_controller == 1
    && count consumed is_account == 1
    && count created is_controller == 1
    && count created is_account == 0
    && count consumed is_token == 1
    && count created is_token == 1

abbrev pub validate_action :
    ManifestTransaction → GovernanceAction → Snapshot → Result Error (Unit {0})
validate_action tx action s = do
  let consumed = looked_up tx.consumed s.entities
  reject_if (not (length consumed == length tx.consumed)) (Error.unknown_governed tx.transaction_id)
  reject_if (not (valid_shape action consumed (created_entities tx.created)))
      (Error.invalid_shape tx.transaction_id)

-- `validate_governance_action`: a transaction without an action has no shape to keep.
unfoldable pub validate_governance_action : ManifestTransaction → Snapshot → Result Error (Unit {0})
validate_governance_action tx s = elim tx.governance_action [
  | none ↦ ok tt
  | some action ↦ validate_action tx action s
]
