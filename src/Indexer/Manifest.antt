-- ===== src/Indexer/Manifest.antt =====
-- The manifest of src/indexer.rs: the tracked contracts, the history of their transactions, and the
-- UTXOs that a node reports. The fields of serde are read as they are; a file is not modelled.
use kusd.Base.{Option, List, map}
use kusd.Order.{Text}
use kusd.Indexer.Data.{Outpoint, Entity}

pub record TrackedEntity : Type 0 where
  pub address : Text
  pub outpoint : Outpoint
  pub covenant_id : Text
  pub entity : Entity

pub record LiveUtxo : Type 0 where
  pub outpoint : Outpoint
  pub address : Text
  pub covenant_id : Option Text

pub data GovernanceAction : Type 0 where
  root_handover propose_module activate_proposal execute_module veto_proposal : GovernanceAction
  cancel_expired_proposal lock_delegation mature_delegation redelegate : GovernanceAction
  unlock_delegation execute_savings_series initialize_savings_registry : GovernanceAction
  open_savings_account refresh_savings_account close_savings_account : GovernanceAction
  propose_savings activate_savings_proposal : GovernanceAction

pub record ManifestCreated : Type 0 where
  pub outpoint : Outpoint
  pub entity : Entity

pub record ManifestTransaction : Type 0 where
  pub transaction_id : Text
  pub governance_action : Option GovernanceAction
  pub consumed : List Outpoint
  pub created : List ManifestCreated

pub record DeploymentManifest : Type 0 where
  pub network : Text
  pub protocol : Option Text
  pub history_scope : Option Text
  pub tracked : List TrackedEntity
  pub history : List ManifestTransaction

-- `tx.created.iter().map(...)`, as `apply` takes it and as the governed actions read it
abbrev pub outputs : List ManifestCreated → List (Outpoint × Entity)
outputs created = map (λ (c : ManifestCreated). (c.outpoint, c.entity)) created

abbrev pub created_entities : List ManifestCreated → List Entity
created_entities created = map (λ (c : ManifestCreated). c.entity) created
