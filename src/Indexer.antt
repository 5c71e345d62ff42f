-- ===== src/Indexer.antt =====
-- src/indexer.rs
pub mod Data
pub mod Error
pub mod Recalculate
pub mod Ledger
pub mod BlockLedger
pub mod Consistency
pub mod Rollback
pub mod RoundTrip
pub mod Blocks
pub mod Reachable
pub mod Unpaired
pub mod Aggregates
pub mod Counts
pub mod Refinement
pub mod Manifest
pub mod Governed
pub mod Shapes
pub mod Live
pub mod Rebuild
pub mod LiveSet
pub mod Rebuilt
pub mod History
pub mod Called
pub mod Refused
pub mod Stale
pub mod Conserve
pub mod Escrow
pub mod Veto
mod Tests
mod CalledTests
mod ManifestTests
mod VetoTests
