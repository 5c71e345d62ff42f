-- ===== src/Lib.antt =====
-- KUSD: a stablecoin protocol on Kaspa. This development models the accounting and the indexer of the
-- Rust crate, and the compilation of its contracts, and proves what makes them correct.
--
-- The parts and their files, each under the path of the source:
--   src/equity.rs       Equity: `EquityState` with `deposit`, `redeem`, `backstop` and
--                       `backstop_with_assigned`; Equity/MulDiv is `mul_div_floor`. Equity/Effects has
--                       what each operation does, Equity/Shares, Equity/Backstop and Equity/Orphans
--                       the theorems on it.
--   src/fees.rs         Fees: `MintTerms::quote`, `MintQuote::reserve_credit` and `close_quote`, which
--                       use the division of src/equity.rs; Fees/Split.
--   src/savings.rs      Savings: `mul_div_floor`, `calculate_yield`, `validate_claim_window`; Savings/Yield,
--                       and Savings/Documented, which has the formula of docs/SAVINGS.md.
--   src/indexer.rs      Indexer. Indexer/Data and Indexer/Manifest are its types, Indexer/Recalculate
--                       is `recalculate`, Indexer/Ledger `apply` and `rollback_tip`,
--                       Indexer/BlockLedger `apply_block` and `rollback_block`, Indexer/Governed and
--                       Indexer/Shapes
--                       `validate_governance_action`, Indexer/Live `validate_live_utxos`, and
--                       Indexer/Rebuild the two rebuilds from a manifest. The other files under
--                       Indexer are proofs, named for what they prove.
--   src/silverscript.rs Silverscript: the compiler and its ABI as the record `Compiler`.
--                       Silverscript/Encode is `compile_contract`, `build_sig_script`,
--                       `build_sig_script_for_covenant_decl` and `expr_value`; Silverscript/Finite shows
--                       that the conversion ends, Silverscript/Typed and Silverscript/Accepted what it
--                       accepts. Silverscript/Sample is a compiler for the runs.
--   src/protocol.rs     Protocol: the parameters; Protocol/Validate, Protocol/Votes, Protocol/Args and
--                       Protocol/GovernanceArgs (the constructor arguments), Protocol/Compile (the
--                       stacks of contracts), Protocol/Snapshots (the single states), Protocol/States
--                       (the state objects) and the calls: Protocol/Calls (`covenant_call`,
--                       `entry_call`), Protocol/GovernanceCalls, Protocol/RootCalls,
--                       Protocol/DelegationCalls, Protocol/TokenCalls, Protocol/ReserveCalls and
--                       Protocol/Opening (`module_open_call`). Protocol/Stable, Protocol/Positions,
--                       Protocol/Fixpoint, Protocol/Thresholds and Protocol/Opened are proofs.
--   src/savings_protocol.rs
--                       SavingsProtocol: the parameters; under it Validate, Args, Compile, Snapshots,
--                       States and BaseStates as above, and the calls in GovernorCalls, AccountCalls,
--                       PositionCalls, ModuleCalls, AuctionCalls, ReserveCalls, GovernanceCalls and
--                       RootCalls. Repayment, Settlement and Redemption are the calls that compute
--                       amounts. Stable, Based, Prepared, Fixpoint, Recompiled, InRange, Repaid, RepayCall,
--                       Stuck, Settled and Redeemed are proofs. It compiles with Protocol and pays what Equity and Fees
--                       compute.
--
-- A method on `&mut self` takes the state and returns its result with the state after it, also when the
-- result is an error. A method on `self` returns a result with the new value. The loop of a function is
-- a function of its own, by recursion on the list; the two loops that count down over the journal
-- recurse on the number of rounds, which the source computes before or keeps in the block, so no fuel
-- is guessed.
--
-- `i64` is an integer (Int) with the checks of `checked_add` and its kin written out, and the plain
-- operators wrap. `u64`, `usize` and `u8` are native numbers. `String` and `Vec<u8>` are lists of
-- bytes, a `BTreeMap` is a list of entries in the order of the keys (OrderedMap, over the order of
-- `#[derive(Ord)]`), a `BTreeSet` such a map to the unit type. `Vec` used as a stack has its top at the
-- head of the list. An error message is a constructor with the values that it prints.
--
-- The SilverScript compiler, its ABI, the script builder and the file system are the record `Compiler`
-- of Silverscript: nothing is assumed of them but that they are functions, and for the end of the
-- conversion of an expression that expressions are finite. The conversion recurses on fuel, one more
-- than the depth of the expression. The `ExprKind`s and `TypeArtifact`s that the source matches on
-- are views with one constructor for the rest. A slice out of range, and `unwrap` on a type that does
-- not parse, panic in the source and are errors here. `source`, `compile`, `empty_artifact` and the two
-- call helpers, which src/savings_protocol.rs repeats, are those of Protocol.
--
-- Not modelled: reading and writing files with serde, the network names of src/config.rs, the
-- command line of src/main.rs and the tools under src/bin, and the contracts themselves, which are in
-- another language.
pub mod Base
pub mod Int
pub mod Order
pub mod OrderedMap
pub mod Equity
pub mod Fees
pub mod Savings
pub mod Indexer
pub mod Silverscript
pub mod Protocol
pub mod SavingsProtocol
