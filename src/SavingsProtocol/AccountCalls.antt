-- ===== src/SavingsProtocol/AccountCalls.antt =====
-- The calls of src/savings_protocol.rs on the accounts and their controller.
use kusd.Base.{
  ℕ, true, false, not, ◌||◌, ◌==◌, if◌then◌else◌, [], ◌∷◌, length, map_err, Result, ◌>>=◌, ◌>>◌,
  reject_if,
}
use kusd.Int.{ℤ}
use kusd.Order.{text, text_eq}
use kusd.SavingsProtocol.{Bytes, ProtocolParams, Compiler, SavingsParams}
use kusd.Protocol.Args.{zeros}
use kusd.Protocol.Validate.{Error}
use kusd.SavingsProtocol.Args.{account_args, controller_args, reserve_args}
use kusd.Protocol.Compile.{source}
use kusd.SavingsProtocol.Compile.{compile_for_call, compile_stack}
use kusd.Protocol.Calls.{covenant_call}
use kusd.SavingsProtocol.States.{
  token_state, controller_state_expr, account_state_expr, reserve_state_expr,
}

module _ (c : Compiler) where
  unfoldable pub controller_execute_call :
      (base : ProtocolParams) (prev : SavingsParams) (next : SavingsParams) (governor_input : ℕ)
      (proposal_input : ℕ)
      → Result Error Bytes
  controller_execute_call base prev next governor_input proposal_input = do
    stack ← compile_stack c base prev
    src ← source c (text "contracts/savings-controller.sil")
    contract ← compile_for_call c (text "SavingsController") src (
        controller_args c prev base stack.base.kcc stack.account stack.governor stack.proposal
          stack.controller stack.reserve)
    covenant_call c contract (text "executeSeriesPolicy")
        (controller_state_expr c base next stack (text "State")
          ∷ c.byte governor_input
          ∷ c.byte proposal_input
          ∷ [])
        true

  unfoldable pub controller_initialize_governance_call :
      (base : ProtocolParams) (prev : SavingsParams) (next : SavingsParams)
      (owner_signature : Bytes)
      → Result Error Bytes
  controller_initialize_governance_call base prev next owner_signature = do
    reject_if (not (text_eq prev.governor_id (zeros 32)) || text_eq next.governor_id (zeros 32))
        (Error.refused (text "invalid Controller Governor initialization"))
    stack ← compile_stack c base prev
    src ← source c (text "contracts/savings-controller.sil")
    contract ← compile_for_call c (text "SavingsController") src (
        controller_args c prev base stack.base.kcc stack.account stack.governor stack.proposal
          stack.controller stack.reserve)
    covenant_call c contract (text "initializeGovernancePolicy")
        (controller_state_expr c base next stack (text "State") ∷ c.bytes owner_signature ∷ []) true

  unfoldable pub controller_open_call :
      (base : ProtocolParams) (prev : SavingsParams) (next : SavingsParams)
      (account : SavingsParams) (account_output : ℕ) (account_id : Bytes)
      → Result Error Bytes
  controller_open_call base prev next account account_output account_id = do
    reject_if (not ((length account_id) == 32))
        (Error.refused (text "account_id: 32 bytes required"))
    stack ← compile_stack c base prev
    src ← source c (text "contracts/savings-controller.sil")
    contract ← compile_for_call c (text "SavingsController") src (
        controller_args c prev base stack.base.kcc stack.account stack.governor stack.proposal
          stack.controller stack.reserve)
    covenant_call c contract (text "openAccountPolicy")
        (controller_state_expr c base next stack (text "State")
          ∷ c.byte account_output
          ∷ c.dynamic_bytes stack.account.prefix
          ∷ c.dynamic_bytes stack.account.suffix
          ∷ account_state_expr c base account stack (text "AccountState")
          ∷ c.bytes account.owner
          ∷ c.int account.saved
          ∷ token_state c (text "TokenState") (record {
            owner = account_id;
            identifier_type = 2;
            amount = account.saved;
            is_minter = false;
          })
          ∷ [])
        true

  unfoldable pub account_refresh_call :
      (base : ProtocolParams) (prev : SavingsParams) (next : SavingsParams)
      (owner_signature : Bytes) (accrual_daa : ℤ) (controller_input : ℕ) (reserve_input : ℕ)
      (account_token_input : ℕ) (reserve_token_input : ℕ) (account_id : Bytes) (referral_amount : ℤ)
      → Result Error Bytes
  account_refresh_call base prev next owner_signature accrual_daa controller_input reserve_input
        account_token_input reserve_token_input account_id referral_amount =
      do
        stack ← compile_stack c base prev
        src ← source c (text "contracts/savings-account.sil")
        contract ←
            compile_for_call c (text "SavingsAccount") src
              (account_args c prev base stack.base.kcc stack.controller stack.reserve)
        covenant_call c contract (text "refreshPolicy")
            (account_state_expr c base next stack (text "State")
              ∷ c.bytes (if length owner_signature == 0 then zeros 65 else owner_signature)
              ∷ c.int accrual_daa
              ∷ c.byte controller_input
              ∷ c.byte reserve_input
              ∷ c.byte account_token_input
              ∷ c.byte reserve_token_input
              ∷ token_state c (text "TokenState") (record {
                owner = account_id;
                identifier_type = 2;
                amount = next.saved;
                is_minter = false;
              })
              ∷ token_state c (text "TokenState") (record {
                owner = prev.referrer;
                identifier_type = 0;
                amount = referral_amount;
                is_minter = false;
              })
              ∷ [])
            true

  unfoldable pub controller_refresh_call :
      (base : ProtocolParams) (prev : SavingsParams) (next : SavingsParams)
      (next_account : SavingsParams) (account_input : ℕ)
      → Result Error Bytes
  controller_refresh_call base prev next next_account account_input = do
    stack ← compile_stack c base prev
    src ← source c (text "contracts/savings-controller.sil")
    contract ← compile_for_call c (text "SavingsController") src (
        controller_args c prev base stack.base.kcc stack.account stack.governor stack.proposal
          stack.controller stack.reserve)
    covenant_call c contract (text "accountRefreshPolicy")
        (controller_state_expr c base next stack (text "State")
          ∷ c.byte account_input
          ∷ account_state_expr c base next_account stack (text "AccountState")
          ∷ [])
        true

  unfoldable pub reserve_refresh_call :
      (base : ProtocolParams) (prev : SavingsParams) (next_base : ProtocolParams)
      (next_account : SavingsParams) (registry_input : ℕ) (controller_input : ℕ) (account_input : ℕ)
      (accrual_daa : ℤ) (account_token_input : ℕ) (reserve_token_input : ℕ)
      → Result Error Bytes
  reserve_refresh_call base prev next_base next_account registry_input controller_input
        account_input accrual_daa account_token_input reserve_token_input =
      do
        stack ← compile_stack c base prev
        next_stack ← compile_stack c next_base next_account
        src ← source c (text "contracts/equity-reserve.sil")
        contract ← compile_for_call c (text "EquityReserve") src (
            reserve_args c base prev stack.base.kcc stack.base.kps stack.base.auction stack.account
              stack.controller stack.registry)
        covenant_call c contract (text "paySavingsPolicy")
            (reserve_state_expr c next_base next_stack (text "State")
              ∷ c.byte registry_input
              ∷ c.byte controller_input
              ∷ c.byte account_input
              ∷ account_state_expr c base next_account stack (text "AccountState")
              ∷ c.int accrual_daa
              ∷ c.byte account_token_input
              ∷ c.byte reserve_token_input
              ∷ token_state c (text "TokenState") (record {
                owner = base.reserve_id;
                identifier_type = 2;
                amount = next_base.reserve_kusd;
                is_minter = false;
              })
              ∷ [])
            true

  unfoldable pub controller_close_call :
      (base : ProtocolParams) (prev : SavingsParams) (next : SavingsParams) (account_input : ℕ)
      → Result Error Bytes
  controller_close_call base prev next account_input = do
    stack ← compile_stack c base prev
    src ← source c (text "contracts/savings-controller.sil")
    contract ← compile_for_call c (text "SavingsController") src (
        controller_args c prev base stack.base.kcc stack.account stack.governor stack.proposal
          stack.controller stack.reserve)
    covenant_call c contract (text "accountClosePolicy")
        (controller_state_expr c base next stack (text "State") ∷ c.byte account_input ∷ []) true

  unfoldable pub account_close_call :
      (base : ProtocolParams) (prev : SavingsParams) (next_controller : SavingsParams)
      (owner_signature : Bytes) (controller_input : ℕ) (account_token_input : ℕ) (kas_output : ℕ)
      → Result Error Bytes
  account_close_call base prev next_controller owner_signature controller_input account_token_input
        kas_output =
      do
        stack ← compile_stack c base prev
        src ← source c (text "contracts/savings-account.sil")
        contract ←
            compile_for_call c (text "SavingsAccount") src
              (account_args c prev base stack.base.kcc stack.controller stack.reserve)
        type_ref ← map_err Error.type_ref_failed (c.parse_type_ref (text "State[]"))
        covenant_call c contract (text "closePolicy")
            (c.array type_ref []
              ∷ c.bytes (if length owner_signature == 0 then zeros 65 else owner_signature)
              ∷ c.byte controller_input
              ∷ controller_state_expr c base next_controller stack (text "ControllerState")
              ∷ c.byte account_token_input
              ∷ token_state c (text "TokenState") (record {
                owner = prev.owner;
                identifier_type = 0;
                amount = prev.saved;
                is_minter = false;
              })
              ∷ c.byte kas_output
              ∷ [])
            true
