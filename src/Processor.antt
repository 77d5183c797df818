-- ===== src/Processor.antt =====
-- The handlers of the pool (program/src/processor.rs).
pub mod Tokens
pub mod Calls
pub mod Accounts
pub mod OwnerFee
pub mod Swap
pub mod DepositAll
pub mod WithdrawAll
pub mod Single
pub mod DepositSingle
pub mod WithdrawSingle
pub mod InitializeChecks
pub mod Initialize
pub mod Dispatch
pub mod Isolation
