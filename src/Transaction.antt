-- ===== src/Transaction.antt =====
-- `TransactionManager` of src/transaction.rs.
pub mod System
pub mod Commits
pub mod Validation
pub mod Install
pub mod Finalization
pub mod Restore
pub mod Cleanup
pub mod Operations
pub mod Calls
pub mod Refusals
pub mod Unmount
pub mod Safety
pub mod Stored
