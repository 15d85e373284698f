-- ===== src/Transaction/Safety.antt =====
-- What the commits of src/transaction.rs preserve, as an invariant of the backing store.
pub mod Logic
pub mod Commits
pub mod Calls
pub mod Validation
pub mod Phases
pub mod Install
pub mod Restore
pub mod Finalization
pub mod Cleanup
pub mod Loading
pub mod Prepare
pub mod Mount
pub mod Offline
pub mod Write
pub mod Operations
