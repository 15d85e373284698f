-- ===== src/Store.antt =====
-- The SQLite backing store: src/store/sqlite.rs and the rows of src/store/record.rs.
pub mod Rows
pub mod Sqlite
pub mod Statements
pub mod Loads
pub mod Writes
pub mod Committed
pub mod Deletions
pub mod Provenance
pub mod Blocked
