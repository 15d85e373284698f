-- ===== src/Files.antt =====
-- Paths and texts as Rust's standard library reads them, and the path helpers of
-- src/secure_file.rs and src/config_runtime.rs.
pub mod Utf8
pub mod FilePath
pub mod Lexical
pub mod Expand
