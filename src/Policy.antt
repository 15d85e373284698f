-- ===== src/Policy.antt =====
-- The policy engine: src/policy/ and the repository of learned rules behind it.
pub mod Rule
pub mod Session
pub mod Entry
pub mod Repository
pub mod Manager
pub mod Engine
