-- ===== src/Control.antt =====
-- The control socket of the daemon: src/control_api.rs, and the lines that src/prompt/protocol.rs
-- exchanges with the prompt agent.
pub mod Lines
pub mod Requests
pub mod Authority
