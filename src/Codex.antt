-- ===== src/Codex.antt =====
-- internal/codex: the connection with the agent's process.
pub mod Rpc
pub mod Lines
pub mod Ring
pub mod Supervisor
pub mod Restart
mod Tests
