-- ===== src/Daemon.antt =====
-- internal/daemon: what the daemon sends to the clients of the room.
pub mod Hub
pub mod Roster
pub mod Queue
pub mod Delivery
pub mod Replay
pub mod Catchup
pub mod Live
mod Tests
