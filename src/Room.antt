-- ===== src/Room.antt =====
-- internal/room: the types of the room, and the projection of the agent's work.
pub mod Types
pub mod Projection
pub mod Live
pub mod Budget
pub mod Coordinator
mod Tests
