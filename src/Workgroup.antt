-- ===== src/Workgroup.antt =====
-- internal/workgroup: the agents of a group, and the plans of their work.
pub mod Config
pub mod Plan
pub mod Order
pub mod Complete
pub mod Promise
pub mod Members
pub mod Execute
mod Samples
mod Tests
