-- ===== src/Store/Replies.antt =====
-- What the commands answer, and when they refuse.
pub mod Acceptance
pub mod Once
pub mod Decision
pub mod Dispatch
pub mod Acks
pub mod TaskStates
