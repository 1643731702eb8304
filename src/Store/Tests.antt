-- ===== src/Store/Tests.antt =====
-- The theorems on internal/store at concrete inputs.
pub mod Data
pub mod Runs
pub mod Items
pub mod Answers
pub mod Steps
pub mod Decisions
