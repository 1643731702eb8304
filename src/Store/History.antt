-- ===== src/Store/History.antt =====
-- What holds after any history of commands, over the invariant of one command.
pub mod Steps
pub mod Messages
pub mod Log
pub mod Growth
