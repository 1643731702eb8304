-- ===== src/Store/Wellformed.antt =====
-- What holds of the database between two commands, and how a command may change a message.
pub mod Log
pub mod Messages
