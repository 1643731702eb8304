-- ===== src/Store.antt =====
-- The package internal/store: a database of one or more rooms, as a record of tables.
pub mod Tables
pub mod Rows
pub mod Checks
pub mod Tasks
pub mod Accept
pub mod Lifecycle
pub mod Rooms
pub mod Items
pub mod Connections
pub mod Queries
pub mod Recovery
pub mod Resolve
pub mod Moves
pub mod Wellformed
pub mod Invariant
pub mod Commands
pub mod History
pub mod Replies
pub mod Told
pub mod Tests
