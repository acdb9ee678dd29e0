-- ===== src/Db/AgentStore.antt =====
-- internal/db/agentstore.go: the table of agents. A function makes up to three statements, and other
-- requests may make theirs before its last one: `between` is what they do. A list in a JSON column is
-- stored as that list. The driver's own failures are not modelled.
pub mod Columns
pub mod Table
pub mod Rows
pub mod Pauses
pub mod Seen
pub mod Trimmed
mod Tests
