-- ===== src/Db.antt =====
-- internal/db: the tables that the other packages share, and the transactions on them. A transaction
-- that fails leaves the store as it was; the driver's own failures are not modelled.
pub mod BuildLog
pub mod Builds
pub mod Queue
pub mod AgentStore
pub mod Outbox
pub mod Samples
mod Tests
