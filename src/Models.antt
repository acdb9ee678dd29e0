-- ===== src/Models.antt =====
-- internal/models/models.go: the values that the other packages exchange, and the rules on them.
pub mod Status
pub mod Agent
pub mod Project
pub mod Texts
pub mod Report
mod Tests
