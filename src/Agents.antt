-- ===== src/Agents.antt =====
-- internal/agents: what the server knows of its agents.
pub mod Registry
pub mod Polls
mod Tests
