-- ===== src/Api.antt =====
-- internal/api: what the handlers compute; HTTP itself is not modelled.
pub mod Agents
pub mod Cancel
pub mod Claim
pub mod Events
pub mod Intake
mod Tests
