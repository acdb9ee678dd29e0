-- ===== src/Notifications.antt =====
-- internal/notifications: the delivery of the queue of Db.Outbox through a relay. A time is a number of
-- nanoseconds, where the queue has seconds. What the relay answers, and what the rest of the server does to
-- the store during a request, are arguments. The copies of the worker's two gates in the settings, the
-- observation of agents and the text of a payload are not modelled.
pub mod Relay
pub mod Worker
pub mod Backoff
pub mod Posts
pub mod Sweeps
mod Tests
