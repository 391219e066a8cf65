-- ===== src/Tests.antt =====
-- Small brokers, and what the code does with them.
pub mod Data
pub mod Runs
pub mod Messages
pub mod Parts
pub mod Workers
pub mod Proxies
pub mod Clients
pub mod Notifications
