-- ===== src/Worker.antt =====
-- The worker of liblhcluster/src/worker.cxx: a reactor that forwards the broker's requests to the
-- request processor and the processor's responses to the broker.
pub mod State
pub mod Parse
pub mod Requests
pub mod Messages
pub mod Reactor
pub mod Tracking
pub mod Handlers
pub mod Invariant
pub mod Service
pub mod Outcomes
pub mod Journey
pub mod Life
pub mod Rounds
pub mod Broker
