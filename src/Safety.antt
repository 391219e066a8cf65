-- ===== src/Safety.antt =====
-- The pointers and iterators that the handlers of broker.cxx follow, over any run of the broker.
pub mod Rules
pub mod Actions
pub mod Handlers
pub mod Clients
pub mod Rounds
pub mod Deaths
pub mod Leaving
pub mod Consistent
pub mod Ready
pub mod Entering
pub mod Pulse
pub mod Answers
pub mod Messages
pub mod Reactor
pub mod Run
