-- ===== src/Broker.antt =====
-- liblhcluster/src/broker.cxx: the broker, one module for each group of its handlers.
pub mod State
pub mod Parse
pub mod Replies
pub mod Forward
pub mod Client
pub mod Availability
pub mod Death
pub mod Worker
pub mod Reactor
pub mod Reading
pub mod Dispatch
pub mod Requests
pub mod Waiting
pub mod Undo
pub mod Sending
pub mod Taken
pub mod Room
pub mod Keeping
pub mod Handover
pub mod Rounds
