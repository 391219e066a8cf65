-- ===== src/Proxy.antt =====
-- The client proxy of liblhcluster/src/clientproxy.cxx and its buffer of requests: it stands between
-- the clients of a process and the broker.
pub mod Buffer
pub mod Pending
pub mod State
pub mod Parse
pub mod Handlers
pub mod Reactor
pub mod Kept
pub mod Life
pub mod Lasting
pub mod Passage
