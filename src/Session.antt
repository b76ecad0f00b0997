-- ===== src/Session.antt =====
-- session.rs: the configuration, and a connection as a state with a step for each event.
pub mod Config
pub mod Valid
pub mod Value
pub mod Framing
pub mod Peers
pub mod Connection
pub mod Runs
mod Tests
