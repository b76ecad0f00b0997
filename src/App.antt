-- ===== src/App.antt =====
-- app.rs around the table: the file that `flush` writes, the tasks that `start` and `stop` control, the
-- streams of the handlers, and the interning pool.
pub mod Flush
pub mod State
pub mod Pool
pub mod Streams
pub mod Http
pub mod Machine
mod Tests
