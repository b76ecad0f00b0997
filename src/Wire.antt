-- ===== src/Wire.antt =====
-- src/wire.rs with src/wire_helpers.rs, which it includes: the BGP messages on the wire.
pub mod Result
pub mod Cursor
pub mod Address
pub mod Message
pub mod Prefix
pub mod FlowSpec
pub mod Community
pub mod Attribute
pub mod Update
mod Tests
