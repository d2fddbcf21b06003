-- ===== src/AstSerial/RoundTrip.antt =====
-- What `AstSerializer` writes, `AstDeserializer` reads back.
mod Fields
mod Nodes
pub mod Trees
