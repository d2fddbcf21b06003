-- ===== src/AstSerial.antt =====
-- compiler/ast_serial.py
pub mod Tags
pub mod Fields
pub mod Writer
pub mod Value
pub mod Reader
pub mod ReadNode
pub mod Describe
pub mod RoundTrip
pub mod Total
pub mod Errors
