-- ===== src/TypeMap.antt =====
-- compiler/type_map.py and its port native/src/native_type_map.py: the C type of an annotation.
pub mod Mangle
pub mod Stage0
pub mod Native
pub mod Bases
pub mod Agree
pub mod Extract
pub mod Pointers
