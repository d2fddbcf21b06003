-- ===== src/Wire.antt =====
-- compiler/ast_serial.py, the byte level: outcomes, the writer's and the reader's monads, the
-- packed numbers of the `struct` module and the UTF-8 codec.
pub mod Result
pub mod Bytes
pub mod Monad
pub mod Utf8
pub mod Reads
pub mod Total
