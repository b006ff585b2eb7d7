-- ===== src/Prelude/Bytes.antt =====
-- Python's `bytes` and `bytearray` as lists of numbers below 256, with the built-in operations
-- that the program uses on them.
mod Defs
mod Laws
unfoldable pub use Defs.*
pub use Laws.*
