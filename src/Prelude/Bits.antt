-- ===== src/Prelude/Bits.antt =====
-- Python's `&`, `|`, `^` and `bin(x).count("1")` on numbers, bit by bit.
mod Step
mod Laws
mod Pop
pub use Step.{bit_and_step, bit_or_step, bit_xor_step}
unfoldable pub use Laws.*
unfoldable pub use Pop.*
