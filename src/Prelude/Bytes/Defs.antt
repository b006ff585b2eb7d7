-- ===== src/Prelude/Bytes/Defs.antt =====
-- `bytes(...)`, `int.to_bytes`, `int.from_bytes`, slices, and the fields of `struct`.
use Prim.Native.Nat.{ℕ, zero, suc, ◌+◌, ◌-◌, ◌*◌, ◌/◌, ◌%◌, ◌^◌, ◌<◌}
use mathlib.Core.Bool.{Bool, true, false, ◌&&◌, not}
use mathlib.Core.List.{List, [], ◌∷◌, ◌++◌}
use fpga_pi_parallel_nids.Prelude.Tests.{ltb, ◌==◌, if◌then◌else◌}
use fpga_pi_parallel_nids.Prelude.Lists.{take, drop, replicate}
use fpga_pi_parallel_nids.Prelude.Errors.{Result, ok, raise, value_error, overflow_error}

abbrev pub Bytes : Type 0
Bytes = List ℕ

abbrev pub IsByte : ℕ → Type 0
IsByte b = b < 256

-- `bool(n)`
abbrev pub truthy : ℕ → Bool
truthy n = not (n == 0)

-- A `bool` used as a number.
abbrev pub to_int : Bool → ℕ
to_int true = 1
to_int false = 0

abbrev pub all_bytes : Bytes → Bool
all_bytes [] = true
all_bytes (b ∷ bs) = ltb b 256 && all_bytes bs

-- `bytes([…])`
abbrev pub bytes_of : Bytes → Result Bytes
bytes_of bs = if all_bytes bs then ok bs else raise value_error

-- `bytes(n)`
abbrev pub zeros : ℕ → Bytes
zeros n = replicate n 0

-- The `n` low bytes of `x`, most significant first.
abbrev pub be_digits : ℕ → ℕ → Bytes
be_digits zero x = []
be_digits (suc n) x = (x / 256 ^ n % 256) ∷ be_digits n x

-- `x.to_bytes(n, "big")`
abbrev pub to_bytes : ℕ → ℕ → Result Bytes
to_bytes x n = if ltb x (256 ^ n) then ok (be_digits n x) else raise overflow_error

abbrev pub from_bytes_acc : ℕ → Bytes → ℕ
from_bytes_acc acc [] = acc
from_bytes_acc acc (b ∷ bs) = from_bytes_acc (acc * 256 + b) bs

-- `int.from_bytes(bs, "big")`
abbrev pub from_bytes : Bytes → ℕ
from_bytes bs = from_bytes_acc 0 bs

-- `bs[lo:hi]`, for `lo` at most `hi`
abbrev pub slice : Bytes → ℕ → ℕ → Bytes
slice bs lo hi = take (hi - lo) (drop lo bs)

-- `bs[lo:hi] = new` on a `bytearray`, for `lo` at most `hi`
abbrev pub set_slice : Bytes → ℕ → ℕ → Bytes → Bytes
set_slice bs lo hi new = take lo bs ++ (new ++ drop hi bs)
