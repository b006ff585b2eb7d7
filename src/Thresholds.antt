-- ===== src/Thresholds.antt =====
-- thresholds_model.py: the register file of the runtime thresholds.
use fpga_pi_parallel_nids.Prelude.{
  ℕ, ◌%◌, ◌≤◌, ◌<◌, bit_and, ◌≡◌, ◌&&◌, List, [], ◌∷◌, arith, ◌==◌, if◌then◌else◌,
}
use fpga_pi_parallel_nids.Prelude.Bits.{bit_and_mask}
use fpga_pi_parallel_nids.Prelude.Dict.{contains, insert, get_default, get_default-insert}

abbrev pub port_thresh : ℕ
port_thresh = 0x00

abbrev pub host_thresh : ℕ
host_thresh = 0x01

abbrev pub rate_thresh : ℕ
rate_thresh = 0x02

abbrev pub rule_epoch : ℕ
rule_epoch = 0x03

abbrev pub defaults : List (ℕ × ℕ)
defaults = (port_thresh, 5) ∷ (host_thresh, 5) ∷ (rate_thresh, 8) ∷ (rule_epoch, 0) ∷ []

pub record Thresholds : Type 0 where
  pub values : List (ℕ × ℕ)

unfoldable pub init : Thresholds
init = record { values = defaults }

unfoldable pub write : Thresholds → ℕ → ℕ → Thresholds
write t tid value =
    if contains defaults tid
    then record t { values = insert t.values tid (bit_and value 0xFFFF) }
    else t

unfoldable pub read : Thresholds → ℕ → ℕ
read t tid = get_default t.values tid 0

-- What a read gives after a write: the value modulo 2 ** 16 at the written register if that is one
-- of the four, and otherwise what was there before.
pub read-write :
    (t : Thresholds) (tid value j : ℕ)
    → read (write t tid value) j
      ≡ (if contains defaults tid && tid == j then value % 65536 else read t j)
unfolding read write
read-write t tid value j =
    ground
      (arith, bit_and_mask 16 value, get_default-insert t.values tid j (bit_and value 0xFFFF) 0)

-- The registers that `values` can hold: the four, each with 16 bits, and nothing else.
pub record IsValid (t : Thresholds) : Type 0 where
  pub bounded : (tid : ℕ) → read t tid < 65536
  pub unknown : (tid : ℕ) → 4 ≤ tid → read t tid ≡ 0

pub init-IsValid : IsValid init
unfolding read init
init-IsValid = record { bounded = λ tid. ground arith; unknown = λ tid h. ground arith }

-- Writing any value to any identifier keeps every register within 16 bits and every unknown
-- identifier at 0.
pub write-IsValid : (t : Thresholds) (tid value : ℕ) → IsValid t → IsValid (write t tid value)
write-IsValid t tid value v = record {
  bounded = λ j. ground (arith, read-write t tid value j, v.bounded j);
  unknown = λ j h. ground (arith, read-write t tid value j, v.unknown j);
}
