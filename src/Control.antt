-- ===== src/Control.antt =====
-- control.py: the write and read commands of the Pi, and the responses to them.
pub mod Commands
pub mod Frames
use fpga_pi_parallel_nids.Prelude.{
  ℕ, bit_and, [], ◌∷◌, ◌++◌, Result, ok, value_error, ◌>>=◌, ◌>>◌, guard, ◌==◌, length, get_or,
}
use fpga_pi_parallel_nids.Prelude.Bytes.{
  Bytes, zeros, from_bytes, slice, set_slice, to_bytes, bytes_of,
}
use fpga_pi_parallel_nids.Frames.{set_byte}
use fpga_pi_parallel_nids.Rules.{Rule, encode_rule, decode_rule}

abbrev pub frame_len : ℕ
frame_len = 32

abbrev pub response_magic : ℕ
response_magic = 0x5A

abbrev pub op_bloom_w : ℕ
op_bloom_w = 0x10

abbrev pub op_thresh_w : ℕ
op_thresh_w = 0x11

abbrev pub op_rule_w : ℕ
op_rule_w = 0x12

abbrev pub op_bloom_r : ℕ
op_bloom_r = 0x13

abbrev pub op_thresh_r : ℕ
op_thresh_r = 0x14

abbrev pub op_rule_r : ℕ
op_rule_r = 0x15

-- `_frame`
abbrev pub frame_of : ℕ → Bytes → Result Bytes
frame_of opcode payload =
    set_byte (set_slice (zeros frame_len) 0 (length payload) payload) 16 opcode

unfoldable pub encode_bloom_write : ℕ → ℕ → Result Bytes
encode_bloom_write addr value = do
  a ← to_bytes addr 2
  b ← to_bytes value 2
  frame_of op_bloom_w (a ++ b)

unfoldable pub encode_threshold_write : ℕ → ℕ → Result Bytes
encode_threshold_write tid value = do
  a ← bytes_of (bit_and tid 0xFF ∷ [])
  b ← to_bytes value 2
  frame_of op_thresh_w (a ++ b)

unfoldable pub encode_rule_write : ℕ → Rule → Result Bytes
unfolding encode_rule
encode_rule_write idx rule = do
  a ← to_bytes idx 2
  b ← encode_rule rule
  frame_of op_rule_w (a ++ b)

unfoldable pub encode_bloom_read : ℕ → Result Bytes
encode_bloom_read addr = do a ← to_bytes addr 2; frame_of op_bloom_r a

unfoldable pub encode_threshold_read : ℕ → Result Bytes
encode_threshold_read tid = do a ← bytes_of (bit_and tid 0xFF ∷ []); frame_of op_thresh_r a

unfoldable pub encode_rule_read : ℕ → Result Bytes
encode_rule_read idx = do a ← to_bytes idx 2; frame_of op_rule_r a

-- `_check`
unfoldable pub check : Bytes → Result (Unit {0})
check frame = do
  guard (length frame == frame_len) value_error
  guard (get_or frame 0 0 == response_magic) value_error

unfoldable pub decode_write_ack : Bytes → Result ℕ
unfolding check
decode_write_ack frame = do check frame; ok (get_or frame 1 0)

pub record BloomWord : Type 0 where
  pub addr : ℕ
  pub value : ℕ

unfoldable pub decode_bloom_read : Bytes → Result BloomWord
unfolding check
decode_bloom_read frame = do
  check frame
  ok (record { addr = from_bytes (slice frame 1 3); value = from_bytes (slice frame 3 5) })

pub record ThresholdValue : Type 0 where
  pub tid : ℕ
  pub value : ℕ

unfoldable pub decode_threshold_read : Bytes → Result ThresholdValue
unfolding check
decode_threshold_read frame = do
  check frame
  ok (record { tid = get_or frame 1 0; value = from_bytes (slice frame 2 4) })

pub record IndexedRule : Type 0 where
  pub idx : ℕ
  pub rule : Rule

unfoldable pub decode_rule_read : Bytes → Result IndexedRule
unfolding check decode_rule
decode_rule_read frame = do
  check frame
  rule ← decode_rule (slice frame 3 12)
  ok (record { idx = from_bytes (slice frame 1 3); rule = rule })
