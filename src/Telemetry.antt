-- ===== src/Telemetry.antt =====
-- telemetry.py: the response frames with magic 0x5A, decoded and built. The floating-point
-- properties `distinct_estimate` and `cardinality` are not modelled.
pub mod RoundTrip
pub mod Received
use fpga_pi_parallel_nids.Prelude.{
  ℕ, ◌+◌, ◌-◌, bit_and, [], ◌∷◌, ◌++◌, Result, ok, raise, value_error, ◌>>=◌, ◌>>◌, guard, ◌==◌,
  if◌then◌else◌, length, get_or,
}
use fpga_pi_parallel_nids.Prelude.Bytes.{Bytes, zeros, from_bytes, slice, to_bytes}

abbrev pub telemetry_magic : ℕ
telemetry_magic = 0x5A

abbrev pub frame_len : ℕ
frame_len = 32

-- `_be`
abbrev pub be : Bytes → ℕ → ℕ → ℕ
be buf off n = from_bytes (slice buf off (off + n))

-- `_check`
unfoldable pub check : Bytes → Result (Unit {0})
check frame = do
  guard (length frame == frame_len) value_error
  guard (get_or frame 0 0 == telemetry_magic) value_error

pub record CmsResponse : Type 0 where
  pub key : ℕ
  pub count : ℕ

pub record SnapResponse : Type 0 where
  pub window : ℕ
  pub total : ℕ
  pub harmonic_sum : ℕ
  pub zeros : ℕ
  pub top1_count : ℕ
  pub top1_key : ℕ

pub record HllResponse : Type 0 where
  pub harmonic_sum : ℕ
  pub zeros : ℕ
  pub m : ℕ

unfoldable pub decode_query : Bytes → Result CmsResponse
unfolding check
decode_query frame = do
  check frame
  ok (record { key = be frame 1 4; count = bit_and (be frame 5 2) 0x3FFF })

unfoldable pub decode_snapshot : Bytes → Result SnapResponse
unfolding check
decode_snapshot frame = do
  check frame
  ok (record {
    window = be frame 1 2;
    total = be frame 3 4;
    harmonic_sum = be frame 7 6;
    zeros = bit_and (be frame 13 2) 0x0FFF;
    top1_count = bit_and (be frame 15 2) 0x3FFF;
    top1_key = be frame 17 4;
  })

unfoldable pub decode_hll : Bytes → Result HllResponse
unfolding check
decode_hll frame = do
  check frame
  ok (record {
    harmonic_sum = be frame 1 6;
    zeros = bit_and (be frame 7 2) 0x0FFF;
    m = be frame 9 2;
  })

-- `body + bytes(FRAME_LEN - len(body))`
abbrev pub padded : Bytes → Bytes
padded body = body ++ zeros (frame_len - length body)

unfoldable pub encode_query : ℕ → ℕ → Result Bytes
encode_query key count = do
  a ← to_bytes key 4
  b ← to_bytes (bit_and count 0x3FFF) 2
  ok (padded (((telemetry_magic ∷ []) ++ a) ++ b))

unfoldable pub encode_snapshot : ℕ → ℕ → ℕ → ℕ → ℕ → ℕ → Result Bytes
encode_snapshot window total harmonic_sum zeros top1_count top1_key = do
  a ← to_bytes window 2
  b ← to_bytes total 4
  c ← to_bytes harmonic_sum 6
  d ← to_bytes (bit_and zeros 0x0FFF) 2
  e ← to_bytes (bit_and top1_count 0x3FFF) 2
  f ← to_bytes top1_key 4
  ok (padded ((((((telemetry_magic ∷ []) ++ a) ++ b) ++ c) ++ d) ++ e ++ f))

unfoldable pub encode_hll : ℕ → ℕ → ℕ → Result Bytes
encode_hll harmonic_sum zeros m = do
  a ← to_bytes harmonic_sum 6
  b ← to_bytes (bit_and zeros 0x0FFF) 2
  c ← to_bytes m 2
  ok (padded ((((telemetry_magic ∷ []) ++ a) ++ b) ++ c))
