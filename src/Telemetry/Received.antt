-- ===== src/Telemetry/Received.antt =====
-- telemetry.py: what a frame of 32 bytes decodes to, whoever sent it.
use fpga_pi_parallel_nids.Prelude.{◌%◌, ◌^◌, ◌<◌, ◌≡◌, ok, arith, length, get_or, All}
use fpga_pi_parallel_nids.Prelude.Bits.{bit_and_mask}
use fpga_pi_parallel_nids.Prelude.Bytes.{Bytes, IsByte, from_bytes-slice-lt}
use fpga_pi_parallel_nids.Telemetry.{SnapResponse, be, decode_snapshot}

-- The fields of a snapshot fit their widths.
pub record IsReceived (s : SnapResponse) : Type 0 where
  pub key_bits : s.top1_key < 2 ^ 32
  pub count_bits : s.top1_count < 2 ^ 14
  pub zero_bits : s.zeros < 2 ^ 12

-- A frame of 32 bytes with the magic decodes, and its fields fit.
pub decode_snapshot-IsReceived :
    (frame : Bytes)
    → length frame ≡ 32
    → All IsByte frame
    → get_or frame 0 0 ≡ 0x5A
    → (s : SnapResponse) × (decode_snapshot frame ≡ ok s) × IsReceived s
unfolding decode_snapshot
decode_snapshot-IsReceived frame size bytes magic = (
  record {
    window = be frame 1 2;
    total = be frame 3 4;
    harmonic_sum = be frame 7 6;
    zeros = be frame 13 2 % 2 ^ 12;
    top1_count = be frame 15 2 % 2 ^ 14;
    top1_key = be frame 17 4;
  },
  ground (arith, bit_and_mask 12 (be frame 13 2), bit_and_mask 14 (be frame 15 2)),
  record {
    key_bits = from_bytes-slice-lt frame 17 21 bytes;
    count_bits = omega arith;
    zero_bits = omega arith;
  },
)
