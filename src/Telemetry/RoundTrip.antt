-- ===== src/Telemetry/RoundTrip.antt =====
-- telemetry.py: decoding what was built.
use fpga_pi_parallel_nids.Prelude.{
  ℕ, ◌%◌, ◌^◌, ◌<◌, bit_and, ◌≡◌, ◌&&◌, ◌∷◌, ◌++◌, ok, raise, overflow_error, ◌>>=◌, arith, ltb,
  if◌then◌else◌,
}
use fpga_pi_parallel_nids.Prelude.Bits.{bit_and_mask}
use fpga_pi_parallel_nids.Prelude.Bytes.{Bytes, be_digits, zeros, from_bytes-be_digits}
use fpga_pi_parallel_nids.Telemetry.{
  telemetry_magic, decode_query, decode_snapshot, decode_hll, encode_query, encode_snapshot,
  encode_hll, SnapResponse,
}

-- A point-query response decodes to its key and its count modulo 2 ** 14; a key of more than 32
-- bits raises OverflowError when it is built.
pub decode_query-encode_query :
    (key count : ℕ)
    → (encode_query key count >>= decode_query) ≡ (
        if ltb key (2 ^ 32)
        then ok (record { key = key; count = count % 2 ^ 14 })
        else raise overflow_error)
unfolding encode_query decode_query
decode_query-encode_query key count =
    ground (arith, bit_and_mask 14 count, bit_and_mask 14 (bit_and count 0x3FFF))

-- A live HyperLogLog response decodes to its sum, its count of empty registers modulo 2 ** 12, and
-- the number of registers; a sum of more than 48 bits or a number of more than 16 raises
-- OverflowError when it is built.
pub decode_hll-encode_hll :
    (harmonic_sum zeros m : ℕ)
    → (encode_hll harmonic_sum zeros m >>= decode_hll) ≡ (
        if ltb harmonic_sum (2 ^ 48) && ltb m (2 ^ 16)
        then ok (record { harmonic_sum = harmonic_sum; zeros = zeros % 2 ^ 12; m = m })
        else raise overflow_error)
unfolding encode_hll decode_hll
decode_hll-encode_hll harmonic_sum zeros m =
    ground (arith, bit_and_mask 12 zeros, bit_and_mask 12 (bit_and zeros 0x0FFF))

-- The frame of the protocol for a snapshot.
abbrev pub snapshot_frame : SnapResponse → Bytes
snapshot_frame s =
    telemetry_magic
    ∷ (be_digits 2 s.window
        ++ (be_digits 4 s.total
            ++ (be_digits 6 s.harmonic_sum
                ++ (be_digits 2 s.zeros
                    ++ (be_digits 2 s.top1_count ++ (be_digits 4 s.top1_key ++ zeros 11))))))

abbrev pub Fits : SnapResponse → Type 0
Fits s =
    (s.window < 256 ^ 2)
    × (s.total < 256 ^ 4)
    × (s.harmonic_sum < 256 ^ 6)
    × (s.zeros < 2 ^ 12)
    × (s.top1_count < 2 ^ 14)
    × (s.top1_key < 256 ^ 4)

decode_snapshot-snapshot_frame :
    (s : SnapResponse) → Fits s → decode_snapshot (snapshot_frame s) ≡ ok s
unfolding decode_snapshot
decode_snapshot-snapshot_frame s fits =
    rw
      (
        from_bytes-be_digits 2 s.window fits.0,
        from_bytes-be_digits 4 s.total fits.1,
        from_bytes-be_digits 6 s.harmonic_sum fits.2,
        from_bytes-be_digits 2 s.zeros (omega arith),
        from_bytes-be_digits 2 s.top1_count (omega arith),
        from_bytes-be_digits 4 s.top1_key fits.5,
      )
      (ground (arith, bit_and_mask 12 s.zeros, bit_and_mask 14 s.top1_count))

abbrev truncated : ℕ → ℕ → ℕ → ℕ → ℕ → ℕ → SnapResponse
truncated window total harmonic_sum zeros top1_count top1_key = record {
  window = window;
  total = total;
  harmonic_sum = harmonic_sum;
  zeros = zeros % 2 ^ 12;
  top1_count = top1_count % 2 ^ 14;
  top1_key = top1_key;
}

encode_snapshot_lem :
    (window total harmonic_sum zeros top1_count top1_key : ℕ)
    → encode_snapshot window total harmonic_sum zeros top1_count top1_key ≡ (
        if ltb window (2 ^ 16)
          && (ltb total (2 ^ 32) && (ltb harmonic_sum (2 ^ 48) && ltb top1_key (2 ^ 32)))
        then ok (snapshot_frame (truncated window total harmonic_sum zeros top1_count top1_key))
        else raise overflow_error)
unfolding encode_snapshot
encode_snapshot_lem window total harmonic_sum zeros top1_count top1_key =
    ground (arith, bit_and_mask 12 zeros, bit_and_mask 14 top1_count)

-- A snapshot response decodes to its fields, the count of empty registers modulo 2 ** 12 and the
-- top count modulo 2 ** 14; a field that does not fit raises OverflowError when it is built.
pub decode_snapshot-encode_snapshot :
    (window total harmonic_sum zeros top1_count top1_key : ℕ)
    → (encode_snapshot window total harmonic_sum zeros top1_count top1_key >>= decode_snapshot) ≡ (
        if ltb window (2 ^ 16)
          && (ltb total (2 ^ 32) && (ltb harmonic_sum (2 ^ 48) && ltb top1_key (2 ^ 32)))
        then ok (record {
          window = window;
          total = total;
          harmonic_sum = harmonic_sum;
          zeros = zeros % 2 ^ 12;
          top1_count = top1_count % 2 ^ 14;
          top1_key = top1_key;
        })
        else raise overflow_error)
decode_snapshot-encode_snapshot window total harmonic_sum zeros top1_count top1_key =
    rw (encode_snapshot_lem window total harmonic_sum zeros top1_count top1_key) (
      ground (
        arith,
        decode_snapshot-snapshot_frame
            (truncated window total harmonic_sum zeros top1_count top1_key),
      ))
