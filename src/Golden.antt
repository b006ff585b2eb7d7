-- ===== src/Golden.antt =====
-- scenarios.py and gen_verdict_golden.py: the golden stream of headers and its verdicts from the
-- reference classifier. A header is its bytes, where the source keeps them as a hexadecimal text.
pub mod Padding
use fpga_pi_parallel_nids.Prelude.{
  ℕ, zero, suc, ◌+◌, ◌%◌, bit_and, List, [], ◌∷◌, ◌++◌, map, Option, none, some, Result, ok, raise,
  ◌>>=◌, ◌==◌, if◌then◌else◌, length, take, drop,
}
use fpga_pi_parallel_nids.Prelude.Bytes.{Bytes, be_digits}
use fpga_pi_parallel_nids.Bloom
use fpga_pi_parallel_nids.Thresholds
use fpga_pi_parallel_nids.Frames.{hdr}
use fpga_pi_parallel_nids.Classifier
use fpga_pi_parallel_nids.Classifier.{Classifier, classify}

-- The names of `SCENARIOS`, "v1bloom" and "pad".
pub data Label : Type 0 where
  benign vscan flood hscan boundary combined v1bloom pad : Label

-- One call of `hdr`, with the default size.
pub record Call : Type 0 where
  pub src : ℕ
  pub dst : ℕ
  pub sport : ℕ
  pub dport : ℕ
  pub proto : ℕ
  pub flags : ℕ

abbrev pub call : ℕ → ℕ → ℕ → ℕ → ℕ → ℕ → Call
call src dst sport dport proto flags = record {
  src = src;
  dst = dst;
  sport = sport;
  dport = dport;
  proto = proto;
  flags = flags;
}

unfoldable pub hdr_of : Call → Result Bytes
hdr_of c = hdr c.src c.dst c.sport c.dport c.proto c.flags 60

abbrev pub hdrs : List Call → Result (List Bytes)
hdrs [] = ok []
hdrs (c ∷ cs) = do h ← hdr_of c; hs ← hdrs cs; ok (h ∷ hs)

-- `range(start, start + n)`
abbrev pub range_from : ℕ → ℕ → List ℕ
range_from start zero = []
range_from start (suc n) = start ∷ range_from (start + 1) n

abbrev pub benign_calls : List Call
benign_calls =
    call 0x0A000001 0x0A000002 12345 443 6 0x18
    ∷ call 0x0A000003 0x0A000004 53 53 17 0x00
    ∷ call 0x0A000005 0x08080808 40000 443 6 0x18
    ∷ []

abbrev pub vscan_calls : List Call
vscan_calls = map (λ p. call 0xCB007106 0xC0000201 40000 p 6 0x02) (1 ∷ 3 ∷ 7 ∷ 13 ∷ 21 ∷ [])

abbrev pub flood_calls : List Call
flood_calls = map (λ i. call 0xC0000220 0xC0000221 (1000 + i) 9999 17 0x00) (range_from 0 8)

abbrev pub hscan_calls : List Call
hscan_calls =
    map (λ d. call 0xCB007107 d 40000 8080 6 0x02)
      (0xC0000201 ∷ 0xC0000202 ∷ 0xC0000203 ∷ 0xC0000204 ∷ 0xC0000205 ∷ [])

abbrev pub bscan_src : ℕ
bscan_src = 0xCB007108

abbrev pub bscan_ports : List ℕ
bscan_ports = 1 ∷ 2 ∷ 3 ∷ 4 ∷ 6 ∷ []

abbrev pub bscan_fillers : List ℕ
bscan_fillers = range_from 0x0A000010 12

abbrev pub bscan_call : ℕ → Call
bscan_call p = call bscan_src 0xC0000201 40000 p 6 0x02

abbrev pub boundary_calls : List Call
boundary_calls =
    (map bscan_call (take 4 bscan_ports)
      ++ map (λ f. call f 0xC0000202 5000 53 17 0x00) bscan_fillers)
    ++ map bscan_call (drop 4 bscan_ports)

abbrev pub boundary_one_window_calls : List Call
boundary_one_window_calls = map bscan_call bscan_ports

abbrev pub combined_calls : List Call
combined_calls = map (λ i. call 0xC6336401 0xC0000221 (1000 + i) 9999 17 0x00) (range_from 0 8)

-- `SCENARIOS[name]`
unfoldable pub scenario : Label → Result (List Bytes)
scenario benign = hdrs benign_calls
scenario vscan = hdrs vscan_calls
scenario flood = hdrs flood_calls
scenario hscan = hdrs hscan_calls
scenario boundary = hdrs boundary_calls
scenario combined = hdrs combined_calls
scenario v1bloom = ok []
scenario pad = ok []

abbrev pub c2_set : List ℕ
c2_set = 0xC6336401 ∷ 0xCB007105 ∷ 0xC0000263 ∷ []

abbrev pub v1_bloom_inputs : List Bytes
v1_bloom_inputs =
    be_digits 32 0xc0000201c0000202303900500602003c00000000000000000000000000000000
    ∷ be_digits 32 0xc0000201c6336401303901bb0602003c00000000000000000000000000000000
    ∷ be_digits 32 0xcb007105c0000201303900500602003c00000000000000000000000000000000
    ∷ be_digits 32 0xc0000232c0000263303900351100003c00000000000000000000000000000000
    ∷ be_digits 32 0x0a0000010a000002303900351100003c00000000000000000000000000000000
    ∷ be_digits 32 0xc6336401cb007105303900500602003c00000000000000000000000000000000
    ∷ []

abbrev pub order : List Label
order = benign ∷ vscan ∷ flood ∷ hscan ∷ boundary ∷ combined ∷ []

abbrev pub Stream : Type 0
Stream = List (Label × Bytes)

abbrev pub labelled : Label → List Bytes → Stream
labelled name hs = map (λ h. (name, h)) hs

abbrev pub pad_call : ℕ → Call
pad_call fill = call (0x0A001000 + fill) 0xC0000202 5000 53 17 0x00

-- The stream and the counter after the padding; `none` means that the fuel ran out.
unfoldable pub pad_to_window : ℕ → Stream → ℕ → Option (Result (Stream × ℕ))
pad_to_window zero stream fill = none
pad_to_window (suc fuel) stream fill =
    if length stream % 16 == 0 then some (ok (stream, fill)) else elim (hdr_of (pad_call fill)) [
      | raise e ↦ some (raise e)
      | ok h ↦ pad_to_window fuel (stream ++ ((pad, h) ∷ [])) (fill + 1)
    ]

-- Fuel for one call of `pad_to_window`, which makes at most 15 turns and a test.
abbrev pub pad_fuel : ℕ
pad_fuel = 16

unfoldable pub add_scenarios : List Label → Stream → ℕ → Option (Result Stream)
add_scenarios [] stream fill = some (ok stream)
add_scenarios (name ∷ names) stream fill = elim (pad_to_window pad_fuel stream fill) [
  | none ↦ none
  | some (raise e) ↦ some (raise e)
  | some (ok (padded, next)) ↦ elim (scenario name) [
    | raise e ↦ some (raise e)
    | ok hs ↦ add_scenarios names (padded ++ labelled name hs) next
  ]
]

unfoldable pub build_stream : Option (Result Stream)
build_stream = add_scenarios order (labelled v1bloom v1_bloom_inputs) 0

-- A row of the golden table: the label, the index, the header and the verdict.
pub record GoldenRow : Type 0 where
  pub label : Label
  pub index : ℕ
  pub header : Bytes
  pub verdict : Bytes

unfoldable pub reference : Classifier
reference = Classifier.init (Bloom.add_all Bloom.init c2_set) Thresholds.init

-- The loop of `expected_rows`, from the index `i`.
unfoldable pub rows_from : Classifier → ℕ → Stream → Result (List GoldenRow)
rows_from clf i [] = ok []
rows_from clf i ((label, h) ∷ stream) = do
  (after, v) ← classify clf h (bit_and i 0xFF + 1) i
  rows ← rows_from after (i + 1) stream
  ok (record { label = label; index = i; header = h; verdict = v } ∷ rows)

unfoldable pub expected_rows : Option (Result (List GoldenRow))
expected_rows = elim build_stream [
  | none ↦ none
  | some (raise e) ↦ some (raise e)
  | some (ok stream) ↦ some (rows_from reference 0 stream)
]
