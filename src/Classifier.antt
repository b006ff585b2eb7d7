-- ===== src/Classifier.antt =====
-- classifier.py: the CPU reference classifier, from a header to a verdict frame.
pub mod Verdicts
use fpga_pi_parallel_nids.Prelude.{
  ℕ, max, Bool, ◌||◌, Result, ok, raise, struct_error, ◌>>=◌, ltb, ◌==◌, if◌then◌else◌, length,
  get_or, take,
}
use fpga_pi_parallel_nids.Prelude.Bytes.{Bytes, from_bytes, slice}
use fpga_pi_parallel_nids.Bloom.{BloomFilter, member}
use fpga_pi_parallel_nids.ScanRate
use fpga_pi_parallel_nids.ScanRate.{ScanRateTable}
use fpga_pi_parallel_nids.Thresholds
use fpga_pi_parallel_nids.Thresholds.{Thresholds}
use fpga_pi_parallel_nids.Verdict.{encode_verdict}

abbrev pub bloom_sev : ℕ
bloom_sev = 3

abbrev pub scan_sev : ℕ
scan_sev = 2

abbrev pub rate_sev : ℕ
rate_sev = 2

-- What `_parse` returns.
pub record Header : Type 0 where
  pub src_ip : ℕ
  pub dst_ip : ℕ
  pub src_port : ℕ
  pub dst_port : ℕ
  pub proto : ℕ
  pub flags : ℕ
  pub size : ℕ

-- The fields of the format ">IIHHBBH", and `_HDR.unpack(first)`.
abbrev pub fields_of : Bytes → Header
fields_of first = record {
  src_ip = from_bytes (slice first 0 4);
  dst_ip = from_bytes (slice first 4 8);
  src_port = from_bytes (slice first 8 10);
  dst_port = from_bytes (slice first 10 12);
  proto = get_or first 12 0;
  flags = get_or first 13 0;
  size = from_bytes (slice first 14 16);
}

unfoldable pub unpack : Bytes → Result Header
unpack first = if length first == 16 then ok (fields_of first) else raise struct_error

unfoldable pub parse : Bytes → Result Header
parse header = unpack (take 16 header)

pub record Classifier : Type 0 where
  pub bloom : BloomFilter
  pub table : ScanRateTable

unfoldable pub init : BloomFilter → Thresholds → Classifier
init bloom thresholds = record { bloom = bloom; table = ScanRate.init thresholds }

abbrev pub packet_of : Header → ℕ → ScanRate.Packet
packet_of h frame_count = record {
  src_ip = h.src_ip;
  dst_ip = h.dst_ip;
  dst_port = h.dst_port;
  proto = h.proto;
  tcp_flags = h.flags;
  frame_count = frame_count;
}

-- `classify` on a parsed header.
unfoldable pub classify_parsed : Classifier → Header → ℕ → ℕ → Result (Classifier × Bytes)
classify_parsed c h seq frame_count =
    let bloom_hit = member c.bloom h.src_ip || member c.bloom h.dst_ip in
    let (table, (port_scan, rate)) = ScanRate.update c.table (packet_of h frame_count) in
    let sev =
      max (max (if bloom_hit then bloom_sev else 0) (if port_scan then scan_sev else 0))
        (if rate then rate_sev else 0) in
    let any_hit = bloom_hit || (port_scan || rate) in
    do
      frame ← encode_verdict bloom_hit port_scan rate Bool.false sev any_hit seq
      ok (record c { table = table }, frame)

unfoldable pub classify : Classifier → Bytes → ℕ → ℕ → Result (Classifier × Bytes)
classify c header seq frame_count = do h ← parse header; classify_parsed c h seq frame_count

unfoldable pub classify_header : Bytes → BloomFilter → ℕ → Result Bytes
classify_header header bloom seq = do
  (_, frame) ← classify (init bloom Thresholds.init) header seq 0
  ok frame
