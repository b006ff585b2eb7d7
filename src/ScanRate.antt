-- ===== src/ScanRate.antt =====
-- scan_rate.py: the per-source state table of v1.1, 256 buckets with two 16-bit fingerprints.
pub mod Table
pub mod Window
pub mod Limits
use fpga_pi_parallel_nids.Prelude.{
  ℕ, ◌+◌, ◌*◌, ◌/◌, ◌^◌, min, bit_and, bit_or, Bool, not, ◌&&◌, ◌||◌, List, leb, ◌==◌,
  if◌then◌else◌, get_or, set, replicate,
}
use fpga_pi_parallel_nids.Prelude.Bits.{popcount}
use fpga_pi_parallel_nids.Prelude.Bytes.{truthy}
use fpga_pi_parallel_nids.Thresholds.{Thresholds, port_thresh, host_thresh, rate_thresh, read}

abbrev pub a1 : ℕ
a1 = 0x9E3779B1

abbrev pub a2 : ℕ
a2 = 0x85EBCA77

abbrev pub mask32 : ℕ
mask32 = 0xFFFFFFFF

abbrev pub window_shift : ℕ
window_shift = 4

abbrev pub num_buckets : ℕ
num_buckets = 256

unfoldable pub bucket : ℕ → ℕ
bucket src_ip = bit_and (src_ip * a1) mask32 / 2 ^ 24

unfoldable pub port_bit : ℕ → ℕ
port_bit dst_port = bit_and (dst_port * a2) mask32 / 2 ^ 28

unfoldable pub host_bit : ℕ → ℕ
host_bit dst_ip = bit_and (dst_ip * a1) mask32 / 2 ^ 28

unfoldable pub epoch : ℕ → ℕ
epoch frame_count = bit_and (frame_count / 2 ^ window_shift) 0xF

unfoldable pub syn_gate : ℕ → ℕ → Bool
syn_gate proto tcp_flags =
    proto == 6 && (truthy (bit_and tcp_flags 0x02) && not (truthy (bit_and tcp_flags 0x10)))

pub record Entry : Type 0 where
  pub epoch : ℕ
  pub port_fp : ℕ
  pub host_fp : ℕ
  pub pkt_count : ℕ

abbrev pub blank : ℕ → Entry
blank ep = record { epoch = ep; port_fp = 0; host_fp = 0; pkt_count = 0 }

-- The keyword arguments of `update`.
pub record Packet : Type 0 where
  pub src_ip : ℕ
  pub dst_ip : ℕ
  pub dst_port : ℕ
  pub proto : ℕ
  pub tcp_flags : ℕ
  pub frame_count : ℕ

pub record ScanRateTable : Type 0 where
  pub t : List Entry
  pub thresholds : Thresholds

unfoldable pub init : Thresholds → ScanRateTable
init thresholds = record { t = replicate num_buckets (blank 0); thresholds = thresholds }

-- The entry `e` that `update` leaves in the bucket: reset if it is of another window, then counted,
-- then marked if the packet opens a connection.
unfoldable pub entry_after : Entry → Packet → Entry
entry_after stored p =
    let ep = epoch p.frame_count in
    let e = if stored.epoch == ep then stored else blank ep in
    let counted = min (e.pkt_count + 1) 0xFF in
    if syn_gate p.proto p.tcp_flags
    then record {
      epoch = e.epoch;
      port_fp = bit_or e.port_fp (1 * 2 ^ port_bit p.dst_port);
      host_fp = bit_or e.host_fp (1 * 2 ^ host_bit p.dst_ip);
      pkt_count = counted;
    }
    else record e { pkt_count = counted }

unfoldable pub port_scan_hit : Thresholds → Entry → Bool
port_scan_hit th e =
    leb (read th port_thresh) (popcount e.port_fp) || leb (read th host_thresh) (popcount e.host_fp)

unfoldable pub rate_hit : Thresholds → Entry → Bool
rate_hit th e = leb (read th rate_thresh) e.pkt_count

abbrev pub entry_at : ScanRateTable → ℕ → Entry
entry_at s b = get_or s.t b (blank 0)

-- The new table, and the pair (port_scan_hit, rate_hit).
unfoldable pub update : ScanRateTable → Packet → ScanRateTable × (Bool × Bool)
update s p =
    let b = bucket p.src_ip in
    let e = entry_after (entry_at s b) p in
    (record s { t = set s.t b e }, (port_scan_hit s.thresholds e, rate_hit s.thresholds e))
