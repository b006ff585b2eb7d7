-- ===== src/FlowTable.antt =====
-- flow_table_model.py: the flow table, 4096 buckets whose cells carry the fingerprint of their source.
pub mod Table
pub mod Runs
pub mod Reports
use fpga_pi_parallel_nids.Prelude.{
  ℕ, ◌+◌, ◌-◌, ◌*◌, ◌/◌, ◌^◌, min, bit_and, bit_or, Bool, not, ◌&&◌, ◌||◌, List, leb, ◌==◌,
  if◌then◌else◌, get_or, set, replicate,
}
use fpga_pi_parallel_nids.Prelude.Bits.{popcount}
use fpga_pi_parallel_nids.Prelude.Bytes.{truthy}
use fpga_pi_parallel_nids.Thresholds.{Thresholds, port_thresh, host_thresh, rate_thresh, read}

abbrev pub a1 : ℕ
a1 = 0x9E3779B1

abbrev pub a2 : ℕ
a2 = 0x85EBCA77

abbrev pub mask32 : ℕ
mask32 = 0xFFFFFFFF

abbrev pub window_shift : ℕ
window_shift = 4

abbrev pub depth : ℕ
depth = 4096

abbrev pub rate_max : ℕ
rate_max = 1 * 2 ^ 14 - 1

abbrev pub byte_max : ℕ
byte_max = 1 * 2 ^ 24 - 1

abbrev pub syn_max : ℕ
syn_max = 1 * 2 ^ 12 - 1

unfoldable pub bucket : ℕ → ℕ
bucket src_ip = bit_and (src_ip * a1) mask32 / 2 ^ 20

unfoldable pub fp : ℕ → ℕ
fp src_ip = bit_and (bit_and (src_ip * a2) mask32 / 2 ^ 12) 0xFFFF

unfoldable pub port_bit : ℕ → ℕ
port_bit dst_port = bit_and (dst_port * a2) mask32 / 2 ^ 28

unfoldable pub host_bit : ℕ → ℕ
host_bit dst_ip = bit_and (dst_ip * a1) mask32 / 2 ^ 28

unfoldable pub epoch : ℕ → ℕ
epoch frame_count = bit_and (frame_count / 2 ^ window_shift) 0xF

unfoldable pub syn_gate : ℕ → ℕ → Bool
syn_gate proto tcp_flags =
    proto == 6 && (truthy (bit_and tcp_flags 0x02) && not (truthy (bit_and tcp_flags 0x10)))

pub record Cell : Type 0 where
  pub fp : ℕ
  pub epoch : ℕ
  pub pkt_count : ℕ
  pub byte_count : ℕ
  pub syn_count : ℕ
  pub dport_fp : ℕ
  pub dhost_fp : ℕ
  pub flags : ℕ

abbrev pub blank : ℕ → ℕ → Cell
blank ep the_fp = record {
  fp = the_fp;
  epoch = ep;
  pkt_count = 0;
  byte_count = 0;
  syn_count = 0;
  dport_fp = 0;
  dhost_fp = 0;
  flags = 0;
}

-- The keyword arguments of `update`.
pub record Packet : Type 0 where
  pub src_ip : ℕ
  pub dst_ip : ℕ
  pub dst_port : ℕ
  pub proto : ℕ
  pub tcp_flags : ℕ
  pub pkt_size : ℕ
  pub frame_count : ℕ

pub record FlowTable : Type 0 where
  pub t : List Cell
  pub thresholds : Thresholds

unfoldable pub init : Thresholds → FlowTable
init thresholds = record { t = replicate depth (blank 0 0); thresholds = thresholds }

-- `if cur["fp"] != f or cur["epoch"] != ep`: the cell of another source or another window is
-- replaced by a fresh one.
unfoldable pub refreshed : Cell → ℕ → ℕ → Cell
refreshed cur f ep = if not (cur.fp == f) || not (cur.epoch == ep) then blank ep f else cur

-- The counters and fingerprints of the packet, on the cell that is its own.
unfoldable pub counted : Cell → Packet → Cell
counted cur p =
    let pkt_count = min (cur.pkt_count + 1) rate_max in
    let byte_count = min (cur.byte_count + p.pkt_size) byte_max in
    let flags = bit_or cur.flags p.tcp_flags in
    if syn_gate p.proto p.tcp_flags
    then record {
      fp = cur.fp;
      epoch = cur.epoch;
      pkt_count = pkt_count;
      byte_count = byte_count;
      syn_count = min (cur.syn_count + 1) syn_max;
      dport_fp = bit_or cur.dport_fp (1 * 2 ^ port_bit p.dst_port);
      dhost_fp = bit_or cur.dhost_fp (1 * 2 ^ host_bit p.dst_ip);
      flags = flags;
    }
    else record cur { pkt_count = pkt_count; byte_count = byte_count; flags = flags }

-- The cell that `update` leaves in the bucket.
unfoldable pub cell_after : Cell → Packet → Cell
cell_after stored p = counted (refreshed stored (fp p.src_ip) (epoch p.frame_count)) p

unfoldable pub port_scan_hit : Thresholds → Cell → Bool
port_scan_hit th cur =
    leb (read th port_thresh) (popcount cur.dport_fp)
    || leb (read th host_thresh) (popcount cur.dhost_fp)

unfoldable pub rate_hit : Thresholds → Cell → Bool
rate_hit th cur = leb (read th rate_thresh) cur.pkt_count

abbrev pub cell_at : FlowTable → ℕ → Cell
cell_at s b = get_or s.t b (blank 0 0)

-- The new table, and the pair (port_scan_hit, rate_hit).
unfoldable pub update : FlowTable → Packet → FlowTable × (Bool × Bool)
update s p =
    let b = bucket p.src_ip in
    let cur = cell_after (cell_at s b) p in
    (record s { t = set s.t b cur }, (port_scan_hit s.thresholds cur, rate_hit s.thresholds cur))
