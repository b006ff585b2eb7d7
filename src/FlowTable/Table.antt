-- ===== src/FlowTable/Table.antt =====
-- flow_table_model.py: the table's invariant, and one update.
use fpga_pi_parallel_nids.Prelude.{
  ℕ, ◌*◌, ◌/◌, ◌%◌, ◌^◌, ◌≤◌, ◌<◌, bit_and, bit_or, ◌≡◌, ◌∙◌, true, false, arith, ◌==◌,
  if◌then◌else◌, ◌⊎◌, inl, inr, Bool-cases, length, length-set, get_or-set, length-replicate,
  get_or-replicate,
}
use native.Mathlib.Nat.{pow-le-pow_right}
use fpga_pi_parallel_nids.Prelude.Bits.{bit_and_mask, bit_or-lt}
use fpga_pi_parallel_nids.Thresholds.{Thresholds}
use fpga_pi_parallel_nids.FlowTable.{
  Cell, Packet, FlowTable, blank, init, bucket, fp, port_bit, host_bit, epoch, refreshed, counted,
  cell_after, cell_at, update,
}

-- A cell fits the fields of the hardware.
pub record FitsFields (e : Cell) : Type 0 where
  pub fp_bits : e.fp < 2 ^ 16
  pub epoch_bits : e.epoch < 16
  pub port_bits : e.dport_fp < 2 ^ 16
  pub host_bits : e.dhost_fp < 2 ^ 16
  pub count_bits : e.pkt_count < 2 ^ 14
  pub byte_bits : e.byte_count < 2 ^ 24
  pub syn_bits : e.syn_count < 2 ^ 12
  pub flag_bits : e.flags < 256

pub record IsValid (s : FlowTable) : Type 0 where
  pub size : length s.t ≡ 4096
  pub cells : (b : ℕ) → FitsFields (cell_at s b)

pub bucket-lt : (x : ℕ) → bucket x < 4096
unfolding bucket
bucket-lt x = omega (arith, bit_and_mask 32 (x * 0x9E3779B1))

fp-lt : (x : ℕ) → fp x < 2 ^ 16
unfolding fp
fp-lt x = omega (arith, bit_and_mask 16 (bit_and (x * 0x85EBCA77) 0xFFFFFFFF / 2 ^ 12))

port_bit-lt : (x : ℕ) → port_bit x < 16
unfolding port_bit
port_bit-lt x = omega (arith, bit_and_mask 32 (x * 0x85EBCA77))

host_bit-lt : (x : ℕ) → host_bit x < 16
unfolding host_bit
host_bit-lt x = omega (arith, bit_and_mask 32 (x * 0x9E3779B1))

pub epoch_lem : (n : ℕ) → epoch n ≡ n / 16 % 16
unfolding epoch
epoch_lem n = bit_and_mask 4 (n / 16)

mark-lt : (fp k : ℕ) → fp < 2 ^ 16 → k < 16 → bit_or fp (1 * 2 ^ k) < 2 ^ 16
mark-lt fp k h lt =
    bit_or-lt 16 fp (1 * 2 ^ k) h
      (omega (arith, pow-le-pow_right {n = 2} (omega arith) (pred_le k lt)))
  where
    pred_le : (k : ℕ) → k < 16 → k ≤ 15
    pred_le k h = omega arith

refreshed-FitsFields :
    (e : Cell) (f n : ℕ) → f < 2 ^ 16 → FitsFields e → FitsFields (refreshed e f (epoch n))
unfolding refreshed
refreshed-FitsFields e f n lt v = ground (arith, epoch_lem n)

counted-FitsFields :
    (e : Cell) (p : Packet) → p.tcp_flags < 256 → FitsFields e → FitsFields (counted e p)
unfolding counted
counted-FitsFields e p byte v = ground (
  arith,
  bit_or-lt 8 e.flags p.tcp_flags,
  mark-lt e.dport_fp (port_bit p.dst_port),
  mark-lt e.dhost_fp (host_bit p.dst_ip),
  port_bit-lt p.dst_port,
  host_bit-lt p.dst_ip,
)

pub cell_after-FitsFields :
    (e : Cell) (p : Packet) → p.tcp_flags < 256 → FitsFields e → FitsFields (cell_after e p)
unfolding cell_after
cell_after-FitsFields e p byte v =
    counted-FitsFields _ p byte (refreshed-FitsFields e _ p.frame_count (fp-lt p.src_ip) v)

-- An update replaces the cell of the source's bucket and leaves all others.
pub cell_at-update :
    (s : FlowTable) (p : Packet) (b : ℕ)
    → length s.t ≡ 4096
    → cell_at (update s p).0 b
      ≡ (if bucket p.src_ip == b then cell_after (cell_at s b) p else cell_at s b)
unfolding update
cell_at-update s p b size = ground (
  arith,
  get_or-set s.t (bucket p.src_ip) b (cell_after (cell_at s (bucket p.src_ip)) p) (blank 0 0),
  bucket-lt p.src_ip,
)

pub length-update :
    (s : FlowTable) (p : Packet) → length s.t ≡ 4096 → length (update s p).0.t ≡ 4096
unfolding update
length-update s p size = length-set s.t (bucket p.src_ip) _ ∙ size

-- Every packet whose TCP flags are a byte keeps the 4096 buckets and the width of every field of
-- every cell: the counters saturate, and the fingerprints stay within 16 bits.
pub update-IsValid :
    (s : FlowTable) (p : Packet) → p.tcp_flags < 256 → IsValid s → IsValid (update s p).0
update-IsValid s p byte v = record {
  size = length-update s p v.size;
  cells = λ b. split b (Bool-cases (bucket p.src_ip == b));
}
  where
    split :
        (b : ℕ)
        → ((bucket p.src_ip == b) ≡ true) ⊎ ((bucket p.src_ip == b) ≡ false)
        → FitsFields (cell_at (update s p).0 b)
    split b (inl e) =
        rw (cell_at-update s p b v.size, e) (cell_after-FitsFields _ p byte (v.cells b))
    split b (inr e) = rw (cell_at-update s p b v.size, e) (v.cells b)

pub init-IsValid : (th : Thresholds) → IsValid (init th)
init-IsValid th = record {
  size = unfold init in length-replicate 4096 (blank 0 0);
  cells = λ b. rw (empty b) (omega arith);
}
  where
    empty : (b : ℕ) → cell_at (init th) b ≡ blank 0 0
    empty b = unfold init in get_or-replicate 4096 b (blank 0 0)
