-- ===== src/ScanRate/Table.antt =====
-- scan_rate.py: the table's invariant, and one update.
use fpga_pi_parallel_nids.Prelude.{
  ℕ, ◌*◌, ◌/◌, ◌%◌, ◌^◌, ◌≤◌, ◌<◌, bit_or, ◌≡◌, ◌∙◌, true, false, arith, ◌==◌, if◌then◌else◌, ◌⊎◌,
  inl, inr, Bool-cases, length, length-set, get_or-set, length-replicate, get_or-replicate,
}
use native.Mathlib.Nat.{pow-le-pow_right}
use fpga_pi_parallel_nids.Prelude.Bits.{bit_and_mask, bit_or-lt}
use fpga_pi_parallel_nids.Thresholds.{Thresholds}
use fpga_pi_parallel_nids.ScanRate.{
  Entry, Packet, ScanRateTable, blank, init, bucket, port_bit, host_bit, epoch, entry_after,
  entry_at, update,
}

-- An entry fits the fields of the hardware: 4-bit epoch, 16-bit fingerprints, 8-bit counter.
pub record FitsFields (e : Entry) : Type 0 where
  pub epoch_bits : e.epoch < 16
  pub port_bits : e.port_fp < 2 ^ 16
  pub host_bits : e.host_fp < 2 ^ 16
  pub count_bits : e.pkt_count < 256

pub record IsValid (s : ScanRateTable) : Type 0 where
  pub size : length s.t ≡ 256
  pub entries : (b : ℕ) → FitsFields (entry_at s b)

pub bucket-lt : (x : ℕ) → bucket x < 256
unfolding bucket
bucket-lt x = omega (arith, bit_and_mask 32 (x * 0x9E3779B1))

port_bit-lt : (x : ℕ) → port_bit x < 16
unfolding port_bit
port_bit-lt x = omega (arith, bit_and_mask 32 (x * 0x85EBCA77))

host_bit-lt : (x : ℕ) → host_bit x < 16
unfolding host_bit
host_bit-lt x = omega (arith, bit_and_mask 32 (x * 0x9E3779B1))

pub epoch_lem : (n : ℕ) → epoch n ≡ n / 16 % 16
unfolding epoch
epoch_lem n = bit_and_mask 4 (n / 16)

mark-lt : (fp k : ℕ) → fp < 2 ^ 16 → k < 16 → bit_or fp (1 * 2 ^ k) < 2 ^ 16
mark-lt fp k h lt =
    bit_or-lt 16 fp (1 * 2 ^ k) h
      (omega (arith, pow-le-pow_right {n = 2} (omega arith) (pred_le k lt)))
  where
    pred_le : (k : ℕ) → k < 16 → k ≤ 15
    pred_le k h = omega arith

pub entry_after-FitsFields : (e : Entry) (p : Packet) → FitsFields e → FitsFields (entry_after e p)
unfolding entry_after
entry_after-FitsFields e p f = ground (
  arith,
  epoch_lem p.frame_count,
  mark-lt e.port_fp (port_bit p.dst_port),
  mark-lt e.host_fp (host_bit p.dst_ip),
  mark-lt 0 (port_bit p.dst_port),
  mark-lt 0 (host_bit p.dst_ip),
  port_bit-lt p.dst_port,
  host_bit-lt p.dst_ip,
)

-- An update replaces the entry of the source's bucket and leaves all others.
pub entry_at-update :
    (s : ScanRateTable) (p : Packet) (b : ℕ)
    → length s.t ≡ 256
    → entry_at (update s p).0 b
      ≡ (if bucket p.src_ip == b then entry_after (entry_at s b) p else entry_at s b)
unfolding update
entry_at-update s p b size = ground (
  arith,
  get_or-set s.t (bucket p.src_ip) b (entry_after (entry_at s (bucket p.src_ip)) p) (blank 0),
  bucket-lt p.src_ip,
)

pub length-update :
    (s : ScanRateTable) (p : Packet) → length s.t ≡ 256 → length (update s p).0.t ≡ 256
unfolding update
length-update s p size = length-set s.t (bucket p.src_ip) _ ∙ size

-- Every packet keeps the 256 buckets and the width of every field: the counter saturates and the
-- fingerprints stay within 16 bits, whatever the packet holds.
pub update-IsValid : (s : ScanRateTable) (p : Packet) → IsValid s → IsValid (update s p).0
update-IsValid s p v = record {
  size = length-update s p v.size;
  entries = λ b. split b (Bool-cases (bucket p.src_ip == b));
}
  where
    split :
        (b : ℕ)
        → ((bucket p.src_ip == b) ≡ true) ⊎ ((bucket p.src_ip == b) ≡ false)
        → FitsFields (entry_at (update s p).0 b)
    split b (inl e) =
        rw (entry_at-update s p b v.size, e) (entry_after-FitsFields _ p (v.entries b))
    split b (inr e) = rw (entry_at-update s p b v.size, e) (v.entries b)

pub init-IsValid : (th : Thresholds) → IsValid (init th)
init-IsValid th = record {
  size = unfold init in length-replicate 256 (blank 0);
  entries = λ b. rw (empty b) (omega arith);
}
  where
    empty : (b : ℕ) → entry_at (init th) b ≡ blank 0
    empty b = unfold init in get_or-replicate 256 b (blank 0)
