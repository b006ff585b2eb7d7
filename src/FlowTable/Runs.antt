-- ===== src/FlowTable/Runs.antt =====
-- flow_table_model.py: a cell summarises the last run of packets of one source in one window, and
-- the reports are those of that run.
use fpga_pi_parallel_nids.Prelude.{
  ℕ, ◌+◌, ◌*◌, ◌^◌, min, ◌≡◌, ◌∙◌, Bool, true, false, Bool-cases, ◌⊎◌, inl, inr, ◌&&◌, ◌||◌, List,
  [], ◌∷◌, arith, ◌==◌, if◌then◌else◌, length, get_or-replicate,
}
use fpga_pi_parallel_nids.Prelude.Bits.{bit_at, bit_at-zero, bit_at-bit_or, bit_at-two-pow}
use fpga_pi_parallel_nids.Thresholds.{Thresholds}
use fpga_pi_parallel_nids.FlowTable.{
  Cell, Packet, FlowTable, blank, init, bucket, fp, port_bit, host_bit, epoch, syn_gate, refreshed,
  counted, cell_after, cell_at, update,
}
use fpga_pi_parallel_nids.FlowTable.Table.{init-IsValid, cell_at-update, length-update}

-- The table after the packets of a list, the latest first.
unfoldable pub after : FlowTable → List Packet → FlowTable
after s [] = s
after s (p ∷ ps) = (update (after s ps) p).0

-- The last run in the bucket `b`: its packets, the latest first, back to one that has another
-- fingerprint than `f` or another window than `ep`.
abbrev pub run : ℕ → ℕ → ℕ → List Packet → List Packet
run b f ep [] = []
run b f ep (p ∷ ps) =
    if bucket p.src_ip == b
    then if fp p.src_ip == f && epoch p.frame_count == ep then p ∷ run b f ep ps else []
    else run b f ep ps

abbrev pub bytes : List Packet → ℕ
bytes [] = 0
bytes (p ∷ ps) = p.pkt_size + bytes ps

abbrev pub syns : List Packet → ℕ
syns [] = 0
syns (p ∷ ps) = (if syn_gate p.proto p.tcp_flags then 1 else 0) + syns ps

abbrev pub scans_port : List Packet → ℕ → Bool
scans_port [] i = false
scans_port (p ∷ ps) i =
    (syn_gate p.proto p.tcp_flags && port_bit p.dst_port == i) || scans_port ps i

abbrev pub scans_host : List Packet → ℕ → Bool
scans_host [] i = false
scans_host (p ∷ ps) i = (syn_gate p.proto p.tcp_flags && host_bit p.dst_ip == i) || scans_host ps i

-- The counters and fingerprints of a cell are those of the packets of a run.
pub record Summarises (ps : List Packet) (c : Cell) : Type 0 where
  pub packets : c.pkt_count ≡ min (length ps) 16383
  pub byte_total : c.byte_count ≡ min (bytes ps) 16777215
  pub syn_total : c.syn_count ≡ min (syns ps) 4095
  pub ports : (i : ℕ) → bit_at c.dport_fp i ≡ (if scans_port ps i then 1 else 0)
  pub hosts : (i : ℕ) → bit_at c.dhost_fp i ≡ (if scans_host ps i then 1 else 0)

one_mul : (k : ℕ) → 1 * 2 ^ k ≡ 2 ^ k
one_mul k = omega arith

pub Summarises-counted :
    (ps : List Packet) (c : Cell) (p : Packet) → Summarises ps c → Summarises (p ∷ ps) (counted c p)
unfolding counted
Summarises-counted ps c p v = record {
  packets = ground (arith, v.packets);
  byte_total = ground (arith, v.byte_total);
  syn_total = ground (arith, v.syn_total);
  ports = λ i. ground (
    arith,
    v.ports i,
    one_mul (port_bit p.dst_port),
    bit_at-bit_or c.dport_fp (2 ^ port_bit p.dst_port) i,
    bit_at-two-pow (port_bit p.dst_port) i,
  );
  hosts = λ i. ground (
    arith,
    v.hosts i,
    one_mul (host_bit p.dst_ip),
    bit_at-bit_or c.dhost_fp (2 ^ host_bit p.dst_ip) i,
    bit_at-two-pow (host_bit p.dst_ip) i,
  );
}

Summarises-blank : (f ep : ℕ) → Summarises [] (blank ep f)
Summarises-blank f ep = record {
  packets = omega arith;
  byte_total = omega arith;
  syn_total = omega arith;
  ports = λ i. bit_at-zero i;
  hosts = λ i. bit_at-zero i;
}

refreshed_key :
    (c : Cell) (f ep : ℕ) → ((refreshed c f ep).fp ≡ f) × ((refreshed c f ep).epoch ≡ ep)
unfolding refreshed
refreshed_key c f ep = ground arith

counted_key : (c : Cell) (p : Packet) → ((counted c p).fp ≡ c.fp) × ((counted c p).epoch ≡ c.epoch)
unfolding counted
counted_key c p = ground arith

refreshed_same : (c : Cell) (f ep : ℕ) → c.fp ≡ f → c.epoch ≡ ep → refreshed c f ep ≡ c
unfolding refreshed
refreshed_same c f ep same now = ground arith

refreshed_other :
    (c : Cell) (f ep : ℕ) → (c.fp == f && c.epoch == ep) ≡ false → refreshed c f ep ≡ blank ep f
unfolding refreshed
refreshed_other c f ep other = ground arith

refreshed-blank : (f ep : ℕ) → refreshed (blank 0 0) f ep ≡ blank ep f
unfolding refreshed
refreshed-blank f ep = ground arith

pub after-length :
    (s : FlowTable) (ps : List Packet) → length s.t ≡ 4096 → length (after s ps).t ≡ 4096
unfolding after
after-length s [] size = size
after-length s (p ∷ ps) size = length-update (after s ps) p (after-length s ps size)

-- One packet of the bucket, on a cell that summarises the run of every key.
cell_after_runs :
    (f ep : ℕ) (ps : List Packet) (c : Cell) (p : Packet)
    → Summarises ps (refreshed c f ep)
    → Summarises
        (if fp p.src_ip == f && epoch p.frame_count == ep then p ∷ ps else [])
        (refreshed (cell_after c p) f ep)
cell_after_runs f ep ps c p v = split (Bool-cases (fp p.src_ip == f && epoch p.frame_count == ep))
  where
    old : Cell
    old = refreshed c (fp p.src_ip) (epoch p.frame_count)

    key : ((cell_after c p).fp ≡ fp p.src_ip) × ((cell_after c p).epoch ≡ epoch p.frame_count)
    key =
        unfold cell_after in
        ground (arith, counted_key old p, refreshed_key c (fp p.src_ip) (epoch p.frame_count))

    split :
        ((fp p.src_ip == f && epoch p.frame_count == ep) ≡ true)
          ⊎ ((fp p.src_ip == f && epoch p.frame_count == ep) ≡ false)
        → Summarises
            (if fp p.src_ip == f && epoch p.frame_count == ep then p ∷ ps else [])
            (refreshed (cell_after c p) f ep)
    split (inl e) = rw (e, here) (Summarises-counted ps _ p v)
      where
        here : refreshed (cell_after c p) f ep ≡ counted (refreshed c f ep) p
        here =
            refreshed_same (cell_after c p) f ep (ground (arith, key)) (ground (arith, key))
            ∙ unfold cell_after in ground arith
    split (inr e) =
        rw (e, refreshed_other (cell_after c p) f ep (ground (arith, key))) (Summarises-blank f ep)

-- Whatever the key, the cell taken for that key summarises the bucket's last run of it.
pub cell_runs :
    (th : Thresholds) (b f ep : ℕ) (ps : List Packet)
    → Summarises (run b f ep ps) (refreshed (cell_at (after (init th) ps) b) f ep)
cell_runs th b f ep [] = rw (empty, refreshed-blank f ep) (Summarises-blank f ep)
  where
    empty : cell_at (after (init th) []) b ≡ blank 0 0
    empty = unfold after init in get_or-replicate 4096 b (blank 0 0)
cell_runs th b f ep (p ∷ ps) = split (cell_runs th b f ep ps) (Bool-cases (bucket p.src_ip == b))
  where
    s : FlowTable
    s = after (init th) ps

    stored :
        cell_at (after (init th) (p ∷ ps)) b
        ≡ (if bucket p.src_ip == b then cell_after (cell_at s b) p else cell_at s b)
    stored =
        unfold after in cell_at-update s p b (after-length (init th) ps ((init-IsValid th).size))

    split :
        Summarises (run b f ep ps) (refreshed (cell_at s b) f ep)
        → ((bucket p.src_ip == b) ≡ true) ⊎ ((bucket p.src_ip == b) ≡ false)
        → Summarises (run b f ep (p ∷ ps)) (refreshed (cell_at (after (init th) (p ∷ ps)) b) f ep)
    split v (inl e) = rw (stored, e) (cell_after_runs f ep (run b f ep ps) (cell_at s b) p v)
    split v (inr e) = rw (stored, e) v
