-- ===== src/FlowTable/Reports.antt =====
-- flow_table_model.py: the two flags that `update` returns.
use fpga_pi_parallel_nids.Prelude.{
  ℕ, ◌^◌, ◌<◌, min, ◌≡◌, ◌≢◌, refl, sym, ap, ◌∙◌, Bool, false, ◌||◌, List, [], ◌∷◌, arith, leb,
  ◌==◌, if◌then◌else◌, length, All,
}
use fpga_pi_parallel_nids.Prelude.Bits.{
  bit_at, popcount, popcount-le, count_below, count_below_ext, popcount-count_below,
}
use fpga_pi_parallel_nids.Thresholds.{Thresholds, port_thresh, host_thresh, rate_thresh, read}
use fpga_pi_parallel_nids.FlowTable.{
  Cell, Packet, FlowTable, init, bucket, fp, epoch, refreshed, cell_after, cell_at, port_scan_hit,
  rate_hit, update,
}
use fpga_pi_parallel_nids.FlowTable.Table.{
  FitsFields, IsValid, init-IsValid, update-IsValid, cell_after-FitsFields,
}
use fpga_pi_parallel_nids.FlowTable.Runs.{
  after, run, scans_port, scans_host, Summarises, Summarises-counted, cell_runs,
}

abbrev pub HaveByteFlags : List Packet → Type 0
HaveByteFlags ps = All (λ p. p.tcp_flags < 256) ps

after-IsValid :
    (th : Thresholds) (ps : List Packet) → HaveByteFlags ps → IsValid (after (init th) ps)
unfolding after
after-IsValid th [] bytes = init-IsValid th
after-IsValid th (p ∷ ps) (byte, bytes) =
    update-IsValid (after (init th) ps) p byte (after-IsValid th ps bytes)

after-thresholds : (s : FlowTable) (ps : List Packet) → (after s ps).thresholds ≡ s.thresholds
unfolding after
after-thresholds s [] = refl
after-thresholds s (p ∷ ps) = thresholds-update (after s ps) p ∙ after-thresholds s ps
  where
    thresholds-update : (s : FlowTable) (p : Packet) → (update s p).0.thresholds ≡ s.thresholds
    thresholds-update s p = unfold update in refl

-- A fingerprint whose bits say which of a family of events were seen counts them.
popcount_seen :
    (fp : ℕ) (seen : ℕ → Bool)
    → fp < 2 ^ 16
    → ((i : ℕ) → bit_at fp i ≡ (if seen i then 1 else 0))
    → popcount fp ≡ count_below 16 seen
popcount_seen fp seen lt h =
    popcount-count_below 16 fp lt
    ∙ count_below_ext 16 (λ i. bit_at fp i == 1) seen (λ i. ground (arith, h i))

-- What is reported for a run of packets, the latest first.
abbrev pub report : Thresholds → List Packet → Bool × Bool
report th ps = (
  leb (read th port_thresh) (count_below 16 (scans_port ps))
      || leb (read th host_thresh) (count_below 16 (scans_host ps)),
  leb (read th rate_thresh) (min (length ps) 16383),
)

-- After any history on a fresh table, with TCP flags that are bytes, the report for a packet is
-- that of its own run alone: the packets since the bucket last held another fingerprint or another
-- window, where windows are told apart by a 4-bit number. The port-scan flag counts the different
-- port bits and host bits of the run's SYNs, and the rate flag its packets, up to 16383. Nothing of
-- an earlier occupant of the bucket is left.
pub update_exact :
    (th : Thresholds) (p : Packet) (ps : List Packet)
    → HaveByteFlags (p ∷ ps)
    → (update (after (init th) ps) p).1
      ≡ report th (p ∷ run (bucket p.src_ip) (fp p.src_ip) (epoch p.frame_count) ps)
unfolding update port_scan_hit rate_hit
update_exact th p ps (byte, bytes) = ground (
  arith,
  kept,
  popcount_seen c.dport_fp (scans_port run') fits.port_bits summary.ports,
  popcount_seen c.dhost_fp (scans_host run') fits.host_bits summary.hosts,
  summary.packets,
)
  where
    kept : (after (init th) ps).thresholds ≡ th
    kept = after-thresholds (init th) ps ∙ unfold init in refl

    stored : Cell
    stored = cell_at (after (init th) ps) (bucket p.src_ip)

    run' : List Packet
    run' = p ∷ run (bucket p.src_ip) (fp p.src_ip) (epoch p.frame_count) ps

    c : Cell
    c = cell_after stored p

    fits : FitsFields c
    fits = cell_after-FitsFields stored p byte ((after-IsValid th ps bytes).cells (bucket p.src_ip))

    summary : Summarises run' c
    summary =
        unfold cell_after in
        Summarises-counted _ (refreshed stored (fp p.src_ip) (epoch p.frame_count)) p
          (cell_runs th (bucket p.src_ip) (fp p.src_ip) (epoch p.frame_count) ps)

-- A collision evicts: right after a packet of another fingerprint in the same bucket, the report
-- for a packet is the one that a fresh table gives for it.
pub update_evicted :
    (th : Thresholds) (p q : Packet) (ps : List Packet)
    → HaveByteFlags (p ∷ q ∷ ps)
    → bucket q.src_ip ≡ bucket p.src_ip
    → fp q.src_ip ≢ fp p.src_ip
    → (update (after (init th) (q ∷ ps)) p).1 ≡ (update (init th) p).1
update_evicted th p q ps (bp, bs) same other =
    update_exact th p (q ∷ ps) (bp, bs) ∙ ap (λ r. report th (p ∷ r)) evicted ∙ sym fresh
  where
    evicted : run (bucket p.src_ip) (fp p.src_ip) (epoch p.frame_count) (q ∷ ps) ≡ []
    evicted = ground arith

    fresh : (update (init th) p).1 ≡ report th (p ∷ [])
    fresh = unfold after in update_exact th p [] (bp, tt)

-- Thresholds beyond what a cell can count never fire: above 16 for the port and host bits, above
-- 16383 for the packets.
pub update_unreachable :
    (s : FlowTable) (p : Packet)
    → p.tcp_flags < 256
    → IsValid s
    → 16 < read s.thresholds port_thresh
    → 16 < read s.thresholds host_thresh
    → 16383 < read s.thresholds rate_thresh
    → (update s p).1 ≡ (false, false)
unfolding update port_scan_hit rate_hit
update_unreachable s p byte v port host rate =
    ground (arith, fits, popcount-le 16 c.dport_fp, popcount-le 16 c.dhost_fp)
  where
    c : Cell
    c = cell_after (cell_at s (bucket p.src_ip)) p

    fits : FitsFields c
    fits = cell_after-FitsFields (cell_at s (bucket p.src_ip)) p byte (v.cells (bucket p.src_ip))
