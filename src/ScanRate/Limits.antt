-- ===== src/ScanRate/Limits.antt =====
-- scan_rate.py: thresholds that no entry can reach.
use fpga_pi_parallel_nids.Prelude.{◌<◌, ◌≡◌, false, arith}
use fpga_pi_parallel_nids.Prelude.Bits.{popcount-le}
use fpga_pi_parallel_nids.Thresholds.{port_thresh, host_thresh, rate_thresh, read}
use fpga_pi_parallel_nids.ScanRate.{
  Entry, Packet, ScanRateTable, bucket, entry_after, entry_at, port_scan_hit, rate_hit, update,
}
use fpga_pi_parallel_nids.ScanRate.Table.{FitsFields, IsValid, entry_after-FitsFields}

-- The registers hold 16 bits, but thresholds beyond what an entry can count never fire: above 16
-- for the port and host bits, above 255 for the packets.
pub update_limits :
    (s : ScanRateTable) (p : Packet)
    → IsValid s
    → 16 < read s.thresholds port_thresh
    → 16 < read s.thresholds host_thresh
    → 255 < read s.thresholds rate_thresh
    → (update s p).1 ≡ (false, false)
unfolding update port_scan_hit rate_hit
update_limits s p v port host rate =
    ground (arith, fits, popcount-le 16 e.port_fp, popcount-le 16 e.host_fp)
  where
    e : Entry
    e = entry_after (entry_at s (bucket p.src_ip)) p

    fits : FitsFields e
    fits = entry_after-FitsFields (entry_at s (bucket p.src_ip)) p (v.entries (bucket p.src_ip))
