-- ===== src/Tests/Tables.antt =====
-- Instances for scan_rate.py and flow_table_model.py.
use fpga_pi_parallel_nids.Prelude.{ℕ, min, ◌≡◌, refl, ◌||◌, List, [], ◌∷◌, arith, leb}
use fpga_pi_parallel_nids.Prelude.Bits.{count_below}
use fpga_pi_parallel_nids.ScanRate
use fpga_pi_parallel_nids.ScanRate.Window.{InWindow, scans_port, scans_host, frames, update_window}
use fpga_pi_parallel_nids.FlowTable
use fpga_pi_parallel_nids.FlowTable.{bucket, fp, epoch}
use fpga_pi_parallel_nids.FlowTable.Runs.{run}
use fpga_pi_parallel_nids.FlowTable.Reports.{HaveByteFlags, report, update_exact}
use fpga_pi_parallel_nids.Thresholds
use fpga_pi_parallel_nids.Thresholds.{Thresholds, port_thresh, host_thresh, rate_thresh}

abbrev probe_frame : ℕ → ℕ → ScanRate.Packet
probe_frame port frame = record {
  src_ip = 0x0A000001;
  dst_ip = 0xC0A80001;
  dst_port = port;
  proto = 6;
  tcp_flags = 2;
  frame_count = frame;
}

abbrev earlier_probes : List ScanRate.Packet
earlier_probes = probe_frame 443 33 ∷ probe_frame 80 32 ∷ []

probes-InWindow : InWindow 2 (probe_frame 22 34 ∷ earlier_probes)
unfolding ScanRate.epoch
probes-InWindow = (refl, (refl, (refl, tt)))

update_window_example :
    (ScanRate.update
      (ScanRate.Window.after (ScanRate.init Thresholds.init) earlier_probes)
      (probe_frame 22 34)).1
    ≡ (
      leb (Thresholds.read Thresholds.init port_thresh) (
            count_below 16
              (scans_port (probe_frame 22 34 ∷ earlier_probes) (ScanRate.bucket 0x0A000001)))
          || leb (Thresholds.read Thresholds.init host_thresh) (
              count_below 16
                (scans_host (probe_frame 22 34 ∷ earlier_probes) (ScanRate.bucket 0x0A000001))),
      leb
          (Thresholds.read Thresholds.init rate_thresh)
          (min (frames (probe_frame 22 34 ∷ earlier_probes) (ScanRate.bucket 0x0A000001)) 255),
    )
update_window_example =
    update_window Thresholds.init 2 (probe_frame 22 34) earlier_probes probes-InWindow

abbrev syn : ℕ → ℕ → FlowTable.Packet
syn src port = record {
  src_ip = src;
  dst_ip = 0xC0A80001;
  dst_port = port;
  proto = 6;
  tcp_flags = 2;
  pkt_size = 60;
  frame_count = 0;
}

abbrev earlier_syns : List FlowTable.Packet
earlier_syns = syn 0x0A000001 443 ∷ syn 0x0A000001 80 ∷ []

syns-HaveByteFlags : HaveByteFlags (syn 0x0A000001 22 ∷ earlier_syns)
syns-HaveByteFlags = (omega arith, (omega arith, (omega arith, tt)))

update_exact_example :
    (FlowTable.update
      (FlowTable.Runs.after (FlowTable.init Thresholds.init) earlier_syns)
      (syn 0x0A000001 22)).1
    ≡ report Thresholds.init
        (syn 0x0A000001 22 ∷ run (bucket 0x0A000001) (fp 0x0A000001) (epoch 0) earlier_syns)
update_exact_example =
    update_exact Thresholds.init (syn 0x0A000001 22) earlier_syns syns-HaveByteFlags

-- Thresholds set as high as the registers allow.
abbrev highest : Thresholds
highest =
    Thresholds.write
      (Thresholds.write (Thresholds.write Thresholds.init port_thresh 65535) host_thresh 65535)
      rate_thresh 65535
