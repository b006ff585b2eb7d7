-- ===== src/TelemetryModel.antt =====
-- telemetry_model.py: the sketches of a window together, the top talker, and the snapshot that the
-- end of a window latches.
pub mod Window
pub mod Snapshots
use fpga_pi_parallel_nids.Prelude.{ℕ, ◌+◌, bit_and, Option, none, some, ltb, if◌then◌else◌}
use fpga_pi_parallel_nids.Cms
use fpga_pi_parallel_nids.Cms.{CountMin}
use fpga_pi_parallel_nids.Hll
use fpga_pi_parallel_nids.Hll.{HyperLogLog}

pub record Snapshot : Type 0 where
  pub window_index : ℕ
  pub total_packets : ℕ
  pub harmonic_sum : ℕ
  pub zeros : ℕ
  pub top1_count : ℕ
  pub top1_key : ℕ

pub record Telemetry : Type 0 where
  pub cms : CountMin
  pub hll : HyperLogLog
  pub window_index : ℕ
  pub total_packets : ℕ
  pub top1_count : ℕ
  pub top1_key : ℕ
  pub snapshot : Option Snapshot

unfoldable pub init : Telemetry
init = record {
  cms = Cms.init;
  hll = Hll.init;
  window_index = 0;
  total_packets = 0;
  top1_count = 0;
  top1_key = 0;
  snapshot = none;
}

unfoldable pub update : Telemetry → ℕ → Telemetry
update t src_ip =
    let cms = Cms.update t.cms src_ip in
    let hll = Hll.update t.hll src_ip in
    let c = Cms.point_query cms src_ip in
    let heavier = ltb t.top1_count c in
    record t {
      cms = cms;
      hll = hll;
      total_packets = t.total_packets + 1;
      top1_count = if heavier then c else t.top1_count;
      top1_key = if heavier then src_ip else t.top1_key;
    }

unfoldable pub point_query : Telemetry → ℕ → ℕ
point_query t ip = Cms.point_query t.cms ip

unfoldable pub window_tick : Telemetry → Telemetry
window_tick t = record {
  cms = Cms.window_tick t.cms;
  hll = Hll.window_tick t.hll;
  window_index = bit_and (t.window_index + 1) 0xFFFF;
  total_packets = 0;
  top1_count = 0;
  top1_key = 0;
  snapshot = some (record {
    window_index = t.window_index;
    total_packets = t.total_packets;
    harmonic_sum = t.hll.harmonic_sum;
    zeros = t.hll.zeros;
    top1_count = t.top1_count;
    top1_key = t.top1_key;
  });
}
