-- ===== src/Tests/Sketches.antt =====
-- Instances for cms.py, hll.py and telemetry_model.py.
use fpga_pi_parallel_nids.Prelude.{
  ℕ, ◌*◌, ◌%◌, ◌^◌, ◌≤◌, ◌<◌, min, ◌≡◌, refl, List, [], ◌∷◌, some, ok, arith, ◌==◌, if◌then◌else◌,
  length,
}
use fpga_pi_parallel_nids.Cms
use fpga_pi_parallel_nids.Cms.{CountMin, column, count, cms_max}
use fpga_pi_parallel_nids.Cms.Cells.{init-IsUnwrapped, count-update}
use fpga_pi_parallel_nids.Cms.Stream.{
  packets, estimate, after-IsValid, after-IsUnwrapped, point_query-after, point_query_bounds,
}
use fpga_pi_parallel_nids.Cms.Windows.{count-window_tick, point_query-ticks}
use fpga_pi_parallel_nids.Hll
use fpga_pi_parallel_nids.Hll.{fmix32, rank, index, new_rank, rankval}
use fpga_pi_parallel_nids.Hll.Registers.{IsExact, init-IsCovered}
use fpga_pi_parallel_nids.Hll.Stream.{
  update_all, max_rank, ticks, update_all-init, update_all-ticks,
}
use fpga_pi_parallel_nids.TelemetryModel
use fpga_pi_parallel_nids.TelemetryModel.{Snapshot}
use fpga_pi_parallel_nids.TelemetryModel.Snapshots.{
  Event, packet, tick, step, run, published, response, run-decode_snapshot,
}
use fpga_pi_parallel_nids.TelemetryModel.Window.{top1_bounds}

abbrev sources : List ℕ
sources = 0x0A000001 ∷ 0x0A000002 ∷ 0x0A000001 ∷ []

abbrev sketch : CountMin
sketch = Cms.Stream.after Cms.init sources

point_query-after_example :
    Cms.point_query sketch 0x0A000001 ≡ min (estimate sources 0x0A000001 4 0) cms_max
point_query-after_example = point_query-after sources 0x0A000001

point_query_bounds_example :
    (min (packets sources 0x0A000001) cms_max ≤ Cms.point_query sketch 0x0A000001)
    × (Cms.point_query sketch 0x0A000001 ≤ length sources)
point_query_bounds_example = point_query_bounds sources 0x0A000001

sketch_epoch : sketch.epoch ≡ 0
unfolding Cms.init Cms.Stream.after Cms.update Cms.update_rows Cms.update_row
sketch_epoch = refl

point_query-ticks_example :
    Cms.point_query (Cms.Windows.ticks 32 sketch) 0x0A000001
    ≡ (if 32 % 16 == 0 then Cms.point_query sketch 0x0A000001 else 0)
point_query-ticks_example =
    point_query-ticks 32 sketch 0x0A000001
      (after-IsUnwrapped Cms.init sources Cms.Cells.init-IsValid init-IsUnwrapped) sketch_epoch

abbrev word : ℕ
word = 5

update_all-init_example :
    ((b : ℕ) → rankval (update_all Hll.init sources) b ≡ max_rank sources b)
    × IsExact (update_all Hll.init sources)
update_all-init_example = update_all-init sources

hll_epoch : Hll.init.epoch < 16
unfolding Hll.init
hll_epoch = omega arith

update_all-ticks_example :
    (update_all (ticks 16 (update_all Hll.init sources)) sources
      ≡ ticks 16 (update_all Hll.init sources))
    × ((ticks 16 (update_all Hll.init sources)).harmonic_sum ≡ 2048 * 2 ^ 32)
    × ((ticks 16 (update_all Hll.init sources)).zeros ≡ 2048)
update_all-ticks_example = update_all-ticks Hll.init sources init-IsCovered.size hll_epoch

top1_bounds_example :
    ((TelemetryModel.Window.after sources).total_packets ≡ length sources)
    × ((q : ℕ) → min (packets sources q) cms_max ≤ (TelemetryModel.Window.after sources).top1_count)
    × ((TelemetryModel.Window.after sources).top1_count
        ≤ TelemetryModel.point_query
            (TelemetryModel.Window.after sources)
            (TelemetryModel.Window.after sources).top1_key)
    × ((TelemetryModel.Window.after sources).top1_count ≤ length sources)
top1_bounds_example = top1_bounds sources

abbrev events : List Event
events = packet 0x0A000002 ∷ packet 0x0A000001 ∷ tick ∷ packet 0x0A000001 ∷ []

few_packets : (run events).total_packets < 2 ^ 32
unfolding run step TelemetryModel.update TelemetryModel.window_tick TelemetryModel.init
few_packets = omega arith

run-decode_snapshot_example :
    (s : Snapshot) × ((step (run events) tick).snapshot ≡ some s)
    × (s.total_packets ≡ (run events).total_packets)
    × (published s ≡ ok (response s))
run-decode_snapshot_example =
    run-decode_snapshot events (omega arith, (omega arith, (tt, (omega arith, tt)))) few_packets
