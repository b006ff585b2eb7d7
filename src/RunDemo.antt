-- ===== src/RunDemo.antt =====
-- run_demo.py: the schedule and the duration of a run, with `default_schedule` of
-- demo/scenarios.py. The command line, SpiLink() and the choice of a dashboard are left out.

pub mod Sound
use fpga_pi_parallel_nids.Prelude.{
  ℕ, Bool, true, false, not, ◌&&◌, List, [], ◌∷◌, Option, none, some, Result, ok, raise,
  out_of_fuel, if◌then◌else◌,
}
use fpga_pi_parallel_nids.Prelude.Bytes.{Bytes}
use fpga_pi_parallel_nids.Clock.{Clock}
use fpga_pi_parallel_nids.Orchestrator.{DemoState}
use fpga_pi_parallel_nids.Orchestrator.Loop.{Options, run_loop}
use fpga_pi_parallel_nids.Traffic.{
  Random, Benign, Beacon, Scan, Flood, benign, next_benign, c2, next_c2, port_scan, next_scan,
  flood, next_flood,
}
use fpga_pi_parallel_nids.Traffic.Timeline.{ScheduleStep, total_s, schedule_of}

-- The names of the scenarios, and "(starting)".
pub data Name : Type 0 where
  starting_up benign_traffic c2_traffic scan_traffic flood_traffic : Name

-- A generator of one of the four kinds.
pub data Generator (R : Type 0) : Type 0 where
  of_benign : Benign R → Generator R
  of_c2 : Beacon R → Generator R
  of_scan : Scan → Generator R
  of_flood : Flood → Generator R

abbrev pub resumed :
    {R G : Type 0}
    → (G → Generator R)
    → Result (Option (Bytes × G))
    → Result (Option (Bytes × Generator R))
resumed wrap (raise e) = raise e
resumed wrap (ok none) = ok none
resumed wrap (ok (some (frame, g))) = ok (some (frame, wrap g))

-- The turns that `benign` may take for one frame.
abbrev pub benign_fuel : ℕ
benign_fuel = 1

abbrev pub demo_dst : ℕ
demo_dst = 0x0A000020

module _ {R : Type 0} (random : Random R) where
  -- `next` of any of them.
  unfoldable pub next_frame : Generator R → Result (Option (Bytes × Generator R))
  next_frame (of_benign g) = elim (next_benign random benign_fuel g) [
    | none ↦ raise out_of_fuel
    | some r ↦ resumed of_benign r
  ]
  next_frame (of_c2 g) = resumed of_c2 (next_c2 random g)
  next_frame (of_scan g) = resumed of_scan (next_scan g)
  next_frame (of_flood g) = resumed of_flood (next_flood g)

  abbrev pub Steps : Type 0 → Type 0
  Steps Time = List (ScheduleStep Name Time (Generator R))

  abbrev pub scan_demo : Generator R
  scan_demo = of_scan (port_scan 0x0A000005 10000 demo_dst 20)

  abbrev pub flood_demo : Generator R
  flood_demo = of_flood (flood 0x0A000006 10000 demo_dst 443)

  -- demo/scenarios.py; `seconds` is a whole number of seconds as a float.
  unfoldable pub default_schedule : {Time : Type 0} → (ℕ → Time) → Steps Time
  default_schedule seconds =
      record {
        name = benign_traffic;
        gen_factory = of_benign (benign random 0 none);
        duration_s = seconds 10;
      }
      ∷ record {
        name = c2_traffic;
        gen_factory = of_c2 (c2 random 1 none demo_dst);
        duration_s = seconds 10;
      }
      ∷ record { name = scan_traffic; gen_factory = scan_demo; duration_s = seconds 10 }
      ∷ record { name = flood_traffic; gen_factory = flood_demo; duration_s = seconds 15 }
      ∷ record {
        name = benign_traffic;
        gen_factory = of_benign (benign random 2 none);
        duration_s = seconds 15;
      }
      ∷ []

  -- `_SOLO_FACTORIES`; only the four scenarios are keys of it.
  unfoldable pub solo_factory : Name → Option (Generator R)
  solo_factory starting_up = none
  solo_factory benign_traffic = some (of_benign (benign random 0 none))
  solo_factory c2_traffic = some (of_c2 (c2 random 0 none demo_dst))
  solo_factory scan_traffic = some scan_demo
  solo_factory flood_traffic = some flood_demo

  module _ {W Time : Type 0} (clock : Clock W Time) (seconds : ℕ → Time) where
    -- `duration or 60.0`
    abbrev pub or_sixty : Option Time → Time
    or_sixty none = seconds 60
    or_sixty (some d) =
        if not (clock.before clock.zero_s d) && not (clock.before d clock.zero_s)
        then seconds 60
        else d

    -- `_build_schedule`, for a scenario that argparse accepts, or none.
    unfoldable pub build_schedule : Option Name → Option Time → Steps Time
    build_schedule none duration = default_schedule seconds
    build_schedule (some scenario) duration = elim (solo_factory scenario) [
      | none ↦ []
      | some g ↦ record { name = scenario; gen_factory = g; duration_s = or_sixty duration } ∷ []
    ]

    -- The `duration` that `main` passes on.
    unfoldable pub run_duration : Option Name → Option Time → Option Time
    run_duration scenario (some d) = some d
    run_duration none none = some (total_s clock next_frame (build_schedule none none))
    run_duration (some name) none = none

    -- `_run` with the dashboard's `render`, in `fuel` turns of the loop of `run_loop`.
    unfoldable pub main :
        (W → Bytes → W × Bytes)
        → Option (W → DemoState Name Time → W)
        → ℕ
        → Time
        → Option Name
        → Option Time
        → ℕ
        → W
        → Option (Result (W × DemoState Name Time))
    main xfer2 render trigger fps scenario duration fuel w =
        run_loop xfer2 clock (schedule_of clock next_frame (build_schedule scenario duration))
          (record {
            starting = starting_up;
            render = render;
            trigger = trigger;
            snap_every = 50;
            fps = fps;
            duration_s = run_duration scenario duration;
          })
          fuel w
