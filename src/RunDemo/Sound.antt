-- ===== src/RunDemo/Sound.antt =====
-- run_demo.py: a run of the demo with its own schedules.
use fpga_pi_parallel_nids.Prelude.{
  ℕ, ◌+◌, ◌<◌, ◌≡◌, ◌≢◌, refl, ◌∙◌, ◌⊎◌, inl, inr, Bool-cases, false, List, [], ◌∷◌, Option, none,
  some, Result, ok, ltb, ltb→lt, lt→ltb, arith, length, All,
}
use fpga_pi_parallel_nids.Prelude.Bytes.{Bytes}
use fpga_pi_parallel_nids.ScanRate
use fpga_pi_parallel_nids.ScanRate.{ScanRateTable}
use fpga_pi_parallel_nids.Thresholds
use fpga_pi_parallel_nids.Clock.{Clock}
use fpga_pi_parallel_nids.Classifier.{Header}
use fpga_pi_parallel_nids.Frames.Headers.{header_frame, masked, build_classify_frame_lem}
use fpga_pi_parallel_nids.Orchestrator.{DemoState, read_rule_epoch}
use fpga_pi_parallel_nids.Orchestrator.Poll.{AnswersBytes}
use fpga_pi_parallel_nids.Orchestrator.Live.{IsLive, RunsWell, run_loop_live}
use fpga_pi_parallel_nids.Traffic.{
  Random, Benign, Beacon, Scan, Flood, benign, c2, port_scan, next_scan, flood, next_flood,
}
use fpga_pi_parallel_nids.Traffic.Sources.{IsFair, next_benign-clean, next_c2-classify}
use fpga_pi_parallel_nids.Traffic.Timeline.{ScheduleStep, schedule_of}
use fpga_pi_parallel_nids.Traffic.Playing.{IsFruitful, IsGood, next-Yields, active_name_total}
use fpga_pi_parallel_nids.RunDemo.{
  Name, starting_up, benign_traffic, c2_traffic, scan_traffic, flood_traffic, Generator, of_benign,
  of_c2, of_scan, of_flood, next_frame, default_schedule, solo_factory, build_schedule, main,
}

abbrev pub IsFrame : Bytes → Type 0
IsFrame f = length f ≡ 32

-- The generators of the demo: `benign` and `c2` without a count, the others with one.
abbrev pub IsState : {R : Type 0} → Generator R → Type 0
IsState (of_benign g) = g.count ≡ none
IsState (of_c2 g) = g.count ≡ none
IsState (of_scan g) = Unit
IsState (of_flood g) = Unit

-- In their first states they have a frame to give.
abbrev pub IsFirst : {R : Type 0} → Generator R → Type 0
IsFirst (of_benign g) = g.count ≡ none
IsFirst (of_c2 g) = g.count ≡ none
IsFirst (of_scan g) = g.i < g.count
IsFirst (of_flood g) = g.i < g.count

some_table : ScanRateTable
some_table = ScanRate.init Thresholds.init

abbrev Gives : {R : Type 0} → Result (Option (Bytes × Generator R)) → Type 0
Gives {R} r = (f : Bytes) × (g1 : Generator R) × (r ≡ ok (some (f, g1))) × IsFrame f × IsState g1

module _ {R : Type 0} (random : Random R) (fair : IsFair random) where
  benign-Gives : (g : Benign R) → g.count ≡ none → Gives (next_frame random (of_benign g))
  unfolding next_frame
  benign-Gives g e =
      let (f, g1, h, n, _, same, size, _, _, _, _, _, _) =
        next_benign-clean random fair 0 g (ground (arith, e)) in
      (f, of_benign g1, ground (arith, n), size, same ∙ e)

  c2-Gives : (g : Beacon R) → g.count ≡ none → Gives (next_frame random (of_c2 g))
  unfolding next_frame
  c2-Gives g e =
      let (f, g1, after, v, n, _, same, size, _, _, _, _) =
        next_c2-classify random g some_table 0 0 (ground (arith, e)) in
      (f, of_c2 g1, ground (arith, n), size, same ∙ e)

  -- The header of a frame of `port_scan` or `flood`.
  abbrev attack : ℕ → ℕ → ℕ → Header
  attack src dst dport = record {
    src_ip = src;
    dst_ip = dst;
    src_port = 0;
    dst_port = dport;
    proto = 6;
    flags = 0x02;
    size = 64;
  }

  scan-Gives : (g : Scan) → g.i < g.count → Gives (next_frame random (of_scan g))
  unfolding next_frame next_scan
  scan-Gives g lt =
      let h = attack g.src_ip g.dst_ip (g.start_port + g.i) in
      (
        header_frame (masked h),
        of_scan (record g { i = g.i + 1 }),
        rw (lt→ltb g.i g.count lt, build_classify_frame_lem h),
        refl,
        tt,
      )

  flood-Gives : (g : Flood) → g.i < g.count → Gives (next_frame random (of_flood g))
  unfolding next_frame next_flood
  flood-Gives g lt =
      let h = attack g.src_ip g.dst_ip g.dst_port in
      (
        header_frame (masked h),
        of_flood (record g { i = g.i + 1 }),
        rw (lt→ltb g.i g.count lt, build_classify_frame_lem h),
        refl,
        tt,
      )

  scan_ends : (g : Scan) → ltb g.i g.count ≡ false → next_frame random (of_scan g) ≡ ok none
  unfolding next_frame next_scan
  scan_ends g e = rw e

  flood_ends : (g : Flood) → ltb g.i g.count ≡ false → next_frame random (of_flood g) ≡ ok none
  unfolding next_frame next_flood
  flood_ends g e = rw e

  yields :
      (g : Generator R) → IsState g → (next_frame random g ≡ ok none) ⊎ Gives (next_frame random g)
  yields (of_benign g) e = inr (benign-Gives g e)
  yields (of_c2 g) e = inr (c2-Gives g e)
  yields (of_scan g) e = elim (Bool-cases (ltb g.i g.count)) [
    | inl t ↦ inr (scan-Gives g (ltb→lt g.i g.count t))
    | inr t ↦ inl (scan_ends g t)
  ]
  yields (of_flood g) e = elim (Bool-cases (ltb g.i g.count)) [
    | inl t ↦ inr (flood-Gives g (ltb→lt g.i g.count t))
    | inr t ↦ inl (flood_ends g t)
  ]

  starts : (g : Generator R) → IsFirst g → Gives (next_frame random g)
  starts (of_benign g) e = benign-Gives g e
  starts (of_c2 g) e = c2-Gives g e
  starts (of_scan g) lt = scan-Gives g lt
  starts (of_flood g) lt = flood-Gives g lt

  keeps : (g : Generator R) → IsFirst g → IsState g
  keeps (of_benign g) e = e
  keeps (of_c2 g) e = e
  keeps (of_scan g) lt = tt
  keeps (of_flood g) lt = tt

  pub generators_fruitful : IsFruitful (next_frame random) IsState IsFirst IsFrame
  generators_fruitful = record {
    yields_or_ends = yields;
    first_yields = starts;
    first_state = keeps;
  }

  module _ {W Time : Type 0} (clock : Clock W Time) (seconds : ℕ → Time) where
    -- A schedule of the demo has a step, and its generators are in their first states.
    abbrev IsReady : List (ScheduleStep Name Time (Generator R)) → Type 0
    IsReady [] = ⊥
    IsReady (s ∷ steps) =
        All (λ (t : ScheduleStep Name Time (Generator R)). IsFirst t.gen_factory) (s ∷ steps)

    build_schedule-IsReady :
        (scenario : Option Name) (duration : Option Time)
        → scenario ≢ some starting_up
        → IsReady (build_schedule random clock seconds scenario duration)
    unfolding build_schedule default_schedule solo_factory benign c2 port_scan flood
    build_schedule-IsReady none duration known =
        (refl, (refl, (omega arith, (omega arith, (refl, tt)))))
    build_schedule-IsReady (some starting_up) duration known = absurd (known refl)
    build_schedule-IsReady (some benign_traffic) duration known = (refl, tt)
    build_schedule-IsReady (some c2_traffic) duration known = (refl, tt)
    build_schedule-IsReady (some scan_traffic) duration known = (omega arith, tt)
    build_schedule-IsReady (some flood_traffic) duration known = (omega arith, tt)

    schedule_of-IsLive :
        (steps : List (ScheduleStep Name Time (Generator R)))
        → IsReady steps
        → IsLive
            (schedule_of clock (next_frame random) steps)
            (IsGood clock (next_frame random) generators_fruitful)
    unfolding schedule_of
    schedule_of-IsLive [] ready = elim ready [ ]
    schedule_of-IsLive (s ∷ steps) ready = record {
      next_frame = next-Yields clock (next_frame random) generators_fruitful;
      first_state = ready;
      names = active_name_total clock (next_frame random) s steps;
    }

    -- The demo never raises: with any of its schedules, any trigger, speed, duration and
    -- dashboard, a random source that draws members of its pools and numbers in their range, and a
    -- link that answers as many bytes as it is given, once the rule epoch is read, in any number of
    -- turns it is still running or has returned with a valid log of rules, a snapshot that fits its
    -- frame and at most 12 verdicts, all of them valid ones.
    pub main-RunsWell :
        (xfer2 : W → Bytes → W × Bytes) (render : Option (W → DemoState Name Time → W))
        (trigger : ℕ) (fps : Time) (scenario : Option Name) (duration : Option Time) (fuel : ℕ)
        (w w1 : W) (epoch : ℕ)
        → AnswersBytes xfer2
        → scenario ≢ some starting_up
        → read_rule_epoch xfer2 w ≡ ok (w1, epoch)
        → RunsWell (main random clock seconds xfer2 render trigger fps scenario duration fuel w)
    unfolding main
    main-RunsWell xfer2 render trigger fps scenario duration fuel w w1 epoch link known read =
        run_loop_live xfer2 clock _ _ link
          (schedule_of-IsLive (build_schedule random clock seconds scenario duration)
            (build_schedule-IsReady scenario duration known))
          fuel w w1 epoch read
