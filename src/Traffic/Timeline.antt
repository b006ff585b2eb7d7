-- ===== src/Traffic/Timeline.antt =====
-- demo/scenarios.py: `Schedule`, which plays the generators one after another by the clock.
use fpga_pi_parallel_nids.Prelude.{
  List, [], ◌∷◌, Option, none, some, Result, ok, raise, index_error, runtime_error, if◌then◌else◌,
}
use fpga_pi_parallel_nids.Prelude.Bytes.{Bytes}
use fpga_pi_parallel_nids.Clock.{Clock}
use fpga_pi_parallel_nids.Orchestrator.Loop.{Schedule}

-- `gen_factory` gives the generator in its first state.
pub record ScheduleStep (Name Time G : Type 0) : Type 0 where
  pub name : Name
  pub gen_factory : G
  pub duration_s : Time

-- The local variables of `frames` at its `yield`: the step and the steps behind it.
pub record Playing (Name Time G : Type 0) : Type 0 where
  pub start : Time
  pub cum : Time
  pub step_end : Time
  pub step : ScheduleStep Name Time G
  pub gen : G
  pub rest : List (ScheduleStep Name Time G)

-- The generator `frames`: not yet started, at its `yield`, or left.
pub data Frames (Name Time G : Type 0) : Type 0 where
  created : List (ScheduleStep Name Time G) → Frames Name Time G
  suspended : Playing Name Time G → Frames Name Time G
  closed : Frames Name Time G

-- `next` of the generators, and the clock.
module _ {W Name Time G : Type 0} (clock : Clock W Time)
    (next_frame : G → Result (Option (Bytes × G))) where
  abbrev pub sum_from : Time → List (ScheduleStep Name Time G) → Time
  sum_from t [] = t
  sum_from t (s ∷ steps) = sum_from (clock.add t s.duration_s) steps

  unfoldable pub total_s : List (ScheduleStep Name Time G) → Time
  total_s steps = sum_from clock.zero_s steps

  abbrev pub last_name : List (ScheduleStep Name Time G) → Result Name
  last_name [] = raise index_error
  last_name (s ∷ []) = ok s.name
  last_name (s ∷ next ∷ steps) = last_name (next ∷ steps)

  -- The loop of `active_name`, from the time `t`; `none` when it ends without a `return`.
  unfoldable pub name_from : Time → Time → List (ScheduleStep Name Time G) → Option Name
  name_from t elapsed_s [] = none
  name_from t elapsed_s (s ∷ steps) =
      let later = name_from (clock.add t s.duration_s) elapsed_s steps in
      if clock.before elapsed_s (clock.add t s.duration_s) then some s.name else later

  unfoldable pub active_name : List (ScheduleStep Name Time G) → Time → Result Name
  active_name steps elapsed_s = elim (name_from clock.zero_s elapsed_s steps) [
    | none ↦ last_name steps
    | some name ↦ ok name
  ]

  -- The `try` of `frames`. A generator that ends at once when it is restarted raises
  -- StopIteration inside `frames`, which is a RuntimeError (PEP 479).
  unfoldable pub draw : Playing Name Time G → Result (Bytes × Playing Name Time G)
  draw p = elim (next_frame p.gen) [
    | raise e ↦ raise e
    | ok (some (frame, gen)) ↦ ok (frame, record p { gen = gen })
    | ok none ↦ elim (next_frame p.step.gen_factory) [
      | raise e ↦ raise e
      | ok (some (frame, gen)) ↦ ok (frame, record p { gen = gen })
      | ok none ↦ raise runtime_error
    ]
  ]

  -- One test of the inner `while`; `otherwise` is what follows the step.
  unfoldable pub play :
      (W → Result (W × Option (Bytes × Frames Name Time G)))
      → W
      → Playing Name Time G
      → Result (W × Option (Bytes × Frames Name Time G))
  play otherwise w p =
      let (w1, now) = clock.monotonic w in
      if clock.before now p.step_end
      then elim (draw p) [
        | raise e ↦ raise e
        | ok (frame, after) ↦ ok (w1, some (frame, suspended after))
      ]
      else otherwise w1

  -- The `for` loop, from the times `start` and `cum`.
  unfoldable pub play_steps :
      Time
      → Time
      → List (ScheduleStep Name Time G)
      → W
      → Result (W × Option (Bytes × Frames Name Time G))
  play_steps start cum [] w = ok (w, none)
  play_steps start cum (s ∷ rest) w =
      let cum1 = clock.add cum s.duration_s in
      play (play_steps start cum1 rest) w (record {
        start = start;
        cum = cum1;
        step_end = clock.add start cum1;
        step = s;
        gen = s.gen_factory;
        rest = rest;
      })

  unfoldable pub next : W → Frames Name Time G → Result (W × Option (Bytes × Frames Name Time G))
  next w (created steps) =
      let (w1, start) = clock.monotonic w in play_steps start clock.zero_s steps w1
  next w (suspended p) = play (play_steps p.start p.cum p.rest) w p
  next w closed = ok (w, none)

  -- The schedule as the orchestrator uses it.
  unfoldable pub schedule_of :
      List (ScheduleStep Name Time G) → Schedule W Name Time (Frames Name Time G)
  schedule_of steps = record {
    frames = created steps;
    next = next;
    active_name = active_name steps;
  }
