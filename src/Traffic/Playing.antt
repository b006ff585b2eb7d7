-- ===== src/Traffic/Playing.antt =====
-- demo/scenarios.py: what `active_name` names and what `frames` yields.
use fpga_pi_parallel_nids.Prelude.{
  ◌≡◌, refl, ◌⊎◌, inl, inr, Option-cases, Bool-cases, true, false, List, [], ◌∷◌, ◌++◌, Option,
  none, some, Result, ok, raise, runtime_error, arith, All,
}
use fpga_pi_parallel_nids.Prelude.Bytes.{Bytes}
use fpga_pi_parallel_nids.Clock.{Clock}
use fpga_pi_parallel_nids.Traffic.Timeline.{
  ScheduleStep, Playing, Frames, created, suspended, closed, sum_from, last_name, name_from,
  active_name, draw, play, play_steps, next,
}

-- What the schedule relies on in the generators: every state of `IsState` yields a frame of
-- `IsFrame` and is followed by such a state, or ends, and a first state yields at once.
pub record IsFruitful {G : Type 0} (next_frame : G → Result (Option (Bytes × G)))
    (IsState IsFirst : G → Type 0) (IsFrame : Bytes → Type 0) : Type 0 where
  pub yields_or_ends :
      (g : G)
      → IsState g
      → (next_frame g ≡ ok none)
        ⊎ ((f : Bytes) × (g1 : G) × (next_frame g ≡ ok (some (f, g1))) × IsFrame f × IsState g1)
  pub first_yields :
      (g : G)
      → IsFirst g
      → (f : Bytes) × (g1 : G) × (next_frame g ≡ ok (some (f, g1))) × IsFrame f × IsState g1
  pub first_state : (g : G) → IsFirst g → IsState g

module _ {W Name Time G : Type 0} (clock : Clock W Time)
    (next_frame : G → Result (Option (Bytes × G))) where
  -- Each of the steps, played one after another from the time `t`, is over at `elapsed_s`.
  abbrev pub AllOver : Time → Time → List (ScheduleStep Name Time G) → Type 0
  AllOver t elapsed_s [] = Unit
  AllOver t elapsed_s (s ∷ steps) =
      (clock.before elapsed_s (clock.add t s.duration_s) ≡ false)
      × AllOver (clock.add t s.duration_s) elapsed_s steps

  name_from-append :
      (t elapsed_s : Time) (over : List (ScheduleStep Name Time G)) (s : ScheduleStep Name Time G)
      (later : List (ScheduleStep Name Time G))
      → AllOver t elapsed_s over
      → clock.before elapsed_s (clock.add (sum_from clock next_frame t over) s.duration_s) ≡ true
      → name_from clock next_frame t elapsed_s (over ++ (s ∷ later)) ≡ some s.name
  unfolding name_from
  name_from-append t elapsed_s [] s later a b = rw b
  name_from-append t elapsed_s (x ∷ over) s later (a, rest) b =
      rw (a, name_from-append (clock.add t x.duration_s) elapsed_s over s later rest b)

  -- The active step is the first that is not over at the elapsed time: when every earlier step is
  -- over and this one is not, its name is given, whatever comes behind it.
  pub active_name-first :
      (elapsed_s : Time) (over : List (ScheduleStep Name Time G)) (s : ScheduleStep Name Time G)
      (later : List (ScheduleStep Name Time G))
      → AllOver clock.zero_s elapsed_s over
      → clock.before elapsed_s
          (clock.add (sum_from clock next_frame clock.zero_s over) s.duration_s)
        ≡ true
      → active_name clock next_frame (over ++ (s ∷ later)) elapsed_s ≡ ok s.name
  unfolding active_name
  active_name-first elapsed_s over s later a b =
      ground (arith, name_from-append clock.zero_s elapsed_s over s later a b)

  -- A schedule with a step always has a name to give.
  pub active_name_total :
      (s : ScheduleStep Name Time G) (steps : List (ScheduleStep Name Time G)) (elapsed_s : Time)
      → (name : Name) × (active_name clock next_frame (s ∷ steps) elapsed_s ≡ ok name)
  unfolding active_name
  active_name_total s steps elapsed_s =
      elim (Option-cases (name_from clock next_frame clock.zero_s elapsed_s (s ∷ steps))) [
        | inl e ↦ let (name, l) = last_name_total s steps in (name, ground (arith, e, l))
        | inr (name, e) ↦ (name, ground (arith, e))
      ]
    where
      last_name_total :
          (x : ScheduleStep Name Time G) (xs : List (ScheduleStep Name Time G))
          → (name : Name) × (last_name clock next_frame (x ∷ xs) ≡ ok name)
      last_name_total x [] = (x.name, refl)
      last_name_total x (y ∷ ys) = last_name_total y ys

  module _ {IsState IsFirst : G → Type 0} {IsFrame : Bytes → Type 0}
      (fruitful : IsFruitful next_frame IsState IsFirst IsFrame) where
    abbrev pub IsStep : ScheduleStep Name Time G → Type 0
    IsStep s = IsFirst s.gen_factory

    pub record IsPlaying (p : Playing Name Time G) : Type 0 where
      pub first : IsFirst p.step.gen_factory
      pub state : IsState p.gen
      pub behind : All IsStep p.rest

    -- The states of `frames` whose generators are among those.
    abbrev pub IsGood : Frames Name Time G → Type 0
    IsGood (created steps) = All IsStep steps
    IsGood (suspended p) = IsPlaying p
    IsGood closed = Unit

    draw_total :
        (p : Playing Name Time G)
        → IsPlaying p
        → (f : Bytes) × (p1 : Playing Name Time G) × (draw clock next_frame p ≡ ok (f, p1))
          × IsFrame f
          × IsPlaying p1
    unfolding draw
    draw_total p good = elim (fruitful.yields_or_ends p.gen good.state) [
      | inl e ↦
          let (f, g1, e1, is_frame, is_state) =
            fruitful.first_yields p.step.gen_factory good.first in
          (
            f,
            record p { gen = g1 },
            ground (arith, e, e1),
            is_frame,
            record { first = good.first; state = is_state; behind = good.behind },
          )
      | inr (f, g1, e, is_frame, is_state) ↦ (
        f,
        record p { gen = g1 },
        ground (arith, e),
        is_frame,
        record { first = good.first; state = is_state; behind = good.behind },
      )
    ]

    -- What the schedule gives: an end, or a frame and a good state.
    abbrev pub Yields : Result (W × Option (Bytes × Frames Name Time G)) → Type 0
    Yields r =
        ((w1 : W) × (r ≡ ok (w1, none)))
        ⊎ ((w1 : W) × (f : Bytes) × (rest : Frames Name Time G) × (r ≡ ok (w1, some (f, rest)))
            × IsFrame f
            × IsGood rest)

    play-Yields :
        (otherwise : W → Result (W × Option (Bytes × Frames Name Time G))) (w : W)
        (p : Playing Name Time G)
        → ((w1 : W) → Yields (otherwise w1))
        → IsPlaying p
        → Yields (play clock next_frame otherwise w p)
    unfolding play
    play-Yields otherwise w p other good =
        let (w1, now) = clock.monotonic w in
        elim (Bool-cases (clock.before now p.step_end)) [
          | inl e ↦
              let (f, p1, d, is_frame, playing) = draw_total p good in
              inr (w1, f, suspended p1, rw (e, d), is_frame, playing)
          | inr e ↦ rw e (other w1)
        ]

    play_steps-Yields :
        (start cum : Time) (steps : List (ScheduleStep Name Time G)) (w : W)
        → All IsStep steps
        → Yields (play_steps clock next_frame start cum steps w)
    unfolding play_steps
    play_steps-Yields start cum [] w good = inl (w, refl)
    play_steps-Yields start cum (s ∷ rest) w (first, behind) =
        let cum1 = clock.add cum s.duration_s in
        play-Yields (play_steps clock next_frame start cum1 rest) w
          (record {
            start = start;
            cum = cum1;
            step_end = clock.add start cum1;
            step = s;
            gen = s.gen_factory;
            rest = rest;
          })
          (λ w1. play_steps-Yields start cum1 rest w1 behind)
          (record {
            first = first;
            state = fruitful.first_state s.gen_factory first;
            behind = behind;
          })

    -- When every generator of the schedule yields at once when it is started, `frames` never
    -- raises, whatever the clock says: it ends, or gives a frame of one of the generators and is
    -- then in such a state again.
    pub next-Yields :
        (w : W) (i : Frames Name Time G) → IsGood i → Yields (next clock next_frame w i)
    unfolding next
    next-Yields w (created steps) good =
        let (w1, start) = clock.monotonic w in play_steps-Yields start clock.zero_s steps w1 good
    next-Yields w (suspended p) good =
        play-Yields (play_steps clock next_frame p.start p.cum p.rest) w p
          (λ w1. play_steps-Yields p.start p.cum p.rest w1 good.behind) good
    next-Yields w closed good = inl (w, refl)

  -- A bounded generator that is empty from the start breaks the schedule: within its step, `next`
  -- raises RuntimeError.
  pub next_empty :
      (w : W) (s : ScheduleStep Name Time G) (steps : List (ScheduleStep Name Time G))
      → next_frame s.gen_factory ≡ ok none
      → clock.before
          (clock.monotonic (clock.monotonic w).0).1
          (clock.add (clock.monotonic w).1 (clock.add clock.zero_s s.duration_s))
        ≡ true
      → next clock next_frame w (created (s ∷ steps)) ≡ raise runtime_error
  unfolding next play_steps play draw
  next_empty w s steps e b = ground (arith, b, e)
