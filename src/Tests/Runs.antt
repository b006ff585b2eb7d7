-- ===== src/Tests/Runs.antt =====
-- Instances for the loops of demo/orchestrator.py, run_demo.py and closed_loop.py.
use fpga_pi_parallel_nids.Prelude.{
  List, ◌++◌, map, set, ◌≤◌, ℕ, zero, suc, ◌+◌, ◌-◌, ◌≡◌, refl, ◌⊎◌, inl, inr, [], ◌∷◌, Option,
  none, some, Result, ok, ltb, arith, length, length-replicate, All,
}
use fpga_pi_parallel_nids.Prelude.Bytes.{Bytes, IsByte, zeros, zeros-IsByte}
use fpga_pi_parallel_nids.Clock.{Clock}
use fpga_pi_parallel_nids.ClosedLoop
use fpga_pi_parallel_nids.ClosedLoop.{Arguments}
use fpga_pi_parallel_nids.ClosedLoop.Rounds.{IsRecord, main_total}
use fpga_pi_parallel_nids.ClosedLoop.Talk.{Exchange, Talks, IsDistinct, rules_sent, slot_and_rule}
use fpga_pi_parallel_nids.Control.{encode_threshold_read, decode_threshold_read}
use fpga_pi_parallel_nids.Orchestrator.{DemoState, read_rule_epoch}
use fpga_pi_parallel_nids.Orchestrator.Live.{RunsWell}
use fpga_pi_parallel_nids.Orchestrator.Loop.{Schedule, Options, run_loop}
use fpga_pi_parallel_nids.Orchestrator.Poll.{AnswersBytes}
use fpga_pi_parallel_nids.Orchestrator.Running.{IsFinite, run_loop_total}
use fpga_pi_parallel_nids.Orchestrator.Sound.{IsSound, IsCount}
use fpga_pi_parallel_nids.RunDemo
use fpga_pi_parallel_nids.RunDemo.{Name, flood_traffic}
use fpga_pi_parallel_nids.RunDemo.Sound.{main-RunsWell}
use fpga_pi_parallel_nids.SpiLink.{send_frame}
use fpga_pi_parallel_nids.Tests.Sources.{dice, dice-IsFair}

-- A device that answers every frame with the magic of a response, and counts the frames.
abbrev reply : Bytes → Bytes
reply [] = []
reply (b ∷ bs) = 0x5A ∷ zeros (length bs)

abbrev transfer : ℕ → Bytes → ℕ × Bytes
transfer w f = (w + 1, reply f)

length-reply : (f : Bytes) → length (reply f) ≡ length f
length-reply [] = refl
length-reply (b ∷ bs) = omega (arith, length-replicate (length bs) zero)

reply-IsByte : (f : Bytes) → All IsByte (reply f)
reply-IsByte [] = tt
reply-IsByte (b ∷ bs) = (omega arith, zeros-IsByte (length bs))

transfer_answers : AnswersBytes transfer
transfer_answers = record {
  answer_length = λ w f. length-reply f;
  answer_bytes = λ w f. reply-IsByte f;
}

epoch_read : read_rule_epoch transfer 0 ≡ ok (2, 0)
unfolding read_rule_epoch encode_threshold_read decode_threshold_read send_frame
epoch_read = refl

-- A clock that counts the readings and the frames.
abbrev ticking : Clock ℕ ℕ
ticking = record {
  zero_s = 0;
  add = λ a b. a + b;
  sub = λ a b. a - b;
  inverse = λ t. 1;
  before = ltb;
  monotonic = λ w. (w + 1, w);
  sleep = λ t w. w + t;
}

-- A schedule of three frames.
abbrev next_zeros : ℕ → ℕ → Result (ℕ × Option (Bytes × ℕ))
next_zeros w zero = ok (w, none)
next_zeros w (suc n) = ok (w, some (zeros 32, n))

abbrev three : Schedule ℕ ℕ ℕ ℕ
three = record { frames = 3; next = next_zeros; active_name = λ t. ok t }

abbrev all_left : ℕ → ℕ
all_left n = n

three-IsFinite : IsFinite three all_left
three-IsFinite = record { next_frame = from; names = λ t. (t, refl) }
  where
    from :
        (w i : ℕ)
        → ((w1 : ℕ) × (next_zeros w i ≡ ok (w1, none)) × (i ≡ 0))
          ⊎ ((w1 : ℕ) × (f : Bytes) × (rest : ℕ) × (next_zeros w i ≡ ok (w1, some (f, rest)))
              × (length f ≡ 32)
              × (i ≡ suc rest))
    from w zero = inl (w, refl, refl)
    from w (suc n) = inr (w, zeros 32, n, refl, refl, refl)

abbrev unhurried : Options ℕ ℕ ℕ
unhurried = record {
  starting = 0;
  render = none;
  trigger = 8;
  snap_every = 1;
  fps = 1;
  duration_s = none;
}

run_loop_total_example :
    (w2 : ℕ) × (after : DemoState ℕ ℕ) × (run_loop transfer ticking three unhurried 4 0
      ≡ some (ok (w2, after)))
    × IsSound after
    × IsCount {Time = ℕ} none after.frames_sent 3
run_loop_total_example =
    run_loop_total transfer ticking three unhurried transfer_answers all_left three-IsFinite 4 0 2 0
      (omega arith) epoch_read

main-RunsWell_example :
    RunsWell (RunDemo.main dice ticking (λ n. n) transfer none 8 1 (some flood_traffic) none 20 0)
main-RunsWell_example =
    main-RunsWell dice dice-IsFair ticking (λ n. n) transfer none 8 1 (some flood_traffic) none 20 0
      2 0 transfer_answers (λ e. absurd (ground arith)) epoch_read

abbrev defaults : Arguments
defaults = record { trigger = 0; action = 5; severity = 3 }

-- The same device with a record of the exchanges.
abbrev recorded : List Exchange → Bytes → List Exchange × Bytes
recorded w f = (w ++ ((f, reply f) ∷ []), reply f)

recorded_answers : AnswersBytes recorded
recorded_answers = record {
  answer_length = λ w f. length-reply f;
  answer_bytes = λ w f. reply-IsByte f;
}

recorded-IsRecord : IsRecord recorded (λ w. w) (λ w. w)
recorded-IsRecord = record { transfer = λ w f. refl; pause = λ w. refl }

-- The exchanges in which the epoch is read.
abbrev opening : List Exchange
opening = (set (3 ∷ zeros 31) 16 0x14, 0x5A ∷ zeros 31) ∷ (zeros 32, 0x5A ∷ zeros 31) ∷ []

epoch_recorded : read_rule_epoch recorded [] ≡ ok (opening, 0)
unfolding read_rule_epoch encode_threshold_read decode_threshold_read send_frame
epoch_recorded = refl

main_total_example :
    (w2 : List Exchange) × (after : List ℕ) × (talk : List Exchange) × (ClosedLoop.main recorded
        (λ w. w)
        3
        []
        defaults
      ≡ ok (w2, after))
    × (w2 ≡ opening ++ talk)
    × Talks defaults 0 3 [] talk after
    × (rules_sent talk ≡ map (slot_and_rule defaults 0) after)
    × IsDistinct after
    × (length after ≤ 3)
main_total_example =
    main_total recorded (λ w. w) (λ w. w) recorded_answers recorded-IsRecord 0 defaults 3 [] opening
      epoch_recorded
