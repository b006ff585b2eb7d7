-- ===== src/Tests/Blocking.antt =====
-- An instance for silicon_loop_demo.py: a board with rules, and a clock that a pause moves on.
use fpga_pi_parallel_nids.Prelude.{
  ℕ, ◌+◌, ◌-◌, ◌≡◌, refl, Bool, true, false, [], ◌∷◌, ◌++◌, Option, some, Result, ok, raise, ltb,
  ◌==◌, if◌then◌else◌, length,
}
use fpga_pi_parallel_nids.Prelude.Bytes.{Bytes, zeros}
use fpga_pi_parallel_nids.Clock.{Clock}
use fpga_pi_parallel_nids.Control.Commands.{Command, read_command}
use fpga_pi_parallel_nids.Orchestrator.Push.{argument}
use fpga_pi_parallel_nids.Rules
use fpga_pi_parallel_nids.Rules.{Rule, RuleStore, Match}
use fpga_pi_parallel_nids.Rules.Laws.{IsValid, init-IsValid, write-IsValid}
use fpga_pi_parallel_nids.Verdict.{Verdict}
use fpga_pi_parallel_nids.Silicon.LoopDemo.Board.{source_of, opcode_of}

-- What the board has to say: nothing, an acknowledgement, the telemetry of the flood, or a verdict.
data Say : Type 0 where
  blank acked flooded : Say
  judged : Bool → Say

abbrev spoken : Say → Bytes
spoken blank = zeros 32
spoken acked = 0x5A ∷ 0x12 ∷ zeros 30
spoken flooded =
    (0x5A ∷ 0 ∷ 1 ∷ 0 ∷ 0 ∷ 0 ∷ 10 ∷ [])
    ++ (zeros 8 ++ ((0 ∷ 10 ∷ 0xCB ∷ 0 ∷ 0x71 ∷ 0x05 ∷ []) ++ zeros 11))
spoken (judged true) = 0xA5 ∷ 8 ∷ 3 ∷ 1 ∷ zeros 28
spoken (judged false) = 0xA5 ∷ 0 ∷ 3 ∷ 1 ∷ zeros 28

abbrev Held : Type 0
Held = (rs : RuleStore) × IsValid rs

record Board : Type 0 where
  held : Held
  say : Say
  time : ℕ

abbrev wrote :
    (h : Held) (idx : ℕ) (rule : Rule)
    → (r : Result RuleStore) → Rules.write h.0 idx (argument rule) ≡ r
    → Held
wrote h idx rule (ok rs) e = (rs, write-IsValid h.0 rs idx (argument rule) h.1 e)
wrote h idx rule (raise x) e = h

abbrev found_in : Result Match → Bool
found_in (ok m) = m.found
found_in (raise e) = false

abbrev obey : Board → Option Command → Board
obey w (some (Command.rule_write idx rule)) = record w {
  held = wrote w.held idx rule (Rules.write w.held.0 idx (argument rule)) refl;
  say = acked;
}
obey w c = record w { say = flooded }

-- A packet is looked up in epoch 0; another frame is a command, or a query of the telemetry.
abbrev receive : Board → Bytes → Board
receive w f =
    if opcode_of f == 0
    then record w { say = judged (found_in (Rules.lookup w.held.0 (source_of f) 0)) }
    else obey w (read_command f)

abbrev board : Board → Bytes → Board × Bytes
board w f = (receive w f, if length f == 32 then spoken w.say else zeros (length f))

abbrev wait : Board → Board
wait w = record w { time = w.time + 1 }

abbrev clock : Clock Board ℕ
clock = record {
  zero_s = 0;
  add = λ a b. a + b;
  sub = λ a b. a - b;
  inverse = λ t. t;
  before = ltb;
  monotonic = λ w. (w, w.time);
  sleep = λ t w. wait w;
}

abbrev fresh : Board
fresh = record { held = (Rules.init, init-IsValid); say = blank; time = 7 }
