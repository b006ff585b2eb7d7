-- ===== src/Orchestrator/Sound.antt =====
-- demo/orchestrator.py: the invariant of the loop's state.
use fpga_pi_parallel_nids.Prelude.{
  ℕ, zero, suc, ◌-◌, ◌≤◌, ◌≡◌, inl, inr, true, List, [], ◌∷◌, ◌++◌, Option, none, some,
  Result-cases, ok, arith, length, All, length-drop, drop,
}
use fpga_pi_parallel_nids.Prelude.Bytes.{Bytes}
use fpga_pi_parallel_nids.Verdict.{Verdict, decode_verdict}
use fpga_pi_parallel_nids.Orchestrator.{DemoState, init, record_verdict, verdicts_kept}
use fpga_pi_parallel_nids.Orchestrator.Push.{IsLog}
use fpga_pi_parallel_nids.Orchestrator.Poll.{HasReceived}

abbrev pub IsVerdict : Verdict → Type 0
IsVerdict v = v.valid ≡ true

-- The invariant of the loop.
pub record IsSound {Name Time : Type 0} (state : DemoState Name Time) : Type 0 where
  pub log : IsLog state.pushed_rules
  pub received : HasReceived state.snapshot
  pub kept : length state.recent_verdicts ≤ verdicts_kept
  pub all_valid : All IsVerdict state.recent_verdicts

All-append_one :
    {A : Type 0} (P : A → Type 0) (xs : List A) (x : A) → All P xs → P x → All P (xs ++ (x ∷ []))
All-append_one P [] x h p = (p, tt)
All-append_one P (y ∷ ys) x (q, h) p = (q, All-append_one P ys x h p)

All-drop : {A : Type 0} (P : A → Type 0) (n : ℕ) (xs : List A) → All P xs → All P (drop n xs)
All-drop P zero xs h = h
All-drop P (suc n) [] h = tt
All-drop P (suc n) (x ∷ xs) (p, h) = All-drop P n xs h

pub init-IsSound :
    {Name Time : Type 0} (name : Name) (start : Time) (epoch : ℕ) → IsSound (init name start epoch)
unfolding init
init-IsSound name start epoch = record {
  log = tt;
  received = tt;
  kept = omega arith;
  all_valid = tt;
}

pub record_verdict-IsSound :
    {Name Time : Type 0} (state : DemoState Name Time) (v : Verdict)
    → IsSound state
    → v.valid ≡ true
    → IsSound (record_verdict state v)
unfolding record_verdict
record_verdict-IsSound state v sound valid =
    let longer = state.recent_verdicts ++ (v ∷ []) in
    record {
      log = sound.log;
      received = sound.received;
      kept = omega (arith, length-drop (length longer - verdicts_kept) longer);
      all_valid =
          All-drop IsVerdict (length longer - verdicts_kept) longer
            (All-append_one IsVerdict state.recent_verdicts v sound.all_valid valid);
    }

pub decode_verdict_received :
    (frame : Bytes) → length frame ≡ 32 → (v : Verdict) × (decode_verdict frame ≡ ok v)
unfolding decode_verdict
decode_verdict_received frame size = elim (Result-cases (decode_verdict frame)) [
  | inl decoded ↦ decoded
  | inr (x, e) ↦ absurd (ground (arith, size, e))
]

-- How many of the `n` frames are sent: all of them without a time limit, and no more with one.
abbrev pub IsCount : {Time : Type 0} → Option Time → ℕ → ℕ → Type 0
IsCount none sent n = sent ≡ n
IsCount (some end_at) sent n = sent ≤ n

pub IsCount-exact :
    {Time : Type 0} (end_at : Option Time) (sent n : ℕ) → sent ≡ n → IsCount end_at sent n
IsCount-exact none sent n same = same
IsCount-exact (some t) sent n same = omega arith

pub IsCount-same :
    {Time : Type 0} (end_at : Option Time) (sent n m : ℕ)
    → n ≡ m
    → IsCount end_at sent n
    → IsCount end_at sent m
IsCount-same none sent n m same count = omega arith
IsCount-same (some t) sent n m same count = omega arith
