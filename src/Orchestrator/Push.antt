-- ===== src/Orchestrator/Push.antt =====
-- demo/orchestrator.py: when a rule is pushed, what the log of pushed rules holds, and that the rule
-- is found by the device.
use fpga_pi_parallel_nids.Prelude.{
  ℕ, ◌^◌, ◌<◌, ◌≡◌, ◌≢◌, refl, Bool, true, false, not, ◌&&◌, ◌||◌, List, [], ◌∷◌, ◌++◌, none, some,
  Option-cases, ok, ◌>>=◌, Result-cases, Bool-cases, inl, inr, arith, leb, ◌==◌, if◌then◌else◌,
  length, length-append, ◌+◌,
}
use fpga_pi_parallel_nids.Prelude.Bytes.{Bytes, zeros, to_int}
use fpga_pi_parallel_nids.Control.{encode_rule_write}
use fpga_pi_parallel_nids.Control.Commands.{cut, rule_write, read_command, read_command-encode}
use fpga_pi_parallel_nids.Rules
use fpga_pi_parallel_nids.Rules.{Rule}
use fpga_pi_parallel_nids.Rules.Laws.{IsValid, lookup_idx-lt, lookup-write}
use fpga_pi_parallel_nids.Telemetry.{SnapResponse}
use fpga_pi_parallel_nids.Orchestrator.{
  PushedRule, DemoState, lookup_idx, is_pushed, rule_for, push_rule, maybe_push_rule,
}

-- A source deserves a new rule: its count meets the trigger, it is not the sentinel 0, and no rule
-- was pushed for it.
abbrev pub deserves : {Time : Type 0} → List (PushedRule Time) → ℕ → SnapResponse → Bool
deserves rules trigger s =
    leb trigger s.top1_count && (not (s.top1_key == 0) && not (is_pushed rules s.top1_key))

abbrev pub decision : {Name Time : Type 0} → DemoState Name Time → ℕ → Bool
decision state trigger = elim state.snapshot [
  | none ↦ false
  | some s ↦ deserves state.pushed_rules trigger s
]

-- The log of a valid state: every rule stands at the hash of its source, no source is 0, and no
-- source has two rules.
abbrev pub IsLog : {Time : Type 0} → List (PushedRule Time) → Type 0
IsLog [] = Unit
IsLog (r ∷ rs) =
    (r.idx ≡ lookup_idx r.src_ip) × (r.src_ip ≢ 0) × (is_pushed rs r.src_ip ≡ false) × IsLog rs

is_pushed-append :
    {Time : Type 0} (rs : List (PushedRule Time)) (r : PushedRule Time) (k : ℕ)
    → is_pushed (rs ++ (r ∷ [])) k ≡ (is_pushed rs k || r.src_ip == k)
unfolding is_pushed
is_pushed-append [] r k = ground arith
is_pushed-append (x ∷ rs) r k = ground (arith, is_pushed-append rs r k)

is_pushed-tail :
    {Time : Type 0} (x : PushedRule Time) (rs : List (PushedRule Time)) (k : ℕ)
    → is_pushed (x ∷ rs) k ≡ false
    → (is_pushed rs k ≡ false) × ((x.src_ip == k) ≡ false)
unfolding is_pushed
is_pushed-tail x rs k fresh = (ground arith, ground arith)

IsLog-append :
    {Time : Type 0} (rs : List (PushedRule Time)) (r : PushedRule Time)
    → IsLog rs
    → r.idx ≡ lookup_idx r.src_ip
    → r.src_ip ≢ 0
    → is_pushed rs r.src_ip ≡ false
    → IsLog (rs ++ (r ∷ []))
IsLog-append [] r v at nonzero fresh = (at, nonzero, unfold is_pushed in refl, tt)
IsLog-append (x ∷ rs) r (x_at, x_nonzero, x_fresh, v) at nonzero fresh = (
  x_at,
  x_nonzero,
  ground (arith, is_pushed-append rs r x.src_ip, is_pushed-tail x rs r.src_ip fresh),
  IsLog-append rs r v at nonzero (is_pushed-tail x rs r.src_ip fresh).0,
)

-- The host and the device hash an address to the same slot.
pub lookup_idx-same : (ip : ℕ) → lookup_idx ip ≡ Rules.lookup_idx ip
unfolding lookup_idx Rules.lookup_idx
lookup_idx-same ip = refl

lookup_idx-small : (ip : ℕ) → lookup_idx ip < 512
lookup_idx-small ip = omega (arith, lookup_idx-same ip, lookup_idx-lt ip)

-- The frame of a pushed rule is built, and the device reads it as what was meant.
rule_frame :
    (key : ℕ) (rule : Rule)
    → rule.src_ip ≡ key
    → key < 2 ^ 32
    → (f : Bytes) × (encode_rule_write (lookup_idx key) rule ≡ ok f)
      × (read_command f ≡ some (cut (rule_write (lookup_idx key) rule)))
rule_frame key rule same small = elim (Result-cases (encode_rule_write (lookup_idx key) rule)) [
  | inl (f, e) ↦ (
    f,
    e,
    ground (arith, e, read_command-encode (rule_write (lookup_idx key) rule), lookup_idx-small key),
  )
  | inr (x, e) ↦ absurd (
      ground
        (arith, e, read_command-encode (rule_write (lookup_idx key) rule), lookup_idx-small key))
]

abbrev pub argument : Rule → Rules.RuleArgument
argument r = record {
  src_ip = r.src_ip;
  action = r.action;
  severity = some r.severity;
  epoch = r.epoch;
}

-- From the top talker to the device's answer: the frame that is built for a pushed rule is read by
-- the device as that rule at that slot, and the rule store with that rule written then matches the
-- source in the rule's epoch, with the rule's action and severity, and no longer in another epoch.
pub pushed_rule-lookup :
    {Name Time : Type 0} (rs : Rules.RuleStore) (state : DemoState Name Time)
    (key action severity epoch : ℕ)
    → IsValid rs
    → key < 2 ^ 32
    → action < 256
    → severity < 16
    → state.rule_epoch < 256
    → (f : Bytes) × (encode_rule_write (lookup_idx key) (rule_for state key action severity) ≡ ok f)
      × (read_command f ≡ some (rule_write (lookup_idx key) (rule_for state key action severity)))
      × ((Rules.write rs (lookup_idx key) (argument (rule_for state key action severity)) >>= λ rs'.
            Rules.lookup rs' key epoch)
          ≡ ok (
              if state.rule_epoch == epoch
              then record { found = true; action = action; severity = severity }
              else Rules.no_match))
pushed_rule-lookup rs state key action severity epoch v k a s ep =
    let rule = rule_for state key action severity in
    let (f, e, r) = rule_frame key rule refl k in
    (
      f,
      e,
      ground (arith, r),
      ground (arith, lookup_idx-same key, lookup-write rs (argument rule) key epoch v),
    )

rule_frame-length :
    (idx : ℕ) (rule : Rule) (f : Bytes) → encode_rule_write idx rule ≡ ok f → length f ≡ 32
unfolding encode_rule_write
rule_frame-length idx rule f e = ground arith

module _ {W Name Time : Type 0} (xfer2 : W → Bytes → W × Bytes) (monotonic : W → W × Time) where
  -- A call that does not push changes nothing, and a call pushes exactly when the top talker of the
  -- snapshot deserves a rule.
  pub maybe_push_rule-decision :
      (w : W) (state : DemoState Name Time) (trigger action severity : ℕ)
      → maybe_push_rule xfer2 monotonic w state trigger action severity ≡ elim state.snapshot [
        | none ↦ ok (w, (state, false))
        | some s ↦
            if deserves state.pushed_rules trigger s
            then push_rule xfer2 monotonic w state s.top1_key action severity
            else ok (w, (state, false))
      ]
  unfolding maybe_push_rule
  maybe_push_rule-decision w state trigger action severity = ground arith

  -- A rule is pushed whatever the device answers.
  push_rule_total :
      (w : W) (state : DemoState Name Time) (key action severity : ℕ)
      → key < 2 ^ 32
      → (w1 : W) × (now : Time) × (push_rule xfer2 monotonic w state key action severity
          ≡ ok (
            w1,
            (
              record state {
                pushed_rules =
                    state.pushed_rules
                    ++ (record { src_ip = key; idx = lookup_idx key; pushed_at_monotonic = now }
                        ∷ []);
              },
              true,
            ),
          ))
  unfolding push_rule
  push_rule_total w state key action severity small =
      let (f, e, _) = rule_frame key (rule_for state key action severity) refl small in
      let (w2, _) = xfer2 (xfer2 w f).0 (zeros 32) in
      let (w3, now) = monotonic w2 in
      (
        w3,
        now,
        ground
            (arith, e, rule_frame-length (lookup_idx key) (rule_for state key action severity) f e),
      )

  -- When the log of rules is valid and the snapshot's key is a 32-bit address, the call returns,
  -- whatever the device answers; it reports a push exactly when the top talker meets the trigger,
  -- is not the sentinel 0 and has no rule yet, and then the log is one rule longer, else it is as
  -- long as it was; the log stays valid: every rule at the hash of its source, no rule for 0, and
  -- no source with two rules; and nothing else of the state changes.
  pub maybe_push_rule_total :
      (w : W) (state : DemoState Name Time) (trigger action severity : ℕ)
      → IsLog state.pushed_rules
      → ((s : SnapResponse) → state.snapshot ≡ some s → s.top1_key < 2 ^ 32)
      → (w1 : W) × (rules : List (PushedRule Time)) × (maybe_push_rule xfer2 monotonic w state
            trigger action severity
          ≡ ok (w1, (record state { pushed_rules = rules }, decision state trigger)))
        × (length rules ≡ length state.pushed_rules + to_int (decision state trigger))
        × IsLog rules
  maybe_push_rule_total w state trigger action severity v small =
      elim (Option-cases state.snapshot) [
        | inl e ↦ (
          w,
          state.pushed_rules,
          ground (arith, e, maybe_push_rule-decision w state trigger action severity),
          ground (arith, e),
          v,
        )
        | inr (s, e) ↦ elim (Bool-cases (deserves state.pushed_rules trigger s)) [
          | inl d ↦
              let (w1, now, r) = push_rule_total w state s.top1_key action severity (small s e) in
              let pushed : PushedRule Time = record {
                src_ip = s.top1_key;
                idx = lookup_idx s.top1_key;
                pushed_at_monotonic = now;
              } in
              (
                w1,
                state.pushed_rules ++ (pushed ∷ []),
                ground (arith, e, d, r, maybe_push_rule-decision w state trigger action severity),
                ground (arith, e, d, length-append state.pushed_rules (pushed ∷ [])),
                IsLog-append state.pushed_rules pushed v refl (ground (arith, d))
                    (ground (arith, d)),
              )
          | inr d ↦ (
            w,
            state.pushed_rules,
            ground (arith, e, d, maybe_push_rule-decision w state trigger action severity),
            ground (arith, e, d),
            v,
          )
        ]
      ]
