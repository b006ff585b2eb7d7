-- ===== src/Silicon/LoopDemo/Board.antt =====
-- silicon_loop_demo.py: what the demo asks of the board, and its frames.
use fpga_pi_parallel_nids.Prelude.{
  ℕ, ◌≡◌, refl, inl, inr, bit_and, Bool, true, false, ◌&&◌, ◌||◌, some, ok, Result-cases, arith,
  ◌==◌, if◌then◌else◌, get_or, length,
}
use fpga_pi_parallel_nids.Prelude.Bytes.{Bytes, truthy, from_bytes, slice}
use fpga_pi_parallel_nids.Control.{encode_rule_write}
use fpga_pi_parallel_nids.Control.Commands.{rule_write, read_command}
use fpga_pi_parallel_nids.Orchestrator.Push.{argument}
use fpga_pi_parallel_nids.Rules
use fpga_pi_parallel_nids.Rules.{Rule, RuleStore, Match}
use fpga_pi_parallel_nids.Rules.Laws.{IsValid, lookup-write}
use fpga_pi_parallel_nids.Verdict.{Verdict, decode_verdict}
use fpga_pi_parallel_nids.Silicon.LoopDemo.{lookup_idx, udp_frame, flood_src, is_blocked}

abbrev pub source_of : Bytes → ℕ
source_of f = from_bytes (slice f 0 4)

abbrev pub opcode_of : Bytes → ℕ
opcode_of f = get_or f 16 0

-- What PROTOCOL.md says of the rules of a board: it answers a frame one frame late; a rule write is stored
-- as in the model and acknowledged; a packet leaves the rules as they are, both keep the epoch, and its verdict has the
-- match that the lookup in the board's epoch of then finds, and the escalation of the rule's action beside
-- that of the other stages, `others`.
pub record LooksUp {W : Type 0} (xfer2 : W → Bytes → W × Bytes) (rules : W → RuleStore)
    (pending : W → Bytes) (others : W → Bytes → Bool) (epoch : W → ℕ) : Type 0 where
  pub answer : (w : W) (f : Bytes) → length f ≡ 32 → (xfer2 w f).1 ≡ pending w
  pub whole : (w : W) → IsValid (rules w)
  pub stores :
      (w : W) (f : Bytes) (idx : ℕ) (rule : Rule) (rs : RuleStore)
      → read_command f ≡ some (rule_write idx rule)
      → Rules.write (rules w) idx (argument rule) ≡ ok rs
      → rules (xfer2 w f).0 ≡ rs
  pub acknowledges :
      (w : W) (f : Bytes) (idx : ℕ) (rule : Rule)
      → read_command f ≡ some (rule_write idx rule)
      → (get_or (pending (xfer2 w f).0) 0 0 ≡ 0x5A) × (get_or (pending (xfer2 w f).0) 1 0 ≡ 0x12)
  pub stores_in_epoch :
      (w : W) (f : Bytes) (idx : ℕ) (rule : Rule)
      → read_command f ≡ some (rule_write idx rule)
      → epoch (xfer2 w f).0 ≡ epoch w
  pub keeps_epoch : (w : W) (f : Bytes) → opcode_of f ≡ 0 → epoch (xfer2 w f).0 ≡ epoch w
  pub keeps : (w : W) (f : Bytes) → opcode_of f ≡ 0 → rules (xfer2 w f).0 ≡ rules w
  pub verdict :
      (w : W) (f : Bytes) (m : Match)
      → opcode_of f ≡ 0
      → Rules.lookup (rules w) (source_of f) (epoch w) ≡ ok m
      → (v : Verdict) × (decode_verdict (pending (xfer2 w f).0) ≡ ok v)
        × (v.valid ≡ true)
        × (v.rule_match_hit ≡ m.found)
        × (v.escalate ≡ (others w f || (m.found && truthy (bit_and m.action 4))))

-- The rule of the demo, and the match that it makes.
abbrev pub demo_rule : Rule
demo_rule = record { src_ip = flood_src; action = 0b101; severity = 3; epoch = 0 }

abbrev pub match_if : Bool → Match
match_if b = if b then record { found = true; action = 0b101; severity = 3 } else Rules.no_match

abbrev pub demo_match : ℕ → Match
demo_match epoch = match_if (0 == epoch)

-- The script accepts a verdict of that match exactly when there is one.
pub blocked_by :
    (b : Bool) (v : Verdict) (other : Bool)
    → v.valid ≡ true
    → v.rule_match_hit ≡ (match_if b).found
    → v.escalate ≡ (other || ((match_if b).found && truthy (bit_and (match_if b).action 4)))
    → is_blocked v ≡ b
unfolding is_blocked
blocked_by true v other valid hit escalated = ground (arith, valid, hit, escalated)
blocked_by false v other valid hit escalated = ground (arith, valid, hit)

pub stored_rule :
    (rs : RuleStore) (epoch : ℕ)
    → IsValid rs
    → (rs1 : RuleStore) × (Rules.write rs (Rules.lookup_idx flood_src) (argument demo_rule)
        ≡ ok rs1)
      × (Rules.lookup rs1 flood_src epoch ≡ ok (demo_match epoch))
stored_rule rs epoch v =
    let law = lookup-write rs (argument demo_rule) flood_src epoch v in
    elim (Result-cases (Rules.write rs (Rules.lookup_idx flood_src) (argument demo_rule))) [
      | inl (rs1, e) ↦ (rs1, e, ground (arith, e, law))
      | inr (x, e) ↦ absurd (ground (arith, e, law))
    ]

pub demo_frame :
    (f : Bytes) × (encode_rule_write (lookup_idx flood_src) demo_rule ≡ ok f)
    × (read_command f ≡ some (rule_write (Rules.lookup_idx flood_src) demo_rule))
    × (length f ≡ 32)
unfolding lookup_idx Rules.lookup_idx encode_rule_write read_command
demo_frame = (_, refl, refl, refl)

pub probe :
    (f : Bytes) × (udp_frame flood_src ≡ ok f)
    × (opcode_of f ≡ 0)
    × (source_of f ≡ flood_src)
    × (length f ≡ 32)
unfolding udp_frame
probe = (_, refl, refl, refl, refl)
