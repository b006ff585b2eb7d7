-- ===== src/ClosedLoop/Talk.antt =====
-- closed_loop.py: the frames that the script exchanges with the board, round by round.
use fpga_pi_parallel_nids.Prelude.{
  ℕ, suc, ◌%◌, ◌≤◌, ◌≡◌, refl, sym, ap, ◌∙◌, true, false, not, ◌&&◌, ◌||◌, List, [], ◌∷◌, ◌++◌, map,
  Option, none, some, ok, arith, leb, ◌==◌, get_or, length, append_nil, append_one,
}
use fpga_pi_parallel_nids.Prelude.Bytes.{Bytes, zeros}
use fpga_pi_parallel_nids.ClosedLoop.{Arguments, frame}
use fpga_pi_parallel_nids.Control.Commands.{Command, rule_write, read_command}
use fpga_pi_parallel_nids.Orchestrator.{lookup_idx, op_snapshot}
use fpga_pi_parallel_nids.Rules.{Rule}
use fpga_pi_parallel_nids.Telemetry.{SnapResponse, telemetry_magic, decode_snapshot}
use fpga_pi_parallel_nids.Traffic.{has}

-- A frame that was sent, with the one that came back.
abbrev pub Exchange : Type 0
Exchange = Bytes × Bytes

-- The rule of a source, as the board reads it.
abbrev pub rule_of : Arguments → ℕ → ℕ → Rule
rule_of args epoch key = record {
  src_ip = key;
  action = args.action % 256;
  severity = args.severity % 256;
  epoch = epoch % 256;
}

-- The exchanges of `n` rounds, and the sources that have a rule before and after them. In a round
-- the script asks for the snapshot and takes the answer; when that is a snapshot whose top talker
-- meets the trigger and has no rule yet, it sends the rule of that source for the slot of its hash
-- and takes the acknowledgement, and otherwise it sends nothing more.
pub data Talks (args : Arguments) (epoch : ℕ) : ℕ → List ℕ → List Exchange → List ℕ → Type 0 where
  over : (seen : List ℕ) → Talks args epoch 0 seen [] seen
  unready :
      {n : ℕ} {seen after : List ℕ} {talk : List Exchange}
      → (a rx : Bytes) → (get_or rx 0 0 == telemetry_magic) ≡ false
      → Talks args epoch n seen talk after
      → Talks args epoch (suc n) seen ((frame op_snapshot [], a) ∷ (zeros 32, rx) ∷ talk) after
  passed :
      {n : ℕ} {seen after : List ℕ} {talk : List Exchange}
      → (a rx : Bytes) (s : SnapResponse) → (get_or rx 0 0 == telemetry_magic) ≡ true
      → decode_snapshot rx ≡ ok s
      → (leb args.trigger s.top1_count && not (has seen s.top1_key)) ≡ false
      → Talks args epoch n seen talk after
      → Talks args epoch (suc n) seen ((frame op_snapshot [], a) ∷ (zeros 32, rx) ∷ talk) after
  pushed :
      {n : ℕ} {seen after : List ℕ} {talk : List Exchange}
      → (a rx f b c : Bytes) (s : SnapResponse) → (get_or rx 0 0 == telemetry_magic) ≡ true
      → decode_snapshot rx ≡ ok s
      → args.trigger ≤ s.top1_count
      → has seen s.top1_key ≡ false
      → read_command f ≡ some (rule_write (lookup_idx s.top1_key) (rule_of args epoch s.top1_key))
      → Talks args epoch n (seen ++ (s.top1_key ∷ [])) talk after
      → Talks args epoch
          (suc n)
          seen
          ((frame op_snapshot [], a) ∷ (zeros 32, rx) ∷ (f, b) ∷ (zeros 32, c) ∷ talk)
          after

-- No source twice.
abbrev pub IsDistinct : List ℕ → Type 0
IsDistinct [] = Unit
IsDistinct (x ∷ xs) = (has xs x ≡ false) × IsDistinct xs

has-append : (xs : List ℕ) (x y : ℕ) → has (xs ++ (x ∷ [])) y ≡ (has xs y || x == y)
unfolding has
has-append [] x y = ground arith
has-append (z ∷ xs) x y = ground (arith, has-append xs x y)

IsDistinct-append :
    (xs : List ℕ) (x : ℕ) → IsDistinct xs → has xs x ≡ false → IsDistinct (xs ++ (x ∷ []))
unfolding has
IsDistinct-append [] x d fresh = (refl, tt)
IsDistinct-append (z ∷ xs) x (z_fresh, d) fresh =
    (ground (arith, has-append xs x z), IsDistinct-append xs x d (ground arith))

-- The rule writes among the frames that were sent, each with its slot.
abbrev with_command : Option Command → List (ℕ × Rule) → List (ℕ × Rule)
with_command (some (rule_write idx rule)) rest = (idx, rule) ∷ rest
with_command c rest = rest

abbrev pub rules_sent : List Exchange → List (ℕ × Rule)
rules_sent [] = []
rules_sent ((f, answer) ∷ talk) = with_command (read_command f) (rules_sent talk)

-- The slot and the rule of a source.
abbrev pub slot_and_rule : Arguments → ℕ → ℕ → ℕ × Rule
slot_and_rule args epoch key = (lookup_idx key, rule_of args epoch key)

ask_none : read_command (frame op_snapshot []) ≡ none
unfolding read_command frame
ask_none = refl

flush_none : read_command (zeros 32) ≡ none
unfolding read_command
flush_none = refl

module _ {args : Arguments} {epoch : ℕ} where
  pub Talks-IsDistinct :
      {n : ℕ} {seen after : List ℕ} {talk : List Exchange}
      → Talks args epoch n seen talk after
      → IsDistinct seen
      → IsDistinct after
  Talks-IsDistinct (over seen) d = d
  Talks-IsDistinct (unready a rx e rest) d = Talks-IsDistinct rest d
  Talks-IsDistinct (passed a rx s m e t rest) d = Talks-IsDistinct rest d
  Talks-IsDistinct (pushed {seen = seen} a rx f b c s m e t fresh r rest) d =
      Talks-IsDistinct rest (IsDistinct-append seen s.top1_key d fresh)

  -- The sources that are new, with one rule for each.
  pub Talks-rules_sent :
      {n : ℕ} {seen after : List ℕ} {talk : List Exchange}
      → Talks args epoch n seen talk after
      → (new : List ℕ) × (after ≡ seen ++ new)
        × (rules_sent talk ≡ map (slot_and_rule args epoch) new)
        × (length new ≤ n)
  Talks-rules_sent (over seen) = ([], sym (append_nil seen), refl, omega arith)
  Talks-rules_sent (unready a rx e rest) =
      let (new, more, sent, few) = Talks-rules_sent rest in
      (new, more, rw (ask_none, flush_none) sent, omega (arith, few))
  Talks-rules_sent (passed a rx s m e t rest) =
      let (new, more, sent, few) = Talks-rules_sent rest in
      (new, more, rw (ask_none, flush_none) sent, omega (arith, few))
  Talks-rules_sent (pushed {seen = seen} a rx f b c s m e t fresh r rest) =
      let (new, more, sent, few) = Talks-rules_sent rest in
      (
        s.top1_key ∷ new,
        more ∙ append_one seen s.top1_key new,
        rw (ask_none, flush_none, r) (ap (λ rs. slot_and_rule args epoch s.top1_key ∷ rs) sent),
        omega (arith, few),
      )
