-- ===== src/ClosedLoop/Rounds.antt =====
-- closed_loop.py: any number of rounds.
use fpga_pi_parallel_nids.Prelude.{
  ℕ, zero, suc, ◌^◌, ◌≤◌, ◌<◌, ◌≡◌, refl, sym, ap, ◌∙◌, inl, inr, Bool-cases, false, not, ◌&&◌,
  List, [], ◌∷◌, ◌++◌, map, some, Result, ok, arith, leb, ◌==◌, get_or, length, All, append_nil,
  append_one, append_assoc,
}
use fpga_pi_parallel_nids.Prelude.Bytes.{Bytes, IsByte, zeros}
use fpga_pi_parallel_nids.Control.Commands.{rule_write, read_command}
use fpga_pi_parallel_nids.Control.Frames.{command_frame}
use fpga_pi_parallel_nids.Orchestrator.{lookup_idx, op_snapshot, read_rule_epoch}
use fpga_pi_parallel_nids.Orchestrator.Poll.{AnswersBytes}
use fpga_pi_parallel_nids.Orchestrator.Push.{lookup_idx-same}
use fpga_pi_parallel_nids.Rules.{Rule}
use fpga_pi_parallel_nids.Rules.Laws.{lookup_idx-lt}
use fpga_pi_parallel_nids.SpiLink.{send_frame}
use fpga_pi_parallel_nids.Telemetry.{telemetry_magic}
use fpga_pi_parallel_nids.Telemetry.Received.{decode_snapshot-IsReceived}
use fpga_pi_parallel_nids.Traffic.{has}
use fpga_pi_parallel_nids.ClosedLoop.{
  Arguments, frame, add, poll_snapshot, push, round, rounds, main,
}
use fpga_pi_parallel_nids.ClosedLoop.Talk.{
  Exchange, Talks, over, unready, passed, pushed, rule_of, IsDistinct, rules_sent, slot_and_rule,
  Talks-IsDistinct, Talks-rules_sent,
}

-- A record of the exchanges: each transfer adds its own, and the wait adds none.
pub record IsRecord {W : Type 0} (xfer2 : W → Bytes → W × Bytes) (sleep : W → W)
    (log : W → List Exchange) : Type 0 where
  pub transfer : (w : W) (f : Bytes) → log (xfer2 w f).0 ≡ log w ++ ((f, (xfer2 w f).1) ∷ [])
  pub pause : (w : W) → log (sleep w) ≡ log w

length-frame : length (frame op_snapshot []) ≡ 32
unfolding frame
length-frame = refl

module _ {W : Type 0} (xfer2 : W → Bytes → W × Bytes) (sleep : W → W) (log : W → List Exchange)
    (link : AnswersBytes xfer2) (record_of : IsRecord xfer2 sleep log) where
  -- Two exchanges in a row.
  two_logged :
      (w : W) (f g : Bytes)
      → log (xfer2 (xfer2 w f).0 g).0
        ≡ log w ++ ((f, (xfer2 w f).1) ∷ (g, (xfer2 (xfer2 w f).0 g).1) ∷ [])
  two_logged w f g =
      record_of.transfer (xfer2 w f).0 g
      ∙ (ap (λ l. l ++ ((g, (xfer2 (xfer2 w f).0 g).1) ∷ [])) (record_of.transfer w f)
          ∙ append_one (log w) (f, (xfer2 w f).1) ((g, (xfer2 (xfer2 w f).0 g).1) ∷ []))

  -- The round before a talk.
  two_before :
      (old : List Exchange) (x y : Exchange) (talk : List Exchange)
      → (old ++ (x ∷ y ∷ [])) ++ talk ≡ old ++ (x ∷ y ∷ talk)
  two_before [] x y talk = refl
  two_before (z ∷ old) x y talk = ap (λ l. z ∷ l) (two_before old x y talk)

  four_logged :
      (w : W) (f g h k : Bytes)
      → let w2 = (xfer2 (xfer2 w f).0 g).0 in
        log (xfer2 (xfer2 w2 h).0 k).0
        ≡ log w
          ++ ((f, (xfer2 w f).1)
              ∷ (g, (xfer2 (xfer2 w f).0 g).1)
              ∷ (h, (xfer2 w2 h).1)
              ∷ (k, (xfer2 (xfer2 w2 h).0 k).1)
              ∷ [])
  four_logged w f g h k =
      let w2 = (xfer2 (xfer2 w f).0 g).0 in
      let later : List Exchange = (h, (xfer2 w2 h).1) ∷ (k, (xfer2 (xfer2 w2 h).0 k).1) ∷ [] in
      two_logged w2 h k ∙ (ap (λ l. l ++ later) (two_logged w f g) ∙ two_before (log w) _ _ later)

  poll_total :
      (w : W)
      → let w1 = (xfer2 w (frame op_snapshot [])).0 in
        (poll_snapshot xfer2 sleep w ≡ ok (xfer2 w1 (zeros 32)))
        × (length (xfer2 w1 (zeros 32)).1 ≡ 32)
        × All IsByte (xfer2 w1 (zeros 32)).1
  unfolding poll_snapshot send_frame
  poll_total w =
      let w1 = (xfer2 w (frame op_snapshot [])).0 in
      (
        ground (arith, length-frame),
        link.answer_length w1 (zeros 32),
        link.answer_bytes w1 (zeros 32),
      )

  module _ (epoch : ℕ) (args : Arguments) where
    push_total :
        (w : W) (seen : List ℕ) (key : ℕ)
        → key < 2 ^ 32
        → has seen key ≡ false
        → (f : Bytes) × (push xfer2 sleep w epoch args seen key
            ≡ ok ((xfer2 (xfer2 w f).0 (zeros 32)).0, seen ++ (key ∷ [])))
          × (read_command f ≡ some (rule_write (lookup_idx key) (rule_of args epoch key)))
    unfolding push send_frame add
    push_total w seen key small fresh =
        let rule : Rule = record {
          src_ip = key;
          action = args.action;
          severity = args.severity;
          epoch = epoch;
        } in
        let (f, e, r, size) =
          command_frame (rule_write (lookup_idx key) rule)
            (ground (arith, lookup_idx-same key, lookup_idx-lt key)) in
        (f, ground (arith, e, size, fresh), r)

    -- The outcome of `n` rounds: they return, and what was exchanged is such a talk.
    abbrev Ends : ℕ → List ℕ → W → Result (W × List ℕ) → Type 0
    Ends n seen w r =
        (w1 : W) × (after : List ℕ) × (talk : List Exchange) × (r ≡ ok (w1, after))
        × (log w1 ≡ log w ++ talk)
        × Talks args epoch n seen talk after

    -- A first round that ends in `w1` with the set `next`, and the rounds behind it.
    abbrev Leads : ℕ → List ℕ → W → Result (W × List ℕ) → Type 0
    Leads n seen w r =
        (w1 : W) × (next : List ℕ) × (first : List Exchange) × (r ≡ ok (w1, next))
        × (log w1 ≡ log w ++ first)
        × ((after : List ℕ) (talk : List Exchange)
            → Talks args epoch n next talk after
            → Talks args epoch (suc n) seen (first ++ talk) after)

    round_total :
        (n : ℕ) (w : W) (seen : List ℕ) → Leads n seen w (round xfer2 sleep w epoch args seen)
    unfolding round
    round_total n w seen =
        let (e, size, bytes) = poll_total w in
        let (wa, a) = xfer2 w (frame op_snapshot []) in
        let (w1, rx) = xfer2 wa (zeros 32) in
        let asked = two_logged w (frame op_snapshot []) (zeros 32) in
        let first : List Exchange = (frame op_snapshot [], a) ∷ (zeros 32, rx) ∷ [] in
        elim (Bool-cases (get_or rx 0 0 == telemetry_magic)) [
          | inr m ↦ (
            sleep w1,
            seen,
            first,
            rw (e, m) refl,
            record_of.pause w1 ∙ asked,
            λ after talk rest. unready a rx m rest,
          )
          | inl m ↦
              let (s, r, received) = decode_snapshot-IsReceived rx size bytes (ground arith) in
              elim (Bool-cases (leb args.trigger s.top1_count && not (has seen s.top1_key))) [
                | inr t ↦ (
                  sleep w1,
                  seen,
                  first,
                  rw (e, m, r, t) refl,
                  record_of.pause w1 ∙ asked,
                  λ after talk rest. passed a rx s m r t rest,
                )
                | inl t ↦
                    let fresh : has seen s.top1_key ≡ false = ground arith in
                    let (f, p, reads) = push_total w1 seen s.top1_key received.key_bits fresh in
                    let (wb, b) = xfer2 w1 f in
                    let (w2, c) = xfer2 wb (zeros 32) in
                    (
                      sleep w2,
                      seen ++ (s.top1_key ∷ []),
                      (frame op_snapshot [], a) ∷ (zeros 32, rx) ∷ (f, b) ∷ (zeros 32, c) ∷ [],
                      rw (e, m, r, t, p) refl,
                      record_of.pause w2
                          ∙ four_logged w (frame op_snapshot []) (zeros 32) f (zeros 32),
                      λ after talk rest. pushed a rx f b c s m r (ground arith) fresh reads rest,
                    )
              ]
        ]

    rounds_total :
        (n : ℕ) (w : W) (seen : List ℕ) → Ends n seen w (rounds xfer2 sleep n w epoch args seen)
    unfolding rounds
    rounds_total zero w seen = (w, seen, [], refl, sym (append_nil (log w)), over seen)
    rounds_total (suc n) w seen =
        let (w1, next, first, e, asked, leads) = round_total n w seen in
        let (w2, after, talk, r, told, rest) = rounds_total n w1 next in
        (
          w2,
          after,
          first ++ talk,
          rw (e, r) refl,
          told ∙ (ap (λ l. l ++ talk) asked ∙ append_assoc (log w) first talk),
          leads after talk rest,
        )

    -- The loop pushes what it should, for as long as it runs: on a link that answers as many bytes
    -- as it is given, whatever they are, once the rule epoch is read any number `n` of rounds
    -- returns. What was exchanged is then a talk of `n` rounds, in each of which a rule is sent
    -- exactly when the answer is a snapshot whose top talker meets the trigger and has no rule yet;
    -- the rules that the board was sent are those of the sources in the final set, in order, each
    -- for the slot of its source's hash and of the epoch that was read; and no source has two.
    pub main_total :
        (n : ℕ) (w w1 : W)
        → read_rule_epoch xfer2 w ≡ ok (w1, epoch)
        → (w2 : W) × (after : List ℕ) × (talk : List Exchange) × (main xfer2 sleep n w args
            ≡ ok (w2, after))
          × (log w2 ≡ log w1 ++ talk)
          × Talks args epoch n [] talk after
          × (rules_sent talk ≡ map (slot_and_rule args epoch) after)
          × IsDistinct after
          × (length after ≤ n)
    unfolding main
    main_total n w w1 read =
        let (w2, after, talk, r, told, talks) = rounds_total n w1 [] in
        let (new, same, sent, few) = Talks-rules_sent talks in
        (
          w2,
          after,
          talk,
          rw (read, r) refl,
          told,
          talks,
          sent ∙ ap (map (slot_and_rule args epoch)) (sym same),
          Talks-IsDistinct talks tt,
          omega (arith, few, ap length same),
        )
