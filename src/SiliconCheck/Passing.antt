-- ===== src/SiliconCheck/Passing.antt =====
-- silicon_check.py with gen_verdict_golden.py: a board that works as the reference passes.
use fpga_pi_parallel_nids.Prelude.{
  ℕ, suc, ◌+◌, ◌-◌, ◌%◌, ◌≤◌, ◌≡◌, refl, ◌∙◌, ap, inl, inr, Bool, true, false, ◌&&◌, List, [], ◌∷◌,
  map, Result, ok, raise, ◌>>=◌, ◌==◌, arith, length, length-map, ◌++◌, All, bit_and,
}
use fpga_pi_parallel_nids.Prelude.Bytes.{Bytes}
use fpga_pi_parallel_nids.Verdict.{Verdict, Stage, threats, decode_verdict}
use fpga_pi_parallel_nids.ScanRate
use fpga_pi_parallel_nids.Classifier.{Header, Classifier, parse, packet_of, classify}
use fpga_pi_parallel_nids.Classifier.Verdicts.{
  expected, decoded, after_header, classify-decode_verdict, parse_total,
}
use fpga_pi_parallel_nids.Golden.{Label, Stream, GoldenRow, rows_from}
use fpga_pi_parallel_nids.Orchestrator.Sound.{decode_verdict_received}
use fpga_pi_parallel_nids.SiliconCheck.{
  Row, RunResult, same_stages, same_flag, same_content, row_of, check_rows, increments, first_note,
  increment_notes, start_notes, evaluate_run,
}

-- The board: the verdicts of the classifier, numbered from `seq` on.
abbrev pub board : Classifier → ℕ → ℕ → Stream → Result (List Bytes)
board clf seq i [] = ok []
board clf seq i ((label, h) ∷ stream) = do
  (after, v) ← classify clf h seq i
  vs ← board after (seq + 1) (i + 1) stream
  ok (v ∷ vs)

-- A stream of headers that can be parsed.
abbrev pub IsLong : Label × Bytes → Type 0
IsLong x = 16 ≤ length x.1

abbrev table_after : Classifier → Header → ℕ → Classifier
table_after c h n = record c { table = (ScanRate.update c.table (packet_of h n)).0 }

pair_ok :
    (d : Result Verdict) (c c1 : Classifier) (v : Verdict)
    → ◌>>=◌ {B = Classifier × Verdict} d (λ u. ok (c, u)) ≡ ok (c1, v)
    → (c ≡ c1) × (d ≡ ok v)
pair_ok (ok u) c c1 v e = (cc, cc)
pair_ok (raise x) c c1 v e = absurd cc

decoded_ok :
    (r : Result (Classifier × Bytes)) (c1 : Classifier) (v : Verdict)
    → (r >>= decoded) ≡ ok (c1, v)
    → (f : Bytes) × (r ≡ ok (c1, f)) × (decode_verdict f ≡ ok v)
decoded_ok (ok (c, f)) c1 v e =
    let (same, d) = pair_ok (decode_verdict f) c c1 v e in (f, ap (λ t. ok (t, f)) same, d)
decoded_ok (raise x) c1 v e = absurd cc

classify_ok :
    (c : Classifier) (bs : Bytes) (h : Header) (seq n : ℕ)
    → parse bs ≡ ok h
    → (f : Bytes) × (classify c bs seq n ≡ ok (table_after c h n, f))
      × (decode_verdict f ≡ ok (expected c h seq n))
classify_ok c bs h seq n parsed =
    decoded_ok (classify c bs seq n) (table_after c h n) (expected c h seq n)
      (classify-decode_verdict c bs seq n ∙ ap (λ r. r >>= after_header c seq n) parsed)

same_stages_refl : (ss : List Stage) → same_stages ss ss ≡ true
same_stages_refl [] = refl
same_stages_refl (s ∷ ss) = ground (arith, same_stages_refl ss)

content_refl :
    (ss : List Stage) (severity : ℕ) (escalate : Bool)
    → (true && (same_stages ss ss && (severity == severity && same_flag escalate escalate))) ≡ true
content_refl ss severity true = ground (arith, same_stages_refl ss)
content_refl ss severity false = ground (arith, same_stages_refl ss)

same_content-expected :
    (c : Classifier) (h : Header) (s t n : ℕ)
    → same_content (expected c h s n) (expected c h t n) ≡ true
unfolding same_content threats
same_content-expected c h s t n =
    content_refl (threats (expected c h s n)) (expected c h s n).severity
      (expected c h s n).escalate

abbrev seqs_from : ℕ → Stream → List ℕ
seqs_from seq [] = []
seqs_from seq (x ∷ stream) = seq % 256 ∷ seqs_from (seq + 1) stream

next_seq : (seq : ℕ) → ((seq + 1) % 256 + (256 - seq % 256 % 256)) % 256 ≡ 1
next_seq seq = omega arith

increments-seqs_from : (seq : ℕ) (stream : Stream) → increments (seqs_from seq stream) ≡ true
unfolding increments
increments-seqs_from seq [] = refl
increments-seqs_from seq (x ∷ []) = refl
increments-seqs_from seq (x ∷ y ∷ stream) =
    ground (arith, increments-seqs_from (seq + 1) (y ∷ stream), next_seq seq)

-- The verdicts of a board and of the golden table agree, row for row.
check_rows-board :
    (c : Classifier) (k seq i : ℕ) (stream : Stream)
    → All IsLong stream
    → (rows : List GoldenRow) × (vs : List Bytes) × (checked : List Row) × (rows_from c i stream
        ≡ ok rows)
      × (board c seq i stream ≡ ok vs)
      × (length vs ≡ length rows)
      × (check_rows k vs (map (λ r. r.verdict) rows) ≡ ok (checked, (seqs_from seq stream, true)))
unfolding rows_from check_rows
check_rows-board c k seq i [] long = ([], [], [], refl, refl, refl, refl)
check_rows-board c k seq i ((label, bs) ∷ stream) (enough, long) = elim (parse_total bs) [
  | inl (_, (h, parsed)) ↦
      let (f, e, d) = classify_ok c bs h seq i parsed in
      let (g, e1, d1) = classify_ok c bs h (bit_and i 0xFF + 1) i parsed in
      let (rows, vs, checked, r, b, same, l) =
        check_rows-board (table_after c h i) (k + 1) (seq + 1) (i + 1) stream long in
      (
        record { label = label; index = i; header = bs; verdict = g } ∷ rows,
        f ∷ vs,
        row_of k (expected c h seq i) (expected c h (bit_and i 0xFF + 1) i) ∷ checked,
        rw (e1, r),
        rw (e, b),
        ap suc same,
        rw (d, d1, l, same_content-expected c h seq (bit_and i 0xFF + 1) i),
      )
  | inr (short, _) ↦ absurd (omega arith)
]

abbrev result_of : Verdict → List Row → List ℕ → RunResult
result_of first rows seqs = record {
  passed = true && increments seqs;
  rows = rows;
  notes = first_note first ∷ (increment_notes seqs ++ start_notes seqs);
}

-- The round trip passes on a board that works as the reference classifier: whatever the stream of
-- headers of 16 bytes at least, the state the classifier starts in and the number its board's
-- first verdict carries, and whatever 32 bytes are read before the first verdict.
pub evaluate_run-board :
    (c : Classifier) (seq i : ℕ) (stream : Stream) (first : Bytes)
    → All IsLong stream
    → length first ≡ 32
    → (rows : List GoldenRow) × (vs : List Bytes) × (r : RunResult) × (rows_from c i stream
        ≡ ok rows)
      × (board c seq i stream ≡ ok vs)
      × (evaluate_run (first ∷ vs) (map (λ row. row.verdict) rows) ≡ ok r)
      × (r.passed ≡ true)
unfolding evaluate_run
evaluate_run-board c seq i stream first long size =
    let (v, d) = decode_verdict_received first size in
    let (rows, vs, checked, r, b, same, l) = check_rows-board c 1 seq i stream long in
    (
      rows,
      vs,
      result_of v checked (seqs_from seq stream),
      r,
      b,
      ground (arith, same, length-map (λ (row : GoldenRow). row.verdict) rows, d, l),
      increments-seqs_from seq stream,
    )
