-- ===== src/SiliconCheck.antt =====
-- silicon_check.py: the live round trip judged against the golden verdicts.
pub mod Passing
pub mod Live
use fpga_pi_parallel_nids.Prelude.{
  ℕ, zero, suc, ◌+◌, ◌-◌, ◌%◌, Bool, true, false, ◌&&◌, List, [], ◌∷◌, ◌++◌, Result, ok, raise,
  value_error, index_error, ◌>>=◌, ltb, ◌==◌, if◌then◌else◌, length,
}
use fpga_pi_parallel_nids.Prelude.Bytes.{Bytes}
use fpga_pi_parallel_nids.Verdict.{
  Verdict, Stage, bloom, port_scan, rate_anomaly, rule_match, SeverityName, Description, threats,
  severity_name, describe, decode_verdict,
}

-- The summary of a row by its parts: what was got, and the threats, the severity and the
-- escalation that were wanted.
pub record Row : Type 0 where
  pub k : ℕ
  pub matches : Bool
  pub got : Description
  pub want_threats : List Stage
  pub want_severity : SeverityName
  pub want_escalate : Bool

-- The notes, with the numbers in them.
pub data Note : Type 0 where
  not_reset : ℕ → Note
  clean_start : Note
  no_increment : List ℕ → Note
  first_seq : ℕ → Note

pub record RunResult : Type 0 where
  pub passed : Bool
  pub rows : List Row
  pub notes : List Note

-- Equality of `bool`, and of the names of stages by their bits.
abbrev pub same_flag : Bool → Bool → Bool
same_flag true b = b
same_flag false true = false
same_flag false false = true

abbrev pub stage_bit : Stage → ℕ
stage_bit bloom = 0
stage_bit port_scan = 1
stage_bit rate_anomaly = 2
stage_bit rule_match = 3

abbrev pub same_stages : List Stage → List Stage → Bool
same_stages [] [] = true
same_stages [] (t ∷ ts) = false
same_stages (s ∷ ss) [] = false
same_stages (s ∷ ss) (t ∷ ts) = stage_bit s == stage_bit t && same_stages ss ts

-- The `ok` of a row.
unfoldable pub same_content : Verdict → Verdict → Bool
same_content rv ev =
    rv.valid
    && (same_stages (threats rv) (threats ev)
        && (rv.severity == ev.severity && same_flag rv.escalate ev.escalate))

unfoldable pub row_of : ℕ → Verdict → Verdict → Row
row_of k rv ev = record {
  k = k;
  matches = same_content rv ev;
  got = describe rv;
  want_threats = threats ev;
  want_severity = severity_name ev;
  want_escalate = ev.escalate;
}

-- The `for` loop from `k`, on the frames and the expectations that are left: the rows, the
-- sequence numbers, and whether all contents are right.
unfoldable pub check_rows : ℕ → List Bytes → List Bytes → Result (List Row × (List ℕ × Bool))
check_rows k rx [] = ok ([], ([], true))
check_rows k [] (e ∷ es) = raise index_error
check_rows k (rx ∷ rxs) (e ∷ es) = do
  rv ← decode_verdict rx
  ev ← decode_verdict e
  (rows, (seqs, content_ok)) ← check_rows (k + 1) rxs es
  ok (row_of k rv ev ∷ rows, (rv.seq ∷ seqs, same_content rv ev && content_ok))

-- `all((seqs[i] - seqs[i - 1]) % 256 == 1 …)`
unfoldable pub increments : List ℕ → Bool
increments [] = true
increments (a ∷ []) = true
increments (a ∷ b ∷ seqs) = (b + (256 - a % 256)) % 256 == 1 && increments (b ∷ seqs)

abbrev pub first_note : Verdict → Note
first_note first = if first.valid then not_reset first.seq else clean_start

abbrev pub increment_notes : List ℕ → List Note
increment_notes seqs = if increments seqs then [] else no_increment seqs ∷ []

abbrev pub start_notes : List ℕ → List Note
start_notes [] = []
start_notes (s ∷ seqs) = if s == 1 then [] else first_seq s ∷ []

unfoldable pub evaluate_run : List Bytes → List Bytes → Result RunResult
evaluate_run [] expected = raise value_error
evaluate_run (first_frame ∷ frames) expected =
    if ltb (length frames) (length expected) then raise value_error else (do
      first ← decode_verdict first_frame
      (rows, (seqs, content_ok)) ← check_rows 1 frames expected
      ok (record {
        passed = content_ok && increments seqs;
        rows = rows;
        notes = first_note first ∷ (increment_notes seqs ++ start_notes seqs);
      }))
