-- ===== src/Dashboard/Screen/Painted.antt =====
-- demo/dashboard.py: where the terminal dashboard paints.
use fpga_pi_parallel_nids.Prelude.{
  ℕ, ◌+◌, ◌-◌, ◌≤◌, ◌<◌, max, inl, inr, Bool-cases, ◌||◌, List, [], ◌∷◌, ◌++◌, leb, arith, length,
  length-take, length-drop,
}
use fpga_pi_parallel_nids.Clock.{Clock}
use fpga_pi_parallel_nids.Dashboard.Screen.{
  Text, Attr, Draw, last_n, safe_addstr, rule_rows, verdict_rows, render,
}
use fpga_pi_parallel_nids.Orchestrator.{DemoState, PushedRule}
use fpga_pi_parallel_nids.Verdict.{Verdict}

pub length-last_n : {A : Type 0} (n : ℕ) (xs : List A) → length (last_n n xs) ≤ n
length-last_n n xs = omega (arith, length-drop (length xs - n) xs)

module _ {Name Time C : Type 0} (h w : ℕ) where
  -- Rows from `lo` on and below `hi`, each below the one before, in the window of `h` rows and `w`
  -- columns, of which the last stays free.
  abbrev pub IsPainted : ℕ → ℕ → List (Draw Name Time C) → Type 0
  IsPainted lo hi [] = lo ≤ hi
  IsPainted lo hi (d ∷ ds) =
      (lo ≤ d.row) × (d.row < h) × (d.column + length d.painted < w) × IsPainted (d.row + 1) hi ds

  IsPainted-lower :
      (lo mid hi : ℕ) (ds : List (Draw Name Time C))
      → lo ≤ mid
      → IsPainted mid hi ds
      → IsPainted lo hi ds
  IsPainted-lower lo mid hi [] le p = omega arith
  IsPainted-lower lo mid hi (d ∷ ds) le (above, row, column, p) = (omega arith, row, column, p)

  IsPainted-append :
      (lo mid hi : ℕ) (ds es : List (Draw Name Time C))
      → IsPainted lo mid ds
      → IsPainted mid hi es
      → IsPainted lo hi (ds ++ es)
  IsPainted-append lo mid hi [] es p q = IsPainted-lower lo mid hi es p q
  IsPainted-append lo mid hi (d ∷ ds) es (above, row, column, p) q =
      (above, row, column, IsPainted-append (d.row + 1) mid hi ds es p q)

module _ {W Name Time C : Type 0} (clock : Clock W Time) (format : Text Name Time → List C)
    (h w : ℕ) where
  safe_addstr-IsPainted :
      (y x : ℕ) (text : Text Name Time) (attr : Attr)
      → IsPainted h w y (y + 1) (safe_addstr clock format h w y x text attr)
  unfolding safe_addstr
  safe_addstr-IsPainted y x text attr = elim (Bool-cases (leb h y || leb w x)) [
    | inl out ↦ rw out (omega arith)
    | inr inside ↦ rw inside (
      omega arith,
      ground arith,
      ground (arith, length-take (w - x - 1) (format text)),
      omega arith,
    )
  ]

  rule_rows-IsPainted :
      (elapsed start : Time) (y hi : ℕ) (rules : List (PushedRule Time))
      → y + length rules ≤ hi
      → IsPainted h w y hi (rule_rows clock format h w elapsed start y rules)
  unfolding rule_rows
  rule_rows-IsPainted elapsed start y hi [] le = omega arith
  rule_rows-IsPainted elapsed start y hi (r ∷ rules) le =
      IsPainted-append h w y (y + 1) hi _ _ (safe_addstr-IsPainted y 1 _ _)
        (rule_rows-IsPainted elapsed start (y + 1) hi rules (omega arith))

  verdict_rows-IsPainted :
      (y hi : ℕ) (verdicts : List Verdict)
      → y + length verdicts ≤ hi
      → IsPainted h w y hi (verdict_rows clock format h w y verdicts)
  unfolding verdict_rows
  verdict_rows-IsPainted y hi [] le = omega arith
  verdict_rows-IsPainted y hi (v ∷ verdicts) le =
      IsPainted-append h w y (y + 1) hi _ _ (safe_addstr-IsPainted y 1 _ _)
        (verdict_rows-IsPainted (y + 1) hi verdicts (omega arith))

  -- Nothing is painted outside the window or over another text: for any size of the window, any
  -- state and whatever the texts are, the calls go down the rows, one in a row at most, each is in
  -- the window, and its text ends before the last column.
  pub render-IsPainted :
      (now : Time) (state : DemoState Name Time)
      → IsPainted h w 0 (12 + max 1 (h - 13)) (render clock format h w now state)
  unfolding render
  render-IsPainted now state =
      let row = safe_addstr-IsPainted in
      IsPainted-append h w 0 1 _ _ _ (row 0 0 _ _) (
        IsPainted-append h w 1 2 _ _ _ (row 1 0 _ _) (
          IsPainted-append h w 2 3 _ _ _ (row 2 0 _ _) (
            IsPainted-append h w 3 5 _ _ _ (IsPainted-lower h w 3 4 5 _ (omega arith) (row 4 0 _ _))
              (IsPainted-append h w 5 10 _ _ _
                (rule_rows-IsPainted _ _ 5 10 _ (omega (arith, length-last_n 5 state.pushed_rules)))
                (IsPainted-append h w 10 12 _ _ _
                  (IsPainted-lower h w 10 11 12 _ (omega arith) (row 11 0 _ _))
                  (verdict_rows-IsPainted 12 _ _
                    (omega (arith, length-last_n (max 1 (h - 11 - 2)) state.recent_verdicts))))))))
