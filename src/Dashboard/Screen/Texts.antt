-- ===== src/Dashboard/Screen/Texts.antt =====
-- demo/dashboard.py: what the terminal dashboard shows.
use fpga_pi_parallel_nids.Prelude.{ℕ, ◌+◌, ◌-◌, List, [], ◌∷◌, take}
use fpga_pi_parallel_nids.Clock.{Clock}
use fpga_pi_parallel_nids.Dashboard.Screen.{Text, Draw}
use fpga_pi_parallel_nids.Verdict.{Verdict}

-- A painted text with its row and column, which is what a call leaves on the screen.
abbrev pub Strip : Type 0 → Type 0
Strip C = ℕ × (ℕ × List C)

abbrev pub shown_of : {Name Time C : Type 0} → List (Draw Name Time C) → List (Strip C)
shown_of [] = []
shown_of (d ∷ ds) = (d.row, (d.column, d.painted)) ∷ shown_of ds

module _ {Name Time C : Type 0} (format : Text Name Time → List C) (w : ℕ) where
  -- A text at its place, cut before the last column of `w`.
  abbrev pub placed : ℕ → ℕ → Text Name Time → Strip C
  placed y x text = (y, (x, take (w - x - 1) (format text)))

  -- Texts in the second column, one in a row, from the row `y` on.
  abbrev pub listed : ℕ → List (Text Name Time) → List (Strip C)
  listed y [] = []
  listed y (text ∷ texts) = placed y 1 text ∷ listed (y + 1) texts
