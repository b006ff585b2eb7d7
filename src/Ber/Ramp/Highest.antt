-- ===== src/Ber/Ramp/Highest.antt =====
-- spi_ber_ramp.py: the highest clean clock of rows in ascending order.
use fpga_pi_parallel_nids.Prelude.{
  ℕ, ◌≤◌, ◌≡◌, refl, sym, inl, inr, ◌⊎◌, Bool, true, false, Bool-cases, List, [], ◌∷◌, Option, none,
  some, arith, ◌==◌, if◌then◌else◌, All,
}
use fpga_pi_parallel_nids.Ber.Ramp.{Step}

abbrev pub is_clean : Step → Bool
is_clean (mhz, r) = r.frame_errors == 0

-- The clocks of the rows grow.
abbrev pub Ascending : List ℕ → Type 0
Ascending [] = Unit {0}
Ascending (c ∷ cs) = All (λ d. c ≤ d) cs × Ascending cs

-- A clean row has this clock, and no clean row has a higher one.
abbrev pub CleanAt : ℕ → List Step → Type 0
CleanAt c [] = ⊥
CleanAt c (s ∷ steps) = ((s.0 ≡ c) × (is_clean s ≡ true)) ⊎ CleanAt c steps

abbrev pub NoneAbove : ℕ → List Step → Type 0
NoneAbove c steps = All (λ s. is_clean s ≡ true → s.0 ≤ c) steps

abbrev pub IsHighest : Option ℕ → List Step → Type 0
IsHighest none steps = All (λ s. is_clean s ≡ false) steps
IsHighest (some c) steps = CleanAt c steps × NoneAbove c steps

-- The clock of the last clean row, or `o` if there is none.
abbrev pub last_clean : Option ℕ → List Step → Option ℕ
last_clean o [] = o
last_clean o (s ∷ steps) = last_clean (if is_clean s then some s.0 else o) steps

abbrev pub clocks_of : List Step → List ℕ
clocks_of [] = []
clocks_of (s ∷ steps) = s.0 ∷ clocks_of steps

pub found :
    (s : Step) (d : ℕ) (steps : List Step)
    → is_clean s ≡ true
    → (d ≡ s.0) ⊎ CleanAt d steps
    → CleanAt d (s ∷ steps)
found s d steps clean (inl e) = inl (sym e, clean)
found s d steps clean (inr there) = inr there

-- From a clock on, not above those that follow, the last clean one is the highest.
pub last_clean-from :
    (c : ℕ) (steps : List Step)
    → All (λ d. c ≤ d) (clocks_of steps)
    → Ascending (clocks_of steps)
    → (d : ℕ) × (last_clean (some c) steps ≡ some d)
      × (c ≤ d)
      × NoneAbove d steps
      × ((d ≡ c) ⊎ CleanAt d steps)
last_clean-from c [] above up = (c, refl, omega arith, tt, inl refl)
last_clean-from c (s ∷ steps) (here, above) (first, up) = elim (Bool-cases (is_clean s)) [
  | inl clean ↦
      let (d, e, le, none_above, which) = last_clean-from s.0 steps first up in
      (d, rw clean e, omega arith, ((λ h. le), none_above), inr (found s d steps clean which))
  | inr dirty ↦
      let (d, e, le, none_above, which) = last_clean-from c steps above up in
      (d, rw dirty e, le, ((λ h. absurd cc), none_above), kept s c d steps which)
]
  where
    kept :
        (s : Step) (c d : ℕ) (steps : List Step)
        → (d ≡ c) ⊎ CleanAt d steps
        → (d ≡ c) ⊎ CleanAt d (s ∷ steps)
    kept s c d steps (inl e) = inl e
    kept s c d steps (inr there) = inr (inr there)

-- On ascending clocks the last clean row is the highest.
pub last_clean-IsHighest :
    (steps : List Step) → Ascending (clocks_of steps) → IsHighest (last_clean none steps) steps
last_clean-IsHighest [] up = tt
last_clean-IsHighest (s ∷ steps) (first, up) = elim (Bool-cases (is_clean s)) [
  | inl clean ↦
      let (d, e, le, none_above, which) = last_clean-from s.0 steps first up in
      rw (clean, e) (found s d steps clean which, ((λ h. le), none_above))
  | inr dirty ↦
      rw dirty (wider (last_clean none steps) s steps dirty (last_clean-IsHighest steps up))
]
  where
    wider :
        (o : Option ℕ) (s : Step) (steps : List Step)
        → is_clean s ≡ false
        → IsHighest o steps
        → IsHighest o (s ∷ steps)
    wider none s steps dirty h = (dirty, h)
    wider (some c) s steps dirty h = (inr h.0, ((λ clean. absurd cc), h.1))
