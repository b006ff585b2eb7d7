-- ===== src/Viz.antt =====
-- viz_core.py: the tallies over decoded verdicts, and the parts of a row. The percentages and rates
-- are floating-point numbers and are left out.
pub mod Runner
pub mod Alone
pub mod Counted
pub mod Tallies
use fpga_pi_parallel_nids.Prelude.{
  ℕ, ◌+◌, Bool, true, false, not, List, [], ◌∷◌, Option, none, some, if◌then◌else◌,
}
use fpga_pi_parallel_nids.Prelude.Bytes.{Bytes, slice}
use fpga_pi_parallel_nids.Verdict.{Verdict, Stage, Description, threats, describe}

-- The addresses of `ips_from_header`, before `inet_ntoa`.
unfoldable pub ips_from_header : Bytes → Bytes × Bytes
ips_from_header header = (slice header 0 4, slice header 4 8)

pub record Stats : Type 0 where
  pub total : ℕ
  pub clean : ℕ
  pub flagged : ℕ
  pub bloom : ℕ
  pub escalations : ℕ

unfoldable pub init : Stats
init = record { total = 0; clean = 0; flagged = 0; bloom = 0; escalations = 0 }

-- `bool(verdict.threats)`
abbrev pub is_threat : Verdict → Bool
is_threat v = elim (threats v) [ [] ↦ false | s ∷ ss ↦ true ]

unfoldable pub update : Stats → Verdict → Stats
update st v =
    if not v.valid
    then st
    else if is_threat v
    then record st {
      total = st.total + 1;
      flagged = st.flagged + 1;
      bloom = (if v.bloom_hit then st.bloom + 1 else st.bloom);
      escalations = (if v.escalate then st.escalations + 1 else st.escalations);
    }
    else record st { total = st.total + 1; clean = st.clean + 1 }

pub data Color : Type 0 where
  red green : Color

-- A row by its parts: the flow, the color if one is wanted, and what `describe` says.
pub record Row : Type 0 where
  pub src : Bytes
  pub dst : Bytes
  pub color : Option Color
  pub tag : Description

unfoldable pub format_row : Bytes → Bytes → Verdict → Bool → Row
format_row src dst v color = record {
  src = src;
  dst = dst;
  color = (if not color then none else if is_threat v then some red else some green);
  tag = describe v;
}
