-- ===== src/Viz/Tallies.antt =====
-- viz_core.py: the tallies after any verdicts.
use fpga_pi_parallel_nids.Prelude.{
  ◌+◌, ◌≡◌, inl, inr, Bool-cases, true, not, ◌&&◌, List, [], ◌∷◌, arith, count_of,
}
use fpga_pi_parallel_nids.Verdict.{Verdict, threats}
use fpga_pi_parallel_nids.Viz.{Stats, init, is_threat, update}

-- The tallies after the verdicts of a list, the first one first.
abbrev pub tally_all : Stats → List Verdict → Stats
tally_all st [] = st
tally_all st (v ∷ vs) = tally_all (update st v) vs

bloom_is_threat : (v : Verdict) → v.bloom_hit ≡ true → is_threat v ≡ true
unfolding threats
bloom_is_threat v e = ground (arith, e)

tally_all-from :
    (st : Stats) (vs : List Verdict)
    → tally_all st vs ≡ record {
      total = st.total + count_of (λ v. v.valid) vs;
      clean = st.clean + count_of (λ v. v.valid && not (is_threat v)) vs;
      flagged = st.flagged + count_of (λ v. v.valid && is_threat v) vs;
      bloom = st.bloom + count_of (λ v. v.valid && v.bloom_hit) vs;
      escalations = st.escalations + count_of (λ v. v.valid && (is_threat v && v.escalate)) vs;
    }
unfolding update
tally_all-from st [] = ground arith
tally_all-from st (v ∷ vs) = elim (Bool-cases v.valid) [
  | inl valid ↦ elim (Bool-cases (is_threat v)) [
    | inl t ↦ ground (arith, valid, t, tally_all-from (update st v) vs)
    | inr t ↦ elim (Bool-cases v.bloom_hit) [
      | inl b ↦ absurd (ground (arith, t, bloom_is_threat v b))
      | inr b ↦ ground (arith, valid, t, b, tally_all-from (update st v) vs)
    ]
  ]
  | inr invalid ↦ ground (arith, invalid, tally_all-from (update st v) vs)
]

-- After any verdicts the tallies are the numbers of the valid ones: all, without a threat, with a
-- threat, with a Bloom hit, and escalated with a threat; those without a verdict count nowhere.
pub tally_all-init :
    (vs : List Verdict)
    → tally_all init vs ≡ record {
      total = count_of (λ v. v.valid) vs;
      clean = count_of (λ v. v.valid && not (is_threat v)) vs;
      flagged = count_of (λ v. v.valid && is_threat v) vs;
      bloom = count_of (λ v. v.valid && v.bloom_hit) vs;
      escalations = count_of (λ v. v.valid && (is_threat v && v.escalate)) vs;
    }
unfolding init
tally_all-init vs = ground (arith, tally_all-from init vs)
