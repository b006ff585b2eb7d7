-- ===== src/Viz/Counted.antt =====
-- viz.py: what a replay of the synthetic workload shows.
use fpga_pi_parallel_nids.Prelude.{
  ℕ, suc, ◌+◌, ◌-◌, ◌/◌, ◌%◌, min, ◌≡◌, refl, sym, ap, ◌∙◌, inl, inr, Bool, true, false, Bool-cases,
  not, List, [], ◌∷◌, ◌++◌, Result, ok, arith, ◌==◌, if◌then◌else◌, length, count_of, All,
}
use fpga_pi_parallel_nids.Prelude.Bytes.{Bytes}
use fpga_pi_parallel_nids.Bloom.{BloomFilter, init, add_all}
use fpga_pi_parallel_nids.Benchmark.{Draws, ints_of}
use fpga_pi_parallel_nids.Benchmark.Workload.{AreFair, Misses, make_workload_total}
use fpga_pi_parallel_nids.Benchmark.Counts.{touches, all_full}
use fpga_pi_parallel_nids.Benchmark.Listed.{GivesBytes, from_ips_lem}
use fpga_pi_parallel_nids.Clock.{Clock}
use fpga_pi_parallel_nids.Verdict.{Verdict, threats}
use fpga_pi_parallel_nids.Viz.{Stats, update, is_threat}
use fpga_pi_parallel_nids.Viz
use fpga_pi_parallel_nids.Viz.Runner.{
  Line, packet, summary, final, emit, finish, replay_from, run_replay,
}
use fpga_pi_parallel_nids.Viz.Alone.{alone, classify_header_lem}

-- One bit is less than a threshold.
abbrev counted : Stats → ℕ → ℕ → Stats
counted st clean hits = record {
  total = st.total + clean + hits;
  clean = st.clean + clean;
  flagged = st.flagged + hits;
  bloom = st.bloom + hits;
  escalations = st.escalations + hits;
}

update-alone :
    (st : Stats) (hit : Bool) (i : ℕ)
    → update st (alone hit i) ≡ counted st (if hit then 0 else 1) (if hit then 1 else 0)
unfolding update threats
update-alone st true i = ground arith
update-alone st false i = ground arith

counted_step :
    (st : Stats) (hit : Bool) (i a b : ℕ)
    → counted (update st (alone hit i)) a b
      ≡ counted st ((if not hit then 1 else 0) + a) ((if hit then 1 else 0) + b)
counted_step st true i a b = rw (update-alone st true i) (ground arith)
counted_step st false i a b = rw (update-alone st false i) (ground arith)

-- The summaries up to `i + 1` are one more than those up to `i` when `i + 1` is a multiple.
summaries_step :
    (i n a b : ℕ)
    → a ≡ (if (i + 1) % 20 == 0 then 1 else 0)
    → b + (i + 1) / 20 ≡ (i + 1 + n) / 20
    → a + b + i / 20 ≡ (i + suc n) / 20
summaries_step i n a b h k = ground arith

abbrev pub is_packet : {Time : Type 0} → Line Time → Bool
is_packet (packet i row) = true
is_packet (summary st t) = false
is_packet (final st t) = false

abbrev pub is_summary : {Time : Type 0} → Line Time → Bool
is_summary (packet i row) = false
is_summary (summary st t) = true
is_summary (final st t) = false

count_of-append :
    {A : Type 0} (test : A → Bool) (xs ys : List A)
    → count_of test (xs ++ ys) ≡ count_of test xs + count_of test ys
count_of-append test [] ys = omega arith
count_of-append test (x ∷ xs) ys = omega (arith, count_of-append test xs ys)

count_of-not :
    {A : Type 0} (test : A → Bool) (xs : List A)
    → count_of (λ x. not (test x)) xs + count_of test xs ≡ length xs
count_of-not test [] = refl
count_of-not test (x ∷ xs) = ground (arith, count_of-not test xs)

module _ {W Time : Type 0} (clock : Clock W Time) where
  emit_lem :
      (w : W) (src dst : Bytes) (v : Verdict) (st : Stats) (i : ℕ) (color : Bool) (t0 : Time)
      → (w1 : W) × (lines : List (Line Time)) × (emit clock w src dst v st i color t0
          ≡ (w1, (update st v, lines)))
        × (count_of is_packet lines ≡ 1)
        × (count_of is_summary lines ≡ (if i % 20 == 0 then 1 else 0))
  unfolding emit
  emit_lem w src dst v st i color t0 =
      let row : Line Time = packet i (Viz.format_row src dst v color) in
      let (w1, now) = clock.monotonic w in
      elim (Bool-cases (i % 20 == 0)) [
        | inl due ↦ (w1, row ∷ summary (update st v) (clock.sub now t0) ∷ [], rw due, refl, rw due)
        | inr quiet ↦ (w, row ∷ [], rw quiet, refl, rw quiet)
      ]

  module _ (bloom : BloomFilter) (color : Bool) (delay t0 : Time) where
    abbrev Shown : Stats → ℕ → List Bytes → Result (W × (Stats × List (Line Time))) → Type 0
    Shown st i headers r =
        (w1 : W) × (lines : List (Line Time)) × (r
          ≡ ok (
            w1,
            (
              counted st (count_of (λ h. not (touches bloom h)) headers)
                  (count_of (touches bloom) headers),
              lines,
            ),
          ))
        × (count_of is_packet lines ≡ length headers)
        × (count_of is_summary lines + i / 20 ≡ (i + length headers) / 20)

    replay_from_total :
        (headers : List Bytes) (w : W) (st : Stats) (i : ℕ)
        → All (λ h. length h ≡ 32) headers
        → Shown st i headers (replay_from clock bloom color delay t0 w st (i + 1) headers)
    unfolding replay_from
    replay_from_total [] w st i full = (w, [], ground arith, refl, omega arith)
    replay_from_total (header ∷ headers) w st i (here, full) =
        let (frame, classified, read) = classify_header_lem bloom header (i + 1) here in
        let hit = touches bloom header in
        let v = alone hit (i + 1) in
        let (src, dst) = Viz.ips_from_header header in
        let (w1, lines, shown, one, due) = emit_lem w src dst v st (i + 1) color t0 in
        let (w2, rest, later, packets, summaries) =
          replay_from_total headers (clock.sleep delay w1) (update st v) (i + 1) full in
        (
          w2,
          lines ++ rest,
          rw (classified, read, shown, later)
              (ap (λ c. ok (w2, (c, lines ++ rest))) (counted_step st hit (i + 1) _ _)),
          omega (arith, count_of-append is_packet lines rest, one, packets),
          rw (count_of-append is_summary lines rest) (
              summaries_step i (length headers) (count_of is_summary lines)
                (count_of is_summary rest) due summaries),
        )

module _ {W Time R Text : Type 0} (clock : Clock W Time) (draws : Draws R) (fair : AreFair draws)
    (inet_aton : Text → Result Bytes) (test_c2_set : List Text) where
  -- A replay finds exactly what was put in: with a random source that keeps its documented ranges,
  -- shuffles to a permutation and draws an address outside the filter within every `fuel` calls,
  -- for a list of texts that read as one address at least, the replay returns. Of `count` packets
  -- it flags exactly the `n_hits` that were ordered (all, when `count` is less), each of them as a
  -- hit of the filter and escalated, and calls the others clean; it shows every packet, with a
  -- summary after each twenty.
  pub run_replay_total :
      (fuel count n_hits seed c : ℕ) (cs : List ℕ) (color : Bool) (delay : Time) (w : W)
      → GivesBytes inet_aton
      → ints_of inet_aton test_c2_set ≡ ok (c ∷ cs)
      → Misses draws fuel (add_all init (c ∷ cs))
      → (w1 : W) × (lines : List (Line Time)) × (run_replay clock draws inet_aton test_c2_set fuel
            count n_hits seed color delay w
          ≡ ok (
            w1,
            (
              record {
                total = count;
                clean = count - n_hits;
                flagged = min n_hits count;
                bloom = min n_hits count;
                escalations = min n_hits count;
              },
              lines,
            ),
          ))
        × (count_of is_packet lines ≡ count)
        × (count_of is_summary lines ≡ count / 20)
  unfolding run_replay finish
  run_replay_total fuel count n_hits seed c cs color delay w gives e misses =
      let bloom = add_all init (c ∷ cs) in
      let (headers, made, len, full, hits) =
        make_workload_total draws fair inet_aton test_c2_set fuel count n_hits seed c cs gives e
          misses in
      let (w0, t0) = clock.monotonic w in
      let (w1, lines, shown, packets, summaries) =
        replay_from_total clock bloom color delay t0 headers w0 Viz.init 0
          (all_full headers (full ∙ sym len)) in
      let (w2, now) = clock.monotonic w1 in
      let clean = count_of-not (touches bloom) headers in
      let st =
        counted Viz.init (count_of (λ h. not (touches bloom h)) headers)
          (count_of (touches bloom) headers) in
      let end : Line Time = final st (clock.sub now t0) in
      let exact : st ≡ record {
        total = count;
        clean = count - n_hits;
        flagged = min n_hits count;
        bloom = min n_hits count;
        escalations = min n_hits count;
      } =
        unfold Viz.init in ground (arith, clean, hits, len) in
      (
        w2,
        lines ++ (end ∷ []),
        rw (from_ips_lem inet_aton test_c2_set (c ∷ cs) e, made, shown)
            (ap (λ x. ok (w2, (x, lines ++ (end ∷ [])))) exact),
        omega (arith, count_of-append is_packet lines (end ∷ []), packets, len),
        omega (arith, count_of-append is_summary lines (end ∷ []), summaries, len),
      )
