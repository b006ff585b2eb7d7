-- ===== src/Traffic/Sources.antt =====
-- demo/scenarios.py: the frames that `benign` and `c2` yield.
use fpga_pi_parallel_nids.Prelude.{
  ℕ, zero, suc, ◌+◌, ◌%◌, ◌^◌, ◌≤◌, ◌<◌, ◌≡◌, refl, bit_or, Bool, true, false, not, Bool-cases, inl,
  inr, ◌⊎◌, ◌&&◌, List, [], ◌∷◌, some, ok, ◌>>=◌, arith, ltb, ◌==◌, length, get_or,
}
use native.Mathlib.Nat.{mod-eq_of_lt}
use fpga_pi_parallel_nids.Prelude.Bytes.{Bytes}
use fpga_pi_parallel_nids.Bloom.{BloomFilter, h1, h2, init, member, add_all}
use fpga_pi_parallel_nids.Bloom.Members.{covered, member-add_all}
use fpga_pi_parallel_nids.Verdict.{Verdict}
use fpga_pi_parallel_nids.ScanRate
use fpga_pi_parallel_nids.ScanRate.{ScanRateTable}
use fpga_pi_parallel_nids.Classifier.{Header, Classifier, parse, packet_of, classify}
use fpga_pi_parallel_nids.Classifier.Verdicts.{decoded, expected, classify-decode_verdict}
use fpga_pi_parallel_nids.Frames.Headers.{
  header_frame, masked, parse-header_frame, build_classify_frame_lem,
}
use fpga_pi_parallel_nids.Traffic.{
  has, c2_ips, benign_src_pools, benign_dst, benign_dports, c2_dports, Random, goes_on, Benign,
  Beacon, benign_frame, next_benign, next_c2,
}

-- What random.Random documents.
pub record IsFair {R : Type 0} (random : Random R) : Type 0 where
  pub choice_member :
      (r : R) (x : ℕ) (xs : List ℕ) → has (x ∷ xs) (random.choice r (x ∷ xs)).1 ≡ true
  pub randint_least : (r : R) (a b : ℕ) → a ≤ b → a ≤ (random.randint r a b).1
  pub randint_most : (r : R) (a b : ℕ) → a ≤ b → (random.randint r a b).1 ≤ b

-- The filter of `c2_ips`.
abbrev pub c2_filter : BloomFilter
c2_filter = add_all init c2_ips

abbrev all_below : ℕ → (ℕ → Bool) → Bool
all_below zero test = true
all_below (suc n) test = test n && all_below n test

all_below_at : (n i : ℕ) (test : ℕ → Bool) → all_below n test ≡ true → i < n → test i ≡ true
all_below_at zero i test all lt = absurd (omega arith)
all_below_at (suc n) i test all lt = elim (Bool-cases (i == n)) [
  | inl e ↦ let same : i ≡ n = ground arith in rw same (ground arith)
  | inr e ↦ all_below_at n i test (ground arith) (ground arith)
]

unfoldable is_clean : ℕ → Bool
is_clean src =
    not (has c2_ips src)
    && (ltb src (2 ^ 32) && not (covered c2_ips (h1 src) && covered c2_ips (h2 src)))

abbrev clean_host : ℕ → Bool
clean_host host =
    is_clean (bit_or 0xC0A80000 host)
    && (is_clean (bit_or 0xC0A80100 host) && is_clean (bit_or 0xC0A80200 host))

clean_table : all_below 255 clean_host ≡ true
unfolding h1 h2 is_clean has
clean_table = refl

pool_cases :
    (pool : ℕ)
    → has benign_src_pools pool ≡ true
    → (pool ≡ 0xC0A80000) ⊎ ((pool ≡ 0xC0A80100) ⊎ (pool ≡ 0xC0A80200))
unfolding has
pool_cases pool h = ground arith

clean_source :
    (pool host : ℕ)
    → has benign_src_pools pool ≡ true
    → host < 255
    → is_clean (bit_or pool host) ≡ true
clean_source pool host h lt =
    let found = all_below_at 255 host clean_host clean_table lt in
    elim (pool_cases pool h) [
      | inl e ↦ rw e (ground (arith, found))
      | inr (inl e) ↦ rw e (ground (arith, found))
      | inr (inr e) ↦ rw e (ground (arith, found))
    ]

-- What a clean address is.
record IsClean (src : ℕ) : Type 0 where
  unlisted : has c2_ips src ≡ false
  small : src < 2 ^ 32
  missed : member c2_filter src ≡ false

is_clean-IsClean : (src : ℕ) → is_clean src ≡ true → IsClean src
unfolding is_clean
is_clean-IsClean src h = record {
  unlisted = ground arith;
  small = ground arith;
  missed = ground (arith, member-add_all c2_ips src);
}

abbrev benign_header : {R : Type 0} → Random R → R → ℕ → Header
benign_header random rng src =
    let (rng1, dst_port) = random.choice rng benign_dports in
    record {
      src_ip = src;
      dst_ip = benign_dst;
      src_port = 0;
      dst_port = dst_port;
      proto = 17;
      flags = 0;
      size = (random.randint rng1 64 512).1;
    }

abbrev c2_header : {R : Type 0} → Random R → Beacon R → Header
c2_header random g = record {
  src_ip = get_or c2_ips (g.emitted % 3) 0;
  dst_ip = g.dst_ip;
  src_port = 0;
  dst_port = (random.choice g.rng c2_dports).1;
  proto = 6;
  flags = 0x02;
  size = 64;
}

below_three : (n : ℕ) → n < 3 → (n ≡ 0) ⊎ ((n ≡ 1) ⊎ (n ≡ 2))
below_three zero lt = inl refl
below_three (suc zero) lt = inr (inl refl)
below_three (suc (suc zero)) lt = inr (inr refl)
below_three (suc (suc (suc n))) lt = absurd (omega arith)

c2_source : (n : ℕ) → member c2_filter (get_or c2_ips (n % 3) 0 % 2 ^ 32) ≡ true
unfolding h1 h2
c2_source n =
    let below : n % 3 < 3 = omega arith in
    elim (below_three (n % 3) below) [
      | inl e ↦ rw e (member-add_all c2_ips 0xC6336401)
      | inr (inl e) ↦ rw e (member-add_all c2_ips 0xCB007105)
      | inr (inr e) ↦ rw e (member-add_all c2_ips 0xC0000263)
    ]

dst_missed : member c2_filter benign_dst ≡ false
unfolding h1 h2
dst_missed = member-add_all c2_ips benign_dst

module _ {R : Type 0} (random : Random R) (fair : IsFair random) where
  benign_frame_lem :
      (g : Benign R) (rng : R) (src : ℕ)
      → benign_frame random g rng src
        ≡ ok (
            some (
              header_frame (masked (benign_header random rng src)),
              record g {
                rng = (random.randint (random.choice rng benign_dports).0 64 512).0;
                emitted = g.emitted + 1;
              },
            ))
  unfolding benign_frame
  benign_frame_lem g rng src = rw (build_classify_frame_lem (benign_header random rng src))

  -- With a random source that draws members of its pools and numbers in their range, `benign` yields
  -- as long as its count lasts, and one turn is enough for a frame: its 32 bytes have a source
  -- outside `c2_ips`, it is UDP without flags, and the filter of that list misses both its
  -- addresses.
  pub next_benign-clean :
      (fuel : ℕ) (g : Benign R)
      → goes_on g.count g.emitted ≡ true
      → (frame : Bytes) × (g1 : Benign R) × (h : Header) × (next_benign random (suc fuel) g
          ≡ some (ok (some (frame, g1))))
        × (g1.emitted ≡ g.emitted + 1)
        × (g1.count ≡ g.count)
        × (length frame ≡ 32)
        × (parse frame ≡ ok h)
        × (has c2_ips h.src_ip ≡ false)
        × (h.proto ≡ 17)
        × (h.flags ≡ 0)
        × (member c2_filter h.src_ip ≡ false)
        × (member c2_filter h.dst_ip ≡ false)
  unfolding next_benign
  next_benign-clean fuel g more =
      let (rng1, pool) = random.choice g.rng benign_src_pools in
      let (rng2, host) = random.randint rng1 1 254 in
      let src = bit_or pool host in
      let h = benign_header random rng2 src in
      let most = fair.randint_most rng1 1 254 (omega arith) in
      let clean : IsClean src = is_clean-IsClean src (
        clean_source pool host (fair.choice_member g.rng 0xC0A80000 (0xC0A80100 ∷ 0xC0A80200 ∷ []))
          (omega arith)) in
      let kept : src % 2 ^ 32 ≡ src = mod-eq_of_lt clean.small in
      (
        header_frame (masked h),
        record g {
          rng = (random.randint (random.choice rng2 benign_dports).0 64 512).0;
          emitted = g.emitted + 1;
        },
        masked h,
        ground (arith, more, clean.unlisted, benign_frame_lem g rng2 src),
        refl,
        refl,
        refl,
        parse-header_frame (masked h) (omega arith),
        rw kept clean.unlisted,
        refl,
        refl,
        rw kept clean.missed,
        dst_missed,
      )

module _ {R : Type 0} (random : Random R) where
  -- The listed sources are caught: `c2` yields as long as its count lasts, and whatever the table holds,
  -- the classifier with the filter of the list answers the frame of 32 bytes with a verdict that
  -- has the Bloom hit, severity 3 and the escalation.
  pub next_c2-classify :
      (g : Beacon R) (table : ScanRateTable) (seq frame_count : ℕ)
      → goes_on g.count g.emitted ≡ true
      → (frame : Bytes) × (g1 : Beacon R) × (after : Classifier) × (v : Verdict) × (next_c2 random g
          ≡ ok (some (frame, g1)))
        × (g1.emitted ≡ g.emitted + 1)
        × (g1.count ≡ g.count)
        × (length frame ≡ 32)
        × ((classify (record { bloom = c2_filter; table = table }) frame seq frame_count
              >>= decoded)
            ≡ ok (after, v))
        × (v.bloom_hit ≡ true)
        × (v.severity ≡ 3)
        × (v.escalate ≡ true)
  unfolding next_c2
  next_c2-classify g table seq n more =
      let h = c2_header random g in
      let c : Classifier = record { bloom = c2_filter; table = table } in
      let v = expected c (masked h) seq n in
      let hit : member c2_filter (masked h).src_ip ≡ true = c2_source g.emitted in
      (
        header_frame (masked h),
        record g { rng = (random.choice g.rng c2_dports).0; emitted = g.emitted + 1 },
        record c { table = (ScanRate.update table (packet_of (masked h) n)).0 },
        v,
        rw (more, build_classify_frame_lem h),
        refl,
        refl,
        refl,
        rw (
          classify-decode_verdict c (header_frame (masked h)) seq n,
          parse-header_frame (masked h) (omega arith),
        ),
        rw hit,
        rw hit,
        rw hit,
      )
