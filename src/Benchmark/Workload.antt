-- ===== src/Benchmark/Workload.antt =====
-- benchmark.py: what the synthetic workload holds.
use mathlib.Core.List.{Perm}
use fpga_pi_parallel_nids.Prelude.{
  ℕ, zero, suc, ◌+◌, ◌-◌, ◌^◌, ◌<◌, min, ◌≡◌, refl, sym, ◌∙◌, inl, inr, Bool, true, false,
  Bool-cases, ◌||◌, List, [], ◌∷◌, Result, ok, arith, ltb, if◌then◌else◌, length, count_of,
}
use fpga_pi_parallel_nids.Prelude.Bytes.{Bytes}
use fpga_pi_parallel_nids.Bloom.{BloomFilter, init, member, add_all}
use fpga_pi_parallel_nids.Classifier.{Header}
use fpga_pi_parallel_nids.Frames.Headers.{header_frame, Fits, parse-header_frame}
use fpga_pi_parallel_nids.Traffic.{has}
use fpga_pi_parallel_nids.Traffic.Sources.{IsFair}
use fpga_pi_parallel_nids.Benchmark.{
  Draws, pack, random_clean_ip, hit_pair, clean_pair, headers_from, ints_of, make_workload,
}
use fpga_pi_parallel_nids.Benchmark.Counts.{count_of-Perm, touches, is_full, count_of_all}
use fpga_pi_parallel_nids.Benchmark.Listed.{GivesBytes, from_ips_lem, listed_lem}

-- What random.Random documents of the methods that the workload uses.
pub record AreFair {R : Type 0} (draws : Draws R) : Type 0 where
  pub picks : IsFair draws.random
  pub bits_lt : (r : R) (k : ℕ) → (draws.getrandbits r k).1 < 2 ^ k
  pub shuffle_perm : (r : R) (xs : List Bytes) → Perm (draws.shuffle r xs).1 xs

module _ {R : Type 0} (draws : Draws R) where
  -- The value of the `k`-th call of `getrandbits(32)` from now.
  unfoldable pub drawn : ℕ → R → ℕ
  drawn zero r = (draws.getrandbits r 32).1
  drawn (suc k) r = drawn k (draws.getrandbits r 32).0

  -- Some of the next `bound` draws is an address that the filter does not admit.
  abbrev pub Misses : ℕ → BloomFilter → Type 0
  Misses bound bloom = (r : R) → (k : ℕ) × (k < bound) × (member bloom (drawn k r) ≡ false)

module _ {R : Type 0} (draws : Draws R) (fair : AreFair draws) where
  proto-lt : (x : ℕ) → has (6 ∷ 17 ∷ 1 ∷ []) x ≡ true → x < 256
  unfolding has
  proto-lt x h = ground arith

  -- The header is packed, and it is one of the two addresses.
  pack_lem :
      (rng : R) (src dst : ℕ)
      → src < 2 ^ 32
      → dst < 2 ^ 32
      → (rng1 : R) × (h : Header) × (pack draws rng src dst ≡ ok (rng1, header_frame h))
        × Fits h
        × (h.src_ip ≡ src)
        × (h.dst_ip ≡ dst)
  unfolding pack
  pack_lem rng src dst hs hd =
      let (rng1, sport) = draws.random.randint rng 1 65535 in
      let (rng2, dport) = draws.random.randint rng1 1 65535 in
      let (rng3, proto) = draws.random.choice rng2 (6 ∷ 17 ∷ 1 ∷ []) in
      let (rng4, flags) = draws.random.randint rng3 0 255 in
      let (rng5, size) = draws.random.randint rng4 40 1500 in
      let h : Header = record {
        src_ip = src;
        dst_ip = dst;
        src_port = sport;
        dst_port = dport;
        proto = proto;
        flags = flags;
        size = size;
      } in
      let a : sport < 65536 = omega (arith, fair.picks.randint_most rng 1 65535 (omega arith)) in
      let b : dport < 65536 = omega (arith, fair.picks.randint_most rng1 1 65535 (omega arith)) in
      let c : proto < 256 = proto-lt proto (fair.picks.choice_member rng2 6 (17 ∷ 1 ∷ [])) in
      let d : flags < 256 = omega (arith, fair.picks.randint_most rng3 0 255 (omega arith)) in
      let e : size < 65536 = omega (arith, fair.picks.randint_most rng4 40 1500 (omega arith)) in
      (rng5, h, ground (arith, hs, hd, a, b, c, d, e), (hs, hd, a, b, c, d, e), refl, refl)

  random_clean_ip_from :
      (fuel k : ℕ) (rng : R) (bloom : BloomFilter)
      → k < fuel
      → member bloom (drawn draws k rng) ≡ false
      → (rng1 : R) × (x : ℕ) × (random_clean_ip draws fuel rng bloom ≡ ok (rng1, x))
        × (member bloom x ≡ false)
        × (x < 2 ^ 32)
  unfolding random_clean_ip drawn
  random_clean_ip_from zero k rng bloom lt miss = absurd (omega arith)
  random_clean_ip_from (suc fuel) zero rng bloom lt miss = (
    (draws.getrandbits rng 32).0,
    (draws.getrandbits rng 32).1,
    rw miss,
    miss,
    fair.bits_lt rng 32,
  )
  random_clean_ip_from (suc fuel) (suc k) rng bloom lt miss =
      elim (Bool-cases (member bloom (draws.getrandbits rng 32).1)) [
        | inr clean ↦ (
          (draws.getrandbits rng 32).0,
          (draws.getrandbits rng 32).1,
          rw clean,
          clean,
          fair.bits_lt rng 32,
        )
        | inl hit ↦
            rw hit
              (random_clean_ip_from fuel k (draws.getrandbits rng 32).0 bloom (omega arith) miss)
      ]

  module _ (fuel : ℕ) (bloom : BloomFilter) (misses : Misses draws fuel bloom) where
    random_clean_ip_total :
        (rng : R)
        → (rng1 : R) × (x : ℕ) × (random_clean_ip draws fuel rng bloom ≡ ok (rng1, x))
          × (member bloom x ≡ false)
          × (x < 2 ^ 32)
    random_clean_ip_total rng =
        let (k, lt, miss) = misses rng in random_clean_ip_from fuel k rng bloom lt miss

    -- A pair of addresses that pack, whose header hits the filter as `hit` says.
    abbrev Pair : Bool → Result (R × (ℕ × ℕ)) → Type 0
    Pair hit r =
        (rng1 : R) × (src : ℕ) × (dst : ℕ) × (r ≡ ok (rng1, (src, dst)))
        × ((member bloom src || member bloom dst) ≡ hit)
        × (src < 2 ^ 32)
        × (dst < 2 ^ 32)

    clean_pair_total : (rng : R) → Pair false (clean_pair draws fuel rng bloom)
    unfolding clean_pair
    clean_pair_total rng =
        let (rng1, src, e, clean, small) = random_clean_ip_total rng in
        let (rng2, dst, e2, clean2, small2) = random_clean_ip_total rng1 in
        (rng2, src, dst, rw (e, e2), rw (clean, clean2), small, small2)

    module _ (c : ℕ) (cs : List ℕ)
        (listed : (x : ℕ) → has (c ∷ cs) x ≡ true → (member bloom x ≡ true) × (x < 2 ^ 32)) where
      hit_pair_total : (rng : R) → Pair true (hit_pair draws fuel rng bloom (c ∷ cs))
      unfolding hit_pair
      hit_pair_total rng =
          let (rng1, x) = draws.random.choice rng (c ∷ cs) in
          let (inside, small) = listed x (fair.picks.choice_member rng c cs) in
          let (rng2, other, e, clean, small2) = random_clean_ip_total rng1 in
          elim (Bool-cases (draws.coin rng2).1) [
            | inl heads ↦ ((draws.coin rng2).0, x, other, rw (e, heads), rw inside, small, small2)
            | inr tails ↦
                ((draws.coin rng2).0, other, x, rw (e, tails), rw (clean, inside), small2, small)
          ]

      -- What the loop leaves: full frames, of which the first `hits` touch the filter.
      abbrev Made : ℕ → ℕ → Result (R × List Bytes) → Type 0
      Made n hits r =
          (rng1 : R) × (headers : List Bytes) × (r ≡ ok (rng1, headers))
          × (length headers ≡ n)
          × (count_of is_full headers ≡ n)
          × (count_of (touches bloom) headers ≡ hits)

      touches_lem :
          (h : Header)
          → Fits h
          → touches bloom (header_frame h) ≡ (member bloom h.src_ip || member bloom h.dst_ip)
      touches_lem h fits = rw (parse-header_frame h fits)

      ends_total :
          (rng : R) (i n_hits : ℕ)
          → Pair (ltb i n_hits) (
              if ltb i n_hits
              then hit_pair draws fuel rng bloom (c ∷ cs)
              else clean_pair draws fuel rng bloom)
      ends_total rng i n_hits = elim (Bool-cases (ltb i n_hits)) [
        | inl early ↦ rw early (hit_pair_total rng)
        | inr late ↦ rw late (clean_pair_total rng)
      ]

      headers_from_total :
          (n i n_hits : ℕ) (rng : R)
          → Made n (min (n_hits - i) n) (headers_from draws fuel rng bloom (c ∷ cs) n i n_hits)
      unfolding headers_from
      headers_from_total zero i n_hits rng = (rng, [], refl, refl, refl, omega arith)
      headers_from_total (suc n) i n_hits rng =
          let (rng1, src, dst, e, hit, hs, hd) = ends_total rng i n_hits in
          let (rng2, h, packed, fits, es, ed) = pack_lem rng1 src dst hs hd in
          let (rng3, headers, rest, len, full, count) = headers_from_total n (i + 1) n_hits rng2 in
          let t : touches bloom (header_frame h) ≡ ltb i n_hits =
            rw (touches_lem h fits, es, ed) hit in
          (
            rng3,
            header_frame h ∷ headers,
            rw (e, packed, rest),
            omega (arith, len),
            omega (arith, full),
            rw t (ground (arith, count)),
          )

module _ {R Text : Type 0} (draws : Draws R) (fair : AreFair draws)
    (inet_aton : Text → Result Bytes) (test_c2_set : List Text) where
  -- The workload is as ordered: with a random source that keeps its documented ranges, shuffles
  -- to a permutation and draws an address outside the filter within every `fuel` calls, for a
  -- list of texts that read as one address at least, it returns `n` headers of 32 bytes, of which
  -- exactly `n_hits` (all, when `n` is less) have an address that the filter of the list admits.
  pub make_workload_total :
      (fuel n n_hits seed c : ℕ) (cs : List ℕ)
      → GivesBytes inet_aton
      → ints_of inet_aton test_c2_set ≡ ok (c ∷ cs)
      → Misses draws fuel (add_all init (c ∷ cs))
      → (headers : List Bytes) × (make_workload draws inet_aton test_c2_set fuel n n_hits seed
          ≡ ok headers)
        × (length headers ≡ n)
        × (count_of is_full headers ≡ n)
        × (count_of (touches (add_all init (c ∷ cs))) headers ≡ min n_hits n)
  unfolding make_workload
  make_workload_total fuel n n_hits seed c cs gives e misses =
      let bloom = add_all init (c ∷ cs) in
      let (rng1, made, from, len, full, count) =
        headers_from_total draws fair fuel bloom misses c cs
          (listed_lem inet_aton test_c2_set (c ∷ cs) gives e) n 0 n_hits
          (draws.random.seeded seed) in
      let mixed = fair.shuffle_perm rng1 made in
      let headers = (draws.shuffle rng1 made).1 in
      (
        headers,
        rw (from_ips_lem inet_aton test_c2_set (c ∷ cs) e, e, from),
        sym (count_of_all headers) ∙ (count_of-Perm (λ x. true) mixed ∙ (count_of_all made ∙ len)),
        count_of-Perm is_full mixed ∙ full,
        count_of-Perm (touches bloom) mixed ∙ (count ∙ omega arith),
      )
