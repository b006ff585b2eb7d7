-- ===== src/Traffic.antt =====
-- demo/scenarios.py: the generators of frames. A generator is the record of its local variables,
-- and its `next` gives `none` for StopIteration. random.Random is a parameter.
pub mod Sources
pub mod Timeline
pub mod Playing
use fpga_pi_parallel_nids.Prelude.{
  ℕ, zero, suc, ◌+◌, ◌%◌, bit_or, Bool, true, false, ◌||◌, List, [], ◌∷◌, Option, none, some,
  Result, ok, raise, ◌>>=◌, ltb, ◌==◌, if◌then◌else◌, length, get_or,
}
use fpga_pi_parallel_nids.Prelude.Bytes.{Bytes}
use fpga_pi_parallel_nids.Frames.{build_classify_frame}

-- `x in xs`
unfoldable pub has : List ℕ → ℕ → Bool
has [] x = false
has (y ∷ ys) x = y == x || has ys x

abbrev pub c2_ips : List ℕ
c2_ips = 0xC6336401 ∷ 0xCB007105 ∷ 0xC0000263 ∷ []

abbrev pub benign_src_pools : List ℕ
benign_src_pools = 0xC0A80000 ∷ 0xC0A80100 ∷ 0xC0A80200 ∷ []

abbrev pub benign_dst : ℕ
benign_dst = 0x0A000020

abbrev pub benign_dports : List ℕ
benign_dports = 53 ∷ 80 ∷ 443 ∷ 8080 ∷ []

abbrev pub c2_dports : List ℕ
c2_dports = 80 ∷ 443 ∷ 8443 ∷ []

-- What the generators use of random.Random; `R` is its state.
pub record Random (R : Type 0) : Type 0 where
  pub seeded : ℕ → R
  pub choice : R → List ℕ → R × ℕ
  pub randint : R → ℕ → ℕ → R × ℕ

-- `count is None or emitted < count`
abbrev pub goes_on : Option ℕ → ℕ → Bool
goes_on none emitted = true
goes_on (some count) emitted = ltb emitted count

pub record Benign (R : Type 0) : Type 0 where
  pub rng : R
  pub emitted : ℕ
  pub count : Option ℕ

pub record Beacon (R : Type 0) : Type 0 where
  pub rng : R
  pub emitted : ℕ
  pub count : Option ℕ
  pub dst_ip : ℕ

pub record Scan : Type 0 where
  pub src_ip : ℕ
  pub count : ℕ
  pub dst_ip : ℕ
  pub start_port : ℕ
  pub i : ℕ

pub record Flood : Type 0 where
  pub src_ip : ℕ
  pub count : ℕ
  pub dst_ip : ℕ
  pub dst_port : ℕ
  pub i : ℕ

module _ {R : Type 0} (random : Random R) where
  unfoldable pub benign : ℕ → Option ℕ → Benign R
  benign seed count = record { rng = random.seeded seed; emitted = 0; count = count }

  -- The frame of `benign` for a source, and the generator behind its `yield`.
  unfoldable pub benign_frame : Benign R → R → ℕ → Result (Option (Bytes × Benign R))
  benign_frame g rng src =
      let (rng1, dst_port) = random.choice rng benign_dports in
      let (rng2, size) = random.randint rng1 64 512 in
      do
        frame ← build_classify_frame src benign_dst 0 dst_port 17 0 size
        ok (some (frame, record g { rng = rng2; emitted = g.emitted + 1 }))

  -- A turn of the loop of `benign`; `none` means that the fuel ran out, as every turn that meets
  -- an address of `c2_ips` starts another.
  unfoldable pub next_benign : ℕ → Benign R → Option (Result (Option (Bytes × Benign R)))
  next_benign zero g = none
  next_benign (suc fuel) g =
      let (rng1, pool) = random.choice g.rng benign_src_pools in
      let (rng2, host) = random.randint rng1 1 254 in
      let src = bit_or pool host in
      let again = next_benign fuel (record g { rng = rng2 }) in
      if goes_on g.count g.emitted
      then (if has c2_ips src then again else some (benign_frame g rng2 src))
      else some (ok none)

  unfoldable pub c2 : ℕ → Option ℕ → ℕ → Beacon R
  c2 seed count dst_ip = record {
    rng = random.seeded seed;
    emitted = 0;
    count = count;
    dst_ip = dst_ip;
  }

  unfoldable pub next_c2 : Beacon R → Result (Option (Bytes × Beacon R))
  next_c2 g =
      let src = get_or c2_ips (g.emitted % length c2_ips) 0 in
      let (rng1, dst_port) = random.choice g.rng c2_dports in
      if goes_on g.count g.emitted
      then (do
        frame ← build_classify_frame src g.dst_ip 0 dst_port 6 0x02 64
        ok (some (frame, record g { rng = rng1; emitted = g.emitted + 1 })))
      else ok none

unfoldable pub port_scan : ℕ → ℕ → ℕ → ℕ → Scan
port_scan src_ip count dst_ip start_port = record {
  src_ip = src_ip;
  count = count;
  dst_ip = dst_ip;
  start_port = start_port;
  i = 0;
}

unfoldable pub next_scan : Scan → Result (Option (Bytes × Scan))
next_scan g =
    if ltb g.i g.count
    then (do
      frame ← build_classify_frame g.src_ip g.dst_ip 0 (g.start_port + g.i) 6 0x02 64
      ok (some (frame, record g { i = g.i + 1 })))
    else ok none

unfoldable pub flood : ℕ → ℕ → ℕ → ℕ → Flood
flood src_ip count dst_ip dst_port = record {
  src_ip = src_ip;
  count = count;
  dst_ip = dst_ip;
  dst_port = dst_port;
  i = 0;
}

unfoldable pub next_flood : Flood → Result (Option (Bytes × Flood))
next_flood g =
    if ltb g.i g.count
    then (do
      frame ← build_classify_frame g.src_ip g.dst_ip 0 g.dst_port 6 0x02 64
      ok (some (frame, record g { i = g.i + 1 })))
    else ok none
