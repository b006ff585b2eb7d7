-- ===== src/Ber/Ramp/Ceiling.antt =====
-- spi_ber_ramp.py: what the reported ceiling means.
use mathlib.Core.Path.{subst}
use fpga_pi_parallel_nids.Prelude.{
  ℕ, zero, suc, ◌+◌, ◌-◌, ◌*◌, ◌≡◌, refl, sym, ap, List, [], ◌∷◌, ◌++◌, Option, none, some, Result,
  ok, arith, if◌then◌else◌, length, length-take, All,
}
use fpga_pi_parallel_nids.Prelude.Bytes.{Bytes, zeros}
use fpga_pi_parallel_nids.Ber.{RampResult, compare_from, ramp_errors, send_all, but_last, run_one}
use fpga_pi_parallel_nids.Ber.Echo.{IsFull, ramp_errors_lem, take-append, length-append_one}
use fpga_pi_parallel_nids.SpiLink.{send_frame}
use fpga_pi_parallel_nids.Ber.Ramp.{draw_bytes, draw_frames, Step, ramp_from, ramp}
use fpga_pi_parallel_nids.Ber.Ramp.Highest.{
  is_clean, Ascending, IsHighest, last_clean, clocks_of, last_clean-IsHighest,
}

length-draw_bytes :
    {R : Type 0} (seeded : ℕ → R) (getrandbits : R → ℕ → R × ℕ) (n : ℕ) (rng : R)
    → length (draw_bytes seeded getrandbits n rng).1 ≡ n
unfolding draw_bytes
length-draw_bytes seeded getrandbits zero rng = refl
length-draw_bytes seeded getrandbits (suc n) rng =
    ap suc (length-draw_bytes seeded getrandbits n (getrandbits rng 8).0)

module _ {R : Type 0} (seeded : ℕ → R) (getrandbits : R → ℕ → R × ℕ) where
  draw_frames-IsFull : (n : ℕ) (rng : R) → All IsFull (draw_frames seeded getrandbits n rng)
  unfolding draw_frames
  draw_frames-IsFull zero rng = tt
  draw_frames-IsFull (suc n) rng = (
    length-draw_bytes seeded getrandbits 32 rng,
    draw_frames-IsFull n (draw_bytes seeded getrandbits 32 rng).0,
  )

  length-draw_frames : (n : ℕ) (rng : R) → length (draw_frames seeded getrandbits n rng) ≡ n
  unfolding draw_frames
  length-draw_frames zero rng = refl
  length-draw_frames (suc n) rng =
      ap suc (length-draw_frames n (draw_bytes seeded getrandbits 32 rng).0)

-- Whatever the device answers, there is a read for every full frame.
send_all_total :
    {W : Type 0} (xfer2 : W → Bytes → W × Bytes) (frames : List Bytes) (w : W)
    → All IsFull frames
    → (w1 : W) × (got : List Bytes) × (send_all xfer2 w frames ≡ ok (w1, got))
      × (length got ≡ length frames)
unfolding send_all send_frame
send_all_total xfer2 [] w full = (w, [], refl, refl)
send_all_total xfer2 (f ∷ frames) w (here, full) =
    let (w1, got, e, many) = send_all_total xfer2 frames (xfer2 w f).0 full in
    (w1, (xfer2 w f).1 ∷ got, ground (arith, here, e), ap suc many)

IsFull-append :
    (frames : List Bytes) (f : Bytes)
    → All IsFull frames
    → length f ≡ 32
    → All IsFull (frames ++ (f ∷ []))
IsFull-append [] f full size = (size, tt)
IsFull-append (g ∷ frames) f (here, full) size = (here, IsFull-append frames f full size)

-- A comparison with delay 1 of as many reads as frames.
ramp_errors_total :
    (sent got : List Bytes)
    → length got ≡ length sent
    → (r : RampResult) × (ramp_errors sent got 1 ≡ ok r) × (r.frames_compared ≡ length sent - 1)
ramp_errors_total [] got many = unfold ramp_errors compare_from in (_, refl, refl)
ramp_errors_total (f ∷ sent) [] many = absurd (omega arith)
ramp_errors_total (f ∷ sent) (g ∷ got) many =
    (_, ramp_errors_lem (f ∷ sent) (g ∷ []) got (omega (arith, many)), omega (arith, many))

but_last_of :
    {W : Type 0} (xfer2 : W → Bytes → W × Bytes) (frames got : List Bytes)
    → length got ≡ length frames + 1
    → (but_last xfer2 (frames ++ (zeros 32 ∷ [])) ≡ frames)
      × (length (but_last xfer2 got) ≡ length frames)
but_last_of xfer2 frames got many =
    let n : length (frames ++ (zeros 32 ∷ [])) - 1 ≡ length frames =
      omega (arith, length-append_one frames (zeros 32)) in
    (rw n (take-append frames (zeros 32)), omega (arith, length-take (length got - 1) got, many))

module _ {W : Type 0} (xfer2 : W → Bytes → W × Bytes) where
  run_one_total :
      (w : W) (frames : List Bytes)
      → All IsFull frames
      → (w1 : W) × (r : RampResult) × (run_one xfer2 w frames ≡ ok (w1, r))
        × (r.frames_compared ≡ length frames - 1)
  unfolding run_one
  run_one_total w frames full =
      let (w1, got, e, many) =
        send_all_total xfer2 (frames ++ (zeros 32 ∷ [])) w
          (IsFull-append frames (zeros 32) full refl) in
      let (same, rest) =
        but_last_of xfer2 frames got (omega (arith, many, length-append_one frames (zeros 32))) in
      let (r, compared, count) = ramp_errors_total frames (but_last xfer2 got) rest in
      (w1, r, rw (e, same, compared), count)

module _ {W R : Type 0} (seeded : ℕ → R) (getrandbits : R → ℕ → R × ℕ)
    (xfer2 : ℕ → W → Bytes → W × Bytes) (frames seed : ℕ) where
  abbrev Ramped : Option ℕ → List ℕ → Result (W × (List Step × Option ℕ)) → Type 0
  Ramped o clocks r =
      (w1 : W) × (steps : List Step) × (r ≡ ok (w1, (steps, last_clean o steps)))
      × (clocks_of steps ≡ clocks)
      × All (λ s. s.1.frames_compared ≡ frames - 1) steps

  ramp_from_total :
      (clocks : List ℕ) (w : W) (o : Option ℕ)
      → Ramped o clocks (ramp_from seeded getrandbits xfer2 frames seed w o clocks)
  unfolding ramp_from
  ramp_from_total [] w o = (w, [], refl, refl, tt)
  ramp_from_total (mhz ∷ clocks) w o =
      let sent = draw_frames seeded getrandbits frames (seeded seed) in
      let (w1, r, e, count) =
        run_one_total (xfer2 (mhz * 1000000)) w sent
          (draw_frames-IsFull seeded getrandbits frames (seeded seed)) in
      let (w2, steps, rest, same, counts) =
        ramp_from_total clocks w1 (if is_clean (mhz, r) then some mhz else o) in
      (
        w2,
        (mhz, r) ∷ steps,
        rw (e, rest),
        ap (λ cs. mhz ∷ cs) same,
        (omega (arith, count, length-draw_frames seeded getrandbits frames (seeded seed)), counts),
      )

  -- The ramp finds the ceiling: for clocks in ascending order, whatever the devices answer, it
  -- returns a row for every clock, each of `frames - 1` comparisons, and reports the highest clock
  -- whose row is without an error, or none if there is no such row.
  pub ramp_total :
      (clocks : List ℕ) (w : W)
      → Ascending clocks
      → (w1 : W) × (steps : List Step) × (highest : Option ℕ) × (ramp seeded getrandbits xfer2
            frames seed clocks w
          ≡ ok (w1, (steps, highest)))
        × (clocks_of steps ≡ clocks)
        × All (λ s. s.1.frames_compared ≡ frames - 1) steps
        × IsHighest highest steps
  unfolding ramp
  ramp_total clocks w up =
      let (w1, steps, e, same, counts) = ramp_from_total clocks w none in
      (
        w1,
        steps,
        last_clean none steps,
        e,
        same,
        counts,
        last_clean-IsHighest steps (subst Ascending (sym same) up),
      )
