-- ===== src/Golden/Padding.antt =====
-- gen_verdict_golden.py: `pad_to_window`.
use fpga_pi_parallel_nids.Prelude.{
  ℕ, zero, suc, ◌+◌, ◌-◌, ◌%◌, ◌^◌, ◌≤◌, ◌<◌, ◌≡◌, ◌≢◌, refl, sym, inl, inr, Bool-cases, [], ◌∷◌,
  ◌++◌, some, ok, ◌==◌, arith, length, length-append, All, append_nil, append_assoc,
}
use fpga_pi_parallel_nids.Prelude.Bytes.{Bytes}
use fpga_pi_parallel_nids.Frames.{hdr}
use fpga_pi_parallel_nids.Classifier.{Header}
use fpga_pi_parallel_nids.Frames.Headers.{header_frame}
use fpga_pi_parallel_nids.Golden.{Label, pad, Stream, hdr_of, pad_call, pad_fuel, pad_to_window}

abbrev pub IsPad : Label × Bytes → Type 0
IsPad x = x.0 ≡ pad

-- The header of a padding frame.
abbrev header_of : ℕ → Header
header_of fill = record {
  src_ip = 0x0A001000 + fill;
  dst_ip = 0xC0000202;
  src_port = 5000;
  dst_port = 53;
  proto = 17;
  flags = 0;
  size = 60;
}

hdr_of-pad_call :
    (fill : ℕ) → fill < 2 ^ 24 → (h : Bytes) × (hdr_of (pad_call fill) ≡ ok h) × (length h ≡ 32)
unfolding hdr hdr_of
hdr_of-pad_call fill small = (header_frame (header_of fill), ground (arith), refl)

-- With fuel for the frames that are missing, the padding ends.
padding :
    (fuel : ℕ) (stream : Stream) (fill need : ℕ)
    → (length stream + need) % 16 ≡ 0
    → need < fuel
    → fill + need < 2 ^ 24
    → (pads : Stream) × (pad_to_window fuel stream fill
        ≡ some (ok (stream ++ pads, fill + length pads)))
      × (length (stream ++ pads) % 16 ≡ 0)
      × (length pads ≤ need)
      × All IsPad pads
unfolding pad_to_window
padding zero stream fill need aligned enough small = absurd (omega arith)
padding (suc fuel) stream fill need aligned enough small =
    elim (Bool-cases (length stream % 16 == 0)) [
      | inl e ↦ (
        [],
        ground (arith, e, append_nil stream),
        rw (append_nil stream) (ground (arith, e)),
        omega arith,
        tt,
      )
      | inr e ↦
          (let (h, made, size) = hdr_of-pad_call fill (omega (arith, small)) in
            let missing : need ≢ 0 =
              λ none_missing. absurd (ground (arith, e, aligned, none_missing)) in
            let longer = length-append stream ((pad, h) ∷ []) in
            let (pads, run, done, few, all_pads) =
              padding fuel (stream ++ ((pad, h) ∷ [])) (fill + 1) (need - 1)
                (omega (arith, longer, aligned, missing)) (omega (arith, missing))
                (omega (arith, missing)) in
            (
              (pad, h) ∷ pads,
              ground (arith, e, made, run, append_assoc stream ((pad, h) ∷ []) pads),
              rw (sym (append_assoc stream ((pad, h) ∷ []) pads)) done,
              omega (arith, few, missing),
              (refl, all_pads),
            ))
    ]

-- Padding always ends within its fuel: it appends at most 15 frames, all of them padding, counts
-- them, and the next frame stands at the start of a window of 16. The counter must be below
-- 2 ** 23, as it is part of the source address.
pub pad_to_window_total :
    (stream : Stream) (fill : ℕ)
    → fill < 2 ^ 23
    → (pads : Stream) × (pad_to_window pad_fuel stream fill
        ≡ some (ok (stream ++ pads, fill + length pads)))
      × (length (stream ++ pads) % 16 ≡ 0)
      × (length pads ≤ 15)
      × All IsPad pads
pad_to_window_total stream fill small =
    let need = (16 - length stream % 16) % 16 in
    let (pads, run, done, few, all_pads) =
      padding pad_fuel stream fill need (omega arith) (omega arith) (omega arith) in
    (pads, run, done, omega (arith, few), all_pads)
