-- ===== src/ScanRate/Window.antt =====
-- scan_rate.py: what the table reports within one window of 16 frames.
use fpga_pi_parallel_nids.Prelude.{
  ℕ, ◌+◌, ◌*◌, ◌^◌, ◌<◌, min, ◌≡◌, ◌≢◌, refl, ◌∙◌, Bool, true, false, Bool-cases, ◌⊎◌, inl, inr,
  ◌&&◌, ◌||◌, List, [], ◌∷◌, arith, leb, ◌==◌, if◌then◌else◌, length, get_or-replicate, All,
}
use fpga_pi_parallel_nids.Prelude.Bits.{
  bit_at, bit_at-lt, bit_at-zero, bit_at-bit_or, bit_at-two-pow, popcount, count_below,
  count_below_ext, popcount-count_below,
}
use fpga_pi_parallel_nids.Thresholds.{Thresholds, port_thresh, host_thresh, rate_thresh, read}
use fpga_pi_parallel_nids.ScanRate.{
  Entry, Packet, ScanRateTable, blank, init, bucket, port_bit, host_bit, epoch, syn_gate,
  entry_after, entry_at, port_scan_hit, rate_hit, update,
}
use fpga_pi_parallel_nids.ScanRate.Table.{
  FitsFields, IsValid, init-IsValid, update-IsValid, entry_after-FitsFields, entry_at-update,
  length-update,
}

-- The table after the packets of a list, the latest first.
unfoldable pub after : ScanRateTable → List Packet → ScanRateTable
after s [] = s
after s (p ∷ ps) = (update (after s ps) p).0

-- The packets of a bucket, in any order: how many there are, and whether one of them opens a
-- connection to a port (a host) of the bit `i`.
abbrev pub frames : List Packet → ℕ → ℕ
frames [] b = 0
frames (p ∷ ps) b = (if bucket p.src_ip == b then 1 else 0) + frames ps b

abbrev pub opens : Packet → ℕ → Bool
opens p b = bucket p.src_ip == b && syn_gate p.proto p.tcp_flags

abbrev pub scans_port : List Packet → ℕ → ℕ → Bool
scans_port [] b i = false
scans_port (p ∷ ps) b i = (opens p b && port_bit p.dst_port == i) || scans_port ps b i

abbrev pub scans_host : List Packet → ℕ → ℕ → Bool
scans_host [] b i = false
scans_host (p ∷ ps) b i = (opens p b && host_bit p.dst_ip == i) || scans_host ps b i

abbrev pub InWindow : ℕ → List Packet → Type 0
InWindow ep ps = All (λ p. epoch p.frame_count ≡ ep) ps

-- What an entry means in the window `ep`.
abbrev current : ℕ → Entry → Entry
current ep e = if e.epoch == ep then e else blank ep

one_mul : (k : ℕ) → 1 * 2 ^ k ≡ 2 ^ k
one_mul k = omega arith

-- The fields after one packet of the window `ep`.
module _ (ep : ℕ) (e : Entry) (p : Packet) (now : epoch p.frame_count ≡ ep) where
  epoch_step : (entry_after e p).epoch ≡ ep
  unfolding entry_after
  epoch_step = ground arith

  count_step : (entry_after e p).pkt_count ≡ min ((current ep e).pkt_count + 1) 255
  unfolding entry_after
  count_step = ground arith

  port_step :
      (i : ℕ)
      → bit_at (entry_after e p).port_fp i ≡ (
          if syn_gate p.proto p.tcp_flags && port_bit p.dst_port == i
          then 1
          else bit_at (current ep e).port_fp i)
  unfolding entry_after
  port_step i = ground (
    arith,
    one_mul (port_bit p.dst_port),
    bit_at-bit_or (current ep e).port_fp (2 ^ port_bit p.dst_port) i,
    bit_at-two-pow (port_bit p.dst_port) i,
    bit_at-lt (current ep e).port_fp i,
  )

  host_step :
      (i : ℕ)
      → bit_at (entry_after e p).host_fp i ≡ (
          if syn_gate p.proto p.tcp_flags && host_bit p.dst_ip == i
          then 1
          else bit_at (current ep e).host_fp i)
  unfolding entry_after
  host_step i = ground (
    arith,
    one_mul (host_bit p.dst_ip),
    bit_at-bit_or (current ep e).host_fp (2 ^ host_bit p.dst_ip) i,
    bit_at-two-pow (host_bit p.dst_ip) i,
    bit_at-lt (current ep e).host_fp i,
  )

-- The entry of a bucket, as it is in the window `ep`, summarises the packets `ps`.
record Summarises (ep b : ℕ) (ps : List Packet) (e : Entry) : Type 0 where
  count : (current ep e).pkt_count ≡ min (frames ps b) 255
  ports : (i : ℕ) → bit_at (current ep e).port_fp i ≡ (if scans_port ps b i then 1 else 0)
  hosts : (i : ℕ) → bit_at (current ep e).host_fp i ≡ (if scans_host ps b i then 1 else 0)

Summarises-entry_after :
    (ep b : ℕ) (ps : List Packet) (e : Entry) (p : Packet)
    → epoch p.frame_count ≡ ep
    → bucket p.src_ip ≡ b
    → Summarises ep b ps e
    → Summarises ep b (p ∷ ps) (entry_after e p)
Summarises-entry_after ep b ps e p now here v = record {
  count = ground (arith, epoch_step ep e p now, count_step ep e p now, v.count);
  ports = λ i. ground (arith, epoch_step ep e p now, port_step ep e p now i, v.ports i);
  hosts = λ i. ground (arith, epoch_step ep e p now, host_step ep e p now i, v.hosts i);
}

Summarises-other :
    (ep b : ℕ) (ps : List Packet) (e : Entry) (p : Packet)
    → bucket p.src_ip ≢ b
    → Summarises ep b ps e
    → Summarises ep b (p ∷ ps) e
Summarises-other ep b ps e p other v = record {
  count = ground (arith, v.count);
  ports = λ i. ground (arith, v.ports i);
  hosts = λ i. ground (arith, v.hosts i);
}

after-length :
    (s : ScanRateTable) (ps : List Packet) → length s.t ≡ 256 → length (after s ps).t ≡ 256
unfolding after
after-length s [] size = size
after-length s (p ∷ ps) size = length-update (after s ps) p (after-length s ps size)

thresholds-update : (s : ScanRateTable) (p : Packet) → (update s p).0.thresholds ≡ s.thresholds
unfolding update
thresholds-update s p = refl

after-thresholds : (s : ScanRateTable) (ps : List Packet) → (after s ps).thresholds ≡ s.thresholds
unfolding after
after-thresholds s [] = refl
after-thresholds s (p ∷ ps) = thresholds-update (after s ps) p ∙ after-thresholds s ps

Summarises-after :
    (th : Thresholds) (ep b : ℕ) (ps : List Packet)
    → InWindow ep ps
    → Summarises ep b ps (entry_at (after (init th) ps) b)
Summarises-after th ep b [] now = rw blank_entry fresh
  where
    blank_entry : entry_at (after (init th) []) b ≡ blank 0
    blank_entry = unfold after init in get_or-replicate 256 b (blank 0)

    fresh : Summarises ep b [] (blank 0)
    fresh = record {
      count = ground arith;
      ports = λ i. ground (arith, bit_at-zero i);
      hosts = λ i. ground (arith, bit_at-zero i);
    }
Summarises-after th ep b (p ∷ ps) (here, now) =
    split (Summarises-after th ep b ps now) (Bool-cases (bucket p.src_ip == b))
  where
    size : length (after (init th) ps).t ≡ 256
    size = after-length (init th) ps ((init-IsValid th).size)

    split :
        Summarises ep b ps (entry_at (after (init th) ps) b)
        → ((bucket p.src_ip == b) ≡ true) ⊎ ((bucket p.src_ip == b) ≡ false)
        → Summarises ep b (p ∷ ps) (entry_at (after (init th) (p ∷ ps)) b)
    split v (inl e) =
        unfold after in
        rw (entry_at-update (after (init th) ps) p b size, e)
          (Summarises-entry_after ep b ps _ p here (ground arith) v)
    split v (inr e) =
        unfold after in
        rw (entry_at-update (after (init th) ps) p b size, e)
          (Summarises-other ep b ps _ p (ground arith) v)

after-IsValid : (th : Thresholds) (ps : List Packet) → IsValid (after (init th) ps)
unfolding after
after-IsValid th [] = init-IsValid th
after-IsValid th (p ∷ ps) = update-IsValid (after (init th) ps) p (after-IsValid th ps)

-- A fingerprint whose bits say which of a family of events were seen counts them.
popcount_seen :
    (fp : ℕ) (seen : ℕ → Bool)
    → fp < 2 ^ 16
    → ((i : ℕ) → bit_at fp i ≡ (if seen i then 1 else 0))
    → popcount fp ≡ count_below 16 seen
popcount_seen fp seen lt h =
    popcount-count_below 16 fp lt
    ∙ count_below_ext 16 (λ i. bit_at fp i == 1) seen (λ i. ground (arith, h i))

-- Within one window on a fresh table the report for a packet is exact: the port-scan flag says
-- that the number of different port bits, or of different host bits, to which the bucket of the
-- source opened connections reaches its threshold, and the rate flag that the number of packets of
-- the bucket, cut off at 255, reaches its threshold. The packet itself counts, and packets of other
-- buckets do not.
pub update_window :
    (th : Thresholds) (ep : ℕ) (p : Packet) (ps : List Packet)
    → InWindow ep (p ∷ ps)
    → (update (after (init th) ps) p).1 ≡ (
      leb (read th port_thresh) (count_below 16 (scans_port (p ∷ ps) (bucket p.src_ip)))
          || leb (read th host_thresh) (count_below 16 (scans_host (p ∷ ps) (bucket p.src_ip))),
      leb (read th rate_thresh) (min (frames (p ∷ ps) (bucket p.src_ip)) 255),
    )
unfolding update port_scan_hit rate_hit
update_window th ep p ps (here, now) = ground (
  arith,
  kept,
  popcount_seen e.port_fp (scans_port (p ∷ ps) b) fits.port_bits ports,
  popcount_seen e.host_fp (scans_host (p ∷ ps) b) fits.host_bits hosts,
  count,
)
  where
    kept : (after (init th) ps).thresholds ≡ th
    kept = after-thresholds (init th) ps ∙ unfold init in refl

    b : ℕ
    b = bucket p.src_ip

    stored : Entry
    stored = entry_at (after (init th) ps) b

    e : Entry
    e = entry_after stored p

    fits : FitsFields e
    fits = entry_after-FitsFields stored p ((after-IsValid th ps).entries b)

    summary : Summarises ep b (p ∷ ps) e
    summary = Summarises-entry_after ep b ps stored p here refl (Summarises-after th ep b ps now)

    live : current ep e ≡ e
    live = ground (arith, epoch_step ep stored p here)

    ports : (i : ℕ) → bit_at e.port_fp i ≡ (if scans_port (p ∷ ps) b i then 1 else 0)
    ports i = ground (arith, live, summary.ports i)

    hosts : (i : ℕ) → bit_at e.host_fp i ≡ (if scans_host (p ∷ ps) b i then 1 else 0)
    hosts i = ground (arith, live, summary.hosts i)

    count : e.pkt_count ≡ min (frames (p ∷ ps) b) 255
    count = ground (arith, live, summary.count)
