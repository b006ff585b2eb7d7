-- ===== src/Hll/Stream.antt =====
-- hll.py: the registers after a stream of packets, and what the wrap-around of the 4-bit epoch does
-- to them.
use fpga_pi_parallel_nids.Prelude.{
  ℕ, zero, suc, ◌+◌, ◌*◌, ◌%◌, ◌^◌, ◌≤◌, ◌<◌, max, ◌≡◌, refl, ◌∙◌, List, [], ◌∷◌, arith, ◌==◌,
  if◌then◌else◌, get_or-set, get_or-replicate, length-set, length, All,
}
use fpga_pi_parallel_nids.Prelude.Bits.{bit_and_mask}
use fpga_pi_parallel_nids.Hll.{
  HyperLogLog, blank, init, rankval, index, new_rank, update, window_tick,
}
use fpga_pi_parallel_nids.Hll.Registers.{
  IsExact, update_lem, update-IsExact, init-IsExact, index-lt,
}

-- An update raises the register of the source's index to the rank of its word, and no other.
pub rankval-update :
    (h : HyperLogLog) (ip b : ℕ)
    → length h.reg ≡ 2048
    → rankval (update h ip) b
      ≡ (if index ip == b then max (rankval h b) (new_rank ip) else rankval h b)
unfolding rankval update
rankval-update h ip b size = ground (
  arith,
  get_or-set h.reg (index ip) b (record { epoch = h.epoch; rank_value = new_rank ip }) blank,
  index-lt ip,
)

length-update : (h : HyperLogLog) (ip : ℕ) → length h.reg ≡ 2048 → length (update h ip).reg ≡ 2048
length-update h ip size =
    unfold update in
    ground
      (arith, length-set h.reg (index ip) (record { epoch = h.epoch; rank_value = new_rank ip }))

-- `for ip in ips: h.update(ip)`
unfoldable pub update_all : HyperLogLog → List ℕ → HyperLogLog
update_all h [] = h
update_all h (ip ∷ ips) = update_all (update h ip) ips

-- The greatest rank among the sources of the index `b`.
abbrev pub max_rank : List ℕ → ℕ → ℕ
max_rank [] b = 0
max_rank (ip ∷ ips) b = max (if index ip == b then new_rank ip else 0) (max_rank ips b)

rankval-update_all :
    (h : HyperLogLog) (ips : List ℕ) (b : ℕ)
    → length h.reg ≡ 2048
    → rankval (update_all h ips) b ≡ max (rankval h b) (max_rank ips b)
unfolding update_all
rankval-update_all h [] b size = omega arith
rankval-update_all h (ip ∷ ips) b size = ground (
  arith,
  rankval-update_all (update h ip) ips b (length-update h ip size),
  rankval-update h ip b size,
)

rankval-init : (b : ℕ) → rankval init b ≡ 0
unfolding rankval init
rankval-init b = ground (arith, get_or-replicate 2048 b blank)

update_all-IsExact : (h : HyperLogLog) (ips : List ℕ) → IsExact h → IsExact (update_all h ips)
unfolding update_all
update_all-IsExact h [] v = v
update_all-IsExact h (ip ∷ ips) v = update_all-IsExact (update h ip) ips (update-IsExact h ip v)

-- After any stream on fresh registers, every register holds the greatest rank of its sources, so
-- the order and the repetitions of the packets do not matter, and the harmonic sum and the count of
-- empty registers are exactly those of the registers.
pub update_all-init :
    (ips : List ℕ)
    → ((b : ℕ) → rankval (update_all init ips) b ≡ max_rank ips b) × IsExact (update_all init ips)
update_all-init ips = (
  λ b. omega (arith, rankval-update_all init ips b (init-IsExact.size), rankval-init b),
  update_all-IsExact init ips init-IsExact,
)

-- `n` ends of windows with no packet between them.
unfoldable pub ticks : ℕ → HyperLogLog → HyperLogLog
ticks zero h = h
ticks (suc n) h = ticks n (window_tick h)

ticks_lem :
    (n : ℕ) (h : HyperLogLog)
    → ticks (suc n) h
      ≡ record h { epoch = (h.epoch + suc n) % 16; harmonic_sum = 2048 * 2 ^ 32; zeros = 2048 }
unfolding ticks window_tick
ticks_lem zero h = ground (arith, bit_and_mask 4 (h.epoch + 1))
ticks_lem (suc n) h = ground (arith, ticks_lem n (window_tick h), bit_and_mask 4 (h.epoch + 1))

rankval-ticks : (h : HyperLogLog) (b : ℕ) → h.epoch < 16 → rankval (ticks 16 h) b ≡ rankval h b
unfolding rankval
rankval-ticks h b lt = ground (arith, ticks_lem 15 h)

-- Every source of the list is already in its register.
abbrev AreSeen : HyperLogLog → List ℕ → Type 0
AreSeen h ips = All (λ ip. new_rank ip ≤ rankval h (index ip)) ips

update_all_seen : (h : HyperLogLog) (ips : List ℕ) → AreSeen h ips → update_all h ips ≡ h
unfolding update_all
update_all_seen h [] seen = refl
update_all_seen h (ip ∷ ips) (s, seen) = rw same (update_all_seen h ips seen)
  where
    same : update h ip ≡ h
    same = ground (arith, update_lem h ip)

AreSeen-mono :
    (h k : HyperLogLog) (ips : List ℕ)
    → ((b : ℕ) → rankval h b ≤ rankval k b)
    → AreSeen h ips
    → AreSeen k ips
AreSeen-mono h k [] le seen = tt
AreSeen-mono h k (ip ∷ ips) le (s, seen) =
    (omega (arith, le (index ip)), AreSeen-mono h k ips le seen)

length-update_all :
    (h : HyperLogLog) (ips : List ℕ) → length h.reg ≡ 2048 → length (update_all h ips).reg ≡ 2048
unfolding update_all
length-update_all h [] size = size
length-update_all h (ip ∷ ips) size = length-update_all (update h ip) ips (length-update h ip size)

epoch-update_all : (h : HyperLogLog) (ips : List ℕ) → (update_all h ips).epoch ≡ h.epoch
unfolding update_all
epoch-update_all h [] = refl
epoch-update_all h (ip ∷ ips) = epoch-update_all (update h ip) ips ∙ epoch-update h ip
  where
    epoch-update : (h : HyperLogLog) (ip : ℕ) → (update h ip).epoch ≡ h.epoch
    epoch-update h ip = unfold update in ground arith

AreSeen-update_all :
    (h : HyperLogLog) (ips : List ℕ) → length h.reg ≡ 2048 → AreSeen (update_all h ips) ips
unfolding update_all
AreSeen-update_all h [] size = tt
AreSeen-update_all h (ip ∷ ips) size = (
  ground (
    arith,
    rankval-update_all (update h ip) ips (index ip) (length-update h ip size),
    rankval-update h ip (index ip) size,
  ),
  AreSeen-update_all (update h ip) ips (length-update h ip size),
)

-- Sixteen windows after a stream its registers are live again: the same stream then changes
-- nothing, and the window that should show its sources shows the sum and the count of an empty one.
pub update_all-ticks :
    (h : HyperLogLog) (ips : List ℕ)
    → length h.reg ≡ 2048
    → h.epoch < 16
    → (update_all (ticks 16 (update_all h ips)) ips ≡ ticks 16 (update_all h ips))
      × ((ticks 16 (update_all h ips)).harmonic_sum ≡ 2048 * 2 ^ 32)
      × ((ticks 16 (update_all h ips)).zeros ≡ 2048)
update_all-ticks h ips size lt = (
  update_all_seen (ticks 16 u) ips (
      AreSeen-mono u (ticks 16 u) ips (λ b. omega (arith, rankval-ticks u b in_range))
        (AreSeen-update_all h ips size)),
  ground (arith, ticks_lem 15 u),
  ground (arith, ticks_lem 15 u),
)
  where
    u : HyperLogLog
    u = update_all h ips

    in_range : u.epoch < 16
    in_range = omega (arith, epoch-update_all h ips)
