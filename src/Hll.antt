-- ===== src/Hll.antt =====
-- hll.py: the HyperLogLog registers with the scaled harmonic sum and the count of empty registers.
-- The floating-point finish `estimate_from` is not modelled.
pub mod Mix
pub mod Rank
pub mod Registers
pub mod Stream
use fpga_pi_parallel_nids.Prelude.{
  ℕ, zero, suc, ◌+◌, ◌-◌, ◌*◌, ◌/◌, ◌^◌, bit_and, bit_xor, true, false, List, [], ◌∷◌, ltb, ◌==◌,
  if◌then◌else◌, get_or, set, replicate,
}
use fpga_pi_parallel_nids.Prelude.Bytes.{truthy}

abbrev pub mask32 : ℕ
mask32 = 0xFFFFFFFF

abbrev pub hll_m : ℕ
hll_m = 2048

abbrev pub hll_idxb : ℕ
hll_idxb = 11

abbrev pub hll_rankbits : ℕ
hll_rankbits = 21

-- `h ^= h >> n`
unfoldable pub xorshift : ℕ → ℕ → ℕ
xorshift n h = bit_xor h (h / 2 ^ n)

unfoldable pub fmix32 : ℕ → ℕ
fmix32 h =
    let h0 = bit_and h mask32 in
    let h1 = xorshift 16 h0 in
    let h2 = bit_and (h1 * 0x85EBCA6B) mask32 in
    let h3 = xorshift 13 h2 in let h4 = bit_and (h3 * 0xC2B2AE35) mask32 in xorshift 16 h4

abbrev pub msb : ℕ
msb = 1 * 2 ^ (hll_rankbits - 1)

-- The `while` loop of `_rank`. A word of 21 bits that is not 0 shows its top bit within 20
-- shifts, so the loop ends by its test (`rank_position`).
unfoldable pub rank_loop : ℕ → ℕ → ℕ → ℕ
rank_loop zero w r = r
rank_loop (suc fuel) w r = elim (truthy (bit_and w msb)) [
  | true ↦ r
  | false ↦ rank_loop fuel (w * 2 ^ 1) (r + 1)
]

unfoldable pub rank : ℕ → ℕ
rank w = if w == 0 then hll_rankbits + 1 else rank_loop hll_rankbits w 1

-- The pair (epoch, rank).
pub record Register : Type 0 where
  pub epoch : ℕ
  pub rank_value : ℕ

abbrev pub blank : Register
blank = record { epoch = 0; rank_value = 0 }

pub record HyperLogLog : Type 0 where
  pub epoch : ℕ
  pub reg : List Register
  pub harmonic_sum : ℕ
  pub zeros : ℕ

unfoldable pub init : HyperLogLog
init = record {
  epoch = 0;
  reg = replicate hll_m blank;
  harmonic_sum = hll_m * (1 * 2 ^ 32);
  zeros = hll_m;
}

abbrev pub live : ℕ → Register → ℕ
live epoch r = if r.epoch == epoch then r.rank_value else 0

unfoldable pub rankval : HyperLogLog → ℕ → ℕ
rankval h b = live h.epoch (get_or h.reg b blank)

unfoldable pub index : ℕ → ℕ
index ip = fmix32 ip / 2 ^ (32 - hll_idxb)

unfoldable pub new_rank : ℕ → ℕ
new_rank ip = rank (bit_and (fmix32 ip) (1 * 2 ^ hll_rankbits - 1))

unfoldable pub weight : ℕ → ℕ
weight r = 1 * 2 ^ (32 - r)

-- The differences are taken of larger numbers (`update-IsCovered`): neither stops at 0.
unfoldable pub update : HyperLogLog → ℕ → HyperLogLog
update h ip =
    let b = index ip in
    let new = new_rank ip in
    let old = rankval h b in
    if ltb old new
    then record h {
      reg = set h.reg b (record { epoch = h.epoch; rank_value = new });
      harmonic_sum = (h.harmonic_sum + weight new) - weight old;
      zeros = if old == 0 then h.zeros - 1 else h.zeros;
    }
    else h

unfoldable pub window_tick : HyperLogLog → HyperLogLog
window_tick h = record h {
  epoch = bit_and (h.epoch + 1) 0xF;
  harmonic_sum = hll_m * (1 * 2 ^ 32);
  zeros = hll_m;
}
