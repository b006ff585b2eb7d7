-- ===== src/Bloom/Words.antt =====
-- bloom.py and hot_load_bloom.py: the 16-bit words that initialise the FPGA's block RAM.
use fpga_pi_parallel_nids.Prelude.{
  ℕ, zero, suc, ◌+◌, ◌-◌, ◌*◌, ◌/◌, ◌%◌, ◌^◌, ◌≤◌, ◌<◌, bit_or, ◌≡◌, ◌≢◌, refl, ◌∙◌, ap, true,
  false, List, [], ◌∷◌, ◌++◌, arith, ltb, ◌==◌, if◌then◌else◌, ◌⊎◌, inl, inr, Bool-cases, get_or,
  All,
}
use native.Mathlib.Nat.{zero-add}
use fpga_pi_parallel_nids.Prelude.Bits.{
  bit_at, bit_at-bit_or, bit_or-lt, bit_at-shift, bit_at-shift_low, bit_at-eq_zero,
}
use fpga_pi_parallel_nids.Bloom.{
  BloomFilter, get_bit, word_at, words_from, build_words, hex_digit, hex04, lines, to_mem,
}
use fpga_pi_parallel_nids.Bloom.Bits.{IsValid, get_bit-bit_at, get_or-IsByte}

pub word_at-lt : (bf : BloomFilter) (w : ℕ) → IsValid bf → word_at bf w < 65536
unfolding word_at
word_at-lt bf w v =
    bit_or-lt 16 _ _ (omega (arith, get_or-IsByte bf.bits (2 * w) v.bytes))
      (omega (arith, get_or-IsByte bf.bits (2 * w + 1) v.bytes))

-- Bits of a word: the low byte first.
bit_at-pair :
    (lo hi k : ℕ)
    → lo < 256
    → bit_at (bit_or lo (hi * 2 ^ 8)) k ≡ (if ltb k 8 then bit_at lo k else bit_at hi (k - 8))
bit_at-pair lo hi k h = elim (Bool-cases (ltb k 8)) [
  | inl e ↦
      rw e (omega (arith, bit_at-bit_or lo (hi * 2 ^ 8) k, bit_at-shift_low 8 hi k (ground arith)))
  | inr e ↦ rw e (
      omega (
        arith,
        bit_at-bit_or lo (hi * 2 ^ 8) k,
        bit_at-shift 8 hi k (k - 8) (ground arith),
        bit_at-eq_zero 8 lo k h (ground arith),
      ))
]

-- Bit `k` of word `w` is bit `16 * w + k` of the filter.
bit_at-word_at :
    (bf : BloomFilter) (w k : ℕ)
    → IsValid bf
    → k < 16
    → (bit_at (word_at bf w) k == 1) ≡ get_bit bf (16 * w + k)
unfolding word_at
bit_at-word_at bf w k v h = rw (get_bit-bit_at bf (16 * w + k)) (
    ground (
      arith,
      bit_at-pair (get_or bf.bits (2 * w) 0) (get_or bf.bits (2 * w + 1) 0) k
          (get_or-IsByte bf.bits (2 * w) v.bytes),
      position,
    ))
  where
    position :
        ((k < 8) × ((16 * w + k) / 8 ≡ 2 * w) × ((16 * w + k) % 8 ≡ k))
        ⊎ ((8 ≤ k) × ((16 * w + k) / 8 ≡ 2 * w + 1) × ((16 * w + k) % 8 ≡ k - 8))
    position = elim (Bool-cases (ltb k 8)) [
      | inl e ↦ inl (ground arith, ground arith, ground arith)
      | inr e ↦ inr (ground arith, ground arith, ground arith)
    ]

get_or-words_from :
    (bf : BloomFilter) (n start w : ℕ)
    → w < n
    → get_or (words_from bf n start) w 0 ≡ word_at bf (start + w)
unfolding words_from
get_or-words_from bf zero start w h = elim h [ ]
get_or-words_from bf (suc n) start zero h = ap (word_at bf) (omega arith)
get_or-words_from bf (suc n) start (suc w) h =
    get_or-words_from bf n (start + 1) w (omega arith) ∙ ap (word_at bf) (omega arith)

-- Every bit that the FPGA reads from the loaded words is the filter's bit at the same position.
pub build_words-get_bit :
    (bf : BloomFilter) (i : ℕ)
    → IsValid bf
    → i < 65536
    → (bit_at (get_or (build_words bf) (i / 16) 0) (i % 16) == 1) ≡ get_bit bf i
unfolding build_words
build_words-get_bit bf i v h =
    rw (get_or-words_from bf 4096 0 (i / 16) (omega arith), zero-add)
      (bit_at-word_at bf (i / 16) (i % 16) v (omega arith) ∙ ap (get_bit bf) (omega arith))

-- A reader of `$readmemh` files: hexadecimal digits, and a word at each end of line.
abbrev pub hex_value : ℕ → ℕ
hex_value c = if ltb c b'a' then c - b'0' else c - b'a' + 10

abbrev pub read_mem : ℕ → List ℕ → List ℕ
read_mem acc [] = []
read_mem acc (c ∷ cs) = elim (c == 0x0A) [
  | true ↦ acc ∷ read_mem 0 cs
  | false ↦ read_mem (acc * 16 + hex_value c) cs
]

hex_digit_value : (d : ℕ) → d < 16 → (hex_value (hex_digit d) ≡ d) × (hex_digit d ≢ 0x0A)
hex_digit_value d h = ground arith

read_digit :
    (acc d : ℕ) (cs : List ℕ)
    → d < 16
    → read_mem acc (hex_digit d ∷ cs) ≡ read_mem (acc * 16 + d) cs
read_digit acc d cs h = ground (arith, hex_digit_value d h)

read_word :
    (n : ℕ) (cs : List ℕ) → n < 65536 → read_mem 0 (hex04 n ++ (0x0A ∷ cs)) ≡ n ∷ read_mem 0 cs
unfolding hex04
read_word n cs h =
    read_digit 0 (n / 4096 % 16) (x1 ∷ x2 ∷ x3 ∷ 10 ∷ cs) (omega arith)
    ∙ read_digit (0 * 16 + n / 4096 % 16) (n / 256 % 16) (x2 ∷ x3 ∷ 10 ∷ cs) (omega arith)
    ∙ read_digit ((0 * 16 + n / 4096 % 16) * 16 + n / 256 % 16) (n / 16 % 16) (x3 ∷ 10 ∷ cs)
        (omega arith)
    ∙ read_digit (((0 * 16 + n / 4096 % 16) * 16 + n / 256 % 16) * 16 + n / 16 % 16) (n % 16)
        (10 ∷ cs) (omega arith)
    ∙ ap (λ (t : ℕ). t ∷ read_mem 0 cs) whole
  where
    x1 : ℕ
    x1 = hex_digit (n / 256 % 16)

    x2 : ℕ
    x2 = hex_digit (n / 16 % 16)

    x3 : ℕ
    x3 = hex_digit (n % 16)

    whole : (((0 * 16 + n / 4096 % 16) * 16 + n / 256 % 16) * 16 + n / 16 % 16) * 16 + n % 16 ≡ n
    whole = omega arith

read_lines : (ws : List ℕ) → All (λ w. w < 65536) ws → read_mem 0 (lines ws) ≡ ws
read_lines [] h = refl
read_lines (w ∷ ws) h = read_word w (lines ws) h.0 ∙ ap (λ l. w ∷ l) (read_lines ws h.1)

words_from-lt :
    (bf : BloomFilter) (n start : ℕ) → IsValid bf → All (λ w. w < 65536) (words_from bf n start)
unfolding words_from
words_from-lt bf zero start v = tt
words_from-lt bf (suc n) start v = (word_at-lt bf start v, words_from-lt bf n (start + 1) v)

-- The text of the memory file, read back as `$readmemh` does, is the list of words that
-- hot_load_bloom.py writes at run time.
pub read_mem-to_mem : (bf : BloomFilter) → IsValid bf → read_mem 0 (to_mem bf) ≡ build_words bf
unfolding to_mem build_words
read_mem-to_mem bf v = read_lines (words_from bf 4096 0) (words_from-lt bf 4096 0 v)
