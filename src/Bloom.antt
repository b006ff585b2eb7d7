-- ===== src/Bloom.antt =====
-- bloom.py: the Bloom filter of the listed addresses, and hot_load_bloom.py's words of it.
pub mod Bits
pub mod Members
pub mod Words
use fpga_pi_parallel_nids.Prelude.{
  ℕ, zero, suc, ◌+◌, ◌-◌, ◌*◌, ◌/◌, ◌%◌, ◌^◌, bit_and, bit_or, Bool, ◌&&◌, List, [], ◌∷◌, ◌++◌,
  Result, ok, raise, struct_error, ◌>>=◌, ltb, ◌==◌, if◌then◌else◌, length, get_or, set,
}
use fpga_pi_parallel_nids.Prelude.Bytes.{Bytes, truthy, zeros, from_bytes}

abbrev pub m_bits : ℕ
m_bits = 65536

abbrev pub a1 : ℕ
a1 = 0x9E3779B1

abbrev pub a2 : ℕ
a2 = 0x85EBCA77

abbrev pub mask32 : ℕ
mask32 = 0xFFFFFFFF

unfoldable pub h1 : ℕ → ℕ
h1 x = bit_and (x * a1) mask32 / 2 ^ 16

unfoldable pub h2 : ℕ → ℕ
h2 x = bit_and (x * a2) mask32 / 2 ^ 16

pub record BloomFilter : Type 0 where
  pub bits : Bytes

unfoldable pub init : BloomFilter
init = record { bits = zeros (m_bits / 8) }

-- The index of every call is a hash, so the byte is in the array (`h1-lt`, `h2-lt`).
unfoldable pub set_bit : BloomFilter → ℕ → BloomFilter
set_bit bf idx = record bf {
  bits =
      set bf.bits (idx / 2 ^ 3) (bit_or (get_or bf.bits (idx / 2 ^ 3) 0) (1 * 2 ^ bit_and idx 7));
}

unfoldable pub get_bit : BloomFilter → ℕ → Bool
get_bit bf idx = truthy (bit_and (get_or bf.bits (idx / 2 ^ 3) 0) (1 * 2 ^ bit_and idx 7))

unfoldable pub add : BloomFilter → ℕ → BloomFilter
add bf x = set_bit (set_bit bf (h1 x)) (h2 x)

unfoldable pub member : BloomFilter → ℕ → Bool
member bf x = get_bit bf (h1 x) && get_bit bf (h2 x)

-- `for x in xs: bf.add(x)`
unfoldable pub add_all : BloomFilter → List ℕ → BloomFilter
add_all bf [] = bf
add_all bf (x ∷ xs) = add_all (add bf x) xs

-- `inet_aton` is the socket module's; it raises OSError on a text that is no address.
module _ {Text : Type 0} (inet_aton : Text → Result Bytes) where
  unfoldable pub ip_to_int : Text → Result ℕ
  ip_to_int ip = do
    packed ← inet_aton ip
    if length packed == 4 then ok (from_bytes packed) else raise struct_error

  from_ips_loop : BloomFilter → List Text → Result BloomFilter
  from_ips_loop bf [] = ok bf
  from_ips_loop bf (ip ∷ ips) = do x ← ip_to_int ip; from_ips_loop (add bf x) ips

  unfoldable pub from_ips : List Text → Result BloomFilter
  unfolding from_ips_loop
  from_ips ips = from_ips_loop init ips

unfoldable pub word_at : BloomFilter → ℕ → ℕ
word_at bf w = bit_or (get_or bf.bits (2 * w) 0) (get_or bf.bits (2 * w + 1) 0 * 2 ^ 8)

-- One digit of `f"{word:04x}"`, and the four of them; every word is below 2 ** 16 (`word_at-lt`).
abbrev pub hex_digit : ℕ → ℕ
hex_digit d = if ltb d 10 then b'0' + d else b'a' + (d - 10)

unfoldable pub hex04 : ℕ → List ℕ
hex04 n =
    hex_digit (n / 4096 % 16)
    ∷ hex_digit (n / 256 % 16)
    ∷ hex_digit (n / 16 % 16)
    ∷ hex_digit (n % 16)
    ∷ []

-- `[f(w) for w in range(start, start + n)]`
words_from : BloomFilter → ℕ → ℕ → List ℕ
words_from bf zero start = []
words_from bf (suc n) start = word_at bf start ∷ words_from bf n (start + 1)

-- hot_load_bloom.py: the words that the block RAM should hold.
unfoldable pub build_words : BloomFilter → List ℕ
unfolding words_from
build_words bf = words_from bf 4096 0

-- "\n".join(words) + "\n"
abbrev lines : List ℕ → List ℕ
lines [] = []
lines (w ∷ ws) = hex04 w ++ (0x0A ∷ lines ws)

unfoldable pub to_mem : BloomFilter → List ℕ
unfolding words_from
to_mem bf = lines (words_from bf (m_bits / 16) 0)
