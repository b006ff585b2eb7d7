-- ===== src/HotLoad/Verified.antt =====
-- hot_load_bloom.py: on a device that keeps its words, the load is complete and reports success.
use fpga_pi_parallel_nids.Prelude.{
  ℕ, zero, suc, ◌+◌, ◌-◌, ◌%◌, ◌≤◌, ◌<◌, ◌≡◌, refl, ◌∙◌, ap, Bool-cases, inl, inr, List, [], ◌∷◌,
  ◌++◌, some, none, Result, ok, arith, ltb, ◌==◌, if◌then◌else◌, length, get_or, All,
}
use fpga_pi_parallel_nids.Prelude.Bytes.{Bytes, be_digits, zeros}
use fpga_pi_parallel_nids.Control.{encode_bloom_write, encode_bloom_read, decode_bloom_read}
use fpga_pi_parallel_nids.Control.Commands.{bloom_write, bloom_read, read_command}
use fpga_pi_parallel_nids.Control.Frames.{command_frame}
use fpga_pi_parallel_nids.SpiLink.{send_frame}
use fpga_pi_parallel_nids.HotLoad.{
  nonzero_addrs, zero_pool, load_from, verify_addr, verify, hot_load,
}

-- The answer to a read of the filter (PROTOCOL.md).
abbrev pub bloom_reply : ℕ → ℕ → Bytes
bloom_reply addr value = 0x5A ∷ (be_digits 2 addr ++ (be_digits 2 value ++ zeros 27))

-- What PROTOCOL.md says of a device with a filter of 4096 words: it answers one frame late; of an
-- address it uses the low 12 bits; a write changes its word and nothing else, a read is answered
-- with the address as it came and the word, and a frame that is no command keeps the words.
pub record KeepsWords {W : Type 0} (xfer2 : W → Bytes → W × Bytes) (word : W → ℕ → ℕ)
    (pending : W → Bytes) : Type 0 where
  pub answer : (w : W) (f : Bytes) → (xfer2 w f).1 ≡ pending w
  pub write :
      (w : W) (f : Bytes) (a v : ℕ)
      → read_command f ≡ some (bloom_write a v)
      → (i : ℕ) → word (xfer2 w f).0 i ≡ (if a % 4096 == i then v else word w i)
  pub read :
      (w : W) (f : Bytes) (a : ℕ)
      → read_command f ≡ some (bloom_read a)
      → pending (xfer2 w f).0 ≡ bloom_reply a (word w (a % 4096))
  pub read_keeps :
      (w : W) (f : Bytes) (a : ℕ)
      → read_command f ≡ some (bloom_read a)
      → (i : ℕ) → word (xfer2 w f).0 i ≡ word w i
  pub other_keeps :
      (w : W) (f : Bytes) → read_command f ≡ none → (i : ℕ) → word (xfer2 w f).0 i ≡ word w i

flush_none : read_command (zeros 32) ≡ none
unfolding read_command
flush_none = refl

abbrev pub IsWord : ℕ → Type 0
IsWord v = v < 65536

own_address : (a : ℕ) → a < 4096 → a % 4096 ≡ a
own_address a small = omega arith

decoded :
    (a v : ℕ)
    → a < 65536
    → v < 65536
    → decode_bloom_read (bloom_reply a v) ≡ ok (record { addr = a; value = v })
unfolding decode_bloom_read
decoded a v a_small v_small = ground arith

-- The words after a load of `words` from `addr` on.
abbrev loaded : (ℕ → ℕ) → ℕ → List ℕ → ℕ → ℕ
loaded cell addr words i =
    if ltb i addr
    then cell i
    else if ltb i (addr + length words)
    then get_or words (i - addr) 0
    else cell i

get_or_behind :
    (v : ℕ) (words : List ℕ) (k : ℕ) → 0 < k → get_or (v ∷ words) k 0 ≡ get_or words (k - 1) 0
get_or_behind v words zero h = absurd (omega arith)
get_or_behind v words (suc k) h = let e : suc k - 1 ≡ k = omega arith in rw e

loaded_step :
    (cell next : ℕ → ℕ) (addr v : ℕ) (words : List ℕ) (i : ℕ)
    → next i ≡ (if addr == i then v else cell i)
    → loaded next (addr + 1) words i ≡ loaded cell addr (v ∷ words) i
loaded_step cell next addr v words i one = elim (Bool-cases (ltb i addr)) [
  | inl below ↦ ground (arith, one)
  | inr above ↦ elim (Bool-cases (addr == i)) [
    | inl here ↦
        let at_start : i - addr ≡ 0 = ground arith in
        ground (arith, one, ap (λ k. get_or (v ∷ words) k 0) at_start)
    | inr there ↦
        let shorter : i - addr - 1 ≡ i - (addr + 1) = omega arith in
        ground (
          arith,
          one,
          get_or_behind v words (i - addr) (ground arith),
          ap (λ k. get_or words k 0) shorter,
        )
  ]
]

loaded_all :
    (cell : ℕ → ℕ) (words : List ℕ) (i : ℕ)
    → loaded cell 0 words i ≡ (if ltb i (length words) then get_or words i 0 else cell i)
loaded_all cell words i =
    let from_zero : i - 0 ≡ i = omega arith in ground (arith, ap (λ k. get_or words k 0) from_zero)

loaded_inside :
    (cell : ℕ → ℕ) (words : List ℕ) (i : ℕ)
    → i < length words
    → loaded cell 0 words i ≡ get_or words i 0
loaded_inside cell words i lt = ground (arith, loaded_all cell words i)

get_or-IsWord : (words : List ℕ) (i : ℕ) → All IsWord words → get_or words i 0 < 65536
get_or-IsWord [] i fit = omega arith
get_or-IsWord (v ∷ words) zero (v_fit, fit) = v_fit
get_or-IsWord (v ∷ words) (suc i) (v_fit, fit) = get_or-IsWord words i fit

All-append : (P : ℕ → Type 0) (xs ys : List ℕ) → All P xs → All P ys → All P (xs ++ ys)
All-append P [] ys h k = k
All-append P (x ∷ xs) ys (p, h) k = (p, All-append P xs ys h k)

nonzero_addrs_below :
    (n a : ℕ) (words : List ℕ) → a + length words ≤ n → All (λ i. i < n) (nonzero_addrs a words)
nonzero_addrs_below n a [] h = tt
nonzero_addrs_below n a (v ∷ words) h =
    let rest = nonzero_addrs_below n (a + 1) words (omega arith) in
    elim (Bool-cases (v == 0)) [ inl e ↦ rw e rest | inr e ↦ rw e (omega arith, rest) ]

zero_pool_below :
    (n a : ℕ) (words : List ℕ) → a + length words ≤ n → All (λ i. i < n) (zero_pool a words)
zero_pool_below n a [] h = tt
zero_pool_below n a (v ∷ words) h =
    let rest = zero_pool_below n (a + 1) words (omega arith) in
    elim (Bool-cases (v == 0)) [ inl e ↦ rw e (omega arith, rest) | inr e ↦ rw e rest ]

-- What random.sample documents: members of the population, when there are as many as asked.
pub record IsSample (sample : List ℕ → ℕ → Result (List ℕ)) : Type 1 where
  pub drawn :
      (pool : List ℕ) (k : ℕ)
      → k ≤ length pool
      → (P : ℕ → Type 0) → All P pool
      → (xs : List ℕ) × (sample pool k ≡ ok xs) × All P xs

module _ {W : Type 0} (xfer2 : W → Bytes → W × Bytes) (sample : List ℕ → ℕ → Result (List ℕ))
    (word : W → ℕ → ℕ) (pending : W → Bytes) (device : KeepsWords xfer2 word pending) where
  write_word :
      (w : W) (a v : ℕ)
      → a < 4096
      → v < 65536
      → (f : Bytes) × (w1 : W) × (encode_bloom_write a v ≡ ok f)
        × (send_frame xfer2 w f ≡ ok (w1, pending w))
        × ((i : ℕ) → word w1 i ≡ (if a == i then v else word w i))
  unfolding send_frame
  write_word w a v a_small v_small =
      let (f, e, r, size) = command_frame (bloom_write a v) (ground arith) in
      (
        f,
        (xfer2 w f).0,
        e,
        ground (arith, size, device.answer w f),
        λ i.
            device.write w f a v r i
            ∙ ap (λ k. if k == i then v else word w i) (own_address a a_small),
      )

  read_word :
      (w : W) (a : ℕ)
      → a < 4096
      → (f : Bytes) × (w1 : W) × (w2 : W) × (encode_bloom_read a ≡ ok f)
        × (send_frame xfer2 w f ≡ ok (w1, pending w))
        × (send_frame xfer2 w1 (zeros 32) ≡ ok (w2, bloom_reply a (word w a)))
        × ((i : ℕ) → word w2 i ≡ word w i)
  unfolding send_frame
  read_word w a a_small =
      let (f, e, r, size) = command_frame (bloom_read a) (ground arith) in
      let w1 = (xfer2 w f).0 in
      (
        f,
        w1,
        (xfer2 w1 (zeros 32)).0,
        e,
        ground (arith, size, device.answer w f),
        ap (λ t. ok ((xfer2 w1 (zeros 32)).0, t))
            (device.answer w1 (zeros 32)
              ∙ (device.read w f a r ∙ ap (λ k. bloom_reply a (word w k)) (own_address a a_small))),
        λ i. device.other_keeps w1 (zeros 32) flush_none i ∙ device.read_keeps w f a r i,
      )

  load_from_total :
      (w : W) (addr : ℕ) (words : List ℕ)
      → All IsWord words
      → addr + length words ≤ 4096
      → (w1 : W) × (load_from xfer2 sample w addr words ≡ ok w1)
        × ((i : ℕ) → word w1 i ≡ loaded (word w) addr words i)
  unfolding load_from
  load_from_total w addr [] words_fit small = (w, refl, λ i. ground arith)
  load_from_total w addr (v ∷ words) (v_fit, words_fit) small =
      let (f, w1, e, s, one) = write_word w addr v (omega arith) v_fit in
      let (w2, l, stored) = load_from_total w1 (addr + 1) words words_fit (omega arith) in
      (w2, rw (e, s, l), λ i. stored i ∙ loaded_step (word w) (word w1) addr v words i (one i))

  verify_addr_total :
      (w : W) (words : List ℕ) (a : ℕ)
      → a < 4096
      → word w a ≡ get_or words a 0
      → word w a < 65536
      → (w1 : W) × (verify_addr xfer2 sample w words a ≡ ok (w1, 0))
        × ((i : ℕ) → word w1 i ≡ word w i)
  unfolding verify_addr
  verify_addr_total w words a small same fit =
      let (f, w1, w2, e, s, t, kept) = read_word w a small in
      (w2, rw (e, s, t) (ground (arith, decoded a (word w a) (omega arith) fit, same)), kept)

  verify_total :
      (w : W) (words addrs : List ℕ)
      → All IsWord words
      → length words ≤ 4096
      → ((i : ℕ) → i < length words → word w i ≡ get_or words i 0)
      → All (λ i. i < length words) addrs
      → (w1 : W) × (verify xfer2 sample w words addrs ≡ ok (w1, 0))
        × ((i : ℕ) → word w1 i ≡ word w i)
  unfolding verify
  verify_total w words [] fit small same below = (w, refl, λ i. refl)
  verify_total w words (a ∷ addrs) fit small same (a_below, below) =
      let here = same a a_below in
      let word_fit : word w a < 65536 = omega (arith, here, get_or-IsWord words a fit) in
      let (w1, e, kept) = verify_addr_total w words a (omega (arith, small)) here word_fit in
      let (w2, l, kept2) =
        verify_total w1 words addrs fit small (λ i lt. kept i ∙ same i lt) below in
      (w2, rw (e, l), λ i. kept2 i ∙ kept i)

  flush_total : (w : W) → send_frame xfer2 w (zeros 32) ≡ ok ((xfer2 w (zeros 32)).0, pending w)
  unfolding send_frame
  flush_total w = ap (λ t. ok ((xfer2 w (zeros 32)).0, t)) (device.answer w (zeros 32))

  -- A load is complete and reports success: for at most 4096 words of 16 bits, which are as many
  -- as the device has, whatever it held before, the load returns exit code 0, and then the device
  -- holds every word at its address, and above them what it held. The sample asks for no more zero words
  -- than there are.
  pub hot_load_total :
      IsSample sample
      → (w : W) (asked : ℕ) (words : List ℕ) → All IsWord words
      → length words ≤ 4096
      → asked - length (nonzero_addrs 0 words) ≤ length (zero_pool 0 words)
      → (w1 : W) × (hot_load xfer2 sample w asked words ≡ ok (w1, 0))
        × ((i : ℕ) → word w1 i ≡ (if ltb i (length words) then get_or words i 0 else word w i))
  unfolding hot_load
  hot_load_total random w asked words fit small enough =
      let n = length words in
      let (w1, e, stored) = load_from_total w 0 words fit (omega (arith, small)) in
      let w2 = (xfer2 w1 (zeros 32)).0 in
      let kept = device.other_keeps w1 (zeros 32) flush_none in
      let (zero_sample, s, drawn_below) =
        random.drawn (zero_pool 0 words) (asked - length (nonzero_addrs 0 words)) enough
          (λ i. i < n) (zero_pool_below n 0 words (omega arith)) in
      let addrs_below =
        All-append (λ i. i < n) (nonzero_addrs 0 words) zero_sample
          (nonzero_addrs_below n 0 words (omega arith)) drawn_below in
      let (w3, v, kept2) =
        verify_total w2 words (nonzero_addrs 0 words ++ zero_sample) fit small
          (λ i lt. kept i ∙ stored i ∙ loaded_inside (word w) words i lt) addrs_below in
      (
        w3,
        ground (arith, e, s, v, flush_total w1),
        λ i. kept2 i ∙ kept i ∙ stored i ∙ loaded_all (word w) words i,
      )
