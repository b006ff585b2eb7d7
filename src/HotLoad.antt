-- ===== src/HotLoad.antt =====
-- hot_load_bloom.py: a filter is written to the FPGA word by word, and read back.
pub mod Verified
use fpga_pi_parallel_nids.Prelude.{
  ℕ, zero, suc, ◌+◌, ◌-◌, Bool, true, false, not, ◌&&◌, List, [], ◌∷◌, ◌++◌, Result, ok, raise,
  ◌>>=◌, ◌==◌, if◌then◌else◌, length, get_or,
}
use fpga_pi_parallel_nids.Prelude.Bytes.{Bytes, zeros}
use fpga_pi_parallel_nids.Bloom.{BloomFilter, build_words}
use fpga_pi_parallel_nids.Control.{
  response_magic, encode_bloom_write, encode_bloom_read, decode_bloom_read,
}
use fpga_pi_parallel_nids.SpiLink.{frame_len, send_frame}

-- `[a for a, w in enumerate(words) if w]`, from the address `a`.
abbrev pub nonzero_addrs : ℕ → List ℕ → List ℕ
nonzero_addrs a [] = []
nonzero_addrs a (w ∷ words) =
    if w == 0 then nonzero_addrs (a + 1) words else a ∷ nonzero_addrs (a + 1) words

abbrev pub zero_pool : ℕ → List ℕ → List ℕ
zero_pool a [] = []
zero_pool a (w ∷ words) = if w == 0 then a ∷ zero_pool (a + 1) words else zero_pool (a + 1) words

-- `sample` is random.sample after `random.seed(0)`.
module _ {W : Type 0} (xfer2 : W → Bytes → W × Bytes) (sample : List ℕ → ℕ → Result (List ℕ)) where
  -- The bulk load, from the address `addr`.
  unfoldable pub load_from : W → ℕ → List ℕ → Result W
  load_from w addr [] = ok w
  load_from w addr (val ∷ words) = do
    frame ← encode_bloom_write addr val
    (w1, _) ← send_frame xfer2 w frame
    load_from w1 (addr + 1) words

  -- One address of the verification: the number of errors that it adds.
  unfoldable pub verify_addr : W → List ℕ → ℕ → Result (W × ℕ)
  verify_addr w words a = do
    frame ← encode_bloom_read a
    (w1, _) ← send_frame xfer2 w frame
    (w2, resp) ← send_frame xfer2 w1 (zeros frame_len)
    if get_or resp 0 0 == response_magic
        then (do
          r ← decode_bloom_read resp
          ok (w2, (if r.addr == a && r.value == get_or words a 0 then 0 else 1)))
        else ok (w2, 1)

  unfoldable pub verify : W → List ℕ → List ℕ → Result (W × ℕ)
  verify w words [] = ok (w, 0)
  verify w words (a ∷ addrs) = do
    (w1, err) ← verify_addr w words a
    (w2, errs) ← verify w1 words addrs
    ok (w2, err + errs)

  -- `main` for the words of a filter, with its exit code; `asked` is --sample.
  unfoldable pub hot_load : W → ℕ → List ℕ → Result (W × ℕ)
  hot_load w asked words = do
    w1 ← load_from w 0 words
    (w2, _) ← send_frame xfer2 w1 (zeros frame_len)
    let nonzero = nonzero_addrs 0 words
    zero_sample ← sample (zero_pool 0 words) (asked - length nonzero)
    (w3, errs) ← verify w2 words (nonzero ++ zero_sample)
    ok (w3, (if errs == 0 then 0 else 1))

  -- The filter of the `--new-c2` addresses is the last argument.
  unfoldable pub main : W → ℕ → BloomFilter → Result (W × ℕ)
  main w asked bf = hot_load w asked (build_words bf)
