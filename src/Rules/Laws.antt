-- ===== src/Rules/Laws.antt =====
-- rule_store_model.py and rule_lookup_model.py: what is read and matched after a write.
use fpga_pi_parallel_nids.Prelude.{
  ℕ, ◌*◌, ◌/◌, ◌%◌, ◌^◌, ◌<◌, bit_and, ◌≡◌, true, ◌&&◌, ok, raise, overflow_error, index_error,
  ◌>>=◌, arith, ltb, ◌==◌, if◌then◌else◌, length, length-set, get_or-set, length-replicate,
  get_or-replicate,
}
use fpga_pi_parallel_nids.Prelude.Bits.{bit_and_mask}
use fpga_pi_parallel_nids.Rules.{
  Rule, RuleStore, RuleArgument, encode_rule, decode_rule, init, blank, stored, severity_or_zero,
  write, read, lookup_idx, lookup, no_match,
}

-- Decoding the nine bytes of a rule gives the rule back, with the action and the epoch modulo 256
-- and the severity modulo 16; an address of more than 32 bits raises OverflowError.
pub decode_rule-encode_rule :
    (r : Rule)
    → (encode_rule r >>= decode_rule) ≡ (
        if ltb r.src_ip (2 ^ 32)
        then ok (record {
          src_ip = r.src_ip;
          action = r.action % 256;
          severity = r.severity % 16;
          epoch = r.epoch % 256;
        })
        else raise overflow_error)
unfolding encode_rule decode_rule
decode_rule-encode_rule r = ground (
  arith,
  bit_and_mask 8 r.action,
  bit_and_mask 8 r.severity,
  bit_and_mask 8 r.epoch,
  bit_and_mask 4 (bit_and r.severity 0xFF),
)

-- The table has its 512 cells.
abbrev pub IsValid : RuleStore → Type 0
IsValid rs = length rs.cells ≡ 512

pub init-IsValid : IsValid init
unfolding init
init-IsValid = length-replicate 512 blank

-- A write in range is read back at its index, with the severity modulo 16, and leaves every other
-- rule; a write out of range raises IndexError, and so does a read.
pub read-write_rule :
    (rs : RuleStore) (idx : ℕ) (rule : RuleArgument) (j : ℕ)
    → IsValid rs
    → (write rs idx rule >>= λ rs'. read rs' j) ≡ (
        if ltb idx 512
        then if idx == j
          then ok (record {
            src_ip = rule.src_ip;
            action = rule.action;
            severity = severity_or_zero rule.severity % 16;
            epoch = rule.epoch;
          })
          else read rs j
        else raise index_error)
unfolding write read stored
read-write_rule rs idx rule j v = ground (
  arith,
  bit_and_mask 4 (severity_or_zero rule.severity),
  get_or-set rs.cells idx j (stored rule) blank,
)

pub write-IsValid :
    (rs rs' : RuleStore) (idx : ℕ) (rule : RuleArgument)
    → IsValid rs
    → write rs idx rule ≡ ok rs'
    → IsValid rs'
unfolding write
write-IsValid rs rs' idx rule v e = ground (arith, length-set rs.cells idx (stored rule))

pub lookup_idx-lt : (x : ℕ) → lookup_idx x < 512
unfolding lookup_idx
lookup_idx-lt x = omega (arith, bit_and_mask 9 (bit_and (x * 0x9E3779B1) 0xFFFFFFFF / 2 ^ 23))

-- A rule written at the hash of its own source address is the one that is found for that address
-- and for no other: an address with the same hash loses its rule, an address with another hash
-- keeps what it had, and the rule applies only while its epoch is the current one.
pub lookup-write :
    (rs : RuleStore) (rule : RuleArgument) (src epoch : ℕ)
    → IsValid rs
    → (write rs (lookup_idx rule.src_ip) rule >>= λ rs'. lookup rs' src epoch) ≡ (
        if lookup_idx rule.src_ip == lookup_idx src
        then ok (
            if rule.src_ip == src && rule.epoch == epoch
            then record {
              found = true;
              action = rule.action;
              severity = severity_or_zero rule.severity % 16;
            }
            else no_match)
        else lookup rs src epoch)
unfolding lookup write read stored
lookup-write rs rule src epoch v = ground (
  arith,
  lookup_idx-lt rule.src_ip,
  lookup_idx-lt src,
  bit_and_mask 4 (severity_or_zero rule.severity),
  get_or-set rs.cells (lookup_idx rule.src_ip) (lookup_idx src) (stored rule) blank,
)

-- A table just reset is not empty: it matches the address 0.0.0.0 at rule epoch 0, and nothing
-- else.
pub lookup-init :
    (src epoch : ℕ)
    → lookup init src epoch
      ≡ ok (record { found = src == 0 && epoch == 0; action = 0; severity = 0 })
unfolding lookup read init
lookup-init src epoch =
    ground (arith, lookup_idx-lt src, get_or-replicate 512 (lookup_idx src) blank)
