-- ===== src/Rules.antt =====
-- rule_store_model.py and rule_lookup_model.py: the table of runtime rules, the nine bytes of a
-- rule on the wire, and the lookup by the hash of the source address.
pub mod Laws
use fpga_pi_parallel_nids.Prelude.{
  ℕ, ◌+◌, ◌*◌, ◌/◌, ◌^◌, bit_and, Bool, true, false, ◌&&◌, List, [], ◌∷◌, ◌++◌, Option, none, some,
  Result, ok, raise, value_error, index_error, ◌>>=◌, ◌>>◌, guard, ltb, ◌==◌, if◌then◌else◌, length,
  get_or, set, replicate,
}
use fpga_pi_parallel_nids.Prelude.Bytes.{Bytes, bytes_of, zeros, to_bytes, from_bytes, slice}

abbrev pub rule_bytes : ℕ
rule_bytes = 9

abbrev pub rule_depth : ℕ
rule_depth = 512

-- The dictionary of a rule.
pub record Rule : Type 0 where
  pub src_ip : ℕ
  pub action : ℕ
  pub severity : ℕ
  pub epoch : ℕ

unfoldable pub encode_rule : Rule → Result Bytes
encode_rule rule = do
  src ← to_bytes rule.src_ip 4
  fields ←
      bytes_of
        (bit_and rule.action 0xFF ∷ bit_and rule.severity 0xFF ∷ bit_and rule.epoch 0xFF ∷ [])
  ok ((src ++ fields) ++ zeros 2)

unfoldable pub decode_rule : Bytes → Result Rule
decode_rule b =
    if length b == rule_bytes
    then ok (record {
      src_ip = from_bytes (slice b 0 4);
      action = get_or b 4 0;
      severity = bit_and (get_or b 5 0) 0x0F;
      epoch = get_or b 6 0;
    })
    else raise value_error

pub record RuleStore : Type 0 where
  pub cells : List Rule

abbrev pub blank : Rule
blank = record { src_ip = 0; action = 0; severity = 0; epoch = 0 }

unfoldable pub init : RuleStore
init = record { cells = replicate rule_depth blank }

-- A rule as it is passed to `write`: the key "severity" may be missing.
pub record RuleArgument : Type 0 where
  pub src_ip : ℕ
  pub action : ℕ
  pub severity : Option ℕ
  pub epoch : ℕ

abbrev pub severity_or_zero : Option ℕ → ℕ
severity_or_zero none = 0
severity_or_zero (some s) = s

-- `{**rule, "severity": rule.get("severity", 0) & 0x0F}`
unfoldable pub stored : RuleArgument → Rule
stored rule = record {
  src_ip = rule.src_ip;
  action = rule.action;
  severity = bit_and (severity_or_zero rule.severity) 0x0F;
  epoch = rule.epoch;
}

unfoldable pub write : RuleStore → ℕ → RuleArgument → Result RuleStore
write rs idx rule =
    if ltb idx rule_depth
    then ok (record { cells = set rs.cells idx (stored rule) })
    else raise index_error

unfoldable pub read : RuleStore → ℕ → Result Rule
read rs idx = if ltb idx rule_depth then ok (get_or rs.cells idx blank) else raise index_error

abbrev pub a1 : ℕ
a1 = 0x9E3779B1

abbrev pub mask32 : ℕ
mask32 = 0xFFFFFFFF

unfoldable pub lookup_idx : ℕ → ℕ
lookup_idx src_ip = bit_and (bit_and (src_ip * a1) mask32 / 2 ^ 23) 0x1FF

pub record Match : Type 0 where
  pub found : Bool
  pub action : ℕ
  pub severity : ℕ

abbrev pub no_match : Match
no_match = record { found = false; action = 0; severity = 0 }

unfoldable pub lookup : RuleStore → ℕ → ℕ → Result Match
lookup rs src_ip current_rule_epoch = do
  rule ← read rs (lookup_idx src_ip)
  ok (
      if rule.src_ip == src_ip && rule.epoch == current_rule_epoch
      then record { found = true; action = rule.action; severity = rule.severity }
      else no_match)
