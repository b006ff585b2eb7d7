-- ===== src/Tests/Filters.antt =====
-- Instances for bloom.py, thresholds_model.py, rule_store_model.py and rule_lookup_model.py.
use fpga_pi_parallel_nids.Prelude.{
  ◌%◌, ◌≡◌, true, ◌&&◌, [], ◌∷◌, some, ok, ◌>>=◌, ◌==◌, if◌then◌else◌,
}
use fpga_pi_parallel_nids.Bloom
use fpga_pi_parallel_nids.Bloom.{
  h1, h2, add, add_all, get_bit, member, from_ips, build_words, to_mem,
}
use fpga_pi_parallel_nids.Bloom.Bits.{init-IsValid}
use fpga_pi_parallel_nids.Bloom.Members.{covered, add_all-IsValid, member-add_all}
use fpga_pi_parallel_nids.Bloom.Words.{read_mem, read_mem-to_mem}
use fpga_pi_parallel_nids.Rules
use fpga_pi_parallel_nids.Rules.{RuleArgument, severity_or_zero, no_match}
use fpga_pi_parallel_nids.Rules.Laws.{
  read-write_rule, lookup-write, lookup-init, decode_rule-encode_rule,
}

abbrev listed : Bloom.BloomFilter
listed = add_all Bloom.init (0x0A000001 ∷ 0xC0A80107 ∷ [])

listed-IsValid : Bloom.Bits.IsValid listed
listed-IsValid = add_all-IsValid Bloom.init (0x0A000001 ∷ 0xC0A80107 ∷ []) init-IsValid

member-add_all_example :
    member (add_all Bloom.init (7 ∷ 9 ∷ [])) 8
    ≡ (covered (7 ∷ 9 ∷ []) (h1 8) && covered (7 ∷ 9 ∷ []) (h2 8))
member-add_all_example = member-add_all (7 ∷ 9 ∷ []) 8

read_mem-to_mem_example : read_mem 0 (to_mem listed) ≡ build_words listed
read_mem-to_mem_example = read_mem-to_mem listed listed-IsValid

abbrev blocked : RuleArgument
blocked = record { src_ip = 0x0A000001; action = 2; severity = some 19; epoch = 4 }

lookup-write_example :
    (Rules.write Rules.init (Rules.lookup_idx blocked.src_ip) blocked >>= λ rs.
    Rules.lookup rs 0x0A000001 4)
    ≡ (if Rules.lookup_idx blocked.src_ip == Rules.lookup_idx 0x0A000001
        then ok (
            if blocked.src_ip == 0x0A000001 && blocked.epoch == 4
            then record {
              found = true;
              action = blocked.action;
              severity = severity_or_zero blocked.severity % 16;
            }
            else no_match)
        else Rules.lookup Rules.init 0x0A000001 4)
lookup-write_example = lookup-write Rules.init blocked 0x0A000001 4 Rules.Laws.init-IsValid
