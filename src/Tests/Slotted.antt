-- ===== src/Tests/Slotted.antt =====
-- The slots of the profiles and the map of the cores, src/core/forwarder_crypto_runtime.c and
-- src/core/cpu_map.c, at concrete inputs.
use ne_multi_core.Base.{◌≡◌, ◌↔◌, refl, true, false, [], ◌∷◌, replicate}
use ne_multi_core.Base.Int.{pos}
use ne_multi_core.CpuMap.{
  validate_groups, claim_groups, claim_group, ne_cpu_map_validate, ne_cpu_crypto, core_of, Distinct,
  all_cores, validate_groups_iff,
}
use ne_multi_core.Flow.Table.{FlowTable, Counters}
use ne_multi_core.Fragment.{zero_entry}
use ne_multi_core.Runtime.{
  Slots, fwd_crypto_ensure_profile_slots, fwd_crypto_cleanup_all_profile_slots,
}
use ne_multi_core.Runtime.Slots.{OneEach}
use ne_multi_core.Runtime.Reachable.{
  Reachable, started, stepped, ensured, all_cleaned, Reachable-OneEach,
}
use ne_multi_core.Tests.Configured.{a_config}

map_is_valid : ne_cpu_map_validate ≡ true
unfolding ne_cpu_map_validate validate_groups claim_groups claim_group
map_is_valid = refl

core_runs : ne_cpu_crypto 5 ≡ 8
unfolding ne_cpu_crypto core_of
core_runs = refl

validate_groups_iff_example :
    (validate_groups ((1 ∷ 2 ∷ []) ∷ (3 ∷ 1 ∷ []) ∷ []) ≡ true)
    ↔ Distinct (all_cores ((1 ∷ 2 ∷ []) ∷ (3 ∷ 1 ∷ []) ∷ []))
validate_groups_iff_example = validate_groups_iff ((1 ∷ 2 ∷ []) ∷ (3 ∷ 1 ∷ []) ∷ [])

abbrev no_flows : FlowTable
no_flows = record { buckets = λ i. []; wan_count = 0; wan_window_sizes = replicate 16 0 }

abbrev pub empty_slots : Slots
empty_slots i = record {
  ready = false;
  profile_id = pos 0;
  flows = no_flows;
  gc_cursor = 0;
  frag_l2 = λ w j. zero_entry;
  frag_l3 = λ j. zero_entry;
  frag_l4 = λ j. zero_entry;
}

abbrev counters : Counters
counters = record { next_wan = 0; pkt_wrr_seq = 0 }

pub empty-Reachable : Reachable empty_slots
empty-Reachable = started empty_slots (λ i. refl)

abbrev served : Slots
served = (fwd_crypto_ensure_profile_slots a_config (empty_slots, counters)).1.0

Reachable-OneEach_example : OneEach (fwd_crypto_cleanup_all_profile_slots served)
Reachable-OneEach_example = Reachable-OneEach (
    stepped served (fwd_crypto_cleanup_all_profile_slots served)
      (stepped empty_slots served empty-Reachable (ensured a_config empty_slots counters))
      (all_cleaned served))
