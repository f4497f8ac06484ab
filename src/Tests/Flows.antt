-- ===== src/Tests/Flows.antt =====
-- The flow table and the choice of a WAN of src/core/flow_table.c at concrete inputs.
use ne_multi_core.Base.{
  ℕ, zero, suc, ◌+◌, ◌≤◌, ◌<◌, ◌≡◌, ◌≢◌, ◌↔◌, ◌^◌, refl, ap, arith, true, false, none, some, List,
  [], ◌∷◌, replicate, In,
}
use ne_multi_core.Base.Int.{ℤ, pos, pos_part}
use ne_multi_core.Base.Bytes.{swap32}
use ne_multi_core.Flow.Hash.{FlowKey, normalize_flow_5tuple, reversed, normalize_5tuple-reversed}
use ne_multi_core.Flow.Wrr.{
  weight_at, wan_at, wan_allowed_pos, pos_loop, as_int, weights_sum_positive, sum_loop,
  get_next_wan,
}
use ne_multi_core.Flow.Wrr.Fair.{OnlyAt, times_picked, pick_fair}
use ne_multi_core.Flow.Wrr.Choice.{IsChoice, get_next_wan-lt}
use ne_multi_core.Flow.Table.{
  FlowEntry, FlowTable, Counters, flow_timeout_sec, flow_table_init, flow_table_cleanup,
  max_interfaces,
}
use ne_multi_core.Flow.Table.InPool.{
  usable_pos, same_key, profile_entry_matches, get_wan_in_pool, flow_table_get_wan_profile,
}
use ne_multi_core.Flow.Table.Sweep.{age, flow_table_gc_slice}
use ne_multi_core.Flow.Table.Profile.{get_wan_profile-IsChoice}
use ne_multi_core.Flow.Table.Lookup.{lookup, other_flows_unchanged, known_flow_keeps_wan}
use ne_multi_core.Flow.Table.Gc.{in_slice, gc_slice-In}

abbrev wans : List ℤ
wans = pos 4 ∷ pos 7 ∷ []

abbrev weights : List ℤ
weights = pos 3 ∷ pos 1 ∷ []

abbrev a_key : FlowKey
a_key = record { src_ip = 10; dst_ip = 20; src_port = 1000; dst_port = 80; protocol = 6 }

abbrev b_key : FlowKey
b_key = record { src_ip = 10; dst_ip = 30; src_port = 1000; dst_port = 80; protocol = 6 }

abbrev an_entry : FlowEntry
an_entry = record {
  key = a_key;
  byte_count = 100;
  current_wan = pos 7;
  wrr_slot = 1;
  last_seen = 1000;
  valid = true;
  ip_only_key = false;
  profile_wan_pool = true;
}

-- The entry stands in every bucket, so also in its own.
abbrev a_table : FlowTable
a_table = record {
  buckets = λ i. an_entry ∷ [];
  wan_count = 8;
  wan_window_sizes = replicate max_interfaces 4000;
}

abbrev counters : Counters
counters = record { next_wan = 5; pkt_wrr_seq = 9 }

cleaned : (flow_table_cleanup a_table).buckets 3 ≡ []
unfolding flow_table_cleanup
cleaned = refl

started : (flow_table_init counters none 2).1.pkt_wrr_seq ≡ 0
unfolding flow_table_init
started = refl

weights_sum : sum_loop weights 0 ≡ 4
unfolding sum_loop
weights_sum = refl

get_wan_profile-IsChoice_example :
    IsChoice wans
      (some weights)
      (flow_table_get_wan_profile a_table counters 1030 true b_key 60 wans (some weights)).wan
get_wan_profile-IsChoice_example =
    get_wan_profile-IsChoice a_table counters 1030 b_key 60 wans (some weights) refl (omega arith)
      (omega (arith, weights_sum))

only_first : OnlyAt wans 0
only_first zero h e = refl
only_first (suc zero) h e = absurd (omega (arith, ap pos_part e))
only_first (suc (suc k)) h e = absurd (omega (arith, h))

some_weight : 0 < weights_sum_positive (some weights)
unfolding weights_sum_positive sum_loop as_int
some_weight = omega arith

no_wrap : 9 + weights_sum_positive (some weights) < 2 ^ 64
unfolding weights_sum_positive sum_loop as_int
no_wrap = omega arith

pick_fair_example :
    times_picked (weights_sum_positive (some weights)) (wan_at wans 0) wans (some weights) 9
    ≡ pos_part (weight_at weights 0)
pick_fair_example =
    pick_fair wans weights 0 9 refl (omega arith) (omega arith) only_first
      (omega (arith, weights_sum)) some_weight no_wrap

a_known : lookup a_table (normalize_flow_5tuple a_key) ≡ some an_entry
unfolding normalize_flow_5tuple swap32 profile_entry_matches same_key
a_known = refl

a_usable : usable_pos (some weights) (wan_allowed_pos an_entry.current_wan wans) ≡ true
unfolding usable_pos wan_allowed_pos pos_loop weights_sum_positive sum_loop as_int
a_usable = refl

known_flow_keeps_wan_example :
    ((get_wan_in_pool a_table counters 1030 false a_key 60 wans (some weights)).wan ≡ pos 7)
    × ((get_wan_in_pool a_table counters 1030 false (reversed a_key) 60 wans (some weights)).wan
        ≡ pos 7)
known_flow_keeps_wan_example =
    known_flow_keeps_wan a_table counters 1030 false a_key 60 wans (some weights) an_entry
      (omega arith) (omega arith) a_known a_usable

keys_differ : normalize_flow_5tuple b_key ≢ a_key
unfolding normalize_flow_5tuple swap32
keys_differ e = absurd (omega (arith, ap (λ (k : FlowKey). k.dst_ip) e))

other_flows_unchanged_example :
    lookup (get_wan_in_pool a_table counters 1030 true b_key 60 wans (some weights)).table a_key
    ≡ lookup a_table a_key
other_flows_unchanged_example =
    other_flows_unchanged a_table counters 1030 true b_key 60 wans (some weights) a_key keys_differ

gc_slice-In_example : In an_entry ((flow_table_gc_slice 1061 16380 8 a_table).0.buckets 2) ↔ (
    In an_entry (a_table.buckets 2)
    × (in_slice 16380 8 2 ≡ true → age 1061 an_entry ≤ flow_timeout_sec))
gc_slice-In_example = gc_slice-In 1061 16380 8 a_table 2 an_entry (omega arith)

normalize_5tuple-reversed_example :
    normalize_flow_5tuple (reversed a_key) ≡ normalize_flow_5tuple a_key
normalize_5tuple-reversed_example = normalize_5tuple-reversed a_key (omega arith) (omega arith)

get_next_wan-lt_example : (i : ℕ) × ((get_next_wan 11 3).0 ≡ pos i) × (i < 3)
get_next_wan-lt_example =
    get_next_wan-lt 11 3 (omega arith) (λ e. absurd (omega (arith, e))) (omega arith)
