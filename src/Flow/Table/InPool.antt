-- ===== src/Flow/Table/InPool.antt =====
-- `flow_table_get_wan_profile` of src/core/flow_table.c.
use ne_multi_core.Base.{
  ℕ, ◌%◌, Bool, true, false, ◌&&◌, not, Option, none, some, List, ◌∷◌, length, ltb, leb, ◌==◌,
  if◌then◌else◌,
}
use ne_multi_core.Base.Int.{ℤ, pos, leb_ℤ}
use ne_multi_core.Flow.Hash.{FlowKey, normalize_flow_5tuple, flow_hash}
use ne_multi_core.Flow.Wrr.{
  weight_at, wan_at, wan_allowed_pos, weights_sum_positive, first_positive_pos, next_enabled_pos,
  wrr_slot_to_wan, profile_wan_limit,
}
use ne_multi_core.Flow.Table.{
  FlowEntry, FlowTable, Counters, Chosen, walk, found, set_bucket, count_bytes, flow_table_get_wan,
}

unfoldable pub same_key : FlowKey → FlowKey → Bool
same_key a b =
    (a.src_ip == b.src_ip)
    && (a.dst_ip == b.dst_ip)
    && (a.src_port == b.src_port)
    && (a.dst_port == b.dst_port)
    && (a.protocol == b.protocol)

unfoldable pub profile_entry_matches : FlowKey → FlowEntry → Bool
unfolding same_key
profile_entry_matches k e = not e.ip_only_key && e.profile_wan_pool && same_key e.key k

-- `sumw > 0 && allowed_weights && allowed_weights[pos] <= 0`
abbrev pub disabled : Option (List ℤ) → ℕ → Bool
disabled none p = false
disabled (some ws) p = ltb 0 (weights_sum_positive (some ws)) && leb_ℤ (weight_at ws p) (pos 0)

unfoldable pub usable_pos : Option (List ℤ) → Option ℕ → Bool
usable_pos weights none = false
usable_pos weights (some p) = not (disabled weights p)

abbrev pub fallback_pos : Option (List ℤ) → ℕ
fallback_pos weights =
    if ltb 0 (weights_sum_positive weights) then first_positive_pos weights else 0

-- An entry whose WAN is no longer allowed moves to one that is.
unfoldable pub repair : List ℤ → Option (List ℤ) → FlowEntry → FlowEntry
unfolding usable_pos
repair wans weights e =
    let p = fallback_pos weights in
    if usable_pos weights (wan_allowed_pos e.current_wan wans)
    then e
    else record e { current_wan = wan_at wans p; byte_count = 0; wrr_slot = p }

abbrev pos_or_zero : Option ℕ → ℕ
pos_or_zero none = 0
pos_or_zero (some p) = p

-- An entry that has had its share of bytes on `wan_idx` moves on to the next WAN.
unfoldable pub move_on : FlowTable → List ℤ → Option (List ℤ) → ℤ → FlowEntry → FlowEntry
move_on ft wans weights wan_idx e =
    let cur_limit = profile_wan_limit ft.wan_count ft.wan_window_sizes wan_idx wans weights in
    let slot =
      next_enabled_pos (pos_or_zero (wan_allowed_pos wan_idx wans)) weights (length wans) in
    if ltb 0 cur_limit && leb cur_limit e.byte_count
    then record e { byte_count = 0; wrr_slot = slot; current_wan = wan_at wans slot }
    else e

unfoldable pub touch_profile :
    FlowTable → ℕ → ℕ → List ℤ → Option (List ℤ) → FlowEntry → ℤ × FlowEntry
unfolding repair move_on
touch_profile ft now pkt_len wans weights e0 =
    let e1 = repair wans weights e0 in
    let e2 = record e1 { last_seen = now; byte_count = count_bytes e1.byte_count pkt_len } in
    (e1.current_wan, move_on ft wans weights e1.current_wan e2)

unfoldable pub first_wan_by_hash : ℕ → List ℤ → Option (List ℤ) → ℤ
first_wan_by_hash h wans weights =
    let sumw = weights_sum_positive weights in
    if ltb 0 sumw
    then wrr_slot_to_wan (h % sumw) wans weights sumw
    else wan_at wans (h % length wans)

slot_or_first : Option (List ℤ) → Option ℕ → ℕ
slot_or_first weights none = first_positive_pos weights
slot_or_first weights (some p) = p

first_slot : ℕ → List ℤ → Option (List ℤ) → ℕ
unfolding slot_or_first first_wan_by_hash
first_slot h wans weights =
    if ltb 0 (weights_sum_positive weights)
    then slot_or_first weights (wan_allowed_pos (first_wan_by_hash h wans weights) wans)
    else h % length wans

unfoldable pub new_profile_entry : FlowKey → ℕ → ℕ → ℕ → List ℤ → Option (List ℤ) → FlowEntry
unfolding first_wan_by_hash first_slot
new_profile_entry k h now pkt_len wans weights = record {
  key = k;
  byte_count = pkt_len;
  current_wan = first_wan_by_hash h wans weights;
  wrr_slot = first_slot h wans weights;
  last_seen = now;
  valid = true;
  ip_only_key = false;
  profile_wan_pool = true;
}

unfoldable pub insert_profile :
    FlowTable → Counters → ℕ → FlowKey → ℕ → ℕ → List ℤ → Option (List ℤ) → Bool → Chosen
unfolding new_profile_entry move_on
insert_profile ft g idx k now pkt_len wans weights false = record {
  wan = pos 0;
  table = ft;
  counters = g;
}
insert_profile ft g idx k now pkt_len wans weights true =
    let e = new_profile_entry k idx now pkt_len wans weights in
    record {
      wan = e.current_wan;
      table = set_bucket ft idx (move_on ft wans weights e.current_wan e ∷ ft.buckets idx);
      counters = g;
    }

unfoldable pub profile_result :
    FlowTable
    → Counters
    → ℕ
    → FlowKey
    → ℕ
    → ℕ
    → List ℤ
    → Option (List ℤ)
    → Bool
    → Option (ℤ × List FlowEntry)
    → Chosen
unfolding insert_profile found
profile_result ft g idx k now pkt_len wans weights malloc_ok none =
    insert_profile ft g idx k now pkt_len wans weights malloc_ok
profile_result ft g idx k now pkt_len wans weights malloc_ok (some r) = found ft g idx r

-- The branch of more than one allowed WAN.
unfoldable pub get_wan_in_pool :
    FlowTable → Counters → ℕ → Bool → FlowKey → ℕ → List ℤ → Option (List ℤ) → Chosen
unfolding profile_result normalize_flow_5tuple flow_hash walk profile_entry_matches touch_profile
get_wan_in_pool ft g now malloc_ok packet_key pkt_len wans weights =
    let k = normalize_flow_5tuple packet_key in
    let idx = flow_hash k in
    profile_result ft g idx k now pkt_len wans weights malloc_ok
      (walk (profile_entry_matches k) (touch_profile ft now pkt_len wans weights) (ft.buckets idx))

unfoldable pub flow_table_get_wan_profile :
    FlowTable → Counters → ℕ → Bool → FlowKey → ℕ → List ℤ → Option (List ℤ) → Chosen
unfolding flow_table_get_wan get_wan_in_pool
flow_table_get_wan_profile ft g now malloc_ok packet_key pkt_len wans weights =
    if length wans == 0
    then flow_table_get_wan ft g now malloc_ok packet_key pkt_len
    else if length wans == 1
    then record { wan = wan_at wans 0; table = ft; counters = g }
    else get_wan_in_pool ft g now malloc_ok packet_key pkt_len wans weights
