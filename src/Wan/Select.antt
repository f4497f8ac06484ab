-- ===== src/Wan/Select.antt =====
-- The WAN of a packet from the LAN, src/core/forwarder_wan.c: `fwd_wan_build_profile_pool`,
-- `fwd_wan_dp_for_legacy_cfg`, `pick_least_loaded_wan` and `fwd_wan_pick_for_local`, with
-- `fwd_mid_to_wan_depth` of inc/core/forwarder.h. A profile index is the profile, or `none` out of range.
pub mod Safe
pub mod Service
use ne_multi_core.Base.{
  ℕ, zero, suc, ◌+◌, ◌-◌, ◌*◌, ◌/◌, ◌%◌, ◌^◌, min, Bool, true, false, ◌&&◌, ◌||◌, not, Option, none,
  some, List, [], ◌∷◌, ◌++◌, map, length, ltb, leb, ◌==◌, if◌then◌else◌,
}
use ne_multi_core.Base.Int.{ℤ, pos, negsuc, pos_part, ltb_ℤ, leb_ℤ, eqb_ℤ}
use ne_multi_core.Config.{AppConfig, ProfileConfig}
use ne_multi_core.Config.WanIndex.{config_wan_cfg_to_dp}
use ne_multi_core.Ring.{ring_count}
use ne_multi_core.Flow.Hash.{FlowKey}
use ne_multi_core.Flow.Wrr.{as_int, sum_loop, flow_table_pick_wan_per_packet}
use ne_multi_core.Flow.Table.{FlowTable, Counters, Chosen}
use ne_multi_core.Flow.Table.InPool.{flow_table_get_wan_profile}
use ne_multi_core.Wan.{
  WanState, Forwarder, DrainSlot, max_interfaces, ne_crypto_workers, wan_drain_taper_pct,
  fwd_wan_dp_ok_for_new_traffic, fwd_wan_is_stopped, fwd_wan_has_tx_room,
}
use ne_multi_core.Wan.Blend.{Blend, profile_wan_weight_blended}

-- An allowed WAN, by its configured number, and its weight.
abbrev pub Allowed : Type 0
Allowed = ℤ × ℤ

allowed_dp : WanState → Option ℕ → Bool
allowed_dp s none = false
allowed_dp s (some dp) = fwd_wan_dp_ok_for_new_traffic s dp

-- The WANs of the profile; `room` is what is left of the arrays.
pub profile_part :
    ℕ → AppConfig → WanState → List Blend → ProfileConfig → ℕ → List ℤ → List ℤ → List Allowed
unfolding allowed_dp
profile_part now cfg s blends p room [] ws = []
profile_part now cfg s blends p room (wi ∷ wis) [] = []
profile_part now cfg s blends p room (wi ∷ wis) (w ∷ ws) =
    let next : Allowed = (wi, profile_wan_weight_blended now blends p wi w) in
    let rest = profile_part now cfg s blends p (room - 1) wis ws in
    let skipped = profile_part now cfg s blends p room wis ws in
    if room == 0
    then []
    else if allowed_dp s (config_wan_cfg_to_dp cfg wi)
    then next ∷ rest
    else skipped

-- `seed_weight * taper / 100`, at least 1. A seed weight is at least 1.
pub tapered_weight : ℤ → ℕ → ℤ
tapered_weight seed taper = let w = pos_part seed * taper / 100 in if w == 0 then pos 1 else pos w

unfoldable pub is_tapering : ℕ → WanState → ℕ → Bool
is_tapering now s dp =
    (s.drains dp).active && not (s.stopped dp) && ltb 0 (wan_drain_taper_pct now s dp)

-- The WANs that drain; `left` slots from `dp` on.
pub drain_part : ℕ → WanState → ℕ → ℕ → ℕ → List Allowed
unfolding tapered_weight is_tapering
drain_part now s room zero dp = []
drain_part now s room (suc left) dp =
    let next : Allowed = (
      pos (s.drains dp).legacy_cfg_wan,
      tapered_weight (s.drains dp).seed_weight (wan_drain_taper_pct now s dp),
    ) in
    let rest = drain_part now s (room - 1) left (dp + 1) in
    let skipped = drain_part now s room left (dp + 1) in
    if room == 0 then [] else if is_tapering now s dp then next ∷ rest else skipped

pub fwd_wan_build_profile_pool :
    ℕ → AppConfig → Forwarder → WanState → List Blend → ProfileConfig → ℕ → List Allowed
unfolding profile_part drain_part
fwd_wan_build_profile_pool now cfg fwd s blends p max_n =
    let own = profile_part now cfg s blends p max_n p.wan_indices p.wan_bandwidth_weight in
    own ++ drain_part now s (max_n - length own) (min fwd.wan_count max_interfaces) 0

unfoldable pub legacy_loop : ℕ → WanState → ℕ → ℕ → ℕ → Option ℕ
unfolding is_tapering
legacy_loop now s legacy_cfg_wan zero dp = none
legacy_loop now s legacy_cfg_wan (suc left) dp =
    let rest = legacy_loop now s legacy_cfg_wan left (dp + 1) in
    if is_tapering now s dp && ((s.drains dp).legacy_cfg_wan == legacy_cfg_wan)
    then some dp
    else rest

-- `none` is the -1 of the source.
unfoldable pub fwd_wan_dp_for_legacy_cfg : ℕ → Forwarder → WanState → ℕ → Option ℕ
unfolding legacy_loop
fwd_wan_dp_for_legacy_cfg now fwd s legacy_cfg_wan =
    legacy_loop now s legacy_cfg_wan (min fwd.wan_count max_interfaces) 0

-- The workers that are left, and the number of this one.
unfoldable pub depth_loop : Forwarder → ℕ → ℕ → ℕ → ℕ → ℕ
depth_loop fwd wan_dp zero w d = d
depth_loop fwd wan_dp (suc left) w d =
    depth_loop fwd wan_dp left (w + 1) ((d + ring_count (fwd.mid_to_wan wan_dp w)) % 2 ^ 32)

unfoldable pub fwd_mid_to_wan_depth : Forwarder → ℕ → ℕ
unfolding depth_loop
fwd_mid_to_wan_depth fwd wan_dp = depth_loop fwd wan_dp ne_crypto_workers 0 0

-- The least loaded WAN so far, and its depth; none has the depth UINT32_MAX.
abbrev pub Least : Type 0
Least = Option ℕ × ℕ

abbrev pub usable : ℕ → Forwarder → WanState → ℕ → Bool
usable worker fwd s dp = fwd_wan_dp_ok_for_new_traffic s dp && fwd_wan_has_tx_room worker fwd dp

pub consider : ℕ → Forwarder → WanState → Option ℕ → Least → Least
consider worker fwd s none best = best
consider worker fwd s (some dp) best =
    let d = fwd_mid_to_wan_depth fwd dp in
    if not (usable worker fwd s dp) then best else if ltb d best.1 then (some dp, d) else best

least_in_profile : ℕ → AppConfig → Forwarder → WanState → ℕ → List ℤ → List ℤ → Least → Least
unfolding consider
least_in_profile worker cfg fwd s sumw [] ws best = best
least_in_profile worker cfg fwd s sumw (wi ∷ wis) [] best = best
least_in_profile worker cfg fwd s sumw (wi ∷ wis) (w ∷ ws) best =
    let best' =
      if ltb 0 sumw && leb_ℤ w (pos 0)
      then best
      else consider worker fwd s (config_wan_cfg_to_dp cfg wi) best in
    least_in_profile worker cfg fwd s sumw wis ws best'

-- The WANs that are left, and the number of this one.
least_of_all : ℕ → Forwarder → WanState → ℕ → ℕ → Least → Least
unfolding consider
least_of_all worker fwd s zero wi best = best
least_of_all worker fwd s (suc left) wi best =
    least_of_all worker fwd s left (wi + 1) (consider worker fwd s (some wi) best)

abbrev no_least : Least
no_least = (none, 2 ^ 32 - 1)

or_selected : Option ℕ → ℕ → ℕ
or_selected none selected = selected
or_selected (some dp) selected = dp

-- The search of the WANs of a profile, or of all WANs without one.
pub least_loaded : ℕ → AppConfig → Forwarder → WanState → Option ProfileConfig → Option ℕ
unfolding least_in_profile least_of_all
least_loaded worker cfg fwd s none = (least_of_all worker fwd s fwd.wan_count 0 no_least).0
least_loaded worker cfg fwd s (some p) =
    let sumw = as_int (sum_loop p.wan_bandwidth_weight 0) in
    let own =
      (least_in_profile worker cfg fwd s sumw p.wan_indices p.wan_bandwidth_weight no_least).0 in
    let all = (least_of_all worker fwd s fwd.wan_count 0 no_least).0 in
    if length p.wan_indices == 0 then all else own

pub pick_least_loaded_wan : ℕ → AppConfig → Forwarder → WanState → Option ProfileConfig → ℕ → ℕ
unfolding least_loaded or_selected
pick_least_loaded_wan worker cfg fwd s p selected =
    if fwd_wan_has_tx_room worker fwd selected
    then selected
    else or_selected (least_loaded worker cfg fwd s p) selected

-- What `fwd_wan_pick_for_local` reads and may change besides the WANs: the sequence number, and the
-- flow table of the profile's slot, if it is ready.
pub record Flows : Type 0 where
  pub counters : Counters
  pub table : Option FlowTable

-- The configured WAN for a packet, by the flow table if it is to be used.
pub choose_wan : Flows → ℕ → Bool → Bool → FlowKey → ℕ → List Allowed → ℤ × Flows
choose_wan f now malloc_ok flow_ok key pkt_len pool =
    let wans = map (λ a. a.0) pool in
    let weights = map (λ a. a.1) pool in
    let per_packet : ℤ × Flows = (
      (flow_table_pick_wan_per_packet f.counters.pkt_wrr_seq wans (some weights)).0,
      record f {
        counters = record f.counters {
          pkt_wrr_seq =
              (flow_table_pick_wan_per_packet f.counters.pkt_wrr_seq wans (some weights)).1;
        };
      },
    ) in
    elim (f.table) [
      | none ↦ per_packet
      | some ft ↦
          let r =
            flow_table_get_wan_profile ft f.counters now malloc_ok key pkt_len wans
              (some weights) in
          let by_flow : ℤ × Flows =
            (r.wan, record { counters = r.counters; table = some r.table }) in
          if flow_ok then by_flow else per_packet
    ]

-- The slot of a configured WAN; a WAN that drains may have left the configuration.
dp_of : ℕ → AppConfig → Forwarder → WanState → ℤ → Option ℕ
dp_of now cfg fwd s (negsuc i) = none
dp_of now cfg fwd s (pos wan_cfg) = elim (config_wan_cfg_to_dp cfg (pos wan_cfg)) [
  | some dp ↦ some dp
  | none ↦ fwd_wan_dp_for_legacy_cfg now fwd s wan_cfg
]

-- The WAN that is first selected: the one of the slot, if it is in service, and 0 otherwise.
selected_dp : Forwarder → WanState → Option ℕ → ℕ
selected_dp fwd s none = 0
selected_dp fwd s (some dp) = if leb fwd.wan_count dp || fwd_wan_is_stopped s dp then 0 else dp

-- `none` is the -1 of the source.
pub fwd_wan_pick_for_local :
    ℕ
    → ℕ
    → AppConfig
    → Forwarder
    → WanState
    → List Blend
    → Flows
    → Option ProfileConfig
    → Bool
    → Bool
    → FlowKey
    → ℕ
    → Option ℕ × Flows
unfolding choose_wan dp_of selected_dp
fwd_wan_pick_for_local worker now cfg fwd s blends f none flow_ok malloc_ok key pkt_len =
    if fwd.wan_count == 0
    then (none, f)
    else (some (pick_least_loaded_wan worker cfg fwd s none 0), f)
fwd_wan_pick_for_local worker now cfg fwd s blends f (some p) flow_ok malloc_ok key pkt_len =
    let pool = fwd_wan_build_profile_pool now cfg fwd s blends p max_interfaces in
    let (wan_cfg, f') = choose_wan f now malloc_ok flow_ok key pkt_len pool in
    let selected = selected_dp fwd s (dp_of now cfg fwd s wan_cfg) in
    if fwd.wan_count == 0
    then (none, f)
    else if length pool == 0
    then (some (pick_least_loaded_wan worker cfg fwd s (some p) 0), f)
    else (some (pick_least_loaded_wan worker cfg fwd s (some p) selected), f')
