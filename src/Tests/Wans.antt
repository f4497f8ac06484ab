-- ===== src/Tests/Wans.antt =====
-- The WANs that leave service, the change of weights and the choice of a WAN, src/core/forwarder_wan.c, at
-- concrete inputs.
use ne_multi_core.Base.{
  ℕ, ◌<◌, ◌≡◌, ◌≢◌, ◌++◌, min, refl, arith, true, false, ◌&&◌, ◌||◌, not, none, some, [], ◌∷◌,
  replicate, length, ltb, leb, ◌==◌, if◌then◌else◌,
}
use ne_multi_core.Base.Int.{pos}
use ne_multi_core.Config.{AppConfig, ProfileConfig, WanConfig}
use ne_multi_core.Config.Owner.{same_name}
use ne_multi_core.Flow.Hash.{FlowKey}
use ne_multi_core.Flow.Wrr.{wan_allowed_pos, pos_loop}
use ne_multi_core.Ring.{Ring, no_packet, ring_count, ring_try_pop}
use ne_multi_core.Pool.{Pool}
use ne_multi_core.Wan.{
  DrainSlot, no_drain, WanState, Forwarder, max_interfaces, fwd_wan_drain_tick, fwd_wan_is_stopped,
  fwd_wan_dp_ok_for_new_traffic, fwd_wan_flush_queue, ne_crypto_workers, fwd_wan_reset_on_init,
  fwd_wan_mark_stopped, wan_seed_weight_from_cfg, profiles_loop, weight_loop,
  fwd_wan_ifname_dataplane_in_cfg, ifname_loop, wan_drain_taper_pct,
}
use ne_multi_core.Wan.Drain.{drain_tick_settles}
use ne_multi_core.Wan.Flush.{frames_of}
use ne_multi_core.Wan.FlushQueue.{held_of, flush_queue-empties}
use ne_multi_core.Ring.Refine as Queue
use ne_multi_core.Ring.Refine.{contents}
use ne_multi_core.Pool.Refine as Free
use ne_multi_core.Pool.Refine.{free_frames}
use ne_multi_core.Circular.{IsSize, window}
use ne_multi_core.Wan.Blend.{
  Blend, mix_weights, wan_weight_blend_progress, profile_wan_weight_blended, blends_loop, blend_at,
  fwd_wan_weight_blend_tick, tick_blend,
}
use ne_multi_core.Wan.Select.{
  Flows, fwd_wan_pick_for_local, fwd_wan_dp_for_legacy_cfg, legacy_loop, is_tapering,
  fwd_mid_to_wan_depth, depth_loop,
}
use ne_multi_core.Wan.Select.Service.{IsInService, pick_for_local-IsInService}

abbrev a_ring : Ring
a_ring = record {
  buf = replicate 128 no_packet;
  cap = 128;
  mask = 127;
  head = 3;
  tail = 1;
  mpsc_pop = false;
}

abbrev a_pool : Pool
a_pool = record { buf = replicate 4 0; cap = 4; mask = 3; head = 0; tail = 0 }

abbrev a_forwarder : Forwarder
a_forwarder = record {
  wan_count = 2;
  mid_to_wan = λ dp w. a_ring;
  wan_ifnames = λ dp. dp ∷ [];
  wan_cfg_idx = λ dp. pos dp;
  pool = a_pool;
}

abbrev draining : DrainSlot
draining = record {
  active = true;
  legacy_cfg_wan = 1;
  seed_weight = pos 10;
  ifname = 101 ∷ [];
  start_ms = 1000;
  until_ms = 6000;
}

-- WAN 1 drains.
abbrev a_state : WanState
a_state = record {
  drains = λ dp. if dp == 1 then draining else no_drain;
  active_dp_count = 1;
  stopped = λ dp. false;
}

abbrev a_wan : WanConfig
a_wan = record {
  ifname = 101 ∷ [];
  dst_ip = 0;
  src_mac = replicate 6 0;
  dst_mac = replicate 6 0;
  window_size = 4000;
  dataplane = true;
}

abbrev a_profile : ProfileConfig
a_profile = record {
  id = pos 1;
  enabled = true;
  local_indices = pos 0 ∷ [];
  wan_indices = pos 0 ∷ [];
  wan_bandwidth_weight = pos 10 ∷ [];
  policy_indices = [];
}

abbrev a_config : AppConfig
a_config = record {
  locals = [];
  wans = a_wan ∷ [];
  crypto_enabled = false;
  profiles = a_profile ∷ [];
  policies = [];
}

abbrev a_blend : Blend
a_blend = record {
  active = true;
  profile_id = pos 1;
  wan_cfg = pos 0 ∷ [];
  old_w = pos 10 ∷ [];
  new_w = pos 30 ∷ [];
  start_ms = 1000;
  until_ms = 6000;
}

seed : wan_seed_weight_from_cfg a_config (pos 0) ≡ pos 10
unfolding wan_seed_weight_from_cfg profiles_loop weight_loop
seed = refl

known_name : fwd_wan_ifname_dataplane_in_cfg a_config (101 ∷ []) ≡ true
unfolding fwd_wan_ifname_dataplane_in_cfg ifname_loop same_name
known_name = refl

reset_then_marked : (fwd_wan_mark_stopped (fwd_wan_reset_on_init 2) 1).stopped 1 ≡ true
unfolding fwd_wan_mark_stopped fwd_wan_reset_on_init
reset_then_marked = refl

half_way : profile_wan_weight_blended 3500 (a_blend ∷ []) a_profile (pos 0) (pos 30) ≡ pos 20
unfolding profile_wan_weight_blended blends_loop blend_at mix_weights wan_weight_blend_progress
    wan_allowed_pos pos_loop
half_way = refl

blend_over : fwd_wan_weight_blend_tick 6000 (a_blend ∷ []) ≡ record a_blend { active = false } ∷ []
unfolding fwd_wan_weight_blend_tick tick_blend wan_weight_blend_progress
blend_over = refl

drain_tick_settles_example :
    let s' = (fwd_wan_drain_tick 6000 a_forwarder a_state).1 in
    let ends =
      ltb 1 (min 2 max_interfaces)
      && (a_state.drains 1).active
      && leb (a_state.drains 1).until_ms 6000 in
    (fwd_wan_is_stopped s' 1 ≡ (fwd_wan_is_stopped a_state 1 || ends))
    × ((s'.drains 1).active ≡ ((a_state.drains 1).active && not ends))
    × (fwd_wan_dp_ok_for_new_traffic s' 1 ≡ fwd_wan_dp_ok_for_new_traffic a_state 1)
drain_tick_settles_example = drain_tick_settles 6000 a_forwarder a_state 1

abbrev seven : IsSize 128 127
seven = record { exponent = 7; small = omega arith; power = refl; masked = refl }

abbrev sixteen : IsSize 16 15
sixteen = record { exponent = 4; small = omega arith; power = refl; masked = refl }

-- The rings of a WAN hold two packets each, and the pool has room for all twelve.
abbrev flushing : Forwarder
flushing = record a_forwarder {
  pool = record { buf = replicate 16 0; cap = 16; mask = 15; head = 0; tail = 0 };
}

a_ring-IsValid : Queue.IsValid a_ring
a_ring-IsValid = record {
  size = seven;
  storage = refl;
  head_in = omega arith;
  tail_in = omega arith;
  fits = omega arith;
}

pool-IsValid : Free.IsValid flushing.pool
pool-IsValid = record {
  size = sixteen;
  storage = refl;
  head_in = omega arith;
  tail_in = omega arith;
  fits = omega arith;
}

twelve_held : length (held_of flushing.mid_to_wan 1 ne_crypto_workers 0) ≡ 12
unfolding window
twelve_held = refl

none_free : length (free_frames flushing.pool) ≡ 0
unfolding window
none_free = refl

flush_queue-empties_example :
    let (fwd', n) = fwd_wan_flush_queue flushing 1 in
    let held = held_of flushing.mid_to_wan 1 ne_crypto_workers 0 in
    ((v : ℕ) → v < ne_crypto_workers → ring_try_pop (fwd'.mid_to_wan 1 v) ≡ none)
    × ((i : ℕ) (j : ℕ) → i ≢ 1 → fwd'.mid_to_wan i j ≡ flushing.mid_to_wan i j)
    × (free_frames fwd'.pool ≡ free_frames flushing.pool ++ frames_of held)
    × (n ≡ length held)
flush_queue-empties_example =
    flush_queue-empties flushing 1 (omega arith) (λ v. a_ring-IsValid) pool-IsValid
      (omega (arith, twelve_held, none_free))

abbrev no_flows : Flows
no_flows = record { counters = record { next_wan = 0; pkt_wrr_seq = 7 }; table = none }

abbrev a_key : FlowKey
a_key = record { src_ip = 10; dst_ip = 20; src_port = 1000; dst_port = 80; protocol = 6 }

pick_for_local-IsInService_example :
    (dp : ℕ) × ((fwd_wan_pick_for_local 0 3500 a_config a_forwarder a_state
        (a_blend ∷ [])
        no_flows
        (some a_profile)
        true
        true
        a_key
        60).0
      ≡ some dp)
    × IsInService a_state dp
pick_for_local-IsInService_example =
    pick_for_local-IsInService 0 3500 a_config a_forwarder a_state (a_blend ∷ []) no_flows
      (some a_profile) true true a_key 60 (omega arith)

legacy : fwd_wan_dp_for_legacy_cfg 3500 a_forwarder a_state 7 ≡ none
unfolding fwd_wan_dp_for_legacy_cfg legacy_loop is_tapering wan_drain_taper_pct
legacy = refl

-- Six workers have two packets each for the WAN.
depth : fwd_mid_to_wan_depth a_forwarder 1 ≡ 12
unfolding fwd_mid_to_wan_depth depth_loop ring_count
depth = refl
