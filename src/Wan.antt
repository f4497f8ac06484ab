-- ===== src/Wan.antt =====
-- WANs that leave service, src/core/forwarder_wan.c: `wan_drain_slot`, `wan_seed_weight_from_cfg`,
-- `wan_drain_taper_pct`, `fwd_wan_dp_ok_for_new_traffic`, `fwd_wan_is_stopped`, `fwd_wan_mark_stopped`,
-- `fwd_wan_ifname_dataplane_in_cfg`, `fwd_wan_flush_queue`, `fwd_wan_has_tx_room`,
-- `wan_drain_finish_slot`, `fwd_wan_drain_tick` and `fwd_wan_reset_on_init`. The static variables of the
-- file are a state, the clock is an argument (one reading for each call), and the detaching of the XDP
-- program is left to the system.
pub mod Drain
pub mod Flush
pub mod FlushQueue
pub mod Blend
pub mod Select
pub mod Removal
use ne_multi_core.Base.{
  ℕ, zero, suc, ◌+◌, ◌-◌, ◌*◌, ◌/◌, ◌%◌, ◌^◌, min, Bool, true, false, ◌&&◌, ◌||◌, not, Option, none,
  some, List, [], ◌∷◌, ltb, leb, ◌==◌, if◌then◌else◌,
}
use ne_multi_core.Base.Int.{ℤ, pos, negsuc, ltb_ℤ, eqb_ℤ}
use ne_multi_core.Config.{AppConfig, ProfileConfig, WanConfig}
use ne_multi_core.Config.Owner.{same_name}
use ne_multi_core.Ring.{Packet, Ring, ring_count, ring_try_pop}
use ne_multi_core.Pool.{Pool, frame_free}

-- WAN_DRAIN_GRACE_MS, MAX_INTERFACES, NE_CRYPTO_WORKERS, NE_BATCH_SIZE.
abbrev pub wan_drain_grace_ms : ℕ
wan_drain_grace_ms = 5 * 1000

abbrev pub max_interfaces : ℕ
max_interfaces = 16

abbrev pub ne_crypto_workers : ℕ
ne_crypto_workers = 6

abbrev pub ne_batch_size : ℕ
ne_batch_size = 64

pub record DrainSlot : Type 0 where
  pub active : Bool
  pub legacy_cfg_wan : ℕ
  pub seed_weight : ℤ
  pub ifname : List ℕ
  pub start_ms : ℕ
  pub until_ms : ℕ

abbrev pub no_drain : DrainSlot
no_drain = record {
  active = false;
  legacy_cfg_wan = 0;
  seed_weight = pos 0;
  ifname = [];
  start_ms = 0;
  until_ms = 0;
}

-- `wan_drains`, `wan_active_dp_count` and `wan_stopped`.
pub record WanState : Type 0 where
  pub drains : ℕ → DrainSlot
  pub active_dp_count : ℕ
  pub stopped : ℕ → Bool

-- What this file uses of `struct forwarder`: the rings from each worker to each WAN, the names and the
-- configured numbers of the WANs, and the free frames of the shared memory.
pub record Forwarder : Type 0 where
  pub wan_count : ℕ
  pub mid_to_wan : ℕ → ℕ → Ring
  pub wan_ifnames : ℕ → List ℕ
  pub wan_cfg_idx : ℕ → ℤ
  pub pool : Pool

-- A value for one index of an array.
abbrev pub update {ℓ} : {A : Type ℓ} → (ℕ → A) → ℕ → A → ℕ → A
update f i a j = if j == i then a else f j

unfoldable pub weight_loop : List ℤ → List ℤ → ℤ → ℤ → ℤ
weight_loop [] ws cfg_wan best = best
weight_loop (x ∷ xs) [] cfg_wan best = best
weight_loop (x ∷ xs) (w ∷ ws) cfg_wan best =
    weight_loop xs ws cfg_wan (if eqb_ℤ x cfg_wan && ltb_ℤ best w then w else best)

unfoldable pub profiles_loop : List ProfileConfig → ℤ → ℤ → ℤ
unfolding weight_loop
profiles_loop [] cfg_wan best = best
profiles_loop (p ∷ ps) cfg_wan best =
    profiles_loop ps cfg_wan (weight_loop p.wan_indices p.wan_bandwidth_weight cfg_wan best)

-- The two lists of a profile are equally long.
unfoldable pub wan_seed_weight_from_cfg : AppConfig → ℤ → ℤ
unfolding profiles_loop
wan_seed_weight_from_cfg cfg cfg_wan = profiles_loop cfg.profiles cfg_wan (pos 1)

unfoldable pub wan_drain_taper_pct : ℕ → WanState → ℕ → ℕ
wan_drain_taper_pct now s dp =
    let left = (s.drains dp).until_ms - now in
    if leb max_interfaces dp || not (s.drains dp).active
    then 0
    else if leb (s.drains dp).until_ms now
    then 0
    else left * 100 % 2 ^ 64 / wan_drain_grace_ms

unfoldable pub fwd_wan_dp_ok_for_new_traffic : WanState → ℕ → Bool
fwd_wan_dp_ok_for_new_traffic s dp =
    if leb max_interfaces dp || s.stopped dp
    then false
    else if (s.drains dp).active
    then false
    else ltb dp s.active_dp_count

unfoldable pub fwd_wan_is_stopped : WanState → ℕ → Bool
fwd_wan_is_stopped s dp = if leb max_interfaces dp then true else s.stopped dp

unfoldable pub fwd_wan_mark_stopped : WanState → ℕ → WanState
fwd_wan_mark_stopped s dp =
    if leb max_interfaces dp then s else record s { stopped = update s.stopped dp true }

unfoldable pub ifname_loop : List WanConfig → List ℕ → Bool
ifname_loop [] name = false
ifname_loop (w ∷ ws) name =
    let rest = ifname_loop ws name in
    if not w.dataplane then rest else if same_name w.ifname name then true else rest

unfoldable pub fwd_wan_ifname_dataplane_in_cfg : AppConfig → List ℕ → Bool
unfolding ifname_loop
fwd_wan_ifname_dataplane_in_cfg cfg name = ifname_loop cfg.wans name

-- The pops of one ring until it is empty, with the frames given back to the pool: the ring, the pool
-- and the number of packets. The fuel bounds the pops; a loop that meets the empty ring ends there.
unfoldable pub flush_loop : ℕ → Ring → Pool → ℕ → Ring × Pool × ℕ
flush_loop zero r pool dropped = (r, pool, dropped)
flush_loop (suc fuel) r pool dropped = elim (ring_try_pop r) [
  | none ↦ (r, pool, dropped)
  | some (pkt, r') ↦ flush_loop fuel r' (frame_free pool pkt.addr) (dropped + 1)
]

-- The workers that are left, and the number of this one.
unfoldable pub flush_workers : ℕ → ℕ → ℕ → Forwarder → ℕ → Forwarder × ℕ
unfolding flush_loop
flush_workers zero w wan_idx fwd dropped = (fwd, dropped)
flush_workers (suc left) w wan_idx fwd dropped =
    let ring = fwd.mid_to_wan wan_idx w in
    let (ring', pool', n) = flush_loop (ring_count ring) ring fwd.pool dropped in
    let rings = update fwd.mid_to_wan wan_idx (update (fwd.mid_to_wan wan_idx) w ring') in
    flush_workers left (w + 1) wan_idx (record fwd { mid_to_wan = rings; pool = pool' }) n

unfoldable pub fwd_wan_flush_queue : Forwarder → ℕ → Forwarder × ℕ
unfolding flush_workers
fwd_wan_flush_queue fwd wan_idx =
    if leb fwd.wan_count wan_idx then (fwd, 0) else flush_workers ne_crypto_workers 0 wan_idx fwd 0

-- `worker` is the index of the calling worker.
pub fwd_wan_has_tx_room : ℕ → Forwarder → ℕ → Bool
fwd_wan_has_tx_room worker fwd wan_idx =
    let r = fwd.mid_to_wan wan_idx worker in
    if leb fwd.wan_count wan_idx then false else ltb ((ring_count r + ne_batch_size) % 2 ^ 32) r.cap

pub wan_drain_finish_slot : Forwarder → WanState → ℕ → Forwarder × WanState
unfolding fwd_wan_flush_queue
wan_drain_finish_slot fwd s dp =
    if leb max_interfaces dp || not (s.drains dp).active then (fwd, s) else (
      (fwd_wan_flush_queue fwd dp).0,
      record s {
        stopped = update s.stopped dp true;
        drains = update s.drains dp (record (s.drains dp) { active = false });
      },
    )

-- The guards of the loop of `fwd_wan_drain_tick`.
abbrev pub drain_over : ℕ → WanState → ℕ → Bool
drain_over now s dp =
    (s.drains dp).active
    && not (ltb 0 (wan_drain_taper_pct now s dp))
    && leb (s.drains dp).until_ms now

-- The slots that are left, and the number of this one.
pub tick_loop : ℕ → ℕ → ℕ → Forwarder → WanState → Forwarder × WanState
unfolding wan_drain_finish_slot
tick_loop now zero dp fwd s = (fwd, s)
tick_loop now (suc left) dp fwd s =
    let (fwd', s') = wan_drain_finish_slot fwd s dp in
    let over = tick_loop now left (dp + 1) fwd' s' in
    let rest = tick_loop now left (dp + 1) fwd s in if drain_over now s dp then over else rest

pub fwd_wan_drain_tick : ℕ → Forwarder → WanState → Forwarder × WanState
unfolding tick_loop
fwd_wan_drain_tick now fwd s = tick_loop now (min fwd.wan_count max_interfaces) 0 fwd s

unfoldable pub fwd_wan_reset_on_init : ℕ → WanState
fwd_wan_reset_on_init wan_count = record {
  drains = λ dp. no_drain;
  active_dp_count = wan_count;
  stopped = λ dp. false;
}
