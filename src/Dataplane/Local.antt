-- ===== src/Dataplane/Local.antt =====
-- Packets from the LANs, src/core/dataplane_local.c: the state of the data path, `push_to_wan` and
-- `push_split_to_wan`.
pub mod Process
pub mod Accounted
pub mod Halves
use ne_multi_core.Base.{
  List, ℕ, ◌+◌, ◌%◌, ◌^◌, Bool, true, false, ◌&&◌, ◌||◌, not, Option, none, some, ◌++◌, length,
  take, drop, get_elem?, ltb, leb, ◌==◌, if◌then◌else◌,
}
use ne_multi_core.Base.Int.{ℤ, pos, eqb_ℤ}
use ne_multi_core.Config.{
  AppConfig, ProfileConfig, CryptoPolicy, policy_action_bypass, policy_action_encrypt_l2,
  policy_action_encrypt_l3, policy_action_encrypt_l4,
}
use ne_multi_core.Config.Policy.{Flow}
use ne_multi_core.Fragment.{Bytes}
use ne_multi_core.Fragment.Split.{
  Encrypt, Split, frag_need_split, frag_need_split_l2, frag_split_and_encrypt,
  frag_split_and_encrypt_l2,
}
use ne_multi_core.Fragment.LayerFour.{frag_need_split_l4, frag_split_and_encrypt_l4}
use ne_multi_core.Flow.Hash.{FlowKey}
use ne_multi_core.Flow.Table.{FlowTable, Counters}
use ne_multi_core.Ring.{Packet, Ring, ring_count, ring_try_push}
use ne_multi_core.Pool.{Pool, frame_alloc, frame_free}
use ne_multi_core.Wan.{WanState, Forwarder, update, fwd_wan_has_tx_room}
use ne_multi_core.Wan.Blend.{Blend}
use ne_multi_core.Wan.Select.{Flows, fwd_wan_pick_for_local}
use ne_multi_core.Dataplane.{dp_parse_flow, dp_apply_wan_l2, dp_ring_push}
use ne_multi_core.Dataplane.Policy.{Picked, pick_profile_policy}

-- The encryption that the data path uses: whether the context of a policy is ready, and at each layer
-- the encryption of a packet and of one half under a policy. `none` is a failure.
pub record Cipher : Type 0 where
  pub policy_ready : CryptoPolicy → Bool
  pub encrypt : ℕ → CryptoPolicy → Bytes → Option Bytes
  pub encrypt_fragment : ℕ → CryptoPolicy → Encrypt

-- What one call reads: the worker that makes it, the clock, whether `malloc` succeeds, the
-- configuration, the WANs, and the addresses (destination, source) of each WAN.
pub record LocalEnv : Type 0 where
  pub worker : ℕ
  pub now : ℕ
  pub malloc_ok : Bool
  pub cfg : AppConfig
  pub wans : WanState
  pub blends : List Blend
  pub local_count : ℕ
  pub frame_size : ℕ
  pub wan_macs : ℕ → Bytes × Bytes
  pub cipher : Cipher

-- What it may change: the rings and the pool, the frames, and of each profile its flow table, when a
-- slot with it is ready.
pub record LocalState : Type 0 where
  pub fwd : Forwarder
  pub mem : ℕ → Bytes
  pub counters : Counters
  pub tables : ℤ → Option FlowTable
  pub next_pkt_id : ℕ

abbrev pub with_pool : Forwarder → Pool → Forwarder
with_pool fwd pool = record fwd { pool = pool }

abbrev pub with_ring : Forwarder → ℕ → ℕ → Ring → Forwarder
with_ring fwd dp w ring = record fwd {
  mid_to_wan = update fwd.mid_to_wan dp (update (fwd.mid_to_wan dp) w ring);
}

-- The bytes of a packet are written over those of its frame.
abbrev pub store_packet : (ℕ → Bytes) → ℕ → Bytes → ℕ → Bytes
store_packet mem addr p = update mem addr (p ++ drop (length p) (mem addr))

-- NE_DIR_WAN, and the `uint8_t` index of the WAN.
abbrev pub to_wan : Packet → ℕ → Packet
to_wan job wan_dp = record job { dir = 1; wan_idx = wan_dp % 256 }

-- `free(job)`: the label `drop`.
unfoldable pub drop_job : Forwarder → Packet → Forwarder
drop_job fwd job = with_pool fwd (frame_free fwd.pool job.addr)

unfoldable pub push_to_wan : LocalEnv → Forwarder → Packet → ℕ → Forwarder
unfolding dp_ring_push
push_to_wan env fwd job wan_dp =
    let (ok, pool, ring) =
      dp_ring_push env.frame_size fwd.pool (fwd.mid_to_wan wan_dp env.worker) (to_wan job wan_dp) in
    with_ring (with_pool fwd pool) wan_dp env.worker ring

-- The push of the second half: it is given back if it does not fit, and the call succeeds.
unfoldable pub push_tail : LocalEnv → Forwarder → ℕ → Packet → Ring → Option Ring → Forwarder
push_tail env fwd wan_dp tail tx none =
    with_ring (with_pool fwd (frame_free fwd.pool tail.addr)) wan_dp env.worker tx
push_tail env fwd wan_dp tail tx (some tx') = with_ring fwd wan_dp env.worker tx'

unfoldable pub push_halves : LocalEnv → Forwarder → ℕ → Packet → Option Ring → Option ℕ × Forwarder
unfolding push_tail
push_halves env fwd wan_dp tail none = (none, with_pool fwd (frame_free fwd.pool tail.addr))
push_halves env fwd wan_dp tail (some tx) =
    (some tail.addr, push_tail env fwd wan_dp tail tx (ring_try_push tx tail))

unfoldable pub push_with_tail :
    LocalEnv → Forwarder → Packet → ℕ → ℕ → ℕ → Option ℕ × Pool → Option ℕ × Forwarder
unfolding push_halves
push_with_tail env fwd job l1 l2 wan_dp (none, pool) = (none, with_pool fwd pool)
push_with_tail env fwd job l1 l2 wan_dp (some addr, pool) =
    let tail : Packet = record {
      addr = addr;
      len = l2;
      dir = 1;
      wan_idx = wan_dp % 256;
      local_idx = 0;
    } in
    push_halves env (with_pool fwd pool) wan_dp tail
      (ring_try_push (fwd.mid_to_wan wan_dp env.worker) (to_wan (record job { len = l1 }) wan_dp))

-- The frame of the second half, or `none` for the -1 of the source.
unfoldable pub push_split_to_wan : LocalEnv → Forwarder → Packet → ℕ → ℕ → ℕ → Option ℕ × Forwarder
unfolding push_with_tail
push_split_to_wan env fwd job l1 l2 wan_dp =
    let tx = fwd.mid_to_wan wan_dp env.worker in
    if leb fwd.wan_count wan_dp || ltb tx.cap ((ring_count tx + 2) % 2 ^ 32)
    then (none, fwd)
    else if (l1 == 0) || (l2 == 0) || ltb env.frame_size l1 || ltb env.frame_size l2
    then (none, fwd)
    else push_with_tail env fwd job l1 l2 wan_dp (frame_alloc fwd.pool)
