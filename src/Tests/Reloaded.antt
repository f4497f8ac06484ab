-- ===== src/Tests/Reloaded.antt =====
-- Reloads of the policies, src/core/forwarder_crypto_runtime.c, packets from the WANs,
-- src/core/dataplane_wan.c, and the choice of a worker, src/core/crypto_route.c, at concrete inputs.
use ne_multi_core.Base.{
  if◌then◌else◌, ltb, take, ◌≡◌, ◌+◌, refl, arith, inr, true, false, none, some, [], ◌∷◌, replicate,
}
use ne_multi_core.Base.Int.{pos}
use ne_multi_core.Config.{AppConfig, CryptoPolicy, policy_action_encrypt_l2}
use ne_multi_core.Fragment.Split.{plain0, plain1}
use ne_multi_core.Circular.{window}
use ne_multi_core.Runtime.Policies.{
  Context, Generation, Contexts, Making, found, found_at, with_policy, or_found,
  profile_reload_grace_ms, fwd_crypto_ctx_for_policy_action_id,
}
use ne_multi_core.Runtime.Policies.Rebuild.{
  fwd_crypto_rebuild, rebuilt, policies_loop, one_policy, with_context, context_of, indexed,
  profiles_loop, emptied, reused, reuse, new_context,
}
use ne_multi_core.Runtime.Policies.Reload.{IsUnchanged, rebuilt-keeps_keys}
use ne_multi_core.Runtime.{
  max_profiles, fwd_crypto_ensure_profile_slots, ensure_loop, one_profile, after_alloc,
  profile_slot_alloc, alloc_unless, claimed, free_loop, fwd_crypto_profile_slot_for_id, slot_loop,
  made_ready, fresh_slot,
}
use ne_multi_core.Runtime.Slots.{OneEach}
use ne_multi_core.Runtime.Ensure.{AllHold}
use ne_multi_core.Runtime.Reachable.{Reachable-OneEach}
use ne_multi_core.Reload.{
  Stops, Running, forwarder_reload_config_impl, rebuild_contexts, finish_reload,
}
use ne_multi_core.Reload.Grace.{old_policy_in_grace}
use ne_multi_core.Reload.Served.{AllTables, reload_serves}
use ne_multi_core.Dataplane.Wan.{WanEnv, WanSide}
use ne_multi_core.Dataplane.Wan.Process.{dataplane_process_wan}
use ne_multi_core.Dataplane.Wan.Process.Conserved.{IsFit, IsSettled, process_wan-IsSettled}
use ne_multi_core.CryptoRoute.{dp_crypto_pick_wan_worker, dp_crypto_worker_idx_for_cpu, cpu_loop}
use ne_multi_core.CryptoRoute.Same.{split-SameWorker}
use ne_multi_core.Tests.Configured.{a_config}
use ne_multi_core.Tests.Passing.{a_packet, a_ring, a_ring-IsValid, a_pool, a_pool-IsValid, a_job}
use ne_multi_core.Tests.Sealed.{
  plain_cipher, sender, keys, nonces, packet, a_plan, planned, wire_half, split_made,
}
use ne_multi_core.Tests.Slotted.{empty_slots, empty-Reachable}

abbrev a_policy : CryptoPolicy
a_policy = record {
  id = pos 9;
  db_id = pos 40;
  priority = pos 1;
  action = policy_action_encrypt_l2;
  protocol = 0;
  src_port_from = pos 0;
  src_port_to = pos 0;
  dst_port_from = pos 0;
  dst_port_to = pos 0;
  src_any = true;
  dst_any = true;
  src_negate = false;
  dst_negate = false;
  src_net = 0;
  src_mask = 0;
  dst_net = 0;
  dst_mask = 0;
  crypto_mode = pos 1;
  aes_bits = pos 128;
  key = 1 ∷ 2 ∷ [];
}

abbrev old_context : Context
old_context = record { keys = keys; crypto_mode = pos 0; policy_id = pos 0; profile_id = pos 0 }

abbrev old : Generation
old = record {
  ready = λ i. true;
  contexts = λ i. old_context;
  index = λ a id. some 0;
  profile_of = λ a id. pos 1;
  policies = a_policy ∷ [];
}

abbrev making : Making
making = record { base_ok = true; init_ok = true; derive = λ bits key. key }

-- The new configuration has another policy in front.
abbrev new_config : AppConfig
new_config = record a_config {
  policies = record a_policy { id = pos 5 } ∷ a_policy ∷ [];
  profiles = [];
}

had_context : found old policy_action_encrypt_l2 9 ≡ some (a_policy, old_context)
unfolding found found_at with_policy
had_context = refl

moved : (rebuilt making new_config old).index policy_action_encrypt_l2 9 ≡ some 1
unfolding rebuilt policies_loop one_policy with_context context_of reused reuse or_found new_context
    indexed profiles_loop emptied found found_at with_policy
moved = refl

unchanged : IsUnchanged a_policy a_policy
unchanged = (refl, refl, inr refl)

rebuilt-keeps_keys_example :
    (k : Context) × (found (rebuilt making new_config old) policy_action_encrypt_l2 9
      ≡ some (a_policy, k))
    × (k.keys ≡ keys)
rebuilt-keeps_keys_example =
    rebuilt-keeps_keys making new_config old policy_action_encrypt_l2 9 1 a_policy a_policy
      old_context had_context moved refl unchanged

abbrev contexts : Contexts
contexts = record { active = old; prev = old; prev_grace_active = false; prev_grace_until_ms = 0 }

abbrev no_policies : AppConfig
no_policies = record a_config { policies = []; profiles = [] }

abbrev wan_env : WanEnv
wan_env = record {
  worker = 1;
  now_ns = 0;
  now_ms = 0;
  cfg = a_config;
  local_count = 2;
  frame_size = 4096;
  src_mac = λ li. replicate 6 5;
  fake_ethertype = 0x88B5;
  fake_protocol = 99;
  cipher = λ cp k. plain_cipher;
  spoilt = λ p. p;
  base_decrypt = λ p. some p;
  decrypt_l3 = λ cp k p. (some p, p);
  decrypt_l4 = λ cp k p. (some p, p);
  open_l3 = λ cp k p. none;
  open_l4 = λ cp k p. none;
}

abbrev wan_side : WanSide
wan_side = record {
  pool = a_pool;
  mid_to_local = λ li w. a_ring;
  mem = λ addr. a_packet;
  slots = empty_slots;
  contexts = contexts;
}

fit : IsFit wan_env wan_side
unfolding window
fit = (a_pool-IsValid, omega arith, λ li w. a_ring-IsValid)

process_wan-IsSettled_example :
    IsSettled wan_env wan_side (dataplane_process_wan wan_env wan_side a_job) a_job
process_wan-IsSettled_example = process_wan-IsSettled wan_env wan_side a_job fit

core_runs : dp_crypto_worker_idx_for_cpu 7 ≡ some 4
unfolding dp_crypto_worker_idx_for_cpu cpu_loop
core_runs = refl

split-SameWorker_example :
    let p = packet 1477 in
    (dp_crypto_pick_wan_worker new_config contexts sender.fake (wire_half 0 (plain0 a_plan p))
      ≡ some 2)
    × (dp_crypto_pick_wan_worker new_config contexts sender.fake (wire_half 1 (plain1 a_plan p))
        ≡ some 2)
split-SameWorker_example =
    let p = packet 1477 in
    split-SameWorker new_config contexts plain_cipher sender 4096 nonces true 7 p
      (wire_half 0 (plain0 a_plan p)) (wire_half 1 (plain1 a_plan p)) a_plan (λ id i. refl)
      (omega arith) (omega arith) refl refl (omega arith) planned split_made

abbrev running : Running
running = record {
  cfg = no_policies;
  blends = [];
  slots = empty_slots;
  counters = record { next_wan = 0; pkt_wrr_seq = 0 };
  contexts = contexts;
}

abbrev no_stops : Stops
no_stops = record {
  at_start = false;
  before_rebuild = false;
  after_rebuild = false;
  at_end = false;
}

abbrev one_profile_config : AppConfig
one_profile_config = record new_config { profiles = take 1 a_config.profiles }

reload_runs :
    (forwarder_reload_config_impl making 1000 no_stops one_profile_config running).0 ≡ true
unfolding forwarder_reload_config_impl rebuild_contexts finish_reload fwd_crypto_rebuild
    fwd_crypto_ensure_profile_slots ensure_loop one_profile after_alloc profile_slot_alloc
    alloc_unless claimed free_loop fwd_crypto_profile_slot_for_id slot_loop made_ready fresh_slot
reload_runs = refl

reload_serves_example :
    let t = (forwarder_reload_config_impl making 1000 no_stops one_profile_config running).1 in
    OneEach t.slots
    × AllHold t.slots one_profile_config.profiles max_profiles
    × AllTables running.slots t.slots
reload_serves_example =
    reload_serves making 1000 no_stops one_profile_config running
      (Reachable-OneEach empty-Reachable) reload_runs

old_policy_in_grace_example :
    let c =
      (forwarder_reload_config_impl making 1000 no_stops one_profile_config running).1.contexts in
    (fwd_crypto_ctx_for_policy_action_id 2000 policy_action_encrypt_l2 9 c).0
    ≡ or_found
        (found c.active policy_action_encrypt_l2 9)
        (if ltb 2000 (1000 + profile_reload_grace_ms) then some (a_policy, old_context) else none)
old_policy_in_grace_example =
    old_policy_in_grace making 1000 2000 no_stops one_profile_config running
      policy_action_encrypt_l2 9 (a_policy, old_context) had_context refl reload_runs
