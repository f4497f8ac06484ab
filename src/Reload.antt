-- ===== src/Reload.antt =====
-- A reload of the configuration while the workers run, `forwarder_reload_config_impl` of
-- src/core/forwarder_reload.c, in the thread that carries it out. What `forwarder_should_stop` says at
-- each of its calls is an argument.
pub mod Served
pub mod Grace
pub mod Removal
use ne_multi_core.Base.{ℕ, Bool, true, false, ◌&&◌, not, if◌then◌else◌, List}
use ne_multi_core.Config.{AppConfig}
use ne_multi_core.Flow.Table.{Counters}
use ne_multi_core.Wan.Blend.{Blend}
use ne_multi_core.Wan.Blend.Begin.{fwd_wan_weight_blend_begin}
use ne_multi_core.Runtime.{
  Slots, Tables, fwd_crypto_profile_slot_for_id, fwd_crypto_ensure_profile_slots,
  fwd_crypto_cleanup_stale_profile_slots,
}
use ne_multi_core.Runtime.Windows.{fwd_crypto_sync_flow_table_windows}
use ne_multi_core.Runtime.Policies.{
  Making, Contexts, fwd_crypto_snapshot_active_to_prev, fwd_crypto_clear_grace,
}
use ne_multi_core.Runtime.Policies.Rebuild.{fwd_crypto_rebuild}

-- Whether the process should stop: at the start, before the contexts are rebuilt, behind that, and at the
-- end.
pub record Stops : Type 0 where
  pub at_start : Bool
  pub before_rebuild : Bool
  pub after_rebuild : Bool
  pub at_end : Bool

pub record Running : Type 0 where
  pub cfg : AppConfig
  pub blends : List Blend
  pub slots : Slots
  pub counters : Counters
  pub contexts : Contexts

-- What comes behind the rebuild of the contexts.
unfoldable pub finish_reload : Stops → AppConfig → Running → Bool × Contexts → Bool × Running
finish_reload stops cfg s (ok, c) =
    let c' = if ok then c else fwd_crypto_clear_grace c in
    let slots =
      fwd_crypto_cleanup_stale_profile_slots cfg c'.prev_grace_active
        (fwd_crypto_sync_flow_table_windows cfg s.slots) in
    if stops.after_rebuild
    then (false, record s { contexts = c })
    else (not stops.at_end && ok, record s { contexts = c'; slots = slots })

-- What comes behind the allocation of slots.
unfoldable pub rebuild_contexts :
    Making → ℕ → Stops → AppConfig → Running → Bool × Tables → Bool × Running
unfolding finish_reload
rebuild_contexts m now stops cfg s (ok, (slots, counters)) =
    let s' = record s { slots = slots; counters = counters } in
    if not ok
    then (false, s')
    else if stops.before_rebuild
    then (false, s')
    else finish_reload stops cfg s'
        (fwd_crypto_rebuild m cfg (fwd_crypto_snapshot_active_to_prev now s.contexts))

-- Whether the reload succeeds, and the state after it. The new configuration is in use from the start on,
-- also when the reload fails later.
unfoldable pub forwarder_reload_config_impl :
    Making → ℕ → Stops → AppConfig → Running → Bool × Running
unfolding rebuild_contexts
forwarder_reload_config_impl m now stops cfg s =
    let blends =
      fwd_wan_weight_blend_begin now s.cfg cfg (fwd_crypto_profile_slot_for_id s.slots) s.blends in
    if stops.at_start
    then (false, s)
    else rebuild_contexts m now stops cfg (record s { cfg = cfg; blends = blends })
        (fwd_crypto_ensure_profile_slots cfg (s.slots, s.counters))
