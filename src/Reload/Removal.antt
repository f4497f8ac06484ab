-- ===== src/Reload/Removal.antt =====
-- A reload that only takes WANs away, src/core/forwarder_reload.c: `locals_topology_unchanged`,
-- `forwarder_is_wan_only_removal`, `forwarder_same_topology` and `forwarder_reload_wan_removal_impl`.
use ne_multi_core.Base.{
  ℕ, ◌≡◌, ◌<◌, refl, sym, ap, subst, ◌∙◌, inl, inr, arith, Bool, true, false, ◌&&◌, ◌||◌, not, List,
  [], ◌∷◌, In, length, leb, ◌==◌, if◌then◌else◌, Bool-cases,
}
use ne_multi_core.Config.{AppConfig, LocalConfig, WanConfig}
use ne_multi_core.Config.Owner.{same_name}
use ne_multi_core.Config.WanIndex.{config_count_dataplane_wans}
use ne_multi_core.Wan.{WanState, Forwarder, fwd_wan_ifname_dataplane_in_cfg}
use ne_multi_core.Wan.Removal.{fwd_wan_configure_removal_drains}
use ne_multi_core.Wan.Blend.Begin.{fwd_wan_weight_blend_begin}
use ne_multi_core.Runtime.{
  Tables, fwd_crypto_profile_slot_for_id, fwd_crypto_ensure_profile_slots,
  fwd_crypto_cleanup_stale_profile_slots,
}
use ne_multi_core.Runtime.Windows.{fwd_crypto_sync_flow_table_windows}
use ne_multi_core.Runtime.Policies.{
  Making, Contexts, fwd_crypto_snapshot_active_to_prev, fwd_crypto_clear_grace,
}
use ne_multi_core.Runtime.Policies.Rebuild.{fwd_crypto_rebuild}
use ne_multi_core.Reload.{Running}

unfoldable pub local_named : List LocalConfig → List ℕ → Bool
local_named [] name = false
local_named (l ∷ ls) name = same_name name l.ifname || local_named ls name

unfoldable pub wan_named : List WanConfig → List ℕ → Bool
wan_named [] name = false
wan_named (w ∷ ws) name = same_name name w.ifname || wan_named ws name

-- Every one of the LANs has its name among the others.
unfoldable pub locals_found : List LocalConfig → List LocalConfig → Bool
unfolding local_named
locals_found [] others = true
locals_found (l ∷ ls) others =
    let rest = locals_found ls others in if local_named others l.ifname then rest else false

unfoldable pub wans_found : List WanConfig → List WanConfig → Bool
unfolding wan_named
wans_found [] others = true
wans_found (w ∷ ws) others =
    let rest = wans_found ws others in if wan_named others w.ifname then rest else false

unfoldable pub locals_topology_unchanged : AppConfig → AppConfig → Bool
unfolding locals_found
locals_topology_unchanged old new =
    if not (length old.locals == length new.locals)
    then false
    else locals_found old.locals new.locals

-- Every dataplane WAN of the list is one of the configuration.
unfoldable pub all_in : AppConfig → List WanConfig → Bool
all_in cfg [] = true
all_in cfg (w ∷ ws) =
    let rest = all_in cfg ws in
    if not w.dataplane
    then rest
    else if not (fwd_wan_ifname_dataplane_in_cfg cfg w.ifname)
    then false
    else rest

-- Some dataplane WAN of the list is none of the configuration.
unfoldable pub one_missing : AppConfig → List WanConfig → Bool
one_missing cfg [] = false
one_missing cfg (w ∷ ws) =
    let rest = one_missing cfg ws in
    if not w.dataplane
    then rest
    else if not (fwd_wan_ifname_dataplane_in_cfg cfg w.ifname)
    then true
    else rest

unfoldable pub forwarder_is_wan_only_removal : AppConfig → AppConfig → Bool
unfolding all_in one_missing locals_topology_unchanged
forwarder_is_wan_only_removal old new =
    let old_dp = config_count_dataplane_wans old in
    let new_dp = config_count_dataplane_wans new in
    if not (locals_topology_unchanged old new)
    then false
    else if leb old_dp new_dp || (old_dp == 0) || (new_dp == 0)
    then false
    else if not (all_in old new.wans)
    then false
    else one_missing new old.wans

unfoldable pub forwarder_same_topology : AppConfig → AppConfig → Bool
unfolding locals_found wans_found
forwarder_same_topology a b =
    if not (length a.locals == length b.locals) || not (length a.wans == length b.wans)
    then false
    else if (length a.locals == 0) || (length a.wans == 0)
    then false
    else locals_found a.locals b.locals && wans_found a.wans b.wans

-- What comes behind the rebuild, which is not cut short here.
unfoldable pub finish_removal : Bool → AppConfig → Running → Bool × Contexts → Bool × Running
finish_removal stop_at_end cfg s (ok, c) =
    let c' = if ok then c else fwd_crypto_clear_grace c in
    let slots =
      fwd_crypto_cleanup_stale_profile_slots cfg c'.prev_grace_active
        (fwd_crypto_sync_flow_table_windows cfg s.slots) in
    (not stop_at_end && ok, record s { contexts = c'; slots = slots })

unfoldable pub rebuild_for_removal :
    Making → ℕ → Bool → AppConfig → Running → Bool × Tables → Bool × Running
unfolding finish_removal
rebuild_for_removal m now stop_at_end cfg s (ok, (slots, counters)) =
    let s' = record s { slots = slots; counters = counters } in
    if not ok
    then (false, s')
    else finish_removal stop_at_end cfg s'
        (fwd_crypto_rebuild m cfg (fwd_crypto_snapshot_active_to_prev now s.contexts))

-- The two Booleans are what `forwarder_should_stop` says at its two calls.
unfoldable pub forwarder_reload_wan_removal_impl :
    Making
    → ℕ
    → Bool
    → Bool
    → AppConfig
    → Running
    → Forwarder
    → WanState
    → (Bool × Running) × (Forwarder × WanState)
unfolding rebuild_for_removal forwarder_is_wan_only_removal
forwarder_reload_wan_removal_impl m now stop_at_start stop_at_end cfg s fwd wans =
    let blends =
      fwd_wan_weight_blend_begin now s.cfg cfg (fwd_crypto_profile_slot_for_id s.slots) s.blends in
    if not (forwarder_is_wan_only_removal s.cfg cfg) || stop_at_start
    then ((false, s), (fwd, wans))
    else (
      rebuild_for_removal m now stop_at_end cfg (record s { cfg = cfg; blends = blends })
          (fwd_crypto_ensure_profile_slots cfg (s.slots, s.counters)),
      fwd_wan_configure_removal_drains now s.cfg cfg fwd wans,
    )

all_in-In :
    (cfg : AppConfig) (ws : List WanConfig) (w : WanConfig)
    → all_in cfg ws ≡ true
    → In w ws
    → w.dataplane ≡ true
    → fwd_wan_ifname_dataplane_in_cfg cfg w.ifname ≡ true
unfolding all_in
all_in-In cfg [] w e x d = elim x [ ]
all_in-In cfg (v ∷ ws) w e (inl same) d =
    subst (λ (z : WanConfig). fwd_wan_ifname_dataplane_in_cfg cfg z.ifname ≡ true) (sym same)
      (head_in v (ap (λ (z : WanConfig). z.dataplane) (sym same) ∙ d) e)
  where
    head_in :
        (v : WanConfig)
        → v.dataplane ≡ true
        → all_in cfg (v ∷ ws) ≡ true
        → fwd_wan_ifname_dataplane_in_cfg cfg v.ifname ≡ true
    head_in v d e = ground (arith, d, e)
all_in-In cfg (v ∷ ws) w e (inr later) d = all_in-In cfg ws w (ground (arith, e)) later d

one_missing-In :
    (cfg : AppConfig) (ws : List WanConfig)
    → one_missing cfg ws ≡ true
    → (w : WanConfig) × In w ws
      × (w.dataplane ≡ true)
      × (fwd_wan_ifname_dataplane_in_cfg cfg w.ifname ≡ false)
unfolding one_missing
one_missing-In cfg [] e = absurd (cc e)
one_missing-In cfg (v ∷ ws) e = elim (Bool-cases v.dataplane) [
  | inr d ↦ let (w, x, dw, out) = one_missing-In cfg ws (rw d at e) in (w, inr x, dw, out)
  | inl d ↦ elim (Bool-cases (fwd_wan_ifname_dataplane_in_cfg cfg v.ifname)) [
    | inr out ↦ (v, inl refl, d, out)
    | inl there ↦
        let (w, x, dw, out) = one_missing-In cfg ws (rw (d, there) at e) in (w, inr x, dw, out)
  ]
]

-- A change that is taken for the removal of WANs only leaves fewer of them, all among the old ones, and
-- takes one away.
pub wan_only_removal_lem :
    (old new : AppConfig)
    → forwarder_is_wan_only_removal old new ≡ true
    → (config_count_dataplane_wans new < config_count_dataplane_wans old)
      × ((w : WanConfig)
          → In w new.wans
          → w.dataplane ≡ true
          → fwd_wan_ifname_dataplane_in_cfg old w.ifname ≡ true)
      × ((w : WanConfig) × In w old.wans
          × (w.dataplane ≡ true)
          × (fwd_wan_ifname_dataplane_in_cfg new w.ifname ≡ false))
unfolding forwarder_is_wan_only_removal
wan_only_removal_lem old new e =
    let fewer : config_count_dataplane_wans new < config_count_dataplane_wans old =
      ground (arith, e) in
    let all : all_in old new.wans ≡ true = ground (arith, e) in
    let missing : one_missing new old.wans ≡ true = ground (arith, e) in
    (fewer, λ w x d. all_in-In old new.wans w all x d, one_missing-In new old.wans missing)
