-- ===== src/Reload/Served.antt =====
-- The slots of the profiles after a reload, src/core/forwarder_reload.c.
use ne_multi_core.Base.{
  ℕ, zero, suc, ◌≡◌, ◌⊎◌, refl, sym, ap, ◌∙◌, subst, arith, ltb, ◌||◌, not, inl, inr, Bool, true,
  false, List, [], ◌∷◌, if◌then◌else◌, Bool-cases,
}
use ne_multi_core.Base.Int.{ℤ, eqb_ℤ_refl}
use ne_multi_core.Config.{AppConfig, ProfileConfig}
use ne_multi_core.Wan.Blend.Begin.{fwd_wan_weight_blend_begin}
use ne_multi_core.Runtime.{
  fwd_crypto_profile_slot_for_id, max_profiles, cleared_slot, Slot, Slots, Tables, has_profile,
  fwd_crypto_ensure_profile_slots, fwd_crypto_cleanup_stale_profile_slots,
}
use ne_multi_core.Runtime.Slots.{Holds, OneEach}
use ne_multi_core.Runtime.Ensure.{
  AllHold, AllServed, ensure_profile_slots-AllServed, Fewer-OneEach, cleanup_stale-Fewer,
}
use ne_multi_core.Runtime.Windows.{
  fwd_crypto_sync_flow_table_windows, sync-same, SameTables, sync-SameTables,
}
use ne_multi_core.Runtime.Grown.{IsEmpty, Grown, ensure_profile_slots-Grown}
use ne_multi_core.Dataplane.Wan.Process.Plain.{if_cases}
use ne_multi_core.Runtime.Reachable.{sync-Fewer}
use ne_multi_core.Runtime.Policies.{
  Making, Contexts, fwd_crypto_snapshot_active_to_prev, fwd_crypto_clear_grace,
}
use ne_multi_core.Runtime.Policies.Rebuild.{fwd_crypto_rebuild}
use ne_multi_core.Reload.{
  Stops, Running, finish_reload, rebuild_contexts, forwarder_reload_config_impl,
}

AllHold-kept :
    (t u : Slots) (ps : List ProfileConfig) (room : ℕ)
    → ((k : ℕ) (pid : ℤ) → has_profile ps room pid ≡ true → Holds t k pid → Holds u k pid)
    → AllHold t ps room
    → AllHold u ps room
unfolding has_profile
AllHold-kept t u [] room keep h = tt
AllHold-kept t u (p ∷ ps) zero keep h = tt
AllHold-kept t u (p ∷ ps) (suc room) keep ((k, x), h) = (
  (k, keep k p.id (ground (arith, eqb_ℤ_refl p.id)) x),
  AllHold-kept t u ps room (λ j pid e. keep j pid (ground (arith, e))) h,
)

-- A slot of a configured profile stays.
cleaned-kept :
    (cfg : AppConfig) (grace : Bool) (s : Slots) (k : ℕ) (pid : ℤ)
    → has_profile cfg.profiles max_profiles pid ≡ true
    → Holds s k pid
    → Holds
        (fwd_crypto_cleanup_stale_profile_slots cfg grace
          (fwd_crypto_sync_flow_table_windows cfg s))
        k
        pid
unfolding fwd_crypto_cleanup_stale_profile_slots
cleaned-kept cfg grace s k pid known (lt, ready, id) =
    let (r, i) = sync-same cfg s k in
    let t = fwd_crypto_sync_flow_table_windows cfg s in
    let ready' : (t k).ready ≡ true = r ∙ ready in
    let id' : (t k).profile_id ≡ pid = i ∙ id in
    let known' : has_profile cfg.profiles max_profiles (t k).profile_id ≡ true =
      ap (has_profile cfg.profiles max_profiles) id' ∙ known in
    (lt, ground (arith, ready', known'), ground (arith, ready', known', id'))

-- A reload that succeeds.
abbrev pub IsReloaded : AppConfig → Bool × Running → Type 0
IsReloaded cfg (ok, t) = OneEach t.slots × (ok ≡ true → AllHold t.slots cfg.profiles max_profiles)

finish-IsReloaded :
    (stops : Stops) (cfg : AppConfig) (s : Running) (r : Bool × Contexts)
    → OneEach s.slots
    → AllHold s.slots cfg.profiles max_profiles
    → IsReloaded cfg (finish_reload stops cfg s r)
unfolding finish_reload
finish-IsReloaded stops cfg s (ok, c) one all =
    let grace = (if ok then c else fwd_crypto_clear_grace c).prev_grace_active in
    let synced = fwd_crypto_sync_flow_table_windows cfg s.slots in
    let cleaned = fwd_crypto_cleanup_stale_profile_slots cfg grace synced in
    elim (Bool-cases stops.after_rebuild) [
      | inl h ↦ rw h (one, λ e. absurd (cc e))
      | inr h ↦ rw h (
        Fewer-OneEach synced cleaned (cleanup_stale-Fewer cfg grace synced)
            (Fewer-OneEach s.slots synced (sync-Fewer cfg s.slots) one),
        λ e.
            AllHold-kept s.slots cleaned cfg.profiles max_profiles (cleaned-kept cfg grace s.slots)
              all,
      )
    ]

rebuild-IsReloaded :
    (m : Making) (now : ℕ) (stops : Stops) (cfg : AppConfig) (s : Running) (old : Slots)
    (r : Bool × Tables)
    → AllServed old cfg.profiles max_profiles r
    → IsReloaded cfg (rebuild_contexts m now stops cfg s r)
unfolding rebuild_contexts
rebuild-IsReloaded m now stops cfg s old (false, (t, g)) (one, keeps, all) =
    (one, λ e. absurd (cc e))
rebuild-IsReloaded m now stops cfg s old (true, (t, g)) (one, keeps, all) =
    elim (Bool-cases stops.before_rebuild) [
      | inl h ↦ rw h (one, λ e. absurd (cc e))
      | inr h ↦ rw h (
          finish-IsReloaded stops cfg (record s { slots = t; counters = g })
            (fwd_crypto_rebuild m cfg (fwd_crypto_snapshot_active_to_prev now s.contexts)) one
            (all refl))
    ]

reload-IsReloaded :
    (m : Making) (now : ℕ) (stops : Stops) (cfg : AppConfig) (s : Running)
    → OneEach s.slots
    → IsReloaded cfg (forwarder_reload_config_impl m now stops cfg s)
unfolding forwarder_reload_config_impl
reload-IsReloaded m now stops cfg s one = elim (Bool-cases stops.at_start) [
  | inl h ↦ rw h (one, λ e. absurd (cc e))
  | inr h ↦
      let blends =
        fwd_wan_weight_blend_begin now s.cfg cfg (fwd_crypto_profile_slot_for_id s.slots)
          s.blends in
      rw h (
        rebuild-IsReloaded m now stops cfg (record s { cfg = cfg; blends = blends }) s.slots
          (fwd_crypto_ensure_profile_slots cfg (s.slots, s.counters))
          (ensure_profile_slots-AllServed cfg s.slots s.counters one))
]

-- A slot in use has tables: those it had, if it was in use for the profile before, and empty ones
-- otherwise.
abbrev pub HasTables : Slots → Slots → ℕ → Type 0
HasTables s t k =
    (((s k).ready ≡ true) × ((s k).profile_id ≡ (t k).profile_id) × SameTables (s k) (t k))
    ⊎ (((s k).ready ≡ false) × IsEmpty (t k))

abbrev pub AllTables : Slots → Slots → Type 0
AllTables s t = (k : ℕ) → (t k).ready ≡ true → HasTables s t k

-- The windows change no table, so a slot that is new stays empty.
synced-IsEmpty : (x y : Slot) → SameTables x y → IsEmpty x → IsEmpty y
synced-IsEmpty x y (b, l2, l3, l4) (b', l2', l3', l4') =
    (λ i. ap (λ f. f i) b ∙ b' i, λ w h. ap (λ f. f w) l2 ∙ l2' w h, l3 ∙ l3', l4 ∙ l4')

sync-AllTables :
    (cfg : AppConfig) (s t : Slots)
    → Grown s t
    → AllTables s (fwd_crypto_sync_flow_table_windows cfg t)
sync-AllTables cfg s t grown k r =
    let u = fwd_crypto_sync_flow_table_windows cfg t in
    let (ready, id) = sync-same cfg t k in
    let tables = sync-SameTables cfg t k in
    elim (grown k) [
      | inl e ↦ inl (
        sym (ap (λ x. x.ready) e) ∙ sym ready ∙ r,
        sym (ap (λ x. x.profile_id) e) ∙ sym id,
        subst (λ x. SameTables x (u k)) e tables,
      )
      | inr (was, empty) ↦ inr (was, synced-IsEmpty (t k) (u k) tables empty)
    ]

-- What is left in use by the cleaning up is as it was.
cleaned-same :
    (cfg : AppConfig) (grace : Bool) (s : Slots) (k : ℕ)
    → (fwd_crypto_cleanup_stale_profile_slots cfg grace s k).ready ≡ true
    → fwd_crypto_cleanup_stale_profile_slots cfg grace s k ≡ s k
unfolding fwd_crypto_cleanup_stale_profile_slots cleared_slot
cleaned-same cfg grace s k =
    if_cases (λ (x : Slot). x.ready ≡ true → x ≡ s k) (grace || not (ltb k max_profiles)) (s k) _
      (λ h r. refl)
      (λ h.
        if_cases (λ (x : Slot). x.ready ≡ true → x ≡ s k) (not (s k).ready) (s k) _ (λ h r. refl)
          (λ h.
            if_cases (λ (x : Slot). x.ready ≡ true → x ≡ s k)
              (has_profile cfg.profiles max_profiles (s k).profile_id) (s k) (cleared_slot (s k))
              (λ h r. refl) (λ h r. absurd (cc r))))

HasTables-same : (s t u : Slots) (k : ℕ) → u k ≡ t k → HasTables s t k → HasTables s u k
HasTables-same s t u k e (inl (r, id, tables)) =
    inl (r, id ∙ sym (ap (λ x. x.profile_id) e), subst (SameTables (s k)) (sym e) tables)
HasTables-same s t u k e (inr (r, empty)) = inr (r, subst IsEmpty (sym e) empty)

finish-AllTables :
    (stops : Stops) (cfg : AppConfig) (s : Slots) (t : Running) (r : Bool × Contexts)
    → Grown s t.slots
    → (finish_reload stops cfg t r).0 ≡ true
    → AllTables s (finish_reload stops cfg t r).1.slots
unfolding finish_reload
finish-AllTables stops cfg s t (ok, c) grown =
    let grace = (if ok then c else fwd_crypto_clear_grace c).prev_grace_active in
    let synced = fwd_crypto_sync_flow_table_windows cfg t.slots in
    let cleaned = fwd_crypto_cleanup_stale_profile_slots cfg grace synced in
    elim (Bool-cases stops.after_rebuild) [
      | inl h ↦ rw h (λ e. absurd (cc e))
      | inr h ↦ rw h (λ e k r.
          let kept : cleaned k ≡ synced k = cleaned-same cfg grace synced k r in
          let in_use : (synced k).ready ≡ true = sym (ap (λ x. x.ready) kept) ∙ r in
          HasTables-same s synced cleaned k kept (sync-AllTables cfg s t.slots grown k in_use))
    ]

rebuild-AllTables :
    (m : Making) (now : ℕ) (stops : Stops) (cfg : AppConfig) (s : Slots) (t : Running)
    (r : Bool × Tables)
    → Grown s r.1.0
    → (rebuild_contexts m now stops cfg t r).0 ≡ true
    → AllTables s (rebuild_contexts m now stops cfg t r).1.slots
unfolding rebuild_contexts
rebuild-AllTables m now stops cfg s t (false, (slots, g)) grown = λ e. absurd (cc e)
rebuild-AllTables m now stops cfg s t (true, (slots, g)) grown =
    elim (Bool-cases stops.before_rebuild) [
      | inl h ↦ rw h (λ e. absurd (cc e))
      | inr h ↦ rw h (
          finish-AllTables stops cfg s (record t { slots = slots; counters = g })
            (fwd_crypto_rebuild m cfg (fwd_crypto_snapshot_active_to_prev now t.contexts)) grown)
    ]

reload-AllTables :
    (m : Making) (now : ℕ) (stops : Stops) (cfg : AppConfig) (s : Running)
    → (forwarder_reload_config_impl m now stops cfg s).0 ≡ true
    → AllTables s.slots (forwarder_reload_config_impl m now stops cfg s).1.slots
unfolding forwarder_reload_config_impl
reload-AllTables m now stops cfg s = elim (Bool-cases stops.at_start) [
  | inl h ↦ rw h (λ e. absurd (cc e))
  | inr h ↦
      let blends =
        fwd_wan_weight_blend_begin now s.cfg cfg (fwd_crypto_profile_slot_for_id s.slots)
          s.blends in
      rw h (
        rebuild-AllTables m now stops cfg s.slots (record s { cfg = cfg; blends = blends })
          (fwd_crypto_ensure_profile_slots cfg (s.slots, s.counters))
          (ensure_profile_slots-Grown cfg s.slots s.counters))
]

-- After a reload that succeeds, every profile of the new configuration has a slot, and no profile has two:
-- what is cleaned up are slots of other profiles. Each slot in use then has its tables: if it was in use
-- before it is for the same profile, with the flows and the halves that wait as they were, and otherwise
-- its flow table and its reassembly tables at layers 2 (of every worker), 3 and 4 are empty. No profile
-- has two slots before.
pub reload_serves :
    (m : Making) (now : ℕ) (stops : Stops) (cfg : AppConfig) (s : Running)
    → OneEach s.slots
    → (forwarder_reload_config_impl m now stops cfg s).0 ≡ true
    → let t = (forwarder_reload_config_impl m now stops cfg s).1 in
      OneEach t.slots × AllHold t.slots cfg.profiles max_profiles × AllTables s.slots t.slots
reload_serves m now stops cfg s one ok =
    let (one', all) = reload-IsReloaded m now stops cfg s one in
    (one', all ok, reload-AllTables m now stops cfg s ok)
