-- ===== src/Reload/Grace.antt =====
-- The policies of before a reload of src/core/forwarder_reload.c, as the look-up of
-- src/core/forwarder_crypto_runtime.c finds them.
use ne_multi_core.Base.{
  ℕ, ◌+◌, ◌≡◌, refl, sym, subst, inl, inr, Bool, true, false, none, some, ltb, if◌then◌else◌,
  Bool-cases, arith,
}
use ne_multi_core.Base.Int.{ℤ}
use ne_multi_core.Config.{AppConfig, CryptoPolicy}
use ne_multi_core.Wan.Blend.Begin.{fwd_wan_weight_blend_begin}
use ne_multi_core.Runtime.{Tables, fwd_crypto_profile_slot_for_id, fwd_crypto_ensure_profile_slots}
use ne_multi_core.Runtime.Policies.{
  profile_reload_grace_ms, Context, Making, Contexts, found, or_found, action_out,
  fwd_crypto_snapshot_active_to_prev, fwd_crypto_ctx_for_policy_action_id,
}
use ne_multi_core.Runtime.Policies.Rebuild.{fwd_crypto_rebuild}
use ne_multi_core.Runtime.Policies.Grace.{rebuilt_in_grace}
use ne_multi_core.Reload.{
  Stops, Running, finish_reload, rebuild_contexts, forwarder_reload_config_impl,
}

-- A reload that succeeds has rebuilt the contexts, and does not end the grace period.
finish-contexts :
    (stops : Stops) (cfg : AppConfig) (s : Running) (r : Bool × Contexts)
    → (finish_reload stops cfg s r).0 ≡ true
    → (finish_reload stops cfg s r).1.contexts ≡ r.1
unfolding finish_reload
finish-contexts stops cfg s (true, c) = elim (Bool-cases stops.after_rebuild) [
  | inl h ↦ rw h (λ e. refl)
  | inr h ↦ rw h (λ e. refl)
]
finish-contexts stops cfg s (false, c) = elim (Bool-cases stops.after_rebuild) [
  | inl h ↦ rw h (λ e. refl)
  | inr h ↦ rw h (λ e. absurd (ground (arith, e)))
]

rebuild-contexts :
    (m : Making) (now : ℕ) (stops : Stops) (cfg : AppConfig) (s : Running) (r : Bool × Tables)
    → (rebuild_contexts m now stops cfg s r).0 ≡ true
    → (rebuild_contexts m now stops cfg s r).1.contexts
      ≡ (fwd_crypto_rebuild m cfg (fwd_crypto_snapshot_active_to_prev now s.contexts)).1
unfolding rebuild_contexts
rebuild-contexts m now stops cfg s (false, (slots, g)) = λ e. absurd (cc e)
rebuild-contexts m now stops cfg s (true, (slots, g)) = elim (Bool-cases stops.before_rebuild) [
  | inl h ↦ rw h (λ e. absurd (cc e))
  | inr h ↦ rw h (
      finish-contexts stops cfg (record s { slots = slots; counters = g })
        (fwd_crypto_rebuild m cfg (fwd_crypto_snapshot_active_to_prev now s.contexts)))
]

reload-contexts :
    (m : Making) (now : ℕ) (stops : Stops) (cfg : AppConfig) (s : Running)
    → (forwarder_reload_config_impl m now stops cfg s).0 ≡ true
    → (forwarder_reload_config_impl m now stops cfg s).1.contexts
      ≡ (fwd_crypto_rebuild m cfg (fwd_crypto_snapshot_active_to_prev now s.contexts)).1
unfolding forwarder_reload_config_impl
reload-contexts m now stops cfg s = elim (Bool-cases stops.at_start) [
  | inl h ↦ rw h (λ e. absurd (cc e))
  | inr h ↦
      let blends =
        fwd_wan_weight_blend_begin now s.cfg cfg (fwd_crypto_profile_slot_for_id s.slots)
          s.blends in
      rw h (
        rebuild-contexts m now stops cfg (record s { cfg = cfg; blends = blends })
          (fwd_crypto_ensure_profile_slots cfg (s.slots, s.counters)))
]

-- After a reload that succeeds, for 3 s, the look-up of a context by action and id gives, for a policy
-- whose context was ready before, the context of the new policy with its action and id if that is ready,
-- and the policy's own old context otherwise; after that only contexts of new policies are found.
pub old_policy_in_grace :
    (m : Making) (now t : ℕ) (stops : Stops) (cfg : AppConfig) (s : Running) (action : ℤ) (id : ℕ)
    (r : CryptoPolicy × Context)
    → found s.contexts.active action id ≡ some r
    → action_out action ≡ false
    → (forwarder_reload_config_impl m now stops cfg s).0 ≡ true
    → let c' = (forwarder_reload_config_impl m now stops cfg s).1.contexts in
      (fwd_crypto_ctx_for_policy_action_id t action id c').0
      ≡ or_found
          (found c'.active action id)
          (if ltb t (now + profile_reload_grace_ms) then some r else none)
old_policy_in_grace m now t stops cfg s action id r was good ok =
    let old = if ltb t (now + profile_reload_grace_ms) then some r else none in
    subst
      (λ (c : Contexts).
        (fwd_crypto_ctx_for_policy_action_id t action id c).0
        ≡ or_found (found c.active action id) old)
      (sym (reload-contexts m now stops cfg s ok))
      (rebuilt_in_grace m cfg now t s.contexts action id r was good)
