-- ===== src/Runtime/Policies/Grace.antt =====
-- The policies of before a reload, src/core/forwarder_crypto_runtime.c.
use ne_multi_core.Base.{
  if◌then◌else◌, ℕ, ◌+◌, ◌≡◌, refl, arith, true, false, none, some, length, ltb, leb, Bool-cases,
  inl, inr,
}
use ne_multi_core.Base.Int.{ℤ}
use ne_multi_core.Config.{AppConfig, CryptoPolicy}
use ne_multi_core.Runtime.Policies.{
  profile_reload_grace_ms, Context, Making, Generation, Contexts, found, found_at, or_found,
  action_out, fwd_crypto_maybe_expire_prev_grace, fwd_crypto_snapshot_active_to_prev,
  fwd_crypto_ctx_for_policy_action_id,
}
use ne_multi_core.Runtime.Policies.Rebuild.{fwd_crypto_rebuild}

-- The contexts when they are rebuilt behind a snapshot.
abbrev pub rebuilt_at : Making → AppConfig → ℕ → Contexts → Contexts
rebuilt_at m cfg now c = (fwd_crypto_rebuild m cfg (fwd_crypto_snapshot_active_to_prev now c)).1

-- A rebuild does not touch what a snapshot has kept.
rebuild-prev :
    (m : Making) (cfg : AppConfig) (c : Contexts)
    → let c' = (fwd_crypto_rebuild m cfg c).1 in
      (c'.prev ≡ c.prev)
      × (c'.prev_grace_active ≡ c.prev_grace_active)
      × (c'.prev_grace_until_ms ≡ c.prev_grace_until_ms)
unfolding fwd_crypto_rebuild
rebuild-prev m cfg c = ground arith

found-policies :
    (g : Generation) (a : ℤ) (id : ℕ) (r : CryptoPolicy × Context)
    → found g a id ≡ some r
    → ltb 0 (length g.policies) ≡ true
unfolding found found_at
found-policies g a id r e = ground (arith, e)

-- After a rebuild behind a snapshot, for 3 s, the look-up of a policy whose context was ready gives the
-- context of the new policy with its action and id if there is one, and its own otherwise; after that only
-- new policies are found.
pub rebuilt_in_grace :
    (m : Making) (cfg : AppConfig) (now t : ℕ) (c : Contexts) (action : ℤ) (id : ℕ)
    (r : CryptoPolicy × Context)
    → found c.active action id ≡ some r
    → action_out action ≡ false
    → let c' = rebuilt_at m cfg now c in
      (fwd_crypto_ctx_for_policy_action_id t action id c').0
      ≡ or_found
          (found c'.active action id)
          (if ltb t (now + profile_reload_grace_ms) then some r else none)
unfolding fwd_crypto_ctx_for_policy_action_id fwd_crypto_maybe_expire_prev_grace
    fwd_crypto_snapshot_active_to_prev
rebuilt_in_grace m cfg now t c action id r was good =
    let s = fwd_crypto_snapshot_active_to_prev now c in
    let (p, g, u) = rebuild-prev m cfg s in
    let on = found-policies c.active action id r was in
    let until = now + profile_reload_grace_ms in
    elim (Bool-cases (ltb t until)) [
      | inl early ↦
          let waits : leb until t ≡ false = ground (arith, early) in
          rw (early, g, on, u, waits, g, on, p, was, good) refl
      | inr late ↦
          let over : leb until t ≡ true = ground (arith, late) in
          rw (late, g, on, u, over, good) refl
    ]
