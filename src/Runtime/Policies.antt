-- ===== src/Runtime/Policies.antt =====
-- The contexts of the policies, src/core/forwarder_crypto_runtime.c: `fwd_crypto_snapshot_active_to_prev`,
-- `fwd_crypto_maybe_expire_prev_grace`, `fwd_crypto_clear_grace`, `fwd_crypto_ctx_for_policy_action_id` and
-- `fwd_crypto_profile_id_for_policy_action_id`. The static arrays of one generation are one record; a
-- context that is not ready is not followed. What is printed, the settings of the calling thread, and
-- the context without a policy are left out.
pub mod Rebuild
pub mod Made
pub mod Reload
pub mod Grace
use ne_multi_core.Base.{
  ℕ, zero, suc, ◌+◌, ◌%◌, ◌^◌, Bool, true, false, ◌&&◌, ◌||◌, not, Option, none, some, List, [],
  ◌∷◌, length, take, replicate, get_elem?, ltb, leb, ◌==◌, if◌then◌else◌,
}
use ne_multi_core.Base.Int.{ℤ, pos, negsuc, pos_part, ltb_ℤ, leb_ℤ, eqb_ℤ}
use ne_multi_core.Config.{
  AppConfig, ProfileConfig, CryptoPolicy, policy_action_encrypt_l2, policy_action_encrypt_l3,
  policy_action_encrypt_l4,
}
use ne_multi_core.Config.Owner.{same_name}
use ne_multi_core.Fragment.{Bytes}
use ne_multi_core.Fragment.LayerFour.{max_crypto_policies}
use ne_multi_core.Crypto.{Keys, packet_crypto_init}
use ne_multi_core.Wan.{update}
use ne_multi_core.Runtime.{max_profiles}

-- FWD_CRYPTO_PROFILE_RELOAD_GRACE_MS, CRYPTO_MODE_PQC.
abbrev pub profile_reload_grace_ms : ℕ
profile_reload_grace_ms = 3000

abbrev pub crypto_mode_pqc : ℤ
crypto_mode_pqc = pos 2

-- `struct packet_crypto_ctx`
pub record Context : Type 0 where
  pub keys : Keys
  pub crypto_mode : ℤ
  pub policy_id : ℤ
  pub profile_id : ℤ

-- What a rebuild is given: whether `packet_crypto_init` succeeds, and the derivation of a key by
-- `aes_bits`.
pub record Making : Type 0 where
  pub base_ok : Bool
  pub init_ok : Bool
  pub derive : ℤ → Bytes → Bytes

-- One generation: `policy_crypto_ready`, `policy_crypto_ctx`, `policy_index_by_action_id` with `none`
-- for -1, `policy_profile_id_by_action_id`, and the policies up to `active_policy_count`.
pub record Generation : Type 0 where
  pub ready : ℕ → Bool
  pub contexts : ℕ → Context
  pub index : ℤ → ℕ → Option ℕ
  pub profile_of : ℤ → ℕ → ℤ
  pub policies : List CryptoPolicy

pub record Contexts : Type 0 where
  pub active : Generation
  pub prev : Generation
  pub prev_grace_active : Bool
  pub prev_grace_until_ms : ℕ

-- One entry of an array by action and id.
abbrev pub update_at {ℓ} : {A : Type ℓ} → (ℤ → ℕ → A) → ℤ → ℕ → A → ℤ → ℕ → A
update_at f action id x a i = if eqb_ℤ a action && (i == id) then x else f a i

abbrev pub crypto_action_valid : ℤ → Bool
crypto_action_valid action =
    eqb_ℤ action policy_action_encrypt_l2
    || eqb_ℤ action policy_action_encrypt_l3
    || eqb_ℤ action policy_action_encrypt_l4

abbrev pub key_nonzero : Bytes → Bool
key_nonzero [] = false
key_nonzero (b ∷ bs) = not (b == 0) || key_nonzero bs

-- `memcmp(a, b, n) == 0`
abbrev pub same_bytes : Bytes → Bytes → Bool
same_bytes [] [] = true
same_bytes [] (y ∷ ys) = false
same_bytes (x ∷ xs) [] = false
same_bytes (x ∷ xs) (y ∷ ys) = (x == y) && same_bytes xs ys

-- `id >= 0 && id <= 255`
abbrev pub has_wire_id : CryptoPolicy → Bool
has_wire_id cp = leb_ℤ (pos 0) cp.id && leb_ℤ cp.id (pos 255)

unfoldable pub with_policy : Option CryptoPolicy → Context → Option (CryptoPolicy × Context)
with_policy none k = none
with_policy (some cp) k = some (cp, k)

unfoldable pub found_at : Generation → Option ℕ → Option (CryptoPolicy × Context)
unfolding with_policy
found_at g none = none
found_at g (some i) =
    if ltb i (length g.policies) && g.ready i
    then with_policy (get_elem? g.policies i) (g.contexts i)
    else none

-- The policy with an action and an id, when its context is ready, and the context.
unfoldable pub found : Generation → ℤ → ℕ → Option (CryptoPolicy × Context)
unfolding found_at
found g action id = found_at g (g.index action id)

unfoldable pub fwd_crypto_maybe_expire_prev_grace : ℕ → Contexts → Contexts
fwd_crypto_maybe_expire_prev_grace now c =
    if not c.prev_grace_active
    then c
    else if leb c.prev_grace_until_ms now
    then record c { prev_grace_active = false }
    else c

unfoldable pub fwd_crypto_clear_grace : Contexts → Contexts
fwd_crypto_clear_grace c = record c { prev_grace_active = false }

unfoldable pub fwd_crypto_snapshot_active_to_prev : ℕ → Contexts → Contexts
fwd_crypto_snapshot_active_to_prev now c = record c {
  prev = c.active;
  prev_grace_active = ltb 0 (length c.active.policies);
  prev_grace_until_ms = now + profile_reload_grace_ms;
}

-- The first of two policies that is there.
unfoldable pub or_found {ℓ} : {A : Type ℓ} → Option A → Option A → Option A
or_found none o = o
or_found (some x) o = some x

abbrev pub action_out : ℤ → Bool
action_out action = ltb_ℤ action (pos 0) || ltb_ℤ policy_action_encrypt_l4 action

-- The policy whose context is returned, with the context; the state is that after the call.
unfoldable pub fwd_crypto_ctx_for_policy_action_id :
    ℕ → ℤ → ℕ → Contexts → Option (CryptoPolicy × Context) × Contexts
unfolding or_found
fwd_crypto_ctx_for_policy_action_id now action id c =
    let c' = fwd_crypto_maybe_expire_prev_grace now c in
    let old = if c'.prev_grace_active then found c'.prev action id else none in
    (if action_out action then none else or_found (found c'.active action id) old, c')

unfoldable pub fwd_crypto_profile_id_for_policy_action_id : ℕ → ℤ → ℕ → Contexts → ℤ × Contexts
fwd_crypto_profile_id_for_policy_action_id now action id c =
    let c' = fwd_crypto_maybe_expire_prev_grace now c in
    let pid = c'.active.profile_of action id in
    let old_pid = c'.prev.profile_of action id in
    (
      if action_out action
          then negsuc 0
          else if ltb_ℤ (pos 0) pid
          then pid
          else if c'.prev_grace_active && ltb_ℤ (pos 0) old_pid
          then old_pid
          else negsuc 0,
      c',
    )
