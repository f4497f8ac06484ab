-- ===== src/Config/Policy/Direction.antt =====
-- A policy applies to both directions of a conversation.
use ne_multi_core.Base.{◌≡◌, refl, arith, Option, none, some, List, [], ◌∷◌}
use ne_multi_core.Base.Int.{ℤ}
use ne_multi_core.Config.{AppConfig, ProfileConfig, CryptoPolicy, get_at}
use ne_multi_core.Config.Policy.{
  Flow, Best, reversed, crypto_policy_matches_flow, consider_index, select_loop, select_in_profile,
  config_select_crypto_policy, no_best,
}

matches_flow-reversed :
    (cp : CryptoPolicy) (f : Flow)
    → crypto_policy_matches_flow cp (reversed f) ≡ crypto_policy_matches_flow cp f
unfolding crypto_policy_matches_flow
matches_flow-reversed cp f = ground arith

consider_index-reversed :
    (f : Flow) (o : Option CryptoPolicy) (enc bypass : Best)
    → consider_index (reversed f) o enc bypass ≡ consider_index f o enc bypass
unfolding consider_index
consider_index-reversed f none enc bypass = refl
consider_index-reversed f (some cp) enc bypass = rw (matches_flow-reversed cp f)

select_loop-reversed :
    (cfg : AppConfig) (f : Flow) (pis : List ℤ) (enc bypass : Best)
    → select_loop cfg (reversed f) pis enc bypass ≡ select_loop cfg f pis enc bypass
unfolding select_loop
select_loop-reversed cfg f [] enc bypass = refl
select_loop-reversed cfg f (pi ∷ pis) enc bypass =
    rw (consider_index-reversed f (get_at cfg.policies pi) enc bypass)
      (select_loop-reversed cfg f pis _ _)

select_in_profile-reversed :
    (cfg : AppConfig) (f : Flow) (p : Option ProfileConfig)
    → select_in_profile cfg (reversed f) p ≡ select_in_profile cfg f p
unfolding select_in_profile
select_in_profile-reversed cfg f none = refl
select_in_profile-reversed cfg f (some p) =
    rw (select_loop-reversed cfg f p.policy_indices no_best no_best)

-- The selected policy is the same for a packet and for its answer.
pub select_crypto_policy-reversed :
    (cfg : AppConfig) (profile_idx : ℤ) (f : Flow)
    → config_select_crypto_policy cfg profile_idx (reversed f)
      ≡ config_select_crypto_policy cfg profile_idx f
unfolding config_select_crypto_policy
select_crypto_policy-reversed cfg profile_idx f = select_in_profile-reversed cfg f _
