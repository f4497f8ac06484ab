-- ===== src/Config/Validate.antt =====
-- `config_validate` of src/db/config.c, with `profile_has_dup_index`, `config_validate_profiles` and
-- `config_validate_policy_db_ids_across_profiles`. `false` is the -1 of the source; the messages on
-- stderr are left out.
pub mod Exclusive
pub mod Subnets
use ne_multi_core.Base.{
  ℕ, zero, suc, Bool, true, false, ◌&&◌, not, Option, none, some, List, [], ◌∷◌, ◌==◌,
  if◌then◌else◌,
}
use ne_multi_core.Base.Int.{ℤ, pos, leb_ℤ, ltb_ℤ, eqb_ℤ}
use ne_multi_core.Config.{AppConfig, ProfileConfig, LocalConfig, WanConfig, CryptoPolicy, get_at}
use ne_multi_core.Config.Owner.{has_index, config_local_owner_profile, config_wan_owner_profile}

-- `for (…) if (bad(x)) return -1;`
unfoldable pub none_bad : {A : Type 0} → (A → Bool) → List A → Bool
none_bad bad [] = true
none_bad bad (x ∷ xs) = if bad x then false else none_bad bad xs

-- `for (i …) for (j = i + 1; …) if (bad(x[i], x[j])) return -1;`
unfoldable pub no_bad_pair : {A : Type 0} → (A → A → Bool) → List A → Bool
unfolding none_bad
no_bad_pair bad [] = true
no_bad_pair bad (x ∷ xs) = none_bad (bad x) xs && no_bad_pair bad xs

unfoldable pub profile_has_dup_index : List ℤ → Bool
profile_has_dup_index [] = false
profile_has_dup_index (x ∷ xs) = if has_index xs x then true else profile_has_dup_index xs

-- An index that is in range and whose interface another profile owns.
unfoldable pub local_taken : AppConfig → ℤ → ℤ → Bool
local_taken cfg profile_id idx = elim (get_at cfg.locals idx) [
  | none ↦ false
  | some l ↦ ltb_ℤ (pos 0) (config_local_owner_profile cfg idx profile_id)
]

unfoldable pub wan_taken : AppConfig → ℤ → ℤ → Bool
wan_taken cfg profile_id idx = elim (get_at cfg.wans idx) [
  | none ↦ false
  | some w ↦ ltb_ℤ (pos 0) (config_wan_owner_profile cfg idx profile_id)
]

-- Two policies of different profiles with one database id.
unfoldable pub same_db_id : AppConfig → ℤ → ℤ → Bool
same_db_id cfg a_idx b_idx = elim (get_at cfg.policies a_idx) [
  | none ↦ false
  | some a ↦ elim (get_at cfg.policies b_idx) [
    | none ↦ false
    | some b ↦ if leb_ℤ a.db_id (pos 0) then false else eqb_ℤ a.db_id b.db_id
  ]
]

unfoldable pub profiles_share_db_id : AppConfig → ProfileConfig → ProfileConfig → Bool
unfolding none_bad same_db_id
profiles_share_db_id cfg a b =
    if none_bad (λ ai. if none_bad (same_db_id cfg ai) b.policy_indices then false else true)
      a.policy_indices
    then false
    else true

unfoldable pub config_validate_policy_db_ids_across_profiles : AppConfig → Bool
unfolding no_bad_pair profiles_share_db_id
config_validate_policy_db_ids_across_profiles cfg =
    no_bad_pair (profiles_share_db_id cfg) cfg.profiles

unfoldable pub profile_bad : AppConfig → ProfileConfig → Bool
unfolding none_bad profile_has_dup_index
profile_bad cfg p =
    if profile_has_dup_index p.local_indices
    then true
    else if profile_has_dup_index p.wan_indices
    then true
    else if profile_has_dup_index p.policy_indices
    then true
    else if none_bad (local_taken cfg p.id) p.local_indices
    then (if none_bad (wan_taken cfg p.id) p.wan_indices then false else true)
    else true

unfoldable pub config_validate_profiles : AppConfig → Bool
unfolding none_bad profile_bad
config_validate_profiles cfg =
    if none_bad (profile_bad cfg) cfg.profiles
    then config_validate_policy_db_ids_across_profiles cfg
    else false

-- `ifname[0] == '\0'`
unfoldable pub ifname_missing : List ℕ → Bool
ifname_missing [] = true
ifname_missing (c ∷ cs) = c == 0

unfoldable pub local_bad : LocalConfig → Bool
local_bad l = if ifname_missing l.ifname then true else l.netmask == 0

unfoldable pub same_subnet : LocalConfig → LocalConfig → Bool
same_subnet a b = (a.network == b.network) && (a.netmask == b.netmask)

unfoldable pub wan_bad : WanConfig → Bool
wan_bad w = if ifname_missing w.ifname then true else w.window_size == 0

unfoldable pub config_validate : AppConfig → Bool
unfolding none_bad no_bad_pair
config_validate cfg =
    if not (none_bad local_bad cfg.locals)
    then false
    else if not (no_bad_pair same_subnet cfg.locals)
    then false
    else if not (none_bad wan_bad cfg.wans)
    then false
    else config_validate_profiles cfg
