-- ===== src/Tests/Configured.antt =====
-- The configuration of src/db/config.c and inc/core/config.h at concrete inputs.
use ne_multi_core.Base.{
  ℕ, ◌+◌, ◌-◌, ◌≤◌, ◌≡◌, ◌≢◌, ◌↔◌, refl, ap, arith, Bool, true, false, some, [], ◌∷◌, get_elem?,
  All, In, take, replicate, bit_and, inl, inr,
}
use ne_multi_core.Base.Int.{pos, negsuc, pos_part}
use ne_multi_core.Config.{AppConfig, ProfileConfig, LocalConfig, WanConfig, CryptoPolicy, get_at}
use ne_multi_core.Config.Policy.{config_select_crypto_policy}
use ne_multi_core.Config.Policy as Matching
use ne_multi_core.Config.Policy.Direction.{select_crypto_policy-reversed}
use ne_multi_core.Config.Policy.Select.{candidates, IsSelection, select_crypto_policy-IsSelection}
use ne_multi_core.Config.WanIndex.{count_loop, dataplane_wan?, config_wan_cfg_to_dp}
use ne_multi_core.Config.Owner.{
  local_loop, config_find_local_for_ip, find_local_for_ip-Routes,
  config_wan_dataplane_owner_profile, config_select_profile_for_local, config_policy_db_id_taken,
  config_policy_pkt_tag_taken, config_local_ifname_in_cfg,
}
use ne_multi_core.Config.Owner.{
  has_index, owner_loop, config_local_owner_profile, config_wan_owner_profile, profile_loop,
  db_id_loop, pkt_tag_loop, ifname_loop, same_name,
}
use ne_multi_core.Config.Validate.{
  none_bad, no_bad_pair, profile_has_dup_index, local_taken, wan_taken, same_db_id,
  profiles_share_db_id, config_validate_policy_db_ids_across_profiles, profile_bad,
  config_validate_profiles, ifname_missing, local_bad, same_subnet, wan_bad, config_validate,
}
use ne_multi_core.Config.Validate.Exclusive.{IdsPositive, validate-exclusive}
use ne_multi_core.Config.Address.{
  ipv4_prefix_to_mask_be, ipv4_mask_be_is_contiguous, mask-contiguous_iff,
}

abbrev a_wan : ℕ → Bool → WanConfig
a_wan n dataplane = record {
  ifname = n ∷ [];
  dst_ip = 0;
  src_mac = replicate 6 0;
  dst_mac = replicate 6 0;
  window_size = 4000;
  dataplane = dataplane;
}

abbrev a_local : ℕ → ℕ → LocalConfig
a_local n network = record {
  ifname = n ∷ [];
  ip = network + 1;
  netmask = 0xFFFFFF00;
  network = network;
  src_mac = replicate 6 0;
}

abbrev pub a_profile : ℕ → ProfileConfig
a_profile n = record {
  id = pos n;
  enabled = true;
  local_indices = pos (n - 1) ∷ [];
  wan_indices = pos (n - 1) ∷ [];
  wan_bandwidth_weight = pos 10 ∷ [];
  policy_indices = pos (n - 1) ∷ [];
}

abbrev pub a_policy : ℕ → CryptoPolicy
a_policy n = record {
  id = pos n;
  db_id = pos n;
  priority = pos 5;
  action = pos 3;
  protocol = 6;
  src_port_from = negsuc 0;
  src_port_to = negsuc 0;
  dst_port_from = negsuc 0;
  dst_port_to = negsuc 0;
  src_any = true;
  dst_any = true;
  src_negate = false;
  dst_negate = false;
  src_net = 0;
  src_mask = 0;
  dst_net = 0;
  dst_mask = 0;
  crypto_mode = pos 0;
  aes_bits = pos 128;
  key = replicate 16 0;
}

abbrev pub a_config : AppConfig
a_config = record {
  locals = a_local 101 0x0A000000 ∷ a_local 102 0x0A000100 ∷ [];
  wans = a_wan 103 true ∷ a_wan 104 false ∷ a_wan 105 true ∷ [];
  crypto_enabled = true;
  profiles = a_profile 1 ∷ a_profile 2 ∷ [];
  policies = a_policy 1 ∷ a_policy 2 ∷ [];
}

abbrev a_flow : Matching.Flow
a_flow = record { src_ip = 10; dst_ip = 20; src_port = 1000; dst_port = 80; protocol = 6 }

select_crypto_policy-reversed_example :
    config_select_crypto_policy a_config (pos 1) (Matching.reversed a_flow)
    ≡ config_select_crypto_policy a_config (pos 1) a_flow
select_crypto_policy-reversed_example = select_crypto_policy-reversed a_config (pos 1) a_flow

select_crypto_policy-IsSelection_example :
    IsSelection
      (candidates a_config a_flow (pos 1 ∷ []))
      (config_select_crypto_policy a_config (pos 1) a_flow)
select_crypto_policy-IsSelection_example =
    select_crypto_policy-IsSelection a_config (pos 1) a_flow (a_profile 2) refl

third_wan : config_wan_cfg_to_dp a_config (pos 2) ≡ some 1
unfolding config_wan_cfg_to_dp count_loop dataplane_wan?
third_wan = refl

second_local : config_find_local_for_ip a_config 0x0A000105 ≡ some 1
unfolding config_find_local_for_ip local_loop
second_local = refl

find_local_for_ip-Routes_example :
    ((l : LocalConfig) × (get_elem? a_config.locals 1 ≡ some l)
      × (bit_and 0x0A000105 l.netmask ≡ l.network))
    × All (λ l. bit_and 0x0A000105 l.netmask ≢ l.network) (take 1 a_config.locals)
find_local_for_ip-Routes_example = find_local_for_ip-Routes a_config 0x0A000105 1 second_local

accepted : config_validate a_config ≡ true
unfolding config_validate none_bad no_bad_pair local_bad same_subnet wan_bad
    config_validate_profiles profile_bad profile_has_dup_index local_taken wan_taken same_db_id
    profiles_share_db_id config_validate_policy_db_ids_across_profiles ifname_missing
    config_local_owner_profile config_wan_owner_profile config_wan_dataplane_owner_profile
    owner_loop has_index
accepted = refl

positive : IdsPositive a_config
positive = (omega arith, (omega arith, tt))

validate-exclusive_example :
    ((l : LocalConfig)
      → get_at a_config.locals (pos 0) ≡ some l
      → In (pos 0) (a_profile 1).local_indices
      → ¬ In (pos 0) (a_profile 2).local_indices)
    × ((w : WanConfig)
        → get_at a_config.wans (pos 0) ≡ some w
        → In (pos 0) (a_profile 1).wan_indices
        → ¬ In (pos 0) (a_profile 2).wan_indices)
validate-exclusive_example =
    validate-exclusive a_config (a_profile 1) (a_profile 2) (pos 0) accepted positive (inl refl)
      (inr (inl refl)) (λ e. absurd (omega (arith, ap pos_part e)))

mask-contiguous_iff_example :
    (ipv4_mask_be_is_contiguous 0x00FFFFFF ≡ true)
    ↔ ((n : ℕ) × (n ≤ 32) × (0x00FFFFFF ≡ ipv4_prefix_to_mask_be (pos n)))
mask-contiguous_iff_example = mask-contiguous_iff 0x00FFFFFF (omega arith)

owner : config_wan_dataplane_owner_profile a_config (pos 1) (pos 1) ≡ pos 0
unfolding config_wan_dataplane_owner_profile config_wan_owner_profile owner_loop has_index
owner = refl

profile_of_local : config_select_profile_for_local a_config (pos 1) ≡ some 1
unfolding config_select_profile_for_local profile_loop has_index
profile_of_local = refl

taken : config_policy_db_id_taken a_config (pos 2) ≡ true
unfolding config_policy_db_id_taken db_id_loop
taken = refl

tag_taken : config_policy_pkt_tag_taken a_config (pos 7) ≡ false
unfolding config_policy_pkt_tag_taken pkt_tag_loop
tag_taken = refl

local_known : config_local_ifname_in_cfg a_config (102 ∷ []) ≡ true
unfolding config_local_ifname_in_cfg ifname_loop same_name
local_known = refl
