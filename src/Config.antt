-- ===== src/Config.antt =====
-- The configuration of inc/core/config.h: `struct crypto_policy`, `struct profile_config`,
-- `struct local_config`, `struct wan_config` and `struct app_config`. An array with its count is a
-- list, an `int` is an integer, a flag that is only tested is a Boolean, and an interface name is the
-- list of its bytes. Fields that no modelled function reads are left out.
pub mod Policy
pub mod WanIndex
pub mod Owner
pub mod Validate
pub mod Address
use ne_multi_core.Base.{ℕ, List, Bool, Option, none, some, get_elem?}
use ne_multi_core.Base.Int.{ℤ, pos, negsuc}

pub record CryptoPolicy : Type 0 where
  pub id : ℤ
  pub db_id : ℤ
  pub priority : ℤ
  pub action : ℤ
  pub protocol : ℕ
  pub src_port_from : ℤ
  pub src_port_to : ℤ
  pub dst_port_from : ℤ
  pub dst_port_to : ℤ
  pub src_any : Bool
  pub dst_any : Bool
  pub src_negate : Bool
  pub dst_negate : Bool
  pub src_net : ℕ
  pub src_mask : ℕ
  pub dst_net : ℕ
  pub dst_mask : ℕ
  pub crypto_mode : ℤ
  pub aes_bits : ℤ
  pub key : List ℕ

pub record ProfileConfig : Type 0 where
  pub id : ℤ
  pub enabled : Bool
  pub local_indices : List ℤ
  pub wan_indices : List ℤ
  pub wan_bandwidth_weight : List ℤ
  pub policy_indices : List ℤ

pub record LocalConfig : Type 0 where
  pub ifname : List ℕ
  pub ip : ℕ
  pub netmask : ℕ
  pub network : ℕ
  pub src_mac : List ℕ

pub record WanConfig : Type 0 where
  pub ifname : List ℕ
  pub dst_ip : ℕ
  pub src_mac : List ℕ
  pub dst_mac : List ℕ
  pub window_size : ℕ
  pub dataplane : Bool

pub record AppConfig : Type 0 where
  pub locals : List LocalConfig
  pub wans : List WanConfig
  pub crypto_enabled : Bool
  pub profiles : List ProfileConfig
  pub policies : List CryptoPolicy

-- `enum policy_action`
abbrev pub policy_action_bypass : ℤ
policy_action_bypass = pos 0

abbrev pub policy_action_encrypt_l2 : ℤ
policy_action_encrypt_l2 = pos 2

abbrev pub policy_action_encrypt_l3 : ℤ
policy_action_encrypt_l3 = pos 3

abbrev pub policy_action_encrypt_l4 : ℤ
policy_action_encrypt_l4 = pos 4

abbrev pub policy_proto_any : ℕ
policy_proto_any = 0

abbrev pub policy_proto_tcp_udp : ℕ
policy_proto_tcp_udp = 254

-- The element at an index that the code has checked against `0` and the count.
abbrev pub get_at {ℓ} : {A : Type ℓ} → List A → ℤ → Option A
get_at xs (pos i) = get_elem? xs i
get_at xs (negsuc i) = none
