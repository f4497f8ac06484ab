-- ===== src/Config/Policy.antt =====
-- Policy matching and selection of src/db/config.c: `cidr_match_with_negate`,
-- `crypto_policy_match_packet`, `crypto_policy_matches_flow`, `crypto_policy_consider` and
-- `config_select_crypto_policy` (CRYPTO_POLICY_MATCH_IP_ONLY is 0).
pub mod Select
pub mod Direction
use ne_multi_core.Base.{
  ℕ, Bool, true, false, ◌&&◌, ◌||◌, not, Option, none, some, List, [], ◌∷◌, bit_and, ◌==◌,
  if◌then◌else◌,
}
use ne_multi_core.Base.Int.{ℤ, pos, ltb_ℤ, leb_ℤ, eqb_ℤ}
use ne_multi_core.Config.{
  CryptoPolicy, ProfileConfig, AppConfig, policy_action_bypass, policy_proto_any,
  policy_proto_tcp_udp, get_at,
}

pub record Flow : Type 0 where
  pub src_ip : ℕ
  pub dst_ip : ℕ
  pub src_port : ℕ
  pub dst_port : ℕ
  pub protocol : ℕ

pub cidr_match_with_negate : Bool → Bool → ℕ → ℕ → ℕ → Bool
cidr_match_with_negate any_flag negate ip net mask =
    if any_flag
    then true
    else let in_cidr = bit_and ip mask == bit_and net mask in
      if negate then not in_cidr else in_cidr

-- Whether a port range that is set excludes the port.
pub port_excluded : ℤ → ℤ → ℕ → Bool
port_excluded from to port =
    if leb_ℤ (pos 0) from && leb_ℤ (pos 0) to
    then ltb_ℤ (pos port) from || ltb_ℤ to (pos port)
    else false

pub protocol_excluded : ℕ → ℕ → Bool
protocol_excluded wanted protocol =
    if wanted == policy_proto_tcp_udp
    then not (protocol == 6) && not (protocol == 17)
    else not (wanted == policy_proto_any) && not (wanted == protocol)

pub crypto_policy_match_packet : CryptoPolicy → Flow → Bool
crypto_policy_match_packet cp f =
    if not (cidr_match_with_negate cp.src_any cp.src_negate f.src_ip cp.src_net cp.src_mask)
    then false
    else if not (cidr_match_with_negate cp.dst_any cp.dst_negate f.dst_ip cp.dst_net cp.dst_mask)
    then false
    else if port_excluded cp.src_port_from cp.src_port_to f.src_port
    then false
    else if port_excluded cp.dst_port_from cp.dst_port_to f.dst_port
    then false
    else if protocol_excluded cp.protocol f.protocol
    then false
    else true

-- The same flow seen from the other end.
abbrev pub reversed : Flow → Flow
reversed f = record {
  src_ip = f.dst_ip;
  dst_ip = f.src_ip;
  src_port = f.dst_port;
  dst_port = f.src_port;
  protocol = f.protocol;
}

pub crypto_policy_matches_flow : CryptoPolicy → Flow → Bool
crypto_policy_matches_flow cp f =
    if crypto_policy_match_packet cp f then true else crypto_policy_match_packet cp (reversed f)

-- The policy chosen so far, with its priority and id.
pub record Best : Type 0 where
  pub chosen : Option CryptoPolicy
  pub priority : ℤ
  pub id : ℤ

abbrev pub no_best : Best
no_best = record { chosen = none; priority = pos 0x7fffffff; id = pos 0x7fffffff }

abbrev pub is_none {ℓ} : {A : Type ℓ} → Option A → Bool
is_none none = true
is_none (some a) = false

pub crypto_policy_consider : CryptoPolicy → Best → Best
crypto_policy_consider cp best =
    if is_none best.chosen
      || (ltb_ℤ cp.priority best.priority
          || (eqb_ℤ cp.priority best.priority && ltb_ℤ cp.id best.id))
    then record { chosen = some cp; priority = cp.priority; id = cp.id }
    else best

-- One round of the loop: `cp` is the policy at the index, if that is in range.
pub consider_index : Flow → Option CryptoPolicy → Best → Best → Best × Best
consider_index f none enc bypass = (enc, bypass)
consider_index f (some cp) enc bypass =
    if not (crypto_policy_matches_flow cp f)
    then (enc, bypass)
    else if eqb_ℤ cp.action policy_action_bypass
    then (enc, crypto_policy_consider cp bypass)
    else (crypto_policy_consider cp enc, bypass)

pub select_loop : AppConfig → Flow → List ℤ → Best → Best → Best × Best
select_loop cfg f [] enc bypass = (enc, bypass)
select_loop cfg f (pi ∷ pis) enc bypass =
    let (enc', bypass') = consider_index f (get_at cfg.policies pi) enc bypass in
    select_loop cfg f pis enc' bypass'

-- `best_encrypt ? best_encrypt : best_bypass`
pub prefer_encrypt : Best × Best → Option CryptoPolicy
prefer_encrypt (enc, bypass) = if is_none enc.chosen then bypass.chosen else enc.chosen

pub select_in_profile : AppConfig → Flow → Option ProfileConfig → Option CryptoPolicy
unfolding prefer_encrypt
select_in_profile cfg f none = none
select_in_profile cfg f (some p) =
    prefer_encrypt (select_loop cfg f p.policy_indices no_best no_best)

pub config_select_crypto_policy : AppConfig → ℤ → Flow → Option CryptoPolicy
unfolding select_in_profile
config_select_crypto_policy cfg profile_idx f =
    select_in_profile cfg f (get_at cfg.profiles profile_idx)
