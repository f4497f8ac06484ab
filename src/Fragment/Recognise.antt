-- ===== src/Fragment/Recognise.antt =====
-- Which packets are taken for fragments, src/core/fragment.c: `frag_is_fragment` and
-- `frag_is_fragment_l2`. The protocol and the EtherType of encrypted packets are arguments; a field that
-- a function returns through a pointer is part of its result.
use ne_multi_core.Base.{
  ℕ, zero, suc, ◌+◌, Bool, true, false, ◌&&◌, not, Option, none, some, List, [], ◌∷◌, length, ltb,
  leb, ◌==◌, if◌then◌else◌,
}
use ne_multi_core.Base.Int.{eqb_ℤ}
use ne_multi_core.Config.{
  AppConfig, CryptoPolicy, policy_action_encrypt_l2, policy_action_encrypt_l3,
}
use ne_multi_core.Fragment.{Bytes, byte_at, frag_require_ipv4}
use ne_multi_core.Fragment.Split.{packet_crypto_get_tunnel_hdr_size}
use ne_multi_core.Fragment.LayerFour.{low_byte, max_crypto_policies, fragment_header}
use ne_multi_core.Crypto.{nonce_bytes}
use ne_multi_core.Crypto.LayerTwo.{l2_pkt_fake_ethertype, crypto_layer2_has_wire_frag_marker}

-- CRYPTO_L3_FRAG_MAGIC, CRYPTO_L3_FRAG_TAG_SIZE.
abbrev pub crypto_l3_frag_magic : ℕ
crypto_l3_frag_magic = 0x5C

abbrev pub crypto_l3_frag_tag_size : ℕ
crypto_l3_frag_tag_size = 4

-- The first policy that passes; `room` is what is left of MAX_CRYPTO_POLICIES.
unfoldable pub policy_loop : (CryptoPolicy → Bool) → List CryptoPolicy → ℕ → Option CryptoPolicy
policy_loop pass [] room = none
policy_loop pass (cp ∷ cps) zero = none
policy_loop pass (cp ∷ cps) (suc room) =
    let rest = policy_loop pass cps room in if pass cp then some cp else rest

abbrev pub found? : Option CryptoPolicy → Bool
found? none = false
found? (some cp) = true

unfoldable pub is_l3_fragment_of : Bytes → ℕ → CryptoPolicy → Bool
is_l3_fragment_of p tunnel_off cp =
    eqb_ℤ cp.action policy_action_encrypt_l3
    && not (leb (length p) (tunnel_off + nonce_bytes + 1))
    && (byte_at p (tunnel_off + nonce_bytes + 1) == crypto_l3_frag_magic)
    && (byte_at p (tunnel_off + nonce_bytes) == low_byte cp.id)

unfoldable pub l3_fragment_at : AppConfig → ℕ → Bytes → Option ℕ → Option (ℕ × ℕ)
unfolding is_l3_fragment_of policy_loop fragment_header
l3_fragment_at cfg fake_protocol p none = none
l3_fragment_at cfg fake_protocol p (some ihl) =
    let tunnel_off = 14 + ihl in
    let off = tunnel_off + packet_crypto_get_tunnel_hdr_size in
    let hit =
      found? (policy_loop (is_l3_fragment_of p tunnel_off) cfg.policies max_crypto_policies) in
    if not (byte_at p 23 == fake_protocol)
    then none
    else if ltb (length p) (off + crypto_l3_frag_tag_size)
    then none
    else fragment_header p off hit

-- The id and the index of a fragment.
unfoldable pub frag_is_fragment : AppConfig → ℕ → Bytes → Option (ℕ × ℕ)
unfolding l3_fragment_at frag_require_ipv4
frag_is_fragment cfg fake_protocol p = l3_fragment_at cfg fake_protocol p (frag_require_ipv4 p)

-- The policy has an action, and the byte of a packet is its id.
unfoldable pub is_policy_of : ℕ → CryptoPolicy → Bool
is_policy_of wire_pol cp = eqb_ℤ cp.action policy_action_encrypt_l2 && (low_byte cp.id == wire_pol)

unfoldable pub frag_is_fragment_l2 : AppConfig → ℕ → Bytes → Option (ℕ × ℕ)
unfolding is_policy_of policy_loop fragment_header crypto_layer2_has_wire_frag_marker
frag_is_fragment_l2 cfg fake p =
    let hit = found? (policy_loop (is_policy_of (byte_at p 14)) cfg.policies max_crypto_policies) in
    if ltb (length p) 33
    then none
    else if not (l2_pkt_fake_ethertype fake p)
    then none
    else if not (crypto_layer2_has_wire_frag_marker fake p)
    then none
    else fragment_header p 29 hit
