-- ===== src/Crypto/Dispatch.antt =====
-- Which policy a packet from a WAN was encrypted by, and its decryption, src/crypto/crypto_dispatch.c. The
-- decryption of a packet with a context is a parameter; a policy and its context are found in a
-- generation of Runtime/Policies. The branch without any policy, which decrypts with the context of
-- the configuration, is a parameter too.
use ne_multi_core.Base.{
  ℕ, zero, suc, ◌+◌, Bool, false, ◌&&◌, ◌||◌, not, Option, none, some, List, [], ◌∷◌, length, ltb,
  leb, ◌==◌, if◌then◌else◌, get_elem?,
}
use ne_multi_core.Base.Int.{ℤ, eqb_ℤ}
use ne_multi_core.Config.{
  AppConfig, CryptoPolicy, policy_action_encrypt_l3, policy_action_encrypt_l4,
}
use ne_multi_core.Fragment.{Bytes, byte_at, ethertype, ip_header_len}
use ne_multi_core.Fragment.Split.{packet_crypto_get_tunnel_hdr_size}
use ne_multi_core.Fragment.LayerFour.{
  low_byte, max_crypto_policies, crypto_layer4_wire_port_len, crypto_l4_frag_magic,
}
use ne_multi_core.Fragment.Recognise.{policy_loop}
use ne_multi_core.Crypto.{nonce_bytes}
use ne_multi_core.Crypto.Fixup.{crypto_eth_ipv4_offset}
use ne_multi_core.Runtime.Policies.{Context, Generation, Contexts, with_policy}

-- CRYPTO_L4_TUNNEL_MAGIC
abbrev pub crypto_l4_tunnel_magic : ℕ
crypto_l4_tunnel_magic = 0xA5

-- The id of a policy as a byte.
unfoldable pub wire_id_of : Option CryptoPolicy → Option ℕ
wire_id_of none = none
wire_id_of (some cp) = some (low_byte cp.id)

unfoldable pub is_l3_policy_of : Bytes → ℕ → CryptoPolicy → Bool
is_l3_policy_of p tunnel_off cp =
    eqb_ℤ cp.action policy_action_encrypt_l3
    && not (leb (length p) (tunnel_off + nonce_bytes + 1))
    && (byte_at p (tunnel_off + nonce_bytes) == low_byte cp.id)

-- The id of the layer 3 policy, for a packet with the protocol of encrypted packets, which is 99 if none
-- is set.
unfoldable pub crypto_l3_extract_policy_id : AppConfig → ℕ → Bytes → Option ℕ
unfolding wire_id_of policy_loop is_l3_policy_of
crypto_l3_extract_policy_id cfg fake_protocol p =
    let ihl = ip_header_len (byte_at p 14) in
    let marker = if fake_protocol == 0 then 99 else fake_protocol in
    let tunnel_off = 14 + ihl in
    let id =
      wire_id_of (policy_loop (is_l3_policy_of p tunnel_off) cfg.policies max_crypto_policies) in
    if ltb (length p) 34
    then none
    else if not (ethertype p == 0x0800)
    then none
    else if ltb ihl 20 || ltb (length p) (14 + ihl + 1)
    then none
    else if not (byte_at p 23 == marker)
    then none
    else if ltb (length p) (tunnel_off + packet_crypto_get_tunnel_hdr_size)
    then none
    else id

unfoldable pub is_l4_policy_of : Bytes → ℕ → CryptoPolicy → Bool
is_l4_policy_of p tunnel_off cp =
    let magic = byte_at p (tunnel_off + nonce_bytes + 1) in
    eqb_ℤ cp.action policy_action_encrypt_l4
    && not (leb (length p) (tunnel_off + nonce_bytes + 1))
    && ((magic == crypto_l4_tunnel_magic) || (magic == crypto_l4_frag_magic))
    && (byte_at p (tunnel_off + nonce_bytes) == low_byte cp.id)

-- TCP or UDP, with the header and 8 bytes behind it in the packet.
unfoldable pub has_transport : Bytes → ℕ → Bool
has_transport p l3_off =
    let ihl = ip_header_len (byte_at p l3_off) in
    not (ltb ihl 20)
    && not (ltb (length p) (l3_off + ihl + 8))
    && ((byte_at p (l3_off + 9) == 6) || (byte_at p (l3_off + 9) == 17))

unfoldable pub l4_policy_at : AppConfig → Bytes → Option ℕ → Option ℕ
unfolding wire_id_of policy_loop is_l4_policy_of has_transport
l4_policy_at cfg p none = none
l4_policy_at cfg p (some l3_off) =
    let tunnel_off = l3_off + ip_header_len (byte_at p l3_off) + crypto_layer4_wire_port_len in
    let id =
      wire_id_of (policy_loop (is_l4_policy_of p tunnel_off) cfg.policies max_crypto_policies) in
    if ltb (length p) (l3_off + 20) || not (has_transport p l3_off)
    then none
    else if leb (length p) tunnel_off
    then none
    else id

unfoldable pub crypto_l4_extract_policy_id_ipv4 : AppConfig → Bytes → Option ℕ
unfolding l4_policy_at crypto_eth_ipv4_offset
crypto_l4_extract_policy_id_ipv4 cfg p = l4_policy_at cfg p (crypto_eth_ipv4_offset p)

-- `pi >= 0 && pi < policy_count`
abbrev in_count : Generation → Option ℕ → Bool
in_count g none = false
in_count g (some i) = ltb i (length g.policies)

-- The policies from `i` on.
unfoldable pub lookup_loop : ℤ → ℕ → List CryptoPolicy → ℕ → ℕ → Option ℕ
lookup_loop action id [] room i = none
lookup_loop action id (cp ∷ cps) zero i = none
lookup_loop action id (cp ∷ cps) (suc room) i =
    let rest = lookup_loop action id cps room (i + 1) in
    if eqb_ℤ cp.action action && (low_byte cp.id == id) then some i else rest

unfoldable pub lookup_policy_index : Generation → ℤ → ℕ → Option ℕ
unfolding lookup_loop
lookup_policy_index g action id =
    let i = g.index action id in
    if in_count g i then i else lookup_loop action id g.policies max_crypto_policies 0

-- The decryption of a packet by the policy and with the context, if it succeeds, and what it leaves of
-- the packet if not.
abbrev pub Decrypt : Type 0
Decrypt = CryptoPolicy → Context → Bytes → Option Bytes × Bytes

-- A result that is not shorter than the packet is refused, but is where the packet was.
unfoldable pub if_shorter : Bytes → Option Bytes × Bytes → Option Bytes × Bytes
if_shorter p (none, left) = (none, left)
if_shorter p (some q, left) = if ltb (length q) (length p) then (some q, q) else (none, q)

unfoldable pub decrypt_by : Decrypt → Option (CryptoPolicy × Context) → Bytes → Option Bytes × Bytes
unfolding if_shorter
decrypt_by decrypt none p = (none, p)
decrypt_by decrypt (some (cp, k)) p = if_shorter p (decrypt cp k p)

unfoldable pub ready_at : Generation → Option ℕ → Option (CryptoPolicy × Context)
unfolding with_policy
ready_at g none = none
ready_at g (some i) =
    if g.ready i then with_policy (get_elem? g.policies i) (g.contexts i) else none

-- The policies of before a reload have their turn in the grace period.
unfoldable pub decrypt_again : Decrypt → Contexts → ℤ → ℕ → Option Bytes × Bytes → Option Bytes
unfolding decrypt_by ready_at lookup_policy_index
decrypt_again decrypt c action id (some q, left) = some q
decrypt_again decrypt c action id (none, left) =
    if c.prev_grace_active && ltb 0 (length c.prev.policies)
    then (decrypt_by decrypt (ready_at c.prev (lookup_policy_index c.prev action id)) left).0
    else none

unfoldable pub decrypt_with : Decrypt → Contexts → ℤ → Bytes → Option ℕ → Option Bytes
unfolding decrypt_again
decrypt_with decrypt c action p none = some p
decrypt_with decrypt c action p (some id) =
    decrypt_again decrypt c action id
      (decrypt_by decrypt (ready_at c.active (lookup_policy_index c.active action id)) p)

-- `crypto_decrypt_packet_auto_by_action` at layers 3 and 4, the only ones it is called for; a packet
-- without a policy of the layer stays as it is. `base` is the decryption when there are no policies.
unfoldable pub crypto_decrypt_packet_auto_by_action :
    (Bytes → Option Bytes) → Decrypt → AppConfig → Contexts → ℤ → Bytes → Option ℕ → Option Bytes
unfolding decrypt_with
crypto_decrypt_packet_auto_by_action base decrypt cfg c action p id =
    if length cfg.policies == 0 then base p else decrypt_with decrypt c action p id
