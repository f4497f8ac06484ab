-- ===== src/Fragment/LayerFour.antt =====
-- Splitting and reassembly at layer 4, src/core/fragment.c and inc/core/fragment.h: `frag_need_split_l4`,
-- `frag_split_and_encrypt_l4`, `frag_is_fragment_l4`, `frag_try_reassemble_l4`, with
-- `crypto_layer4_frag_meta_len` and `crypto_layer4_wire_port_len` (src/crypto/crypto_layer4.c).
-- The encryption of a half is a parameter. Lengths are of 32 bits: the
-- header length of the packet is not checked here against the length of the packet.
pub mod Order
use ne_multi_core.Base.{
  ℕ, zero, suc, ◌+◌, ◌-◌, ◌*◌, ◌/◌, ◌%◌, ◌^◌, Bool, true, false, ◌&&◌, ◌||◌, not, Option, none,
  some, List, [], ◌∷◌, ◌++◌, length, take, drop, ltb, leb, ◌==◌, if◌then◌else◌,
}
use ne_multi_core.Base.Int.{ℤ, eqb_ℤ, pos, pos_part, neg_part}
use ne_multi_core.Config.{CryptoPolicy, AppConfig, policy_action_encrypt_l4}
use ne_multi_core.Fragment.{
  Bytes, FragEntry, FragTable, byte_at, ethertype, ip_header_len, frag_mtu, frag_table_size,
  frag_next_pkt_id, frag_read_hdr, frag_store_first, frag_store_second, Outcome, failed, pending,
  joined,
}
use ne_multi_core.Crypto.Fixup.{crypto_layer4_fixup_packet}
use ne_multi_core.Fragment.Reassemble.{Reassembled, put, finish, clear_old}
use ne_multi_core.Fragment.Split.{
  Encrypt, Split, Plan, plain0, plain1, pair_of, encrypt_halves, gcm_tag, get_transport_hdr_size,
  packet_crypto_get_tunnel_hdr_size,
}

-- L4_WIRE_PORT_LEN, FRAG_L4_HDR_SIZE, CRYPTO_L4_FRAG_MAGIC, MAX_CRYPTO_POLICIES.
abbrev pub crypto_layer4_wire_port_len : ℕ
crypto_layer4_wire_port_len = 4

abbrev pub frag_l4_hdr_size : ℕ
frag_l4_hdr_size = 4

abbrev pub crypto_l4_frag_magic : ℕ
crypto_l4_frag_magic = 0x5A

abbrev pub max_crypto_policies : ℕ
max_crypto_policies = 128

-- `tagged` is `crypto_mode_uses_gcm_tag()`.
unfoldable pub crypto_layer4_frag_meta_len : Bool → ℕ
crypto_layer4_frag_meta_len tagged =
    crypto_layer4_wire_port_len
    + packet_crypto_get_tunnel_hdr_size
    + frag_l4_hdr_size
    + gcm_tag tagged

-- `gcm` is `packet_crypto_get_mode() == 1`.
unfoldable pub frag_need_split_l4 : Bool → ℕ → Bool
frag_need_split_l4 gcm pkt_len =
    let overhead =
      crypto_layer4_wire_port_len
      + packet_crypto_get_tunnel_hdr_size
      + frag_l4_hdr_size
      + (if gcm then 16 else 0) in
    ltb frag_mtu (pkt_len + overhead)

abbrev pub sub_u32 : ℕ → ℕ → ℕ
sub_u32 a b = (a + 2 ^ 32 - b) % 2 ^ 32

unfoldable pub plan_l4_of : Bool → Bytes → ℕ → Option ℕ → Option Plan
plan_l4_of tagged p ihl none = none
plan_l4_of tagged p ihl (some transport_hdr_len) =
    let app_len = sub_u32 (length p) (14 + ihl + transport_hdr_len) in
    let frag_overhead = 14 + ihl + crypto_layer4_frag_meta_len tagged in
    let max_plain0 = frag_mtu - frag_overhead in
    let fixed_plain0 = ihl + transport_hdr_len in
    let half1 = max_plain0 - fixed_plain0 in
    let half1' = if leb app_len half1 then app_len - 1 else half1 in
    if app_len == 0
    then none
    else if leb frag_mtu frag_overhead
    then none
    else if leb max_plain0 fixed_plain0
    then none
    else some record {
      ip_hdr_len = ihl;
      app_off = transport_hdr_len;
      half1 = half1';
      half2 = app_len - half1';
    }

-- The part of `frag_split_and_encrypt_l4` before the encryption.
unfoldable pub plan_l4 : Bool → Bytes → Option Plan
unfolding plan_l4_of get_transport_hdr_size
plan_l4 tagged p =
    let ihl = ip_header_len (byte_at p 14) in
    let proto = byte_at p 23 in
    let remaining = sub_u32 (length p) (14 + ihl) in
    if ltb (length p) 42
    then none
    else if not (ethertype p == 0x0800)
    then none
    else if not (proto == 6) && not (proto == 17)
    then none
    else if ltb ihl 20
    then none
    else plan_l4_of tagged p ihl (get_transport_hdr_size p (14 + ihl) proto remaining)

-- A second half of a length that has wrapped is longer than `frag1_max` and is refused. The header
-- before each half is the Ethernet and IP header with the ports.
unfoldable pub split_l4 : Encrypt → ℕ → Bytes → Option Plan → Split
unfolding encrypt_halves
split_l4 encrypt counter p none = (none, counter)
split_l4 encrypt counter p (some plan) =
    if ltb (length p) (14 + plan.ip_hdr_len + plan.app_off + plan.half1 + plan.half2)
    then (none, (frag_next_pkt_id counter).1)
    else encrypt_halves encrypt counter p plan (14 + plan.ip_hdr_len + crypto_layer4_wire_port_len)

unfoldable pub frag_split_and_encrypt_l4 : Encrypt → Bool → ℕ → Bytes → Split
unfolding split_l4 plan_l4
frag_split_and_encrypt_l4 encrypt tagged counter p = split_l4 encrypt counter p (plan_l4 tagged p)

-- `(uint8_t)id`
abbrev pub low_byte : ℤ → ℕ
low_byte i = (pos_part i + 256 - neg_part i % 256) % 256

-- The search of the policies that are left; `room` is what is left of MAX_CRYPTO_POLICIES.
unfoldable pub fragment_policy : List CryptoPolicy → ℕ → Bytes → ℕ → Bool
fragment_policy [] room p tunnel_off = false
fragment_policy (cp ∷ cps) zero p tunnel_off = false
fragment_policy (cp ∷ cps) (suc room) p tunnel_off =
    let rest = fragment_policy cps room p tunnel_off in
    if not (eqb_ℤ cp.action policy_action_encrypt_l4)
    then rest
    else if leb (length p) (tunnel_off + 13)
    then rest
    else if not (byte_at p (tunnel_off + 13) == crypto_l4_frag_magic)
    then rest
    else if not (byte_at p (tunnel_off + 12) == low_byte cp.id)
    then rest
    else true

-- The id and the index of a fragment; `none` for a packet that is not taken for one.
unfoldable pub fragment_header : Bytes → ℕ → Bool → Option (ℕ × ℕ)
fragment_header p off found =
    let hdr = frag_read_hdr p off in if found && leb hdr.1 1 then some hdr else none

unfoldable pub frag_is_fragment_l4 : AppConfig → Bytes → Option (ℕ × ℕ)
unfolding fragment_policy fragment_header
frag_is_fragment_l4 cfg p =
    let ihl = ip_header_len (byte_at p 14) in
    let tunnel_off = 14 + ihl + crypto_layer4_wire_port_len in
    let found = fragment_policy cfg.policies max_crypto_policies p tunnel_off in
    if ltb (length p) 42
    then none
    else if not (ethertype p == 0x0800)
    then none
    else if not (byte_at p 23 == 6) && not (byte_at p 23 == 17)
    then none
    else if ltb ihl 20
    then none
    else if ltb (length p) (tunnel_off + packet_crypto_get_tunnel_hdr_size + frag_l4_hdr_size)
    then none
    else fragment_header p (tunnel_off + packet_crypto_get_tunnel_hdr_size) found

-- Whether the plaintext of a first half begins with an IPv4 header, TCP or UDP inside.
unfoldable pub has_inner_transport : Bytes → Bool
has_inner_transport plain =
    let ihl = ip_header_len (byte_at plain 0) in
    if ltb (length plain) 28 || not (byte_at plain 0 / 2 ^ 4 == 4)
    then false
    else if ltb ihl 20 || ltb (length plain) (ihl + 8)
    then false
    else (byte_at plain 9 == 6) || (byte_at plain 9 == 17)

-- `crypto_layer4_fixup_packet`, whose result is not looked at.
abbrev pub or_kept : Option Bytes → Bytes → Bytes
or_kept none p = p
or_kept (some q) p = q

abbrev pub repaired : Bytes → Bytes
repaired p = or_kept (crypto_layer4_fixup_packet p) p

-- A packet that is put out is repaired.
unfoldable pub fixed_up : Reassembled → Reassembled
fixed_up (failed, ft) = (failed, ft)
fixed_up (pending, ft) = (pending, ft)
fixed_up (joined p, ft) = (joined (repaired p), ft)

unfoldable pub first_l4 : FragTable → ℕ → ℕ → Bytes → Bytes → ℕ → Reassembled
unfolding has_inner_transport finish
first_l4 ft idx pkt_id packet plain now =
    if has_inner_transport plain
    then finish ft idx (frag_store_first (ft idx) pkt_id packet plain now)
    else (failed, ft)

-- An entry that is cleared stays so when the half is empty.
unfoldable pub second_l4 : FragTable → ℕ → ℕ → Bytes → ℕ → Reassembled
unfolding finish clear_old
second_l4 ft idx pkt_id half now =
    let e = clear_old (ft idx) pkt_id now in
    if length half == 0
    then (failed, put ft idx e)
    else finish (put ft idx e) idx (frag_store_second e pkt_id half now)

-- A payload length that has wrapped is too long for the entry, so nothing is stored.
unfoldable pub reassemble_l4_at : FragTable → Bytes → ℕ → ℕ → ℕ → ℕ → Reassembled
unfolding first_l4 second_l4
reassemble_l4_at ft packet ihl pkt_id frag_index now =
    let idx = pkt_id % frag_table_size in
    let plain = drop (14 + ihl + crypto_layer4_wire_port_len) packet in
    if frag_index == 0
    then first_l4 ft idx pkt_id packet plain now
    else if frag_index == 1
    then second_l4 ft idx pkt_id plain now
    else (failed, ft)

unfoldable pub frag_try_reassemble_l4 : FragTable → Bytes → ℕ → ℕ → ℕ → Reassembled
unfolding reassemble_l4_at fixed_up
frag_try_reassemble_l4 ft packet pkt_id frag_index now =
    if ltb (length packet) 34
    then (failed, ft)
    else if not (ethertype packet == 0x0800)
    then (failed, ft)
    else fixed_up
        (reassemble_l4_at ft packet (ip_header_len (byte_at packet 14)) pkt_id frag_index now)
