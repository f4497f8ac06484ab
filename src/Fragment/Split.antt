-- ===== src/Fragment/Split.antt =====
-- How a packet is cut in two: `frag_need_split`, `frag_need_split_l2`, `frag_split_and_encrypt` and
-- `frag_split_and_encrypt_l2` of src/core/fragment.c and inc/core/fragment.h, with
-- `get_transport_hdr_size` (src/crypto/crypto_layer4.c), `packet_crypto_get_tunnel_hdr_size`
-- (src/crypto/packet_crypto.c) and the metadata lengths of src/crypto/crypto_layer2.c and
-- src/crypto/crypto_layer3.c. The encryption of one half is a parameter.
pub mod Bounds
pub mod Roundtrip
pub mod ShortTail
use ne_multi_core.Base.{
  ℕ, ◌+◌, ◌-◌, ◌*◌, ◌/◌, ◌%◌, ◌^◌, Bool, true, false, ◌&&◌, ◌||◌, not, Option, none, some, length,
  take, drop, ltb, leb, ◌==◌, if◌then◌else◌,
}
use ne_multi_core.Fragment.{Bytes, byte_at, frag_mtu, frag_require_ipv4, frag_next_pkt_id}

-- The nonce of PACKET_CRYPTO_NONCE_BYTES, the policy and one more byte.
abbrev pub packet_crypto_get_tunnel_hdr_size : ℕ
packet_crypto_get_tunnel_hdr_size = 12 + 2

-- AES_GCM_TAG_SIZE in the modes that use it.
abbrev pub gcm_tag : Bool → ℕ
gcm_tag gcm = if gcm then 16 else 0

unfoldable pub crypto_layer3_frag_meta_len : Bool → ℕ
crypto_layer3_frag_meta_len gcm = packet_crypto_get_tunnel_hdr_size + 4 + gcm_tag gcm

unfoldable pub crypto_layer2_frag_meta_len : Bool → ℕ
crypto_layer2_frag_meta_len gcm = 1 + 1 + 12 + 1 + 4 + gcm_tag gcm

unfoldable pub frag_need_split : Bool → ℕ → Bool
unfolding crypto_layer3_frag_meta_len
frag_need_split gcm pkt_len = ltb frag_mtu (pkt_len + crypto_layer3_frag_meta_len gcm)

unfoldable pub frag_need_split_l2 : Bool → ℕ → Bool
unfolding crypto_layer2_frag_meta_len
frag_need_split_l2 gcm pkt_len = ltb frag_mtu (pkt_len + crypto_layer2_frag_meta_len gcm)

-- The length of a TCP or UDP header at `off`, with `remaining` bytes from there.
unfoldable pub get_transport_hdr_size : Bytes → ℕ → ℕ → ℕ → Option ℕ
get_transport_hdr_size p off ip_proto remaining =
    let data_off = byte_at p (off + 12) / 2 ^ 4 % 2 ^ 4 * 4 in
    if ip_proto == 6
    then (if ltb remaining 20
        then none
        else if ltb data_off 20 || ltb remaining data_off
        then none
        else some data_off)
    else if ip_proto == 17
    then (if ltb remaining 8 then none else some 8)
    else none

-- The bytes of application data in the first half.
unfoldable pub split_half : ℕ → ℕ → ℕ → Option ℕ
split_half frag_overhead fixed_plain0 app_len =
    let max_plain0 = frag_mtu - frag_overhead in
    if leb frag_mtu frag_overhead
    then none
    else if leb max_plain0 fixed_plain0
    then none
    else if leb app_len (max_plain0 - fixed_plain0)
    then some (app_len - 1)
    else some (max_plain0 - fixed_plain0)

-- Where a packet is cut: the lengths of the headers and of the two parts of the application data.
pub record Plan : Type 0 where
  pub ip_hdr_len : ℕ
  pub app_off : ℕ
  pub half1 : ℕ
  pub half2 : ℕ

unfoldable pub plan_of : ℕ → ℕ → ℕ → Option ℕ → Option Plan
plan_of ihl app_off app_len none = none
plan_of ihl app_off app_len (some half1) =
    some record { ip_hdr_len = ihl; app_off = app_off; half1 = half1; half2 = app_len - half1 }

-- With the application data at `app_off` after the IP header.
unfoldable pub plan_app : ℕ → Bytes → ℕ → ℕ → Option Plan
unfolding plan_of split_half
plan_app frag_overhead p ihl app_off =
    let app_len = length p - 14 - ihl - app_off in
    if app_len == 0
    then none
    else plan_of ihl app_off app_len (split_half frag_overhead (ihl + app_off) app_len)

unfoldable pub plan_transport : ℕ → Bytes → ℕ → Option ℕ → Option Plan
unfolding plan_app
plan_transport frag_overhead p ihl none = none
plan_transport frag_overhead p ihl (some size) = plan_app frag_overhead p ihl size

unfoldable pub transport_size : Bytes → ℕ → Option ℕ
unfolding get_transport_hdr_size
transport_size p ihl = get_transport_hdr_size p (14 + ihl) (byte_at p 23) (length p - 14 - ihl)

abbrev is_tcp_or_udp : Bytes → Bool
is_tcp_or_udp p = (byte_at p 23 == 6) || (byte_at p 23 == 17)

unfoldable pub plan_l3_ip : Bool → Bytes → Option ℕ → Option Plan
unfolding plan_transport transport_size crypto_layer3_frag_meta_len
plan_l3_ip gcm p none = none
plan_l3_ip gcm p (some ihl) =
    if not (is_tcp_or_udp p)
    then none
    else plan_transport (14 + ihl + crypto_layer3_frag_meta_len gcm) p ihl (transport_size p ihl)

-- The part of `frag_split_and_encrypt` before the encryption.
unfoldable pub plan_l3 : Bool → Bytes → Option Plan
unfolding plan_l3_ip frag_require_ipv4
plan_l3 gcm p = if ltb (length p) 42 then none else plan_l3_ip gcm p (frag_require_ipv4 p)

unfoldable pub plan_l2_ip : Bool → Bytes → Option ℕ → Option Plan
unfolding plan_transport plan_app transport_size crypto_layer2_frag_meta_len
plan_l2_ip gcm p none = none
plan_l2_ip gcm p (some ihl) =
    let frag_overhead = 14 + crypto_layer2_frag_meta_len gcm in
    if is_tcp_or_udp p
    then plan_transport frag_overhead p ihl (transport_size p ihl)
    else plan_app frag_overhead p ihl 0

-- The part of `frag_split_and_encrypt_l2` before the encryption.
unfoldable pub plan_l2 : Bool → Bytes → Option Plan
unfolding plan_l2_ip frag_require_ipv4
plan_l2 gcm p = if ltb (length p) 34 then none else plan_l2_ip gcm p (frag_require_ipv4 p)

-- The plaintexts of the two halves: the headers after Ethernet's with the first part, and the rest.
abbrev pub plain0 : Plan → Bytes → Bytes
plain0 plan p = take (plan.ip_hdr_len + plan.app_off + plan.half1) (drop 14 p)

abbrev pub plain1 : Plan → Bytes → Bytes
plain1 plan p = take plan.half2 (drop (plan.ip_hdr_len + plan.app_off + plan.half1) (drop 14 p))

-- `encrypt header plain pkt_id frag_index`: a frame, or `none` where the source returns an error.
abbrev pub Encrypt : Type 0
Encrypt = Bytes → Bytes → ℕ → ℕ → Option Bytes

-- The two frames, or `none`, and the counter of packet ids after the call.
abbrev pub Split : Type 0
Split = Option (Bytes × Bytes) × ℕ

unfoldable pub pair_of : Option Bytes → Option Bytes → Option (Bytes × Bytes)
pair_of none frame0 = none
pair_of (some frame1) none = none
pair_of (some frame1) (some frame0) = some (frame0, frame1)

-- The second half is encrypted first. `header_len` bytes of the packet stand before each half.
unfoldable pub encrypt_halves : Encrypt → ℕ → Bytes → Plan → ℕ → Split
unfolding pair_of frag_next_pkt_id
encrypt_halves encrypt counter p plan header_len =
    let (pkt_id, counter') = frag_next_pkt_id counter in
    let header = take header_len p in
    (
      pair_of (encrypt header (plain1 plan p) pkt_id 1) (encrypt header (plain0 plan p) pkt_id 0),
      counter',
    )

unfoldable pub split_l3 : Encrypt → ℕ → Bytes → Option Plan → Split
unfolding encrypt_halves
split_l3 encrypt counter p none = (none, counter)
split_l3 encrypt counter p (some plan) =
    encrypt_halves encrypt counter p plan (14 + plan.ip_hdr_len)

unfoldable pub frag_split_and_encrypt : Encrypt → Bool → ℕ → Bytes → Split
unfolding split_l3 plan_l3
frag_split_and_encrypt encrypt gcm counter p = split_l3 encrypt counter p (plan_l3 gcm p)

unfoldable pub split_l2 : Encrypt → ℕ → Bytes → Option Plan → Split
unfolding encrypt_halves
split_l2 encrypt counter p none = (none, counter)
split_l2 encrypt counter p (some plan) = encrypt_halves encrypt counter p plan 14

unfoldable pub frag_split_and_encrypt_l2 : Encrypt → Bool → ℕ → Bytes → Split
unfolding split_l2 plan_l2
frag_split_and_encrypt_l2 encrypt gcm counter p = split_l2 encrypt counter p (plan_l2 gcm p)
