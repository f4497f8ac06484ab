-- ===== src/Crypto/Fixup.antt =====
-- `crypto_layer4_fixup_packet` of src/crypto/crypto_layer4.c, which repairs the lengths and checksums of
-- a packet, with `crypto_eth_ipv4_offset` and `l4_fix_ipv4_totlen_and_cksum`, and the checksums of
-- src/crypto/packet_crypto.c. Bytes are below 256, so that a word is its first byte times 256 and the second.
use ne_multi_core.Base.{
  ℕ, zero, suc, ◌+◌, ◌-◌, ◌*◌, ◌/◌, ◌%◌, ◌^◌, ◌<◌, arith, ◌&&◌, ◌||◌, not, Option, none, some, [],
  ◌∷◌, length, take, drop, set, ltb, leb, ◌==◌, if◌then◌else◌,
}
use ne_multi_core.Fragment.{Bytes, byte_at, ip_header_len}

-- The 16-bit word at an offset, and the same written; a value is cut to 16 bits.
abbrev pub read_u16 : Bytes → ℕ → ℕ
read_u16 p off = byte_at p off * 2 ^ 8 + byte_at p (off + 1)

abbrev pub write_u16 : Bytes → ℕ → ℕ → Bytes
write_u16 p off v = set (set p off (v / 2 ^ 8 % 2 ^ 8)) (off + 1) (v % 2 ^ 8)

-- The sum of the words, a last odd byte being the high one.
unfoldable pub word_sum : Bytes → ℕ → ℕ
word_sum [] sum = sum
word_sum (a ∷ []) sum = (sum + a * 2 ^ 8) % 2 ^ 32
word_sum (a ∷ b ∷ bs) sum = word_sum bs ((sum + (a * 2 ^ 8 + b)) % 2 ^ 32)

-- `while (sum >> 16) sum = (sum & 0xFFFF) + (sum >> 16);`
unfoldable pub fold_loop : ℕ → ℕ → ℕ
fold_loop zero sum = sum
fold_loop (suc fuel) sum =
    let rest = fold_loop fuel (sum % 2 ^ 16 + sum / 2 ^ 16) in
    if sum / 2 ^ 16 == 0 then sum else rest

-- Two rounds are enough for a sum of 32 bits: no carry is left, and the loop ends there.
fold_loop-ends : (sum : ℕ) → sum < 2 ^ 32 → fold_loop 2 sum < 2 ^ 16
unfolding fold_loop
fold_loop-ends sum small = ground arith

-- `(uint16_t)(~sum)` of the folded sum.
unfoldable pub checksum_of : ℕ → ℕ
unfolding fold_loop
checksum_of sum = 2 ^ 16 - 1 - fold_loop 2 sum

-- The header is the list of its bytes.
unfoldable pub crypto_calc_ip_checksum : Bytes → ℕ
unfolding checksum_of word_sum
crypto_calc_ip_checksum ip_hdr = checksum_of (word_sum ip_hdr 0)

-- The addresses of the header at offset `l3_off`, with the protocol and the length.
abbrev pseudo_sum : Bytes → ℕ → ℕ → ℕ → ℕ
pseudo_sum p l3_off proto len =
    read_u16 p (l3_off + 12)
    + read_u16 p (l3_off + 14)
    + read_u16 p (l3_off + 16)
    + read_u16 p (l3_off + 18)
    + proto
    + len

-- The word of the checksum itself, at 16, counts as 0.
unfoldable pub crypto_calc_tcp_checksum : Bytes → ℕ → ℕ → Bytes → ℕ
unfolding checksum_of word_sum
crypto_calc_tcp_checksum p l3_off ip_hdr_len tcp_seg =
    if ltb ip_hdr_len 20 || ltb (length tcp_seg) 20
    then 0
    else checksum_of
        (word_sum (write_u16 tcp_seg 16 0) (pseudo_sum p l3_off 6 (length tcp_seg % 2 ^ 16)))

unfoldable pub crypto_calc_udp_checksum : Bytes → ℕ → ℕ → Bytes → ℕ
unfolding checksum_of word_sum
crypto_calc_udp_checksum p l3_off ip_hdr_len udp_seg =
    let stated = read_u16 udp_seg 4 in
    let at_least = if ltb stated 8 then 8 else stated in
    let seg_len = length udp_seg % 2 ^ 16 in
    let udp_len = if ltb seg_len at_least then seg_len else at_least in
    if ltb ip_hdr_len 20 || ltb (length udp_seg) 8
    then 0
    else checksum_of (word_sum (take udp_len udp_seg) (pseudo_sum p l3_off 17 udp_len))

-- Where the IPv4 header is, behind up to two VLAN tags; `none` is the -1 of the source.
unfoldable pub crypto_eth_ipv4_offset : Bytes → Option ℕ
crypto_eth_ipv4_offset p =
    if ltb (length p) 14
    then none
    else if read_u16 p 12 == 0x0800
    then some 14
    else if not (read_u16 p 12 == 0x8100)
    then none
    else if ltb (length p) 18
    then none
    else if read_u16 p 16 == 0x0800
    then some 18
    else if (read_u16 p 16 == 0x8100) && leb 22 (length p) && (read_u16 p 20 == 0x0800)
    then some 22
    else none

unfoldable pub l4_fix_ipv4_totlen_and_cksum : Bytes → ℕ → ℕ → ℕ → Bytes
l4_fix_ipv4_totlen_and_cksum p l3_off ip_hdr_len ip_payload_len =
    let p1 = write_u16 p (l3_off + 2) (ip_hdr_len + ip_payload_len) in
    let p2 = write_u16 p1 (l3_off + 10) 0 in
    write_u16 p2 (l3_off + 10) (crypto_calc_ip_checksum (take ip_hdr_len (drop l3_off p2)))

-- The length and checksum of UDP, and the checksum of TCP.
unfoldable pub fix_transport : Bytes → ℕ → ℕ → ℕ → ℕ → Bytes
fix_transport p l3_off ip_hdr_len ip_proto transport_len =
    let off = l3_off + ip_hdr_len in
    let u = write_u16 (write_u16 p (off + 4) transport_len) (off + 6) 0 in
    let t = write_u16 p (off + 16) 0 in
    if ip_proto == 17
    then write_u16 u (off + 6) (crypto_calc_udp_checksum u l3_off ip_hdr_len (drop off u))
    else if (ip_proto == 6) && leb 20 transport_len
    then write_u16 t (off + 16) (crypto_calc_tcp_checksum t l3_off ip_hdr_len (drop off t))
    else p

unfoldable pub fixup_at : Bytes → Option ℕ → Option Bytes
unfolding fix_transport l4_fix_ipv4_totlen_and_cksum
fixup_at p none = none
fixup_at p (some l3_off) =
    let ip_hdr_len = ip_header_len (byte_at p l3_off) in
    let transport_len = length p - (l3_off + ip_hdr_len) in
    if ltb ip_hdr_len 20
    then none
    else if ltb (length p) (l3_off + ip_hdr_len + 8)
    then none
    else some (
        fix_transport (l4_fix_ipv4_totlen_and_cksum p l3_off ip_hdr_len transport_len) l3_off
          ip_hdr_len (byte_at p (l3_off + 9)) transport_len)

-- `none` is the -1 of the source, which leaves the packet as it is.
unfoldable pub crypto_layer4_fixup_packet : Bytes → Option Bytes
unfolding fixup_at crypto_eth_ipv4_offset
crypto_layer4_fixup_packet p =
    if ltb (length p) 34 then none else fixup_at p (crypto_eth_ipv4_offset p)
