-- ===== src/Fragment/Reassemble.antt =====
-- `frag_try_reassemble` and `frag_try_reassemble_l2` of src/core/fragment.c. The time is an argument.
pub mod Order
pub mod OrderL2
pub mod Home
use ne_multi_core.Base.{
  ℕ, ◌+◌, ◌-◌, ◌/◌, ◌%◌, ◌^◌, Bool, true, false, ◌&&◌, ◌||◌, not, Option, none, some, ◌++◌, length,
  set, drop, ltb, ◌==◌, if◌then◌else◌,
}
use ne_multi_core.Fragment.{
  Bytes, FragEntry, FragTable, zero_entry, byte_at, ip_header_len, timed_out, in_use,
  frag_table_size, frag_require_ipv4, frag_store_first, frag_store_second, frag_l2_acquire, Outcome,
  failed, pending, joined, frag_emit_join,
}

-- The result of a call, and the table after it.
abbrev pub Reassembled : Type 0
Reassembled = Outcome × FragTable

abbrev pub put : FragTable → ℕ → FragEntry → FragTable
put ft idx e i = if i == idx then e else ft i

-- The store of a half, and the join.
unfoldable pub finish : FragTable → ℕ → Option FragEntry → Reassembled
finish ft idx none = (failed, ft)
finish ft idx (some e) = let (out, e') = frag_emit_join e 14 in (out, put ft idx e')

-- Whether the bytes begin with an IPv4 header.
unfoldable pub has_inner_ipv4 : Bytes → Bool
has_inner_ipv4 p =
    let ihl = ip_header_len (byte_at p 0) in
    if ltb (length p) 20 || not (byte_at p 0 / 2 ^ 4 == 4)
    then false
    else if ltb ihl 20 || ltb (length p) ihl
    then false
    else true

-- The `memset` before a second half is stored.
unfoldable pub clear_old : FragEntry → ℕ → ℕ → FragEntry
clear_old e pkt_id now =
    if in_use e && (e.pkt_id == pkt_id) && timed_out now e then zero_entry else e

-- A second half is put into the cleared entry; if it does not fit, the cleared entry stays.
unfoldable pub second_half : FragTable → ℕ → ℕ → Bytes → ℕ → Reassembled
unfolding finish clear_old
second_half ft idx pkt_id half now =
    let e = clear_old (ft idx) pkt_id now in
    finish (put ft idx e) idx (frag_store_second e pkt_id half now)

unfoldable pub first_half : FragTable → ℕ → ℕ → Bytes → Bytes → ℕ → Reassembled
unfolding finish has_inner_ipv4
first_half ft idx pkt_id packet half now =
    if has_inner_ipv4 half
    then finish ft idx (frag_store_first (ft idx) pkt_id packet half now)
    else (failed, ft)

-- `payload` is what follows the IP header.
reassemble_payload : FragTable → Bytes → Bytes → ℕ → ℕ → ℕ → Reassembled
unfolding first_half second_half
reassemble_payload ft packet payload pkt_id frag_index now =
    let idx = pkt_id % frag_table_size in
    if frag_index == 0
    then first_half ft idx pkt_id packet payload now
    else if frag_index == 1
    then second_half ft idx pkt_id payload now
    else (failed, ft)

reassemble_after : FragTable → Bytes → Option ℕ → ℕ → ℕ → ℕ → Reassembled
unfolding reassemble_payload
reassemble_after ft packet none pkt_id frag_index now = (failed, ft)
reassemble_after ft packet (some ihl) pkt_id frag_index now =
    reassemble_payload ft packet (drop (14 + ihl) packet) pkt_id frag_index now

pub frag_try_reassemble : FragTable → Bytes → ℕ → ℕ → ℕ → Reassembled
unfolding reassemble_after
frag_try_reassemble ft packet pkt_id frag_index now =
    reassemble_after ft packet (frag_require_ipv4 packet) pkt_id frag_index now

-- The EtherType of the packet that is put out becomes that of IPv4.
unfoldable pub as_ipv4 : Reassembled → Reassembled
as_ipv4 (failed, ft) = (failed, ft)
as_ipv4 (pending, ft) = (pending, ft)
as_ipv4 (joined p, ft) = (joined (set (set p 12 0x08) 13 0x00), ft)

unfoldable pub reassemble_at : FragTable → Bytes → Bytes → ℕ → ℕ → ℕ → Option ℕ → Reassembled
unfolding first_half second_half
reassemble_at ft packet inner pkt_id frag_index now none = (failed, ft)
reassemble_at ft packet inner pkt_id frag_index now (some idx) =
    if frag_index == 0
    then first_half ft idx pkt_id packet inner now
    else if frag_index == 1
    then second_half ft idx pkt_id inner now
    else (failed, ft)

-- `crypto_layer2_wire_eth_len` is 14.
unfoldable pub frag_try_reassemble_l2 : FragTable → Bytes → ℕ → ℕ → ℕ → Reassembled
unfolding reassemble_at as_ipv4
frag_try_reassemble_l2 ft packet pkt_id frag_index now =
    if ltb (length packet) 34
    then (failed, ft)
    else as_ipv4 (
        reassemble_at ft packet (drop 14 packet) pkt_id frag_index now
          (frag_l2_acquire ft pkt_id now))
