-- ===== src/Dataplane.antt =====
-- What the two directions of the data path share, src/core/dataplane_util.c: `dp_parse_flow`,
-- `dp_dest_ipv4`, `dp_write_l2_src_only`, `dp_write_l2`, `dp_apply_wan_l2` and `dp_ring_push`. A packet is
-- the list of its bytes, so its length is the `len` of the source; a function that writes to the
-- packet returns it, or `none` for the -1 of the source, which leaves it as it was.
pub mod Rewrite
pub mod Push
pub mod Policy
pub mod Local
pub mod Wan
use ne_multi_core.Base.{
  ℕ, ◌+◌, ◌*◌, ◌^◌, Bool, true, false, ◌&&◌, ◌||◌, not, Option, none, some, List, [], ◌∷◌, length,
  set, take, ltb, ◌==◌, if◌then◌else◌,
}
use ne_multi_core.Fragment.{Bytes, byte_at, ethertype, ip_header_len}
use ne_multi_core.Flow.Hash.{FlowKey}
use ne_multi_core.Ring.{Packet, Ring, ring_try_push}
use ne_multi_core.Pool.{Pool, frame_free}

-- MAC_LEN
abbrev pub mac_len : ℕ
mac_len = 6

-- A `uint32_t` that is read in the host's order, and a `uint16_t` that `ntohs` turns.
abbrev pub load32 : Bytes → ℕ → ℕ
load32 p off =
    byte_at p off
    + byte_at p (off + 1) * 2 ^ 8
    + byte_at p (off + 2) * 2 ^ 16
    + byte_at p (off + 3) * 2 ^ 24

abbrev pub load16_be : Bytes → ℕ → ℕ
load16_be p off = byte_at p off * 2 ^ 8 + byte_at p (off + 1)

-- Addresses as they are in the packet, ports in the host's order.
abbrev pub flow_with_ports : Bytes → ℕ → ℕ → FlowKey
flow_with_ports p src_port dst_port = record {
  src_ip = load32 p 26;
  dst_ip = load32 p 30;
  src_port = src_port;
  dst_port = dst_port;
  protocol = byte_at p 23;
}

unfoldable pub dp_parse_flow : Bytes → Option FlowKey
dp_parse_flow p =
    let ihl = ip_header_len (byte_at p 14) in
    let l4 = 14 + ihl in
    if ltb (length p) 34
    then none
    else if not (ethertype p == 0x0800)
    then none
    else if ltb ihl 20 || ltb (length p) l4
    then none
    else if (byte_at p 23 == 6) || (byte_at p 23 == 17)
    then (if ltb (length p) (l4 + 4)
        then none
        else some (flow_with_ports p (load16_be p l4) (load16_be p (l4 + 2))))
    else some (flow_with_ports p 0 0)

abbrev dst_of : Option FlowKey → ℕ
dst_of none = 0
dst_of (some k) = k.dst_ip

-- 0 for a packet that is not IPv4.
unfoldable pub dp_dest_ipv4 : Bytes → ℕ
unfolding dp_parse_flow
dp_dest_ipv4 p = dst_of (dp_parse_flow p)

-- `memcmp(mac, zero, MAC_LEN) == 0`
abbrev pub is_zero_mac : Bytes → Bool
is_zero_mac [] = true
is_zero_mac (b ∷ bs) = (b == 0) && is_zero_mac bs

-- `memcpy(p + off, bs, n)`, with the `n` bytes as a list.
unfoldable pub overwrite : Bytes → ℕ → Bytes → Bytes
overwrite p off [] = p
overwrite p off (b ∷ bs) = overwrite (set p off b) (off + 1) bs

unfoldable pub dp_write_l2_src_only : Bytes → Bytes → Option Bytes
unfolding overwrite
dp_write_l2_src_only p src =
    if ltb (length p) 14
    then none
    else if is_zero_mac src
    then none
    else some (overwrite p mac_len (take mac_len src))

unfoldable pub dp_write_l2 : Bytes → Bytes → Bytes → Bool → Option Bytes
unfolding overwrite
dp_write_l2 p dst src allow_empty_src =
    if ltb (length p) 14
    then none
    else if is_zero_mac dst
    then none
    else if not allow_empty_src && is_zero_mac src
    then none
    else some (overwrite (overwrite p 0 (take mac_len dst)) mac_len (take mac_len src))

unfoldable pub dp_apply_wan_l2 : Bytes → Bytes → Bytes → Option Bytes
unfolding dp_write_l2
dp_apply_wan_l2 p dst src =
    if ltb (length p) 14
    then none
    else if is_zero_mac dst || is_zero_mac src
    then some p
    else dp_write_l2 p dst src false

-- Whether the packet was pushed, and the pool and the ring after the call.
abbrev pub Pushed : Type 0
Pushed = Bool × Pool × Ring

unfoldable pub pushed_or_freed : Pool → Ring → Packet → Option Ring → Pushed
pushed_or_freed pool r pkt none = (false, frame_free pool pkt.addr, r)
pushed_or_freed pool r pkt (some r') = (true, pool, r')

unfoldable pub dp_ring_push : ℕ → Pool → Ring → Packet → Pushed
unfolding pushed_or_freed
dp_ring_push frame_size pool r pkt =
    if ltb frame_size pkt.len
    then (false, frame_free pool pkt.addr, r)
    else pushed_or_freed pool r pkt (ring_try_push r pkt)
