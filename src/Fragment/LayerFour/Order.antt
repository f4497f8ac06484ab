-- ===== src/Fragment/LayerFour/Order.antt =====
-- The two halves of a layer 4 packet in either order, and the need to split, src/core/fragment.c.
use ne_multi_core.Base.{
  ℕ, ◌+◌, ◌≤◌, ◌<◌, ◌≡◌, refl, ◌↔◌, arith, Bool, true, false, ◌++◌, length, take, drop, ◌==◌,
  le→ltb_false,
}
use ne_multi_core.Fragment.{
  Bytes, FragTable, byte_at, ethertype, ip_header_len, half_max, frag_mtu, pending,
}
use ne_multi_core.Fragment.Entry.{IsVacant, Soon}
use ne_multi_core.Fragment.Reassemble.{Reassembled, has_inner_ipv4, first_half, second_half}
use ne_multi_core.Fragment.Reassemble.Order.{Joins, slot_of, either_order}
use ne_multi_core.Fragment.LayerFour.{
  crypto_layer4_wire_port_len, crypto_layer4_frag_meta_len, frag_need_split_l4, has_inner_transport,
  first_l4, second_l4, repaired, fixed_up, reassemble_l4_at, frag_try_reassemble_l4,
}

transport-ipv4 : (plain : Bytes) → has_inner_transport plain ≡ true → has_inner_ipv4 plain ≡ true
unfolding has_inner_transport has_inner_ipv4
transport-ipv4 plain h = ground (arith, h)

-- With an IPv4 header inside, and with bytes in the second half, layer 4 stores like layer 3.
first_l4-eq :
    (ft : FragTable) (idx pkt_id : ℕ) (packet plain : Bytes) (now : ℕ)
    → has_inner_transport plain ≡ true
    → first_l4 ft idx pkt_id packet plain now ≡ first_half ft idx pkt_id packet plain now
unfolding first_l4 first_half
first_l4-eq ft idx pkt_id packet plain now h = rw (h, transport-ipv4 plain h) refl

second_l4-eq :
    (ft : FragTable) (idx pkt_id : ℕ) (half : Bytes) (now : ℕ)
    → 0 < length half
    → second_l4 ft idx pkt_id half now ≡ second_half ft idx pkt_id half now
unfolding second_l4 second_half
second_l4-eq ft idx pkt_id half now h =
    let e : (length half == 0) ≡ false = ground arith in rw e refl

-- A decrypted layer 4 fragment with what follows the IP header and the ports.
abbrev pub IsFragment : Bytes → Bytes → Type 0
IsFragment d plain =
    (34 ≤ length d)
    × (ethertype d ≡ 0x0800)
    × (drop (14 + ip_header_len (byte_at d 14) + crypto_layer4_wire_port_len) d ≡ plain)

reassemble-first :
    (ft : FragTable) (d a : Bytes) (pkt_id now : ℕ)
    → IsFragment d a
    → has_inner_transport a ≡ true
    → frag_try_reassemble_l4 ft d pkt_id 0 now
      ≡ fixed_up (first_half ft (slot_of pkt_id) pkt_id d a now)
unfolding frag_try_reassemble_l4 reassemble_l4_at
reassemble-first ft d a pkt_id now (long, v4, e) inner =
    rw (le→ltb_false _ _ long, v4, e, first_l4-eq ft (slot_of pkt_id) pkt_id d a now inner) refl

reassemble-second :
    (ft : FragTable) (d b : Bytes) (pkt_id now : ℕ)
    → IsFragment d b
    → 0 < length b
    → frag_try_reassemble_l4 ft d pkt_id 1 now
      ≡ fixed_up (second_half ft (slot_of pkt_id) pkt_id b now)
unfolding frag_try_reassemble_l4 reassemble_l4_at
reassemble-second ft d b pkt_id now (long, v4, e) some_data =
    rw (le→ltb_false _ _ long, v4, e, second_l4-eq ft (slot_of pkt_id) pkt_id b now some_data) refl

fixed_up-Joins :
    (ft : FragTable) (idx : ℕ) (r : Reassembled) (packet : Bytes)
    → Joins ft idx r packet
    → Joins ft idx (fixed_up r) (repaired packet)
unfolding fixed_up
fixed_up-Joins ft idx (out, ft') packet (a, b, c) = rw a (refl, b, c)

fixed_up-pending : (r : Reassembled) → r.0 ≡ pending → fixed_up r ≡ r
unfolding fixed_up
fixed_up-pending (out, ft) e = rw e refl

-- Two halves of a layer 4 packet that come within 200 ms are joined to the same packet in either
-- order: what `crypto_layer4_fixup_packet` makes of the Ethernet header of the first half and both
-- payloads (the same bytes where it refuses them). The first half to come waits, the entry is free at the
-- end, and no other entry changes. The second half is not empty and the first begins with an IPv4 header
-- of TCP or UDP.
pub reassemble_l4_either_order :
    (ft : FragTable) (pkt_id : ℕ) (d0 d1 a b : Bytes) (now now' : ℕ)
    → IsFragment d0 a
    → IsFragment d1 b
    → has_inner_transport a ≡ true
    → length a ≤ half_max
    → 0 < length b
    → length b ≤ half_max
    → IsVacant (ft (slot_of pkt_id)) pkt_id now
    → Soon now now'
    → let r1 = frag_try_reassemble_l4 ft d0 pkt_id 0 now in
      let s1 = frag_try_reassemble_l4 ft d1 pkt_id 1 now in
      let whole = repaired (take 14 d0 ++ a ++ b) in
      (r1.0 ≡ pending)
      × (s1.0 ≡ pending)
      × Joins ft (slot_of pkt_id) (frag_try_reassemble_l4 r1.1 d1 pkt_id 1 now') whole
      × Joins ft (slot_of pkt_id) (frag_try_reassemble_l4 s1.1 d0 pkt_id 0 now') whole
reassemble_l4_either_order ft pkt_id d0 d1 a b now now' f0 f1 inner fits_a data_b fits_b vacant
      soon =
    let idx = slot_of pkt_id in
    let r1 = first_half ft idx pkt_id d0 a now in
    let s1 = second_half ft idx pkt_id b now in
    let (w, w', j, j') =
      either_order ft idx pkt_id d0 a b now now' vacant fits_a fits_b soon
        (transport-ipv4 a inner) in
    rw
      (
        reassemble-first ft d0 a pkt_id now f0 inner,
        reassemble-second ft d1 b pkt_id now f1 data_b,
        fixed_up-pending r1 w,
        fixed_up-pending s1 w',
        reassemble-second r1.1 d1 b pkt_id now' f1 data_b,
        reassemble-first s1.1 d0 a pkt_id now' f0 inner,
      )
      (w, w', fixed_up-Joins ft idx _ _ j, fixed_up-Joins ft idx _ _ j')

-- With AES-CTR and AES-GCM a packet is split exactly if, with the ports, the tunnel header, the
-- fragment header and the tag of its mode, it would be longer than the MTU.
pub need_split_l4_iff :
    (gcm : Bool) (pkt_len : ℕ)
    → (frag_need_split_l4 gcm pkt_len ≡ true)
      ↔ (frag_mtu < pkt_len + crypto_layer4_frag_meta_len gcm)
unfolding frag_need_split_l4 crypto_layer4_frag_meta_len
need_split_l4_iff true pkt_len = ground arith
need_split_l4_iff false pkt_len = ground arith
