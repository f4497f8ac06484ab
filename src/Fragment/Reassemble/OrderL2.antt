-- ===== src/Fragment/Reassemble/OrderL2.antt =====
-- The two halves of a packet in either order, for the layer 2 reassembly of src/core/fragment.c.
use ne_multi_core.Base.{
  ℕ, ◌+◌, ◌≤◌, ◌≡◌, refl, sym, ap, ◌∙◌, subst, arith, true, false, some, ◌++◌, length, set, take,
  drop, length-drop, ltb,
}
use ne_multi_core.Fragment.{Bytes, FragTable, half_max, frag_l2_acquire, pending}
use ne_multi_core.Fragment.Entry.{IsVacant, Soon}
use ne_multi_core.Fragment.Reassemble.{
  Reassembled, has_inner_ipv4, first_half, second_half, as_ipv4, reassemble_at,
  frag_try_reassemble_l2,
}
use ne_multi_core.Fragment.Reassemble.Order.{Joins, either_order}

-- The packet with the EtherType of IPv4.
abbrev pub with_ipv4_type : Bytes → Bytes
with_ipv4_type p = set (set p 12 0x08) 13 0x00

as_ipv4-pending : (r : Reassembled) → r.0 ≡ pending → as_ipv4 r ≡ r
unfolding as_ipv4
as_ipv4-pending (out, ft) e = rw e refl

as_ipv4-Joins :
    (ft : FragTable) (idx : ℕ) (r : Reassembled) (p : Bytes)
    → Joins ft idx r p
    → Joins ft idx (as_ipv4 r) (with_ipv4_type p)
unfolding as_ipv4
as_ipv4-Joins ft idx (out, ft') p (e, free, others) = rw e (refl, free, others)

-- The half that comes first, or second, at an entry that the search gives.
pub first_at :
    (ft : FragTable) (d0 : Bytes) (pkt_id now idx : ℕ)
    → 34 ≤ length d0
    → frag_l2_acquire ft pkt_id now ≡ some idx
    → frag_try_reassemble_l2 ft d0 pkt_id 0 now
      ≡ as_ipv4 (first_half ft idx pkt_id d0 (drop 14 d0) now)
unfolding frag_try_reassemble_l2 reassemble_at
first_at ft d0 pkt_id now idx long found =
    let e : ltb (length d0) 34 ≡ false = ground arith in rw (e, found) refl

pub second_at :
    (ft : FragTable) (d1 : Bytes) (pkt_id now idx : ℕ)
    → 34 ≤ length d1
    → frag_l2_acquire ft pkt_id now ≡ some idx
    → frag_try_reassemble_l2 ft d1 pkt_id 1 now
      ≡ as_ipv4 (second_half ft idx pkt_id (drop 14 d1) now)
unfolding frag_try_reassemble_l2 reassemble_at
second_at ft d1 pkt_id now idx long found =
    let e : ltb (length d1) 34 ≡ false = ground arith in rw (e, found) refl

-- Two halves of a layer 2 packet, of 34 bytes or more each, that come within 200 ms are joined to the
-- same packet in either order, if the search gives the second to come the entry where the first one
-- waits: the Ethernet header of the first half with the EtherType of IPv4, and both payloads. Nothing
-- of the packet is in the entry before, and the entry is free at the end.
pub reassemble_l2_either_order :
    (ft : FragTable) (pkt_id idx : ℕ) (d0 d1 : Bytes) (now now' : ℕ)
    → 34 ≤ length d0
    → 34 ≤ length d1
    → length d0 ≤ 14 + half_max
    → length d1 ≤ 14 + half_max
    → has_inner_ipv4 (drop 14 d0) ≡ true
    → IsVacant (ft idx) pkt_id now
    → Soon now now'
    → frag_l2_acquire ft pkt_id now ≡ some idx
    → frag_l2_acquire (frag_try_reassemble_l2 ft d0 pkt_id 0 now).1 pkt_id now' ≡ some idx
    → frag_l2_acquire (frag_try_reassemble_l2 ft d1 pkt_id 1 now).1 pkt_id now' ≡ some idx
    → let r1 = frag_try_reassemble_l2 ft d0 pkt_id 0 now in
      let q1 = frag_try_reassemble_l2 ft d1 pkt_id 1 now in
      let whole = with_ipv4_type (take 14 d0 ++ drop 14 d0 ++ drop 14 d1) in
      (r1.0 ≡ pending)
      × (q1.0 ≡ pending)
      × Joins ft idx (frag_try_reassemble_l2 r1.1 d1 pkt_id 1 now') whole
      × Joins ft idx (frag_try_reassemble_l2 q1.1 d0 pkt_id 0 now') whole
reassemble_l2_either_order ft pkt_id idx d0 d1 now now' long0 long1 short0 short1 inner vacant soon
      found again again' =
    let a = drop 14 d0 in
    let b = drop 14 d1 in
    let whole = take 14 d0 ++ a ++ b in
    let (p, q, j, k) =
      either_order ft idx pkt_id d0 a b now now' vacant (omega (arith, length-drop 14 d0))
        (omega (arith, length-drop 14 d1)) soon inner in
    let r = first_at ft d0 pkt_id now idx long0 found ∙ as_ipv4-pending _ p in
    let s = second_at ft d1 pkt_id now idx long1 found ∙ as_ipv4-pending _ q in
    let r' = second_at _ d1 pkt_id now' idx long1 again in
    let s' = first_at _ d0 pkt_id now' idx long0 again' in
    (
      ap (λ t. t.0) r ∙ p,
      ap (λ t. t.0) s ∙ q,
      subst (λ t. Joins ft idx t (with_ipv4_type whole))
          (ap (λ (t : Reassembled). as_ipv4 (second_half t.1 idx pkt_id b now')) (sym r) ∙ sym r')
          (as_ipv4-Joins ft idx _ whole j),
      subst (λ t. Joins ft idx t (with_ipv4_type whole))
          (ap (λ (t : Reassembled). as_ipv4 (first_half t.1 idx pkt_id d0 a now')) (sym s) ∙ sym s')
          (as_ipv4-Joins ft idx _ whole k),
    )
