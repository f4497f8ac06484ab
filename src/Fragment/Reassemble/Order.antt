-- ===== src/Fragment/Reassemble/Order.antt =====
-- The two halves of a packet in either order, for the reassembly of src/core/fragment.c.
use ne_multi_core.Base.{
  ℕ, ◌+◌, ◌%◌, ◌≤◌, ◌≡◌, ◌≢◌, refl, ap, ◌∙◌, arith, true, false, Option, some, ◌++◌, length, drop,
  take, ==_refl,
}
use ne_multi_core.Fragment.{
  Bytes, FragEntry, FragTable, zero_entry, half_max, timed_out, frag_table_size, frag_require_ipv4,
  pending, joined, frag_emit_join,
}
use ne_multi_core.Fragment.Entry.{
  IsVacant, Soon, with_first, with_second, first_then_second, second_then_first, prepared,
}
use ne_multi_core.Fragment.Reassemble.{
  Reassembled, put, finish, has_inner_ipv4, clear_old, second_half, first_half, reassemble_payload,
  reassemble_after, frag_try_reassemble,
}

-- The result is the packet, the entry is free again, and no other entry has changed.
abbrev pub Joins : FragTable → ℕ → Reassembled → Bytes → Type 0
Joins ft idx r packet =
    (r.0 ≡ joined packet) × (r.1 idx ≡ zero_entry) × ((j : ℕ) → j ≢ idx → r.1 j ≡ ft j)

-- The half waits in the entry, and no other entry has changed.
abbrev pub Waits : FragTable → ℕ → Reassembled → FragEntry → Type 0
Waits ft idx r e = (r.0 ≡ pending) × (r.1 idx ≡ e) × ((j : ℕ) → j ≢ idx → r.1 j ≡ ft j)

finish-Waits :
    (ft : FragTable) (idx : ℕ) (o : Option FragEntry) (e : FragEntry)
    → o ≡ some e
    → frag_emit_join e 14 ≡ (pending, e)
    → Waits ft idx (finish ft idx o) e
unfolding finish
finish-Waits ft idx o e stored waits = (
  rw (stored, waits) refl,
  rw (stored, waits, ==_refl idx) refl,
  λ j ne. rw (stored, waits) (ground (arith, ne)),
)

finish-Joins :
    (ft : FragTable) (idx : ℕ) (o : Option FragEntry) (e : FragEntry) (packet : Bytes)
    → o ≡ some e
    → frag_emit_join e 14 ≡ (joined packet, zero_entry)
    → Joins ft idx (finish ft idx o) packet
unfolding finish
finish-Joins ft idx o e packet stored joins = (
  rw (stored, joins) refl,
  rw (stored, joins, ==_refl idx) refl,
  λ j ne. rw (stored, joins) (ground (arith, ne)),
)

clear_old-IsVacant :
    (e : FragEntry) (pkt_id now : ℕ)
    → IsVacant e pkt_id now
    → IsVacant (clear_old e pkt_id now) pkt_id now
unfolding clear_old
clear_old-IsVacant e pkt_id now vacant = ground (arith, vacant)

clear_old-young :
    (e : FragEntry) (pkt_id now now' : ℕ)
    → e.timestamp_ns ≡ now
    → Soon now now'
    → clear_old e pkt_id now' ≡ e
unfolding clear_old
clear_old-young e pkt_id now now' at soon =
    let young : timed_out now' e ≡ false = ground (arith, at) in ground (arith, young)

Joins-put :
    (ft : FragTable) (idx : ℕ) (e : FragEntry) (r : Reassembled) (packet : Bytes)
    → Joins (put ft idx e) idx r packet
    → Joins ft idx r packet
Joins-put ft idx e r packet (a, b, c) = (a, b, λ j ne. c j ne ∙ ground (arith, ne))

Waits-put :
    (ft : FragTable) (idx : ℕ) (e x : FragEntry) (r : Reassembled)
    → Waits (put ft idx e) idx r x
    → Waits ft idx r x
Waits-put ft idx e x r (a, b, c) = (a, b, λ j ne. c j ne ∙ ground (arith, ne))

-- In this section the halves `a` and `b` of a packet meet in entry `idx` of the table.
module _ (ft : FragTable) (idx pkt_id : ℕ) (packet a b : Bytes) (now now' : ℕ)
    (vacant : IsVacant (ft idx) pkt_id now) (fits_a : length a ≤ half_max)
    (fits_b : length b ≤ half_max) (soon : Soon now now') (inner : has_inner_ipv4 a ≡ true) where
  abbrev whole : Bytes
  whole = take 14 packet ++ a ++ b

  abbrev e1 : FragEntry
  e1 = with_first (ft idx) pkt_id packet a now

  abbrev e0 : FragEntry
  e0 = clear_old (ft idx) pkt_id now

  abbrev s1 : FragEntry
  s1 = with_second e0 pkt_id b now

  pub first-Waits : Waits ft idx (first_half ft idx pkt_id packet a now) e1
  unfolding first_half
  first-Waits =
      let (stored, waits, stored2, joins) =
        first_then_second pkt_id packet a b (ft idx) now now' vacant fits_a fits_b soon in
      rw inner (finish-Waits ft idx _ e1 stored waits)

  second-Joins :
      (ft' : FragTable) → ft' idx ≡ e1 → Joins ft' idx (second_half ft' idx pkt_id b now') whole
  unfolding second_half
  second-Joins ft' at_idx =
      let (p, q, stored, joins) =
        first_then_second pkt_id packet a b (ft idx) now now' vacant fits_a fits_b soon in
      let same : clear_old (ft' idx) pkt_id now' ≡ e1 =
        ap (λ t. clear_old t pkt_id now') at_idx
        ∙ clear_old-young e1 pkt_id now now' (prepared (ft idx) pkt_id now).1 soon in
      rw same (
        Joins-put ft' idx e1 _ whole
          (finish-Joins (put ft' idx e1) idx _ (with_second e1 pkt_id b now') whole stored joins))

  pub second-Waits : Waits ft idx (second_half ft idx pkt_id b now) s1
  unfolding second_half
  second-Waits =
      let (stored, waits, stored2, joins) =
        second_then_first pkt_id packet a b e0 now now'
          (clear_old-IsVacant (ft idx) pkt_id now vacant) fits_a fits_b soon in
      Waits-put ft idx e0 s1 _ (finish-Waits (put ft idx e0) idx _ s1 stored waits)

  first-Joins :
      (ft' : FragTable)
      → ft' idx ≡ s1
      → Joins ft' idx (first_half ft' idx pkt_id packet a now') whole
  unfolding first_half
  first-Joins ft' at_idx =
      let (p, q, stored, joins) =
        second_then_first pkt_id packet a b e0 now now'
          (clear_old-IsVacant (ft idx) pkt_id now vacant) fits_a fits_b soon in
      rw (inner, at_idx)
        (finish-Joins ft' idx _ (with_first s1 pkt_id packet a now') whole stored joins)

  pub either_order :
      let r1 = first_half ft idx pkt_id packet a now in
      let q1 = second_half ft idx pkt_id b now in
      (r1.0 ≡ pending)
      × (q1.0 ≡ pending)
      × Joins ft idx (second_half r1.1 idx pkt_id b now') whole
      × Joins ft idx (first_half q1.1 idx pkt_id packet a now') whole
  either_order =
      let r1 = first_half ft idx pkt_id packet a now in
      let q1 = second_half ft idx pkt_id b now in
      let (w, at_idx, others) = first-Waits in
      let (w', at_idx', others') = second-Waits in
      let (j, free, apart) = second-Joins r1.1 at_idx in
      let (j', free', apart') = first-Joins q1.1 at_idx' in
      (
        w,
        w',
        (j, free, λ k ne. apart k ne ∙ others k ne),
        (j', free', λ k ne. apart' k ne ∙ others' k ne),
      )

-- The entry of a packet id.
abbrev pub slot_of : ℕ → ℕ
slot_of pkt_id = pkt_id % frag_table_size

-- The two halves of a packet, as they come after decryption: each begins with an IPv4 header, and the
-- payload of the first begins with that of the packet itself.
abbrev pub AreHalves : Bytes → Bytes → Bytes → Bytes → Type 0
AreHalves d0 d1 a b =
    (d0_ihl : ℕ) × (d1_ihl : ℕ) × (frag_require_ipv4 d0 ≡ some d0_ihl)
    × (frag_require_ipv4 d1 ≡ some d1_ihl)
    × (drop (14 + d0_ihl) d0 ≡ a)
    × (drop (14 + d1_ihl) d1 ≡ b)
    × (has_inner_ipv4 a ≡ true)
    × (length a ≤ half_max)
    × (length b ≤ half_max)

-- Two halves of a layer 3 packet that come within 200 ms are joined to the same packet in either
-- order, the Ethernet header of the first half and both payloads, when nothing of that packet is in
-- its entry before; the first to come waits, and the entry is free at the end. No other entry of the
-- table changes.
pub reassemble_either_order :
    (ft : FragTable) (pkt_id : ℕ) (d0 d1 a b : Bytes) (now now' : ℕ)
    → AreHalves d0 d1 a b
    → IsVacant (ft (slot_of pkt_id)) pkt_id now
    → Soon now now'
    → let r1 = frag_try_reassemble ft d0 pkt_id 0 now in
      let s1 = frag_try_reassemble ft d1 pkt_id 1 now in
      (r1.0 ≡ pending)
      × (s1.0 ≡ pending)
      × Joins ft (slot_of pkt_id) (frag_try_reassemble r1.1 d1 pkt_id 1 now') (take 14 d0 ++ a ++ b)
      × Joins ft (slot_of pkt_id) (frag_try_reassemble s1.1 d0 pkt_id 0 now') (take 14 d0 ++ a ++ b)
unfolding frag_try_reassemble reassemble_after reassemble_payload
reassemble_either_order ft pkt_id d0 d1 a b now now' (i0, i1, v0, v1, da, db, inner, fa, fb) vacant
      soon =
    rw (v0, v1, da, db)
      (either_order ft (slot_of pkt_id) pkt_id d0 a b now now' vacant fa fb soon inner)
