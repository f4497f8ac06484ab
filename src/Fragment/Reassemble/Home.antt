-- ===== src/Fragment/Reassemble/Home.antt =====
-- The layer 2 reassembly of src/core/fragment.c when the entry that a packet id leads to is free.
use native.Mathlib.Decide.{ℕ_discrete}
use ne_multi_core.Base.{
  ℕ, ◌+◌, ◌%◌, ◌≤◌, ◌≡◌, refl, ap, ◌∙◌, arith, true, false, Option, none, some, ◌++◌, length, take,
  drop, length-drop,
}
use ne_multi_core.Fragment.{
  Bytes, FragTable, half_max, frag_table_size, frag_l2_entry_live, frag_l2_acquire, pending,
}
use ne_multi_core.Fragment.Entry.{IsVacant, Soon, prepared}
use ne_multi_core.Fragment.Acquire.{usable, probe, IsFirstUsable, acquire-IsFirstUsable}
use ne_multi_core.Fragment.Reassemble.{
  Reassembled, has_inner_ipv4, first_half, second_half, clear_old, as_ipv4, frag_try_reassemble_l2,
}
use ne_multi_core.Fragment.Reassemble.Order.{Joins, first-Waits, second-Waits}
use ne_multi_core.Fragment.Reassemble.OrderL2.{
  with_ipv4_type, first_at, second_at, reassemble_l2_either_order,
}

abbrev pub home : ℕ → ℕ
home pkt_id = pkt_id % frag_table_size

first-home :
    (ft : FragTable) (pkt_id now : ℕ) (o : Option ℕ)
    → usable ft pkt_id now (home pkt_id) ≡ true
    → IsFirstUsable ft pkt_id now 0 frag_table_size o
    → o ≡ some (home pkt_id)
first-home ft pkt_id now none here before =
    let e : probe pkt_id 0 ≡ home pkt_id = omega arith in
    absurd (cc (here, ap (usable ft pkt_id now) e, before 0 (omega arith) (omega arith)))
first-home ft pkt_id now (some idx) here (step, lo, hi, at, use_it, before) =
    let e : probe pkt_id 0 ≡ home pkt_id = omega arith in
    elim (ℕ_discrete step 0) [
      | yes z ↦ ap some (at ∙ ap (probe pkt_id) z ∙ e)
      | no nz ↦
          absurd
            (cc (here, ap (usable ft pkt_id now) e, before 0 (omega arith) (omega (arith, nz))))
    ]

-- An entry that is usable at its own place is the one that the search gives.
pub acquire-home :
    (ft : FragTable) (pkt_id now : ℕ)
    → usable ft pkt_id now (home pkt_id) ≡ true
    → frag_l2_acquire ft pkt_id now ≡ some (home pkt_id)
acquire-home ft pkt_id now here =
    first-home ft pkt_id now _ here (acquire-IsFirstUsable ft pkt_id now)

same-usable :
    (ft : FragTable) (pkt_id now idx : ℕ)
    → (ft idx).pkt_id ≡ pkt_id
    → usable ft pkt_id now idx ≡ true
same-usable ft pkt_id now idx e = ground (arith, e)

free-IsVacant :
    (ft : FragTable) (pkt_id now idx : ℕ)
    → frag_l2_entry_live (ft idx) now ≡ false
    → IsVacant (ft idx) pkt_id now
unfolding frag_l2_entry_live
free-IsVacant ft pkt_id now idx e = ground (arith, e)

free-usable :
    (ft : FragTable) (pkt_id now idx : ℕ)
    → frag_l2_entry_live (ft idx) now ≡ false
    → usable ft pkt_id now idx ≡ true
free-usable ft pkt_id now idx e = rw e refl

as_ipv4-table : (r : Reassembled) → (as_ipv4 r).1 ≡ r.1
unfolding as_ipv4
as_ipv4-table r = ground arith

-- Two halves of a layer 2 packet, of 34 bytes or more each, that come within 200 ms are joined to the
-- same packet in either order, when the entry that its id leads to is free before: the Ethernet
-- header of the first half with the EtherType of IPv4, and both payloads. The first to come waits,
-- the entry is free at the end, and no other entry changes.
pub reassemble_l2_at_home :
    (ft : FragTable) (pkt_id : ℕ) (d0 d1 : Bytes) (now now' : ℕ)
    → 34 ≤ length d0
    → 34 ≤ length d1
    → length d0 ≤ 14 + half_max
    → length d1 ≤ 14 + half_max
    → has_inner_ipv4 (drop 14 d0) ≡ true
    → frag_l2_entry_live (ft (home pkt_id)) now ≡ false
    → Soon now now'
    → let r1 = frag_try_reassemble_l2 ft d0 pkt_id 0 now in
      let q1 = frag_try_reassemble_l2 ft d1 pkt_id 1 now in
      let whole = with_ipv4_type (take 14 d0 ++ drop 14 d0 ++ drop 14 d1) in
      (r1.0 ≡ pending)
      × (q1.0 ≡ pending)
      × Joins ft (home pkt_id) (frag_try_reassemble_l2 r1.1 d1 pkt_id 1 now') whole
      × Joins ft (home pkt_id) (frag_try_reassemble_l2 q1.1 d0 pkt_id 0 now') whole
reassemble_l2_at_home ft pkt_id d0 d1 now now' long0 long1 short0 short1 inner free soon =
    let idx = home pkt_id in
    let a = drop 14 d0 in
    let b = drop 14 d1 in
    let t0 = (frag_try_reassemble_l2 ft d0 pkt_id 0 now).1 in
    let t1 = (frag_try_reassemble_l2 ft d1 pkt_id 1 now).1 in
    let vacant = free-IsVacant ft pkt_id now idx free in
    let found = acquire-home ft pkt_id now (free-usable ft pkt_id now idx free) in
    let fits_a : length a ≤ half_max = omega (arith, length-drop 14 d0) in
    let fits_b : length b ≤ half_max = omega (arith, length-drop 14 d1) in
    let (w, at, others) =
      first-Waits ft idx pkt_id d0 a b now now' vacant fits_a fits_b soon inner in
    let (w', at', others') =
      second-Waits ft idx pkt_id d0 a b now now' vacant fits_a fits_b soon inner in
    let first : (frag_try_reassemble_l2 ft d0 pkt_id 0 now).1
        ≡ (first_half ft idx pkt_id d0 a now).1 =
      ap (λ (r : Reassembled). r.1) (first_at ft d0 pkt_id now idx long0 found) ∙ as_ipv4-table _ in
    let second : (frag_try_reassemble_l2 ft d1 pkt_id 1 now).1
        ≡ (second_half ft idx pkt_id b now).1 =
      ap (λ (r : Reassembled). r.1) (second_at ft d1 pkt_id now idx long1 found)
      ∙ as_ipv4-table _ in
    let id0 : ((frag_try_reassemble_l2 ft d0 pkt_id 0 now).1 idx).pkt_id ≡ pkt_id =
      ap (λ (t : FragTable). (t idx).pkt_id) first
      ∙ ap (λ e. e.pkt_id) at
      ∙ (prepared (ft idx) pkt_id now).0 in
    let id1 : ((frag_try_reassemble_l2 ft d1 pkt_id 1 now).1 idx).pkt_id ≡ pkt_id =
      ap (λ (t : FragTable). (t idx).pkt_id) second
      ∙ ap (λ e. e.pkt_id) at'
      ∙ (prepared (clear_old (ft idx) pkt_id now) pkt_id now).0 in
    reassemble_l2_either_order ft pkt_id idx d0 d1 now now' long0 long1 short0 short1 inner vacant
      soon found (acquire-home t0 pkt_id now' (same-usable t0 pkt_id now' idx id0))
      (acquire-home t1 pkt_id now' (same-usable t1 pkt_id now' idx id1))
