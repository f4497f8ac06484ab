-- ===== src/Fragment/Entry.antt =====
-- One entry of the reassembly table of src/core/fragment.c, from its first half to the joined packet.
use ne_multi_core.Base.{
  ℕ, ◌+◌, ◌^◌, ◌≤◌, ◌<◌, ◌≡◌, ap, arith, true, false, ◌&&◌, not, some, ◌++◌, length, take, ◌==◌,
  length-take, take-length_le,
}
use ne_multi_core.Fragment.{
  Bytes, FragEntry, zero_entry, half_max, frag_timeout_ns, timed_out, in_use, frag_prepare_entry,
  frag_store_first, frag_store_second, pending, joined, frag_emit_join,
}

-- Nothing of this packet is in the entry.
abbrev pub IsVacant : FragEntry → ℕ → ℕ → Type 0
IsVacant e pkt_id now = ((e.pkt_id == pkt_id) && in_use e && not (timed_out now e)) ≡ false

-- `now'` comes at most 200 ms after `now`.
abbrev pub Soon : ℕ → ℕ → Type 0
Soon now now' = (now ≤ now') × (now' ≤ now + frag_timeout_ns) × (now' < 2 ^ 64)

-- What a store of one half leaves to the join: whether the other half is there.
abbrev pub with_first : FragEntry → ℕ → Bytes → Bytes → ℕ → FragEntry
with_first e pkt_id eth half now = record (frag_prepare_entry e pkt_id now) {
  first = half;
  eth_hdr = take 14 eth;
  got_first = true;
}

abbrev pub with_second : FragEntry → ℕ → Bytes → ℕ → FragEntry
with_second e pkt_id half now = record (frag_prepare_entry e pkt_id now) {
  second = half;
  got_second = true;
}

prepare_again :
    (x : FragEntry) (pkt_id now now' : ℕ)
    → x.pkt_id ≡ pkt_id
    → x.timestamp_ns ≡ now
    → Soon now now'
    → frag_prepare_entry x pkt_id now' ≡ record x { pkt_id = pkt_id; timestamp_ns = now' }
unfolding frag_prepare_entry
prepare_again x pkt_id now now' same at soon =
    let young : timed_out now' x ≡ false = ground (arith, at) in ground (arith, same, young)

pub prepared :
    (e : FragEntry) (pkt_id now : ℕ)
    → ((frag_prepare_entry e pkt_id now).pkt_id ≡ pkt_id)
      × ((frag_prepare_entry e pkt_id now).timestamp_ns ≡ now)
unfolding frag_prepare_entry
prepared e pkt_id now = (ground arith, ground arith)

prepared_vacant :
    (e : FragEntry) (pkt_id now : ℕ)
    → IsVacant e pkt_id now
    → ((frag_prepare_entry e pkt_id now).got_first ≡ false)
      × ((frag_prepare_entry e pkt_id now).got_second ≡ false)
unfolding frag_prepare_entry
prepared_vacant e pkt_id now vacant = (ground (arith, vacant), ground (arith, vacant))

take-take_header : (eth : Bytes) → take 14 (take 14 eth) ≡ take 14 eth
take-take_header eth = take-length_le 14 (take 14 eth) (omega (arith, length-take 14 eth))

module _ (pkt_id : ℕ) (eth a b : Bytes) (e : FragEntry) (now now' : ℕ)
    (vacant : IsVacant e pkt_id now) (fits_a : length a ≤ half_max) (fits_b : length b ≤ half_max)
    (soon : Soon now now') where
  abbrev first_in : FragEntry
  first_in = with_first e pkt_id eth a now

  abbrev second_in : FragEntry
  second_in = with_second e pkt_id b now

  -- The first half, and then the second.
  pub first_then_second :
      (frag_store_first e pkt_id eth a now ≡ some first_in)
      × (frag_emit_join first_in 14 ≡ (pending, first_in))
      × (frag_store_second first_in pkt_id b now' ≡ some (with_second first_in pkt_id b now'))
      × (frag_emit_join (with_second first_in pkt_id b now') 14
          ≡ (joined (take 14 eth ++ a ++ b), zero_entry))
  unfolding frag_store_first frag_store_second frag_emit_join
  first_then_second =
      let (same, at) = prepared e pkt_id now in
      let (empty_first, empty_second) = prepared_vacant e pkt_id now vacant in
      let again = prepare_again first_in pkt_id now now' same at soon in
      (
        ground arith,
        ground (arith, empty_second),
        ground arith,
        rw again (ground (arith, ap (λ (t : Bytes). t ++ a ++ b) (take-take_header eth))),
      )

  -- The second half, and then the first.
  pub second_then_first :
      (frag_store_second e pkt_id b now ≡ some second_in)
      × (frag_emit_join second_in 14 ≡ (pending, second_in))
      × (frag_store_first second_in pkt_id eth a now'
          ≡ some (with_first second_in pkt_id eth a now'))
      × (frag_emit_join (with_first second_in pkt_id eth a now') 14
          ≡ (joined (take 14 eth ++ a ++ b), zero_entry))
  unfolding frag_store_first frag_store_second frag_emit_join
  second_then_first =
      let (same, at) = prepared e pkt_id now in
      let (empty_first, empty_second) = prepared_vacant e pkt_id now vacant in
      let again = prepare_again second_in pkt_id now now' same at soon in
      (
        ground arith,
        ground (arith, empty_first),
        ground arith,
        rw again (ground (arith, ap (λ (t : Bytes). t ++ a ++ b) (take-take_header eth))),
      )
