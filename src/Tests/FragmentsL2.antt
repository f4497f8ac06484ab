-- ===== src/Tests/FragmentsL2.antt =====
-- The layer 2 reassembly of src/core/fragment.c at concrete inputs.
use ne_multi_core.Base.{◌≡◌, refl, arith, true, false, some, [], ◌∷◌, ◌++◌, replicate, take, drop}
use ne_multi_core.Fragment.{
  Bytes, FragTable, zero_entry, frag_l2_entry_live, frag_next_pkt_id, pending,
}
use ne_multi_core.Fragment.Entry.{Soon}
use ne_multi_core.Fragment.Split.{get_transport_hdr_size, encrypt_halves, pair_of}
use ne_multi_core.Fragment.LayerFour.{
  repaired, has_inner_transport, frag_try_reassemble_l4, frag_split_and_encrypt_l4, split_l4,
  plan_l4, plan_l4_of, crypto_layer4_frag_meta_len,
}
use ne_multi_core.Fragment.LayerFour.Order.{reassemble_l4_either_order}
use ne_multi_core.Fragment.Reassemble.{has_inner_ipv4}
use ne_multi_core.Fragment.Reassemble.Order.{Joins, slot_of}
use ne_multi_core.Fragment.Reassemble.Home.{home}

abbrev table : FragTable
table i = zero_entry

abbrev header : Bytes
header = replicate 12 2 ++ (0x88 ∷ 0xB5 ∷ [])

abbrev first_frame : Bytes
first_frame = header ++ (0x45 ∷ replicate 24 0)

abbrev second_frame : Bytes
second_frame = header ++ replicate 25 9

soon : Soon 1000 2000
soon = (omega arith, omega arith, omega arith)

inner : has_inner_ipv4 (drop 14 first_frame) ≡ true
unfolding has_inner_ipv4
inner = refl

free : frag_l2_entry_live (table (home 4099)) 1000 ≡ false
unfolding frag_l2_entry_live
free = refl

-- Layer 4: the ports stand before the plaintext.
abbrev l4_header : Bytes
l4_header = replicate 12 2 ++ (0x08 ∷ 0x00 ∷ 0x45 ∷ replicate 23 7)

abbrev l4_first : Bytes
l4_first = 0x45 ∷ replicate 8 0 ++ (17 ∷ replicate 20 5)

abbrev l4_second : Bytes
l4_second = 1 ∷ 2 ∷ 3 ∷ []

inner_transport : has_inner_transport l4_first ≡ true
unfolding has_inner_transport
inner_transport = refl

reassemble_l4_either_order_example :
    let r1 = frag_try_reassemble_l4 table (l4_header ++ l4_first) 4099 0 1000 in
    let s1 = frag_try_reassemble_l4 table (l4_header ++ l4_second) 4099 1 1000 in
    let whole = repaired (take 14 (l4_header ++ l4_first) ++ l4_first ++ l4_second) in
    (r1.0 ≡ pending)
    × (s1.0 ≡ pending)
    × Joins table
        (slot_of 4099)
        (frag_try_reassemble_l4 r1.1 (l4_header ++ l4_second) 4099 1 2000)
        whole
    × Joins table
        (slot_of 4099)
        (frag_try_reassemble_l4 s1.1 (l4_header ++ l4_first) 4099 0 2000)
        whole
reassemble_l4_either_order_example =
    reassemble_l4_either_order table 4099 (l4_header ++ l4_first) (l4_header ++ l4_second) l4_first
      l4_second 1000 2000 (omega arith, refl, refl) (omega arith, refl, refl) inner_transport
      (omega arith) (omega arith) (omega arith) refl soon

-- A packet of layer 4 that is cut.
l4_split_runs :
    (frag_split_and_encrypt_l4
      (λ h q id i. some (i ∷ q))
      false
      7
      (replicate 12 2
        ++ (0x08 ∷ 0x00 ∷ 0x45 ∷ replicate 8 0 ++ (17 ∷ replicate 18 5) ++ (6 ∷ 7 ∷ []) ++ []))).1
    ≡ 8
unfolding frag_split_and_encrypt_l4 split_l4 plan_l4 plan_l4_of get_transport_hdr_size
    crypto_layer4_frag_meta_len encrypt_halves pair_of frag_next_pkt_id
l4_split_runs = refl
