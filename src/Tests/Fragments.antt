-- ===== src/Tests/Fragments.antt =====
-- The split and the reassembly of src/core/fragment.c at concrete inputs.
use ne_multi_core.Base.{
  ℕ, ◌+◌, ◌<◌, ◌≡◌, refl, arith, true, false, some, [], ◌∷◌, ◌++◌, replicate, take, drop,
}
use ne_multi_core.Fragment.{
  Bytes, FragTable, zero_entry, frag_table_init, frag_table_gc_at, frag_next_pkt_id,
  frag_require_ipv4, frag_read_hdr, pending, joined, failed, gc_entry,
}
use ne_multi_core.Fragment.Entry.{IsVacant, Soon}
use ne_multi_core.Fragment.Reassemble.{frag_try_reassemble, frag_try_reassemble_l2, has_inner_ipv4}
use ne_multi_core.Fragment.Reassemble.Order.{Joins, AreHalves, slot_of, reassemble_either_order}
use ne_multi_core.Fragment.Split.{
  Encrypt, Plan, plan_l3, plan_l2, plan_l3_ip, plan_l2_ip, plan_transport, plan_app, plan_of,
  transport_size, get_transport_hdr_size, split_half, plain0, plain1, frag_need_split_l2,
  frag_split_and_encrypt, frag_split_and_encrypt_l2, split_l3, split_l2, encrypt_halves, pair_of,
  crypto_layer2_frag_meta_len, crypto_layer3_frag_meta_len, frag_need_split,
}
use ne_multi_core.Fragment.Split.Roundtrip.{IsClear, cut_joins}
use ne_multi_core.Fragment.Split.ShortTail.{short_tail_refused}

-- A UDP packet with `n` bytes of data.
abbrev ip_header : Bytes
ip_header = 0x45 ∷ replicate 8 0 ++ (17 ∷ []) ++ replicate 10 0

abbrev udp_packet : ℕ → Bytes
udp_packet n = replicate 12 2 ++ (0x08 ∷ 0x00 ∷ []) ++ ip_header ++ replicate 8 1 ++ replicate n 7

abbrev table : FragTable
table i = zero_entry

made : frag_table_init 5 ≡ zero_entry
unfolding frag_table_init
made = refl

swept : frag_table_gc_at 10 table 5 ≡ zero_entry
unfolding frag_table_gc_at gc_entry
swept = refl

read : frag_read_hdr (0 ∷ 1 ∷ 2 ∷ 3 ∷ []) 1 ≡ (258, 3)
unfolding frag_read_hdr
read = refl

needed_l3 : frag_need_split true 1467 ≡ true
unfolding frag_need_split crypto_layer3_frag_meta_len
needed_l3 = refl

-- Encryption that leaves a frame readable.
abbrev in_clear : Encrypt
in_clear header plain pkt_id frag_index = some (header ++ plain)

abbrev first_frame : Bytes
first_frame = take 34 (udp_packet 4) ++ drop 14 (udp_packet 4)

abbrev second_frame : Bytes
second_frame = take 34 (udp_packet 4) ++ replicate 5 9

soon : Soon 1000 2000
soon = (omega arith, omega arith, omega arith)

are_halves : AreHalves first_frame second_frame (drop 14 (udp_packet 4)) (replicate 5 9)
unfolding frag_require_ipv4 has_inner_ipv4
are_halves = (20, 20, refl, refl, refl, refl, refl, omega arith, omega arith)

reassemble_either_order_example :
    let r1 = frag_try_reassemble table first_frame 4099 0 1000 in
    let s1 = frag_try_reassemble table second_frame 4099 1 1000 in
    (r1.0 ≡ pending)
    × (s1.0 ≡ pending)
    × Joins table 3
        (frag_try_reassemble r1.1 second_frame 4099 1 2000)
        (take 14 first_frame ++ drop 14 (udp_packet 4) ++ replicate 5 9)
    × Joins table 3
        (frag_try_reassemble s1.1 first_frame 4099 0 2000)
        (take 14 first_frame ++ drop 14 (udp_packet 4) ++ replicate 5 9)
reassemble_either_order_example =
    reassemble_either_order table 4099 first_frame second_frame (drop 14 (udp_packet 4))
      (replicate 5 9) 1000 2000 are_halves refl soon

abbrev plan_3 : Plan
plan_3 = record { ip_hdr_len = 20; app_off = 8; half1 = 1420; half2 = 30 }

planned_3 : plan_l3 false (udp_packet 1450) ≡ some plan_3
unfolding plan_l3 plan_l3_ip plan_transport plan_app plan_of transport_size get_transport_hdr_size
    split_half frag_require_ipv4 crypto_layer3_frag_meta_len
planned_3 = refl

abbrev plan_2 : Plan
plan_2 = record { ip_hdr_len = 20; app_off = 8; half1 = 1439; half2 = 11 }

planned_2 : plan_l2 false (udp_packet 1450) ≡ some plan_2
unfolding plan_l2 plan_l2_ip plan_transport plan_app plan_of transport_size get_transport_hdr_size
    split_half frag_require_ipv4 crypto_layer2_frag_meta_len
planned_2 = refl

needed_2 : frag_need_split_l2 false 1492 ≡ true
unfolding frag_need_split_l2 crypto_layer2_frag_meta_len
needed_2 = refl

near_2 : 1492 + crypto_layer2_frag_meta_len false < 1520
unfolding crypto_layer2_frag_meta_len
near_2 = omega arith

short_tail_refused_example :
    frag_try_reassemble_l2 table (replicate 25 7) 4099 1 1000 ≡ (failed, table)
short_tail_refused_example =
    short_tail_refused false (udp_packet 1450) (replicate 25 7) plan_2 table 4099 1000 needed_2
      near_2 planned_2 refl

abbrev first_wire : Bytes
first_wire = take 34 (udp_packet 1450) ++ plain0 plan_3 (udp_packet 1450)

abbrev second_wire : Bytes
second_wire = take 34 (udp_packet 1450) ++ plain1 plan_3 (udp_packet 1450)

split_3 :
    (frag_split_and_encrypt in_clear false 4099 (udp_packet 1450)).0
    ≡ some (first_wire, second_wire)
unfolding frag_split_and_encrypt split_l3 encrypt_halves pair_of plan_l3 plan_l3_ip plan_transport
    plan_app plan_of transport_size get_transport_hdr_size split_half frag_require_ipv4
    crypto_layer3_frag_meta_len
split_3 = refl

vacant : IsVacant (table (slot_of 4099)) 4099 1000
vacant = refl

first-IsClear : IsClear (take 34 (udp_packet 1450)) (plain0 plan_3 (udp_packet 1450)) first_wire
first-IsClear = (refl, refl, omega arith, refl)

second-IsClear : IsClear (take 34 (udp_packet 1450)) (plain1 plan_3 (udp_packet 1450)) second_wire
second-IsClear = (refl, refl, omega arith, refl)

cut_joins_example :
    ((frag_try_reassemble
        (frag_try_reassemble table first_wire 4099 0 1000).1
        second_wire
        4099
        1
        2000).0
      ≡ joined (udp_packet 1450))
    × ((frag_try_reassemble
          (frag_try_reassemble table second_wire 4099 1 1000).1
          first_wire
          4099
          0
          2000).0
        ≡ joined (udp_packet 1450))
cut_joins_example =
    cut_joins table false (udp_packet 1450) plan_3 first_wire second_wire 4099 1000 2000 planned_3
      refl (omega arith) first-IsClear second-IsClear vacant soon

split_2 : (frag_split_and_encrypt_l2 in_clear false 4099 (udp_packet 1450)).1 ≡ 4100
unfolding frag_split_and_encrypt_l2 split_l2 encrypt_halves frag_next_pkt_id plan_l2 plan_l2_ip
    plan_transport plan_app plan_of transport_size get_transport_hdr_size split_half
    frag_require_ipv4 crypto_layer2_frag_meta_len
split_2 = refl
