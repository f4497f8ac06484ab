-- ===== src/Fragment/Split/ShortTail.antt =====
-- The packets that layer 2 of src/core/fragment.c splits just above the MTU.
use ne_multi_core.Base.{
  ℕ, ◌+◌, ◌<◌, ◌≡◌, refl, arith, Bool, true, some, length, drop, length-take, length-drop, ltb,
}
use ne_multi_core.Fragment.{Bytes, FragTable, frag_mtu, failed}
use ne_multi_core.Fragment.Reassemble.{frag_try_reassemble_l2}
use ne_multi_core.Fragment.Split.{
  crypto_layer2_frag_meta_len, frag_need_split_l2, Plan, plan_l2, plain1,
}
use ne_multi_core.Fragment.Split.Bounds.{plan_l2-Fits}

second_length :
    (gcm : Bool) (p : Bytes) (plan : Plan)
    → frag_need_split_l2 gcm (length p) ≡ true
    → plan_l2 gcm p ≡ some plan
    → length (plain1 plan p) + frag_mtu ≡ length p + crypto_layer2_frag_meta_len gcm
unfolding frag_need_split_l2
second_length gcm p plan needed planned =
    let n = plan.ip_hdr_len + plan.app_off + plan.half1 in
    let (ip, whole, some_data, mtu, full) = plan_l2-Fits gcm p plan planned in
    ground (
      arith,
      needed,
      whole,
      some_data,
      mtu,
      full,
      length-take plan.half2 (drop n (drop 14 p)),
      length-drop n (drop 14 p),
      length-drop 14 p,
    )

-- A packet that layer 2 splits because it exceeds the MTU by fewer than 20 bytes, the metadata of a
-- fragment included, is never reassembled: its second half, as it comes after decryption (14 bytes of
-- Ethernet header and the plaintext), is refused by `frag_try_reassemble_l2` whatever the table holds
-- and whenever it comes, and the table stays as it is.
pub short_tail_refused :
    (gcm : Bool) (p d1 : Bytes) (plan : Plan) (ft : FragTable) (pkt_id now : ℕ)
    → frag_need_split_l2 gcm (length p) ≡ true
    → length p + crypto_layer2_frag_meta_len gcm < frag_mtu + 20
    → plan_l2 gcm p ≡ some plan
    → length d1 ≡ 14 + length (plain1 plan p)
    → frag_try_reassemble_l2 ft d1 pkt_id 1 now ≡ (failed, ft)
unfolding frag_try_reassemble_l2
short_tail_refused gcm p d1 plan ft pkt_id now needed near planned frame =
    let l = second_length gcm p plan needed planned in
    let short : ltb (length d1) 34 ≡ true = ground (arith, l, near, frame) in rw short refl
