-- ===== src/Fragment/Split/Roundtrip.antt =====
-- A packet that is cut and reassembled, at layer 3 of src/core/fragment.c.
use mathlib.Core.List.{append_assoc}
use mathlib.Core.Option.{some-injective}
use ne_multi_core.Base.{
  ℕ, ◌+◌, ◌/◌, ◌^◌, ◌≤◌, ◌<◌, ◌≡◌, sym, ap, ◌∙◌, subst, arith, Bool, true, Option, none, some, ◌++◌,
  length, take, drop, length-take, length-drop, take-append-drop, get_or-take, get_or-drop,
  take-take,
}
use ne_multi_core.Fragment.{Bytes, FragTable, byte_at, half_max, frag_require_ipv4, joined}
use ne_multi_core.Fragment.Entry.{IsVacant, Soon}
use ne_multi_core.Fragment.Reassemble.{has_inner_ipv4, frag_try_reassemble}
use ne_multi_core.Fragment.Reassemble.Order.{AreHalves, slot_of, reassemble_either_order}
use ne_multi_core.Fragment.Split.{Plan, plan_l3, plain0, plain1, pair_of}
use ne_multi_core.Fragment.Split.Bounds.{Fits, plan_l3-Fits, plains-append, require_ipv4-bounds}

-- What a fragment carries when it is in the clear: a frame with the Ethernet header and the version and
-- length of the IP header that were there, and the plaintext after a header of that length.
abbrev pub IsClear : Bytes → Bytes → Bytes → Type 0
IsClear header plain d =
    (take 14 d ≡ take 14 header)
    × (byte_at d 14 ≡ byte_at header 14)
    × (length d ≡ length header + length plain)
    × (drop (length header) d ≡ plain)

pub pair_of-some :
    (o1 o0 : Option Bytes) (w0 w1 : Bytes)
    → pair_of o1 o0 ≡ some (w0, w1)
    → (o0 ≡ some w0) × (o1 ≡ some w1)
unfolding pair_of
pair_of-some none o0 w0 w1 h = absurd (cc (h))
pair_of-some (some b) none w0 w1 h = absurd (cc (h))
pair_of-some (some b) (some a) w0 w1 h =
    let e = some-injective _ _ h in (ap some (ap (λ t. t.0) e), ap some (ap (λ t. t.1) e))

byte_of_take : (p q : Bytes) (i : ℕ) → take 14 p ≡ take 14 q → i < 14 → byte_at p i ≡ byte_at q i
byte_of_take p q i e h =
    sym (get_or-take p 14 i 0 h) ∙ ap (λ t. byte_at t i) e ∙ get_or-take q 14 i 0 h

-- A frame with the header of an IPv4 packet is IPv4.
clear-ipv4 :
    (p plain d : Bytes) (ihl : ℕ)
    → frag_require_ipv4 p ≡ some ihl
    → IsClear (take (14 + ihl) p) plain d
    → frag_require_ipv4 d ≡ some ihl
unfolding frag_require_ipv4
clear-ipv4 p plain d ihl ip (eth, first, len, rest) =
    let (a, b) = require_ipv4-bounds p ihl ip in
    let l = length-take (14 + ihl) p in
    let e : take 14 (take (14 + ihl) p) ≡ take 14 p = take-take p 14 (14 + ihl) (omega arith) in
    let b12 : byte_at d 12 ≡ byte_at p 12 = byte_of_take d p 12 (eth ∙ e) (omega arith) in
    let b13 : byte_at d 13 ≡ byte_at p 13 = byte_of_take d p 13 (eth ∙ e) (omega arith) in
    let b14 : byte_at d 14 ≡ byte_at p 14 =
      first ∙ get_or-take p (14 + ihl) 14 0 (omega (arith, a)) in
    rw (b12, b13, b14) (ground (arith, ip, a, b, l, len))

pub inner-ipv4 :
    (o : ℕ) (p : Bytes) (plan : Plan)
    → Fits o p plan
    → byte_at p 14 / 2 ^ 4 ≡ 4
    → has_inner_ipv4 (plain0 plan p) ≡ true
unfolding has_inner_ipv4 frag_require_ipv4
inner-ipv4 o p plan (ip, whole, some_data, mtu, full) version =
    let n = plan.ip_hdr_len + plan.app_off + plan.half1 in
    let (a, b) = require_ipv4-bounds p plan.ip_hdr_len ip in
    let l0 = length-take n (drop 14 p) in
    let d = length-drop 14 p in
    let first : byte_at (plain0 plan p) 0 ≡ byte_at p 14 =
      get_or-take (drop 14 p) n 0 0 (omega (arith, a)) ∙ get_or-drop p 14 0 0 in
    rw first (ground (arith, version, ip, whole, l0, d, a))

halves-AreHalves :
    (o : ℕ) (p : Bytes) (plan : Plan) (d0 d1 : Bytes)
    → Fits o p plan
    → byte_at p 14 / 2 ^ 4 ≡ 4
    → length p ≤ 14 + half_max
    → IsClear (take (14 + plan.ip_hdr_len) p) (plain0 plan p) d0
    → IsClear (take (14 + plan.ip_hdr_len) p) (plain1 plan p) d1
    → AreHalves d0 d1 (plain0 plan p) (plain1 plan p)
halves-AreHalves o p plan d0 d1 fits version small c0 c1 =
    let (ip, whole, some_data, mtu, full) = fits in
    let n = plan.ip_hdr_len + plan.app_off + plan.half1 in
    let (a, b) = require_ipv4-bounds p plan.ip_hdr_len ip in
    let header : length (take (14 + plan.ip_hdr_len) p) ≡ 14 + plan.ip_hdr_len =
      omega (arith, length-take (14 + plan.ip_hdr_len) p, b) in
    (
      plan.ip_hdr_len,
      plan.ip_hdr_len,
      clear-ipv4 p (plain0 plan p) d0 plan.ip_hdr_len ip c0,
      clear-ipv4 p (plain1 plan p) d1 plan.ip_hdr_len ip c1,
      subst (λ t. drop t d0 ≡ plain0 plan p) header c0.3,
      subst (λ t. drop t d1 ≡ plain1 plan p) header c1.3,
      inner-ipv4 o p plan fits version,
      omega (arith, length-take n (drop 14 p), length-drop 14 p, small),
      omega (arith, length-take plan.half2 (drop n (drop 14 p)), whole, small),
    )

-- A packet that is cut at layer 3 comes back: any two frames that carry the halves that the plan cuts,
-- each behind headers with the packet's Ethernet header and first byte of the IP header, are joined to
-- exactly the packet, whichever comes first, if they come within 200 ms. The packet has the version of
-- IPv4 and fits the buffers, and nothing of the packet's id is in its entry of the receiver before.
pub cut_joins :
    (ft : FragTable) (gcm : Bool) (p : Bytes) (plan : Plan) (d0 d1 : Bytes) (pkt_id now now' : ℕ)
    → plan_l3 gcm p ≡ some plan
    → byte_at p 14 / 2 ^ 4 ≡ 4
    → length p ≤ 14 + half_max
    → IsClear (take (14 + plan.ip_hdr_len) p) (plain0 plan p) d0
    → IsClear (take (14 + plan.ip_hdr_len) p) (plain1 plan p) d1
    → IsVacant (ft (slot_of pkt_id)) pkt_id now
    → Soon now now'
    → ((frag_try_reassemble (frag_try_reassemble ft d0 pkt_id 0 now).1 d1 pkt_id 1 now').0
        ≡ joined p)
      × ((frag_try_reassemble (frag_try_reassemble ft d1 pkt_id 1 now).1 d0 pkt_id 0 now').0
          ≡ joined p)
cut_joins ft gcm p plan d0 d1 id now now' planned version small c0 c1 vacant soon =
    let fits = plan_l3-Fits gcm p plan planned in
    let (a, b) = require_ipv4-bounds p plan.ip_hdr_len fits.0 in
    let halves = halves-AreHalves _ p plan d0 d1 fits version small c0 c1 in
    let (r1, q1, (r2, free, others), (q2, free', others')) =
      reassemble_either_order ft id d0 d1 (plain0 plan p) (plain1 plan p) now now' halves vacant
        soon in
    let same : take 14 d0 ++ plain0 plan p ++ plain1 plan p ≡ p =
      ap (λ t. t ++ plain0 plan p ++ plain1 plan p)
        (c0.0 ∙ take-take p 14 (14 + plan.ip_hdr_len) (omega arith))
      ∙ append_assoc (take 14 p) (plain0 plan p) (plain1 plan p)
      ∙ ap (λ t. take 14 p ++ t) (plains-append _ p plan fits)
      ∙ take-append-drop 14 p in
    (r2 ∙ ap joined same, q2 ∙ ap joined same)
