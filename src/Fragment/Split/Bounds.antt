-- ===== src/Fragment/Split/Bounds.antt =====
-- The plan of a split, src/core/fragment.c: the lengths of the two halves.
use mathlib.Core.Option.{some-injective}
use ne_multi_core.Base.{
  ℕ, ◌+◌, ◌-◌, ◌≤◌, ◌<◌, ◌≡◌, refl, sym, ap, ◌∙◌, subst, arith, Bool, ◌||◌, Option, none, some,
  ◌++◌, length, drop, length-take, length-drop, take-append-drop, take-length_le, ◌==◌, Bool-cases,
  Option-cases, inl, inr, ◌⊎◌,
}
use ne_multi_core.Fragment.{Bytes, byte_at, frag_mtu, frag_require_ipv4}
use ne_multi_core.Fragment.Split.{
  crypto_layer2_frag_meta_len, crypto_layer3_frag_meta_len, get_transport_hdr_size, split_half,
  Plan, plan_of, plan_app, plan_transport, transport_size, plan_l3_ip, plan_l3, plan_l2_ip, plan_l2,
  plain0, plain1,
}

-- A plan that fits: it cuts the whole packet, the second half is not empty, and the first, with the
-- overhead, is within the MTU and fills it, unless the second is a single byte.
abbrev pub Fits : ℕ → Bytes → Plan → Type 0
Fits frag_overhead p plan =
    (frag_require_ipv4 p ≡ some plan.ip_hdr_len)
    × (14 + (plan.ip_hdr_len + plan.app_off + plan.half1) + plan.half2 ≡ length p)
    × (0 < plan.half2)
    × (frag_overhead + (plan.ip_hdr_len + plan.app_off + plan.half1) ≤ frag_mtu)
    × ((plan.half2 ≡ 1)
        ⊎ (frag_overhead + (plan.ip_hdr_len + plan.app_off + plan.half1) ≡ frag_mtu))

pub require_ipv4-bounds :
    (p : Bytes) (ihl : ℕ) → frag_require_ipv4 p ≡ some ihl → (20 ≤ ihl) × (14 + ihl ≤ length p)
unfolding frag_require_ipv4
require_ipv4-bounds p ihl h = (ground (arith, h), ground (arith, h))

transport_size-le :
    (p : Bytes) (ihl size : ℕ) → transport_size p ihl ≡ some size → size ≤ length p - 14 - ihl
unfolding transport_size get_transport_hdr_size
transport_size-le p ihl size h = ground (arith, h)

split_half-fits :
    (o fixed app_len half1 : ℕ)
    → split_half o fixed app_len ≡ some half1
    → 0 < app_len
    → (half1 < app_len)
      × (o + (fixed + half1) ≤ frag_mtu)
      × ((app_len - half1 ≡ 1) ⊎ (o + (fixed + half1) ≡ frag_mtu))
unfolding split_half
split_half-fits o fixed app_len half1 h some_data =
    (ground (arith, h), ground (arith, h), ground (arith, h))

plan_app-Fits :
    (o : ℕ) (p : Bytes) (ihl app_off : ℕ) (plan : Plan)
    → frag_require_ipv4 p ≡ some ihl
    → app_off ≤ length p - 14 - ihl
    → plan_app o p ihl app_off ≡ some plan
    → Fits o p plan
unfolding plan_app plan_of
plan_app-Fits o p ihl app_off plan ip le h =
    let app_len = length p - 14 - ihl - app_off in
    elim (Option-cases (split_half o (ihl + app_off) app_len)) [
      | inl s ↦ absurd (ground (arith, h, s))
      | inr (half1, s) ↦ elim (Bool-cases (app_len == 0)) [
        | inl z ↦ absurd (ground (arith, h, z))
        | inr z ↦
            let made = plan_of ihl app_off app_len (some half1) in
            let e : made ≡ some plan = ground (arith, h, s, z) in
            let (a, b, f) = split_half-fits o (ihl + app_off) app_len half1 s (ground (arith, z)) in
            let (c, d) = require_ipv4-bounds p ihl ip in
            subst (Fits o p) (some-injective _ _ e) (ip, omega arith, omega arith, b, f)
      ]
    ]

plan_transport-Fits :
    (o : ℕ) (p : Bytes) (ihl : ℕ) (size : Option ℕ) (plan : Plan)
    → frag_require_ipv4 p ≡ some ihl
    → transport_size p ihl ≡ size
    → plan_transport o p ihl size ≡ some plan
    → Fits o p plan
unfolding plan_transport
plan_transport-Fits o p ihl none plan ip t h = absurd (cc (h))
plan_transport-Fits o p ihl (some size) plan ip t h =
    plan_app-Fits o p ihl size plan ip (transport_size-le p ihl size t) h

plan_l3_ip-Fits :
    (gcm : Bool) (p : Bytes) (ihl : Option ℕ) (plan : Plan)
    → frag_require_ipv4 p ≡ ihl
    → plan_l3_ip gcm p ihl ≡ some plan
    → Fits (14 + plan.ip_hdr_len + crypto_layer3_frag_meta_len gcm) p plan
unfolding plan_l3_ip
plan_l3_ip-Fits gcm p none plan ip h = absurd (cc (h))
plan_l3_ip-Fits gcm p (some ihl) plan ip h =
    let o = 14 + ihl + crypto_layer3_frag_meta_len gcm in
    let (a, b, c, d, f) =
      plan_transport-Fits o p ihl (transport_size p ihl) plan ip refl (ground (arith, h)) in
    let e : ihl ≡ plan.ip_hdr_len = some-injective _ _ (sym ip ∙ a) in
    let n = plan.ip_hdr_len + plan.app_off + plan.half1 in
    (
      a,
      b,
      c,
      subst (λ t. 14 + t + crypto_layer3_frag_meta_len gcm + n ≤ frag_mtu) e d,
      subst (λ t. (plan.half2 ≡ 1) ⊎ (14 + t + crypto_layer3_frag_meta_len gcm + n ≡ frag_mtu)) e f,
    )

plan_l2_ip-Fits :
    (gcm : Bool) (p : Bytes) (ihl : Option ℕ) (plan : Plan)
    → frag_require_ipv4 p ≡ ihl
    → plan_l2_ip gcm p ihl ≡ some plan
    → Fits (14 + crypto_layer2_frag_meta_len gcm) p plan
unfolding plan_l2_ip
plan_l2_ip-Fits gcm p none plan ip h = absurd (cc (h))
plan_l2_ip-Fits gcm p (some ihl) plan ip h =
    let o = 14 + crypto_layer2_frag_meta_len gcm in
    elim (Bool-cases ((byte_at p 23 == 6) || (byte_at p 23 == 17))) [
      | inl t ↦
          plan_transport-Fits o p ihl (transport_size p ihl) plan ip refl (ground (arith, h, t))
      | inr t ↦ plan_app-Fits o p ihl 0 plan ip (omega arith) (ground (arith, h, t))
    ]

-- The two plaintexts, one after the other, are the packet without its Ethernet header.
pub plains-append :
    (o : ℕ) (p : Bytes) (plan : Plan) → Fits o p plan → plain0 plan p ++ plain1 plan p ≡ drop 14 p
plains-append o p plan (ip, whole, some_data, mtu, full) =
    let n = plan.ip_hdr_len + plan.app_off + plan.half1 in
    ap (λ t. plain0 plan p ++ t)
      (take-length_le plan.half2 (drop n (drop 14 p))
        (omega (arith, whole, length-drop 14 p, length-drop n (drop 14 p))))
    ∙ take-append-drop n (drop 14 p)

-- What a split into `a` and `b` owes to the packet: nothing is lost, the second part is not empty,
-- and the first fits with the overhead.
abbrev pub Cuts : ℕ → Bytes → Bytes → Bytes → Type 0
Cuts frag_overhead p a b =
    (a ++ b ≡ drop 14 p) × (0 < length b) × (frag_overhead + length a ≤ frag_mtu)

Fits-Cuts :
    (o : ℕ) (p : Bytes) (plan : Plan) → Fits o p plan → Cuts o p (plain0 plan p) (plain1 plan p)
Fits-Cuts o p plan fits =
    let n = plan.ip_hdr_len + plan.app_off + plan.half1 in
    let (ip, whole, some_data, mtu, full) = fits in
    let l0 = length-take n (drop 14 p) in
    let l1 = length-take plan.half2 (drop n (drop 14 p)) in
    let d = length-drop 14 p in
    let d' = length-drop n (drop 14 p) in
    (
      plains-append o p plan fits,
      omega (arith, whole, some_data, l1, d, d'),
      omega (arith, whole, l0, d, mtu),
    )

pub plan_l3-Fits :
    (gcm : Bool) (p : Bytes) (plan : Plan)
    → plan_l3 gcm p ≡ some plan
    → Fits (14 + plan.ip_hdr_len + crypto_layer3_frag_meta_len gcm) p plan
unfolding plan_l3
plan_l3-Fits gcm p plan h =
    plan_l3_ip-Fits gcm p (frag_require_ipv4 p) plan refl (ground (arith, h))

pub plan_l2-Fits :
    (gcm : Bool) (p : Bytes) (plan : Plan)
    → plan_l2 gcm p ≡ some plan
    → Fits (14 + crypto_layer2_frag_meta_len gcm) p plan
unfolding plan_l2
plan_l2-Fits gcm p plan h =
    plan_l2_ip-Fits gcm p (frag_require_ipv4 p) plan refl (ground (arith, h))

-- A packet that layer 3 splits is cut without loss: the two plaintexts, one after the other, are the
-- packet after its Ethernet header; the second is not empty; and the first, with the Ethernet and IP
-- headers and the metadata of a fragment, is within the MTU.
pub plan_l3-Cuts :
    (gcm : Bool) (p : Bytes) (plan : Plan)
    → plan_l3 gcm p ≡ some plan
    → Cuts
        (14 + plan.ip_hdr_len + crypto_layer3_frag_meta_len gcm)
        p
        (plain0 plan p)
        (plain1 plan p)
plan_l3-Cuts gcm p plan h = Fits-Cuts _ p plan (plan_l3-Fits gcm p plan h)

-- A packet that layer 2 splits is cut without loss: the two plaintexts, one after the other, are the
-- packet after its Ethernet header; the second is not empty; and the first, with the Ethernet header
-- and the metadata of a fragment, is within the MTU.
pub plan_l2-Cuts :
    (gcm : Bool) (p : Bytes) (plan : Plan)
    → plan_l2 gcm p ≡ some plan
    → Cuts (14 + crypto_layer2_frag_meta_len gcm) p (plain0 plan p) (plain1 plan p)
plan_l2-Cuts gcm p plan h = Fits-Cuts _ p plan (plan_l2-Fits gcm p plan h)
