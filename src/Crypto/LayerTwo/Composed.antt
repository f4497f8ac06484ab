-- ===== src/Crypto/LayerTwo/Composed.antt =====
-- A packet through the whole of layer 2: cut by src/core/fragment.c, each half encrypted and decrypted by
-- src/crypto/crypto_layer2.c, and put together again by src/core/fragment.c.
use mathlib.Core.List.{append_assoc, append-nil}
use ne_multi_core.Base.{
  ℕ, zero, suc, ◌+◌, ◌/◌, ◌%◌, ◌^◌, ◌<◌, ◌≤◌, ◌≡◌, ap, ◌∙◌, arith, Bool, false, some, [], ◌∷◌, ◌++◌,
  length, set, take, drop, length-append, length-take, length-drop, take-take,
}
use ne_multi_core.Base.Bits.{and_mask}
use ne_multi_core.Fragment.{
  Bytes, FragTable, byte_at, ethertype, half_max, frag_require_ipv4, frag_next_pkt_id,
  frag_l2_entry_live, pending, joined,
}
use ne_multi_core.Fragment.Entry.{Soon}
use ne_multi_core.Fragment.Reassemble.{frag_try_reassemble_l2}
use ne_multi_core.Fragment.Reassemble.OrderL2.{with_ipv4_type}
use ne_multi_core.Fragment.Reassemble.Home.{home, reassemble_l2_at_home}
use ne_multi_core.Fragment.Split.{
  Encrypt, Plan, crypto_layer2_frag_meta_len, plan_l2, plain0, plain1, encrypt_halves, split_l2,
  frag_split_and_encrypt_l2,
}
use ne_multi_core.Fragment.Split.Bounds.{Fits, plan_l2-Fits, plains-append, require_ipv4-bounds}
use ne_multi_core.Fragment.Split.Roundtrip.{pair_of-some, inner-ipv4}
use ne_multi_core.Crypto.{Cipher, Keys}
use ne_multi_core.Crypto.LayerTwo.{
  Sender, crypto_layer2_encrypt_fragment_single, crypto_layer2_decrypt_fragment,
}
use ne_multi_core.Crypto.LayerTwo.Wire.{drop_past, take_past}
use ne_multi_core.Crypto.LayerTwo.Seal.{Sound}
use ne_multi_core.Crypto.LayerTwo.Packets.{ipv4-parts}
use ne_multi_core.Crypto.LayerTwo.Roundtrip.{clear_frame, encrypt_fragment-decrypt}

-- The encryption that a split at layer 2 uses, with the nonce of each fragment.
abbrev pub layer2 : Cipher → Sender → ℕ → (ℕ → ℕ → Bytes) → Encrypt
layer2 c s out_max nonces header plain pkt_id frag_index =
    crypto_layer2_encrypt_fragment_single c s out_max (nonces pkt_id frag_index) header plain pkt_id
      frag_index

pub split_l2-some :
    (encrypt : Encrypt) (counter : ℕ) (p : Bytes) (plan : Plan) (w0 w1 : Bytes)
    → (split_l2 encrypt counter p (some plan)).0 ≡ some (w0, w1)
    → (encrypt (take 14 p) (plain0 plan p) (frag_next_pkt_id counter).0 0 ≡ some w0)
      × (encrypt (take 14 p) (plain1 plan p) (frag_next_pkt_id counter).0 1 ≡ some w1)
unfolding split_l2 encrypt_halves
split_l2-some encrypt counter p plan w0 w1 h = pair_of-some _ _ w0 w1 h

next_pkt_id-small : (counter : ℕ) → (frag_next_pkt_id counter).0 < 2 ^ 16
unfolding frag_next_pkt_id
next_pkt_id-small counter = omega (arith, and_mask 16 counter)

set_past : (xs ys : Bytes) (j k v : ℕ) → j ≡ length xs + k → set (xs ++ ys) j v ≡ xs ++ set ys k v
set_past [] ys j k v e = let e' : j ≡ k = omega (arith, e) in ap (λ i. set ys i v) e'
set_past (x ∷ xs) ys zero k v e = absurd (omega (arith, e))
set_past (x ∷ xs) ys (suc j) k v e = ap (λ l. x ∷ l) (set_past xs ys j k v (omega (arith, e)))

-- The EtherType of the joined frame.
retyped :
    (macs rest : Bytes) (hi lo : ℕ)
    → length macs ≡ 12
    → with_ipv4_type (macs ++ (hi ∷ lo ∷ rest)) ≡ macs ++ (0x08 ∷ 0x00 ∷ rest)
retyped macs rest hi lo m =
    ap (λ l. set l 13 0x00) (set_past macs (hi ∷ lo ∷ rest) 12 0 0x08 (omega (arith, m)))
    ∙ set_past macs (0x08 ∷ lo ∷ rest) 13 1 0x00 (omega (arith, m))

require_ipv4-type : (p : Bytes) (ihl : ℕ) → frag_require_ipv4 p ≡ some ihl → ethertype p ≡ 0x0800
unfolding frag_require_ipv4
require_ipv4-type p ihl h = ground (arith, h)

-- The halves that come out of the decryption, and the packet that they make.
module _ (s : Sender) (p : Bytes) (plan : Plan) (o : ℕ) (fits : Fits o p plan)
    (byte : byte_at p 13 < 256) where
  abbrev macs : Bytes
  macs = take 12 (take 14 p)

  abbrev eth : Bytes
  eth = macs ++ (s.fake / 2 ^ 8 % 256 ∷ s.fake % 256 ∷ [])

  long : 34 ≤ length p
  long = let (a, b) = require_ipv4-bounds p plan.ip_hdr_len fits.0 in omega (arith, a, b)

  macs-12 : length macs ≡ 12
  macs-12 = omega (arith, length-take 12 (take 14 p), length-take 14 p, long)

  eth-14 : length eth ≡ 14
  eth-14 = omega (arith, macs-12, length-append macs (s.fake / 2 ^ 8 % 256 ∷ s.fake % 256 ∷ []))

  clear-drop : (plain : Bytes) → drop 14 (clear_frame s (take 14 p) plain) ≡ plain
  clear-drop plain = drop_past eth plain 14 0 (omega (arith, eth-14))

  clear-take : (plain : Bytes) → take 14 (clear_frame s (take 14 p) plain) ≡ eth
  clear-take plain = take_past eth plain 14 0 (omega (arith, eth-14)) ∙ append-nil eth

  clear-length : (plain : Bytes) → length (clear_frame s (take 14 p) plain) ≡ 14 + length plain
  clear-length plain = omega (arith, length-append eth plain, eth-14)

  whole-packet :
      let d0 = clear_frame s (take 14 p) (plain0 plan p) in
      let d1 = clear_frame s (take 14 p) (plain1 plan p) in
      with_ipv4_type (take 14 d0 ++ drop 14 d0 ++ drop 14 d1) ≡ p
  whole-packet =
      let a = plain0 plan p in
      let b = plain1 plan p in
      let hi = s.fake / 2 ^ 8 % 256 in
      let lo = s.fake % 256 in
      let v4 = require_ipv4-type p plan.ip_hdr_len fits.0 in
      rw (clear-take a, clear-drop a, clear-drop b)
        (ap with_ipv4_type (
            append_assoc eth a b
            ∙ ap (λ t. eth ++ t) (plains-append o p plan fits)
            ∙ append_assoc macs (hi ∷ lo ∷ []) (drop 14 p))
          ∙ retyped macs (drop 14 p) hi lo macs-12
          ∙ ap (λ t. t ++ (0x08 ∷ 0x00 ∷ drop 14 p)) (take-take p 12 14 (omega arith))
          ∙ ipv4-parts p (omega (arith, long)) v4 byte)

-- A packet that `frag_split_and_encrypt_l2` cuts and encrypts comes back byte for byte: each of the
-- two frames is decrypted with its own id and index, and whichever half comes first waits and the
-- other gives the packet. This holds in all three modes. The ciphers are sound, the receiver has the
-- sender's key, nonces have 12 bytes, the second half has 20 bytes or more, the packet fits the
-- buffers, and the entry that the id leads to is free.
pub layer2_split-reassemble :
    (c : Cipher) (s : Sender) (keys : Keys) (out_max : ℕ) (nonces : ℕ → ℕ → Bytes) (ft : FragTable)
    (tagged : Bool) (counter : ℕ) (p : Bytes) (plan : Plan) (w0 w1 : Bytes) (now now' : ℕ)
    → Sound c
    → keys.current ≡ s.key
    → ((id : ℕ) (i : ℕ) → length (nonces id i) ≡ 12)
    → s.fake < 2 ^ 16
    → plan_l2 tagged p ≡ some plan
    → 20 ≤ plan.half2
    → (frag_split_and_encrypt_l2 (layer2 c s out_max nonces) tagged counter p).0 ≡ some (w0, w1)
    → byte_at p 13 < 256
    → byte_at p 14 / 2 ^ 4 ≡ 4
    → length p ≤ 14 + half_max
    → frag_l2_entry_live (ft (home (frag_next_pkt_id counter).0)) now ≡ false
    → Soon now now'
    → let id = (frag_next_pkt_id counter).0 in
      (d0 : Bytes) × (d1 : Bytes) × (crypto_layer2_decrypt_fragment c s.mode keys s.fake w0
        ≡ some (d0, id, 0))
      × (crypto_layer2_decrypt_fragment c s.mode keys s.fake w1 ≡ some (d1, id, 1))
      × ((frag_try_reassemble_l2 ft d0 id 0 now).0 ≡ pending)
      × ((frag_try_reassemble_l2 ft d1 id 1 now).0 ≡ pending)
      × ((frag_try_reassemble_l2 (frag_try_reassemble_l2 ft d0 id 0 now).1 d1 id 1 now').0
          ≡ joined p)
      × ((frag_try_reassemble_l2 (frag_try_reassemble_l2 ft d1 id 1 now).1 d0 id 0 now').0
          ≡ joined p)
unfolding frag_split_and_encrypt_l2
layer2_split-reassemble c s keys out_max nonces ft tagged counter p plan w0 w1 now now' sound same
      twelve small planned enough split byte version fits_buffer free soon =
    let id = (frag_next_pkt_id counter).0 in
    let fits = plan_l2-Fits tagged p plan planned in
    let o = 14 + crypto_layer2_frag_meta_len tagged in
    let a = plain0 plan p in
    let b = plain1 plan p in
    let d0 = clear_frame s (take 14 p) a in
    let d1 = clear_frame s (take 14 p) b in
    let (s0, s1) =
      split_l2-some (layer2 c s out_max nonces) counter p plan w0 w1 (rw planned at split) in
    let id_small = next_pkt_id-small counter in
    let header : 12 ≤ length (take 14 p) =
      omega (arith, length-take 14 p, long s p plan o fits byte) in
    let (ip, cut, some_data, mtu, full) = fits in
    let n = plan.ip_hdr_len + plan.app_off + plan.half1 in
    let la : length a ≡ n = omega (arith, length-take n (drop 14 p), length-drop 14 p, cut) in
    let lb : length b ≡ plan.half2 = omega (
      arith,
      length-take plan.half2 (drop n (drop 14 p)),
      length-drop n (drop 14 p),
      length-drop 14 p,
      cut,
    ) in
    let (e, f) = require_ipv4-bounds p plan.ip_hdr_len ip in
    let l0 = clear-length s p plan o fits byte a in
    let l1 = clear-length s p plan o fits byte b in
    let (w, w', (j, free0, others0), (j', free1, others1)) =
      reassemble_l2_at_home ft id d0 d1 now now' (omega (arith, l0, la, e)) (omega (arith, l1, lb))
        (omega (arith, l0, la, cut)) (omega (arith, l1, lb, cut))
        (rw (clear-drop s p plan o fits byte a) (inner-ipv4 o p plan fits version)) free soon in
    let packet = ap joined (whole-packet s p plan o fits byte) in
    (
      d0,
      d1,
      encrypt_fragment-decrypt c s keys out_max (nonces id 0) (take 14 p) a id 0 w0 sound same
          header (twelve id 0) small id_small (omega arith) s0,
      encrypt_fragment-decrypt c s keys out_max (nonces id 1) (take 14 p) b id 1 w1 sound same
          header (twelve id 1) small id_small (omega arith) s1,
      w,
      w',
      j ∙ packet,
      j' ∙ packet,
    )
