-- ===== src/Crypto/LayerTwo/Packets.antt =====
-- One packet that is encrypted and decrypted at layer 2, src/crypto/crypto_layer2.c.
use mathlib.Core.List.{append_assoc}
use ne_multi_core.Base.{
  ℕ, zero, suc, ◌/◌, ◌%◌, ◌^◌, ◌<◌, ◌≤◌, ◌≡◌, refl, sym, ap, ◌∙◌, arith, inl, inr, true, false,
  ◌&&◌, some, [], ◌∷◌, ◌++◌, length, take, drop, ltb, ◌==◌, Bool-cases, length-take, length-drop,
  take-append-drop, ==_refl,
}
use ne_multi_core.Fragment.{Bytes, byte_at, ethertype}
use ne_multi_core.Crypto.{Mode, ctr, gcm, pqc, Cipher, Keys, seal}
use ne_multi_core.Crypto.LayerTwo.Wire.{
  wire, wire-length, wire-type, wire-nonce, wire-payload, wire-macs,
}
use ne_multi_core.Crypto.LayerTwo.Seal.{Sound, open_gcm-seal, ctr-seal}
use ne_multi_core.Crypto.LayerTwo.Roundtrip.{framed-some}
use ne_multi_core.Crypto.LayerTwo.{
  Sender, l2_write_wire_header, l2_pkt_fake_ethertype, l2_enc_start,
  crypto_layer2_has_wire_frag_marker, verify_ipv4_after_decrypt, verified, open_packet, plain_frame,
  crypto_layer2_encrypt, crypto_layer2_decrypt,
}

drop-cons : (p : Bytes) (k : ℕ) → k < length p → drop k p ≡ byte_at p k ∷ drop (suc k) p
drop-cons [] k h = absurd (omega arith)
drop-cons (x ∷ p) zero h = refl
drop-cons (x ∷ p) (suc k) h = drop-cons p k (omega arith)

-- An IPv4 packet is its MAC addresses, the EtherType and the payload.
pub ipv4-parts :
    (p : Bytes)
    → 14 ≤ length p
    → ethertype p ≡ 0x0800
    → byte_at p 13 < 256
    → take 12 p ++ (0x08 ∷ 0x00 ∷ drop 14 p) ≡ p
ipv4-parts p long v4 byte =
    let b12 : byte_at p 12 ≡ 0x08 = omega (arith, v4, byte) in
    let b13 : byte_at p 13 ≡ 0x00 = omega (arith, v4, byte) in
    let e : drop 12 p ≡ 0x08 ∷ 0x00 ∷ drop 14 p =
      drop-cons p 12 (omega arith)
      ∙ ap (λ l. byte_at p 12 ∷ l) (drop-cons p 13 (omega arith))
      ∙ rw (b12, b13) refl in
    rw⁻¹ e (take-append-drop 12 p)

-- In CTR mode a packet must pass the check that stands in for the tag.
abbrev pub PassesCheck : Mode → Bytes → Type 0
PassesCheck ctr plain = verify_ipv4_after_decrypt plain ≡ true
PassesCheck gcm plain = Unit
PassesCheck pqc plain = Unit

open_packet-seal :
    (c : Cipher) (mode : Mode) (key nonce plain sealed : Bytes)
    → Sound c
    → 0 < length plain
    → PassesCheck mode plain
    → seal c mode key nonce plain ≡ some sealed
    → open_packet c mode key nonce sealed ≡ some plain
unfolding open_packet verified seal
open_packet-seal c ctr key nonce plain sealed sound some_data ok e =
    rw (ctr-seal c key nonce plain sealed sound some_data e, ok) refl
open_packet-seal c gcm key nonce plain sealed sound some_data ok e =
    open_gcm-seal c key nonce plain sealed sound some_data e
open_packet-seal c pqc key nonce plain sealed (gcm_sound, ctr_sound, sound) some_data ok e =
    sound nonce plain sealed e

-- The frame of an encrypted packet.
abbrev pub packet_frame : Sender → Bytes → Bytes → Bytes → Bytes
packet_frame s p nonce sealed =
    wire (take 12 p) (s.fake / 2 ^ 8 % 256) (s.fake % 256) s.policy_id s.worker_idx nonce sealed

encrypt-frame :
    (c : Cipher) (s : Sender) (nonce p w : Bytes)
    → ethertype p ≡ 0x0800
    → (s.fake == 0) ≡ false
    → crypto_layer2_encrypt c s nonce p ≡ some w
    → (sealed : Bytes) × (seal c s.mode s.key nonce (drop 14 p) ≡ some sealed)
      × (packet_frame s p nonce sealed ≡ w)
      × (22 ≤ length p)
unfolding crypto_layer2_encrypt l2_write_wire_header
encrypt-frame c s nonce p w v4 fake e = elim (Bool-cases (ltb (length p) 22)) [
  | inl short ↦ absurd (cc (rw short at e))
  | inr long ↦
      let (sealed, o, cut) = framed-some _ _ w (rw (long, v4, fake) at e) in
      (
        sealed,
        o,
        sym (
              append_assoc (take 12 p)
                (s.fake / 2 ^ 8 % 256 ∷ s.fake % 256 ∷ s.policy_id ∷ s.worker_idx ∷ nonce) sealed)
            ∙ cut,
        ground (arith, long),
      )
]

-- An IPv4 packet that `crypto_layer2_encrypt` encrypts comes back from `crypto_layer2_decrypt` byte
-- for byte, in each of the three modes, when the current keys are the same, the ciphers are sound and
-- the nonce has 12 bytes, unless the ciphertext happens to begin like the mark of a fragment. The
-- payload does not begin with the EtherType of IPv4, and in CTR mode it passes the check of its
-- protocol and its TTL.
pub layer2_encrypt-decrypt :
    (c : Cipher) (s : Sender) (keys : Keys) (nonce p w : Bytes)
    → Sound c
    → keys.current ≡ s.key
    → length nonce ≡ 12
    → s.fake < 2 ^ 16
    → (s.fake == 0) ≡ false
    → ethertype p ≡ 0x0800
    → byte_at p 13 < 256
    → ((byte_at (drop 14 p) 0 == 0x08) && (byte_at (drop 14 p) 1 == 0x00)) ≡ false
    → PassesCheck s.mode (drop 14 p)
    → crypto_layer2_encrypt c s nonce p ≡ some w
    → crypto_layer2_has_wire_frag_marker s.fake w ≡ false
    → crypto_layer2_decrypt c s.mode keys s.fake w ≡ some p
unfolding crypto_layer2_decrypt plain_frame
layer2_encrypt-decrypt c s keys nonce p w sound same n small fake v4 byte bare ok e unmarked =
    let (sealed, o, cut, long) = encrypt-frame c s nonce p w v4 fake e in
    let f = packet_frame s p nonce sealed in
    let hi = s.fake / 2 ^ 8 % 256 in
    let lo = s.fake % 256 in
    let m : length (take 12 p) ≡ 12 = omega (arith, length-take 12 p) in
    let len : ltb (length f) l2_enc_start ≡ false =
      ground (arith, wire-length (take 12 p) nonce sealed hi lo s.policy_id s.worker_idx m n) in
    let type : ethertype f ≡ s.fake =
      wire-type (take 12 p) nonce sealed hi lo s.policy_id s.worker_idx m n
      ∙ omega (arith, small) in
    let is_fake : l2_pkt_fake_ethertype s.fake f ≡ true = rw (fake, type, ==_refl s.fake) refl in
    let unmarked_f : crypto_layer2_has_wire_frag_marker s.fake f ≡ false =
      ap (crypto_layer2_has_wire_frag_marker s.fake) cut ∙ unmarked in
    let some_data : 0 < length (drop 14 p) = omega (arith, length-drop 14 p) in
    rw
      (
        ← cut,
        len,
        is_fake,
        unmarked_f,
        wire-nonce (take 12 p) nonce sealed hi lo s.policy_id s.worker_idx m n,
        wire-payload (take 12 p) nonce sealed hi lo s.policy_id s.worker_idx m n 28 0 (omega arith),
        same,
        open_packet-seal c s.mode s.key nonce (drop 14 p) sealed sound some_data ok o,
        bare,
        wire-macs (take 12 p) nonce sealed hi lo s.policy_id s.worker_idx m n,
        ipv4-parts p (omega (arith, long)) v4 byte,
      )
      refl
