-- ===== src/Crypto/LayerTwo/Roundtrip.antt =====
-- One fragment that is encrypted and decrypted at layer 2, src/crypto/crypto_layer2.c.
use mathlib.Core.List.{append_assoc}
use mathlib.Core.Option.{some-injective}
use ne_multi_core.Base.{
  ℕ, ◌+◌, ◌*◌, ◌/◌, ◌%◌, ◌^◌, ◌<◌, ◌≤◌, ◌≡◌, refl, sym, ◌∙◌, arith, inl, inr, true, false, ◌||◌,
  not, Option, none, some, [], ◌∷◌, ◌++◌, length, take, drop, ltb, ◌==◌, Bool-cases, length-take,
  ==_refl,
}
use ne_multi_core.Fragment.{Bytes, byte_at, ethertype}
use ne_multi_core.Crypto.{Mode, ctr, gcm, pqc, Cipher, Keys, seal}
use ne_multi_core.Crypto.LayerTwo.Wire.{
  wire, wire-length, wire-type, wire-rest, wire-nonce, wire-payload, wire-eth,
}
use ne_multi_core.Crypto.LayerTwo.Seal.{Sound, open_fragment-seal}
use ne_multi_core.Crypto.LayerTwo.{
  Sender, l2_frag_magic, l2_write_wire_header, l2_write_frag_tag, l2_read_frag_tag, framed, opened,
  crypto_layer2_has_wire_frag_marker, l2_frag_enc_start, tag_room, l2_pkt_fake_ethertype, is_marked,
  crypto_layer2_encrypt_fragment_single, crypto_layer2_decrypt_fragment,
}

pub framed-some :
    (header : Bytes) (o : Option Bytes) (w : Bytes)
    → framed header o ≡ some w
    → (payload : Bytes) × (o ≡ some payload) × (header ++ payload ≡ w)
unfolding framed
framed-some header none w e = absurd (cc e)
framed-some header (some payload) w e = (payload, refl, some-injective _ _ e)

-- The frame of a fragment.
abbrev pub fragment_frame : Sender → Bytes → Bytes → ℕ → ℕ → Bytes → Bytes
fragment_frame s eth nonce pkt_id frag_index sealed =
    wire (take 12 eth) (s.fake / 2 ^ 8 % 256) (s.fake % 256) s.policy_id s.worker_idx nonce
      (l2_frag_magic ∷ pkt_id / 2 ^ 8 % 256 ∷ pkt_id % 256 ∷ frag_index ∷ 0 ∷ sealed)

pub encrypt_fragment-frame :
    (c : Cipher) (s : Sender) (out_max : ℕ) (nonce eth plain : Bytes) (pkt_id frag_index : ℕ)
    (w : Bytes)
    → crypto_layer2_encrypt_fragment_single c s out_max nonce eth plain pkt_id frag_index ≡ some w
    → (sealed : Bytes) × (seal c s.mode s.key nonce plain ≡ some sealed)
      × (fragment_frame s eth nonce pkt_id frag_index sealed ≡ w)
      × (0 < length plain)
      × ((s.fake == 0) ≡ false)
unfolding crypto_layer2_encrypt_fragment_single l2_write_wire_header l2_write_frag_tag
encrypt_fragment-frame c s out_max nonce eth plain pkt_id frag_index w e =
    elim (Bool-cases ((length plain == 0) || not (ethertype eth == 0x0800))) [
      | inl bad ↦ absurd (cc (rw bad at e))
      | inr ok ↦
          elim (Bool-cases (ltb out_max (l2_frag_enc_start + length plain + tag_room s.mode))) [
            | inl long ↦ absurd (cc (rw (ok, long) at e))
            | inr short ↦ elim (Bool-cases (s.fake == 0)) [
              | inl z ↦ absurd (cc (rw (ok, short, z) at e))
              | inr fake ↦
                  let (sealed, o, cut) = framed-some _ _ w (rw (ok, short, fake) at e) in
                  let head =
                    s.fake / 2 ^ 8 % 256 ∷ s.fake % 256 ∷ s.policy_id ∷ s.worker_idx ∷ nonce in
                  let tag =
                    l2_frag_magic ∷ pkt_id / 2 ^ 8 % 256 ∷ pkt_id % 256 ∷ frag_index ∷ 0 ∷ [] in
                  (
                    sealed,
                    o,
                    sym (
                          append_assoc (take 12 eth ++ head) tag sealed
                          ∙ append_assoc (take 12 eth) head (tag ++ sealed))
                        ∙ cut,
                    ground (arith, ok),
                    fake,
                  )
            ]
          ]
    ]

-- The frame that comes out of the decryption of a fragment.
abbrev pub clear_frame : Sender → Bytes → Bytes → Bytes
clear_frame s eth plain = take 12 eth ++ (s.fake / 2 ^ 8 % 256 ∷ s.fake % 256 ∷ []) ++ plain

-- In this section a frame is a fragment with 12 bytes of nonce.
module _ (s : Sender) (eth nonce sealed : Bytes) (pkt_id frag_index : ℕ) (long : 12 ≤ length eth)
    (n : length nonce ≡ 12) (small : s.fake < 2 ^ 16) (fake : (s.fake == 0) ≡ false) where
  abbrev rest : Bytes
  rest = l2_frag_magic ∷ pkt_id / 2 ^ 8 % 256 ∷ pkt_id % 256 ∷ frag_index ∷ 0 ∷ sealed

  abbrev w : Bytes
  w = fragment_frame s eth nonce pkt_id frag_index sealed

  m : length (take 12 eth) ≡ 12
  m = omega (arith, length-take 12 eth)

  byte_w : (j k : ℕ) → j ≡ 28 + k → byte_at w j ≡ byte_at rest k
  byte_w j k e =
      wire-rest (take 12 eth) nonce rest (s.fake / 2 ^ 8 % 256) (s.fake % 256) s.policy_id
        s.worker_idx m n j k e

  w-is_fake : l2_pkt_fake_ethertype s.fake w ≡ true
  w-is_fake =
      let e : ethertype w ≡ s.fake =
        wire-type (take 12 eth) nonce rest (s.fake / 2 ^ 8 % 256) (s.fake % 256) s.policy_id
          s.worker_idx m n
        ∙ omega (arith, small) in
      rw (fake, e, ==_refl s.fake) refl

  w-long : ltb (length w) l2_frag_enc_start ≡ false
  w-long = ground (
    arith,
    wire-length (take 12 eth) nonce rest (s.fake / 2 ^ 8 % 256) (s.fake % 256) s.policy_id
        s.worker_idx m n,
  )

  w-marker : frag_index ≤ 1 → crypto_layer2_has_wire_frag_marker s.fake w ≡ true
  unfolding crypto_layer2_has_wire_frag_marker
  w-marker first =
      let f : ltb 1 frag_index ≡ false = ground (arith, first) in
      rw
        (
          w-long,
          w-is_fake,
          byte_w 28 0 (omega arith),
          byte_w 31 3 (omega arith),
          byte_w 32 4 (omega arith),
          f,
        )
        refl

  w-is_marked : (mode : Mode) → frag_index ≤ 1 → is_marked mode s.fake w ≡ true
  w-is_marked ctr first = w-marker first
  w-is_marked gcm first = w-marker first
  w-is_marked pqc first = rw (byte_w 28 0 (omega arith)) refl

  pub frame-opened :
      (c : Cipher) (keys : Keys) (plain : Bytes)
      → Sound c
      → 0 < length plain
      → keys.current ≡ s.key
      → seal c s.mode s.key nonce plain ≡ some sealed
      → pkt_id < 2 ^ 16
      → frag_index ≤ 1
      → crypto_layer2_decrypt_fragment c s.mode keys s.fake w
        ≡ some (clear_frame s eth plain, pkt_id, frag_index)
  unfolding crypto_layer2_decrypt_fragment opened l2_read_frag_tag
  frame-opened c keys plain sound some_data same e id_small first =
      let id : pkt_id / 2 ^ 8 % 256 * 2 ^ 8 + pkt_id % 256 ≡ pkt_id = omega (arith, id_small) in
      let nonce_w : take 12 (drop 16 w) ≡ nonce =
        wire-nonce (take 12 eth) nonce rest (s.fake / 2 ^ 8 % 256) (s.fake % 256) s.policy_id
          s.worker_idx m n in
      let payload : drop 33 w ≡ sealed =
        wire-payload (take 12 eth) nonce rest (s.fake / 2 ^ 8 % 256) (s.fake % 256) s.policy_id
          s.worker_idx m n 33 5 (omega arith) in
      let eth_w : take 14 w ≡ take 12 eth ++ (s.fake / 2 ^ 8 % 256 ∷ s.fake % 256 ∷ []) =
        wire-eth (take 12 eth) nonce rest (s.fake / 2 ^ 8 % 256) (s.fake % 256) s.policy_id
          s.worker_idx m n in
      rw
        (
          w-long,
          w-is_fake,
          w-is_marked s.mode first,
          nonce_w,
          payload,
          open_fragment-seal c s.mode keys nonce plain sealed sound some_data (rw same e),
          byte_w 29 1 (omega arith),
          byte_w 30 2 (omega arith),
          byte_w 31 3 (omega arith),
          id,
          eth_w,
        )
        refl

-- What `crypto_layer2_encrypt_fragment_single` makes of one half, `crypto_layer2_decrypt_fragment`
-- turns back into the MAC addresses and the EtherType of the frame with the plaintext behind them,
-- and into the id and the index of the fragment, in each of the three modes, when the receiver's
-- current key is the sender's and the ciphers are sound. The nonce has 12 bytes.
pub encrypt_fragment-decrypt :
    (c : Cipher) (s : Sender) (keys : Keys) (out_max : ℕ) (nonce eth plain : Bytes)
    (pkt_id frag_index : ℕ) (w : Bytes)
    → Sound c
    → keys.current ≡ s.key
    → 12 ≤ length eth
    → length nonce ≡ 12
    → s.fake < 2 ^ 16
    → pkt_id < 2 ^ 16
    → frag_index ≤ 1
    → crypto_layer2_encrypt_fragment_single c s out_max nonce eth plain pkt_id frag_index ≡ some w
    → crypto_layer2_decrypt_fragment c s.mode keys s.fake w
      ≡ some (clear_frame s eth plain, pkt_id, frag_index)
encrypt_fragment-decrypt c s keys out_max nonce eth plain pkt_id frag_index w sound same long n
      small id_small first e =
    let (sealed, o, cut, some_data, fake) =
      encrypt_fragment-frame c s out_max nonce eth plain pkt_id frag_index w e in
    rw (← cut) (
      frame-opened s eth nonce sealed pkt_id frag_index long n small fake c keys plain sound
        some_data same o id_small first)
