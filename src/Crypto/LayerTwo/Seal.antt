-- ===== src/Crypto/LayerTwo/Seal.antt =====
-- Payloads that are sealed and opened again, src/crypto/crypto_layer2.c and src/crypto/packet_crypto.c.
use mathlib.Core.List.{append-nil}
use mathlib.Core.Option.{some-injective}
use ne_multi_core.Base.{
  ◌+◌, ◌-◌, ◌<◌, ◌≡◌, refl, ◌∙◌, arith, false, Option, none, some, ◌++◌, length, ltb, ◌==◌,
  length-append,
}
use ne_multi_core.Fragment.{Bytes}
use ne_multi_core.Crypto.{
  Mode, ctr, gcm, pqc, Cipher, Keys, gcm_tag_size, crypto_nonce_to_iv, append_tag, seal,
  crypto_aes_gcm_decrypt, crypto_aes_ctr_with_key,
}
use ne_multi_core.Crypto.LayerTwo.Wire.{drop_past, take_past}
use ne_multi_core.Crypto.LayerTwo.{open_gcm, or_else, open_fragment}

-- What is documented of the ciphers: the key and the nonce that encrypted some data decrypt it, the
-- tag of GCM has 16 bytes, and no call changes the length of the data but for that.
abbrev pub Sound : Cipher → Type 0
Sound c =
    ((key : Bytes) (nonce : Bytes) (plain : Bytes) (sealed : Bytes) (tag : Bytes)
      → c.gcm_encrypt key nonce plain ≡ some (sealed, tag)
      → (c.gcm_decrypt key nonce sealed tag ≡ some plain)
        × (length sealed ≡ length plain)
        × (length tag ≡ gcm_tag_size))
    × ((key : Bytes) (iv : Bytes) (plain : Bytes) (sealed : Bytes)
        → c.ctr_crypt key iv plain ≡ some sealed
        → (c.ctr_crypt key iv sealed ≡ some plain) × (length sealed ≡ length plain))
    × ((nonce : Bytes) (plain : Bytes) (sealed : Bytes)
        → c.pqc_encrypt nonce plain ≡ some sealed
        → c.pqc_decrypt nonce sealed ≡ some plain)

append_tag-some :
    (o : Option (Bytes × Bytes)) (sealed : Bytes)
    → append_tag o ≡ some sealed
    → (a : Bytes) × (tag : Bytes) × (o ≡ some (a, tag)) × (a ++ tag ≡ sealed)
unfolding append_tag
append_tag-some none sealed e = absurd (cc e)
append_tag-some (some (a, tag)) sealed e = (a, tag, refl, some-injective _ _ e)

open_gcm-append :
    (c : Cipher) (key nonce plain a tag : Bytes)
    → c.gcm_decrypt key nonce a tag ≡ some plain
    → 0 < length a
    → length tag ≡ gcm_tag_size
    → open_gcm c key nonce (a ++ tag) ≡ some plain
unfolding open_gcm crypto_aes_gcm_decrypt
open_gcm-append c key nonce plain a tag e some_data t =
    let l = length-append a tag in
    let long : ltb (length (a ++ tag)) gcm_tag_size ≡ false = ground (arith, l, t) in
    let cut : length (a ++ tag) - gcm_tag_size ≡ length a + 0 = omega (arith, l, t) in
    let full : (length a == 0) ≡ false = ground (arith, some_data) in
    rw
      (
        long,
        take_past a tag (length (a ++ tag) - gcm_tag_size) 0 cut ∙ append-nil a,
        drop_past a tag (length (a ++ tag) - gcm_tag_size) 0 cut,
        full,
      )
      e

-- What was sealed is opened with the same key and nonce.
pub open_gcm-seal :
    (c : Cipher) (key nonce plain sealed : Bytes)
    → Sound c
    → 0 < length plain
    → seal c gcm key nonce plain ≡ some sealed
    → open_gcm c key nonce sealed ≡ some plain
unfolding seal
open_gcm-seal c key nonce plain sealed (sound, ctr_sound, pqc_sound) some_data e =
    let (a, tag, o, cut) = append_tag-some _ sealed e in
    let (back, l, t) = sound key nonce plain a tag o in
    rw (← cut) (open_gcm-append c key nonce plain a tag back (omega (arith, l)) t)

pub ctr-seal :
    (c : Cipher) (key nonce plain sealed : Bytes)
    → Sound c
    → 0 < length plain
    → seal c ctr key nonce plain ≡ some sealed
    → crypto_aes_ctr_with_key c key (crypto_nonce_to_iv nonce) sealed ≡ some plain
unfolding seal crypto_aes_ctr_with_key
ctr-seal c key nonce plain sealed (gcm_sound, sound, pqc_sound) some_data e =
    let full : (length plain == 0) ≡ false = ground (arith, some_data) in
    let (back, l) = sound key (crypto_nonce_to_iv nonce) plain sealed (rw full at e) in
    let full' : (length sealed == 0) ≡ false = ground (arith, some_data, l) in rw full' back

pub open_fragment-seal :
    (c : Cipher) (mode : Mode) (keys : Keys) (nonce plain sealed : Bytes)
    → Sound c
    → 0 < length plain
    → seal c mode keys.current nonce plain ≡ some sealed
    → open_fragment c mode keys nonce sealed ≡ some plain
unfolding open_fragment or_else seal
open_fragment-seal c ctr keys nonce plain sealed sound some_data e =
    rw (ctr-seal c keys.current nonce plain sealed sound some_data e) refl
open_fragment-seal c gcm keys nonce plain sealed sound some_data e =
    rw (open_gcm-seal c keys.current nonce plain sealed sound some_data e) refl
open_fragment-seal c pqc keys nonce plain sealed (gcm_sound, ctr_sound, sound) some_data e =
    sound nonce plain sealed e
