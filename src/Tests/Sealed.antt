-- ===== src/Tests/Sealed.antt =====
-- Layer 2 encryption and the nonces, src/crypto/crypto_layer2.c and src/crypto/packet_crypto.c, at
-- concrete inputs, with ciphers that change nothing and tags of zeros.
use mathlib.Core.Option.{some-injective}
use ne_multi_core.Base.{
  ℕ, ◌+◌, ◌≡◌, ◌≢◌, refl, sym, ap, arith, true, false, some, [], ◌∷◌, ◌++◌, length, replicate, take,
  drop,
}
use ne_multi_core.Fragment.{
  Bytes, FragTable, zero_entry, frag_require_ipv4, frag_next_pkt_id, frag_l2_entry_live, pending,
  joined,
}
use ne_multi_core.Fragment.Entry.{Soon}
use ne_multi_core.Fragment.Split.{
  Plan, plain0, plain1, plan_l2, plan_l2_ip, plan_app, plan_of, split_half,
  crypto_layer2_frag_meta_len, frag_split_and_encrypt_l2, split_l2, encrypt_halves, pair_of,
}
use ne_multi_core.Fragment.Reassemble.{frag_try_reassemble_l2}
use ne_multi_core.Fragment.Reassemble.Home.{home}
use ne_multi_core.Crypto.{gcm, Cipher, Keys, seal, append_tag}
use ne_multi_core.Crypto.Nonce.{nonce_at, generate_nonce-distinct}
use ne_multi_core.Crypto.LayerTwo.{
  Sender, framed, l2_write_wire_header, l2_write_frag_tag, crypto_layer2_encrypt_fragment_single,
  crypto_layer2_decrypt_fragment, crypto_layer2_encrypt, crypto_layer2_decrypt,
  crypto_layer2_has_wire_frag_marker,
}
use ne_multi_core.Crypto.LayerTwo.Seal.{Sound}
use ne_multi_core.Crypto.LayerTwo.Packets.{layer2_encrypt-decrypt}
use ne_multi_core.Crypto.LayerTwo.Composed.{layer2, layer2_split-reassemble}

abbrev pub plain_cipher : Cipher
plain_cipher = record {
  gcm_encrypt = λ key nonce p. some (p, replicate 16 0);
  gcm_decrypt = λ key nonce p tag. some p;
  ctr_crypt = λ key iv p. some p;
  pqc_encrypt = λ nonce p. some p;
  pqc_decrypt = λ nonce p. some p;
}

sound : Sound plain_cipher
sound = (
  λ (key : Bytes) (nonce : Bytes) (plain : Bytes) (sealed : Bytes) (tag : Bytes)
        (e : some (plain, replicate 16 0) ≡ some (sealed, tag)).
      let same = sym (some-injective _ _ e) in
      (ap some (ap (λ t. t.0) same), ap (λ t. length t.0) same, ap (λ t. length t.1) same),
  λ (key : Bytes) (iv : Bytes) (plain : Bytes) (sealed : Bytes) (e : some plain ≡ some sealed).
      (sym e, ap length (sym (some-injective _ _ e))),
  λ (nonce : Bytes) (plain : Bytes) (sealed : Bytes) (e : some plain ≡ some sealed). sym e,
)

abbrev pub sender : Sender
sender = record { mode = gcm; key = 1 ∷ []; fake = 0x88B5; policy_id = 9; worker_idx = 2 }

abbrev pub keys : Keys
keys = record { prev = []; current = 1 ∷ []; next = [] }

abbrev pub a_nonce : Bytes
a_nonce = replicate 12 4

-- An IPv4 packet of `n` bytes behind its header, with a protocol without ports.
abbrev pub packet : ℕ → Bytes
packet n = replicate 12 2 ++ (0x08 ∷ 0x00 ∷ 0x45 ∷ replicate 7 0 ++ (64 ∷ 1 ∷ replicate (10 + n) 3))

generate_nonce-distinct_example : nonce_at 5 a_nonce ≢ nonce_at (5 + 3) a_nonce
generate_nonce-distinct_example = generate_nonce-distinct 5 3 a_nonce (omega arith) (omega arith)

abbrev a_fragment : Bytes
a_fragment =
    replicate 12 2
    ++ (0x88 ∷ 0xB5 ∷ 9 ∷ 2 ∷ a_nonce)
    ++ (0x5B ∷ 1 ∷ 2 ∷ 1 ∷ 0 ∷ 7 ∷ 8 ∷ [])
    ++ replicate 16 0

fragment_made :
    crypto_layer2_encrypt_fragment_single plain_cipher sender 4096 a_nonce
      (packet 0)
      (7 ∷ 8 ∷ [])
      258
      1
    ≡ some a_fragment
unfolding crypto_layer2_encrypt_fragment_single framed l2_write_wire_header l2_write_frag_tag seal
    append_tag
fragment_made = refl

abbrev a_frame : Bytes
a_frame =
    replicate 12 2 ++ (0x88 ∷ 0xB5 ∷ 9 ∷ 2 ∷ a_nonce) ++ (drop 14 (packet 6) ++ replicate 16 0)

frame_made : crypto_layer2_encrypt plain_cipher sender a_nonce (packet 6) ≡ some a_frame
unfolding crypto_layer2_encrypt framed l2_write_wire_header seal append_tag
frame_made = refl

unmarked : crypto_layer2_has_wire_frag_marker sender.fake a_frame ≡ false
unfolding crypto_layer2_has_wire_frag_marker
unmarked = refl

layer2_encrypt-decrypt_example :
    crypto_layer2_decrypt plain_cipher sender.mode keys sender.fake a_frame ≡ some (packet 6)
layer2_encrypt-decrypt_example =
    layer2_encrypt-decrypt plain_cipher sender keys a_nonce (packet 6) a_frame sound refl refl
      (omega arith) refl refl (omega arith) refl tt frame_made unmarked

-- A ciphertext that begins like the mark of a fragment: the packet is not decrypted.
abbrev marked_cipher : Cipher
marked_cipher = record plain_cipher {
  gcm_encrypt = λ key nonce p. some (0x5B ∷ 0 ∷ 0 ∷ 1 ∷ 0 ∷ drop 5 p, replicate 16 0);
  gcm_decrypt = λ key nonce p tag. some (take 5 (drop 14 (packet 6)) ++ drop 5 p);
}

abbrev lost_frame : Bytes
lost_frame =
    replicate 12 2
    ++ (0x88 ∷ 0xB5 ∷ 9 ∷ 2 ∷ a_nonce)
    ++ ((0x5B ∷ 0 ∷ 0 ∷ 1 ∷ 0 ∷ drop 19 (packet 6)) ++ replicate 16 0)

packet_lost :
    (crypto_layer2_encrypt marked_cipher sender a_nonce (packet 6) ≡ some lost_frame)
    × (crypto_layer2_decrypt marked_cipher sender.mode keys sender.fake lost_frame
        ≡ some lost_frame)
unfolding crypto_layer2_encrypt framed l2_write_wire_header seal append_tag crypto_layer2_decrypt
    crypto_layer2_has_wire_frag_marker
packet_lost = (refl, refl)

-- A packet of 1511 bytes is cut at layer 2.
abbrev pub a_plan : Plan
a_plan = record { ip_hdr_len = 20; app_off = 0; half1 = 1431; half2 = 46 }

pub planned : plan_l2 true (packet 1477) ≡ some a_plan
unfolding plan_l2 plan_l2_ip plan_app plan_of split_half crypto_layer2_frag_meta_len
    frag_require_ipv4
planned = refl

abbrev pub wire_half : ℕ → Bytes → Bytes
wire_half i plain =
    replicate 12 2
    ++ (0x88 ∷ 0xB5 ∷ 9 ∷ 2 ∷ a_nonce)
    ++ (0x5B ∷ 0 ∷ 7 ∷ i ∷ 0 ∷ plain)
    ++ replicate 16 0

abbrev pub nonces : ℕ → ℕ → Bytes
nonces id i = a_nonce

abbrev table : FragTable
table i = zero_entry

pub split_made :
    (frag_split_and_encrypt_l2 (layer2 plain_cipher sender 4096 nonces) true 7 (packet 1477)).0
    ≡ some (wire_half 0 (plain0 a_plan (packet 1477)), wire_half 1 (plain1 a_plan (packet 1477)))
unfolding frag_split_and_encrypt_l2 split_l2 encrypt_halves pair_of frag_next_pkt_id plan_l2
    plan_l2_ip plan_app plan_of split_half crypto_layer2_frag_meta_len frag_require_ipv4
    crypto_layer2_encrypt_fragment_single framed l2_write_wire_header l2_write_frag_tag seal
    append_tag
split_made = refl

free : frag_l2_entry_live (table (home 7)) 1000 ≡ false
unfolding frag_l2_entry_live
free = refl

soon : Soon 1000 2000
soon = (omega arith, omega arith, omega arith)

layer2_split-reassemble_example :
    let p = packet 1477 in
    let w0 = wire_half 0 (plain0 a_plan p) in
    let w1 = wire_half 1 (plain1 a_plan p) in
    let id = (frag_next_pkt_id 7).0 in
    (d0 : Bytes) × (d1 : Bytes) × (crypto_layer2_decrypt_fragment plain_cipher sender.mode keys
        sender.fake w0
      ≡ some (d0, id, 0))
    × (crypto_layer2_decrypt_fragment plain_cipher sender.mode keys sender.fake w1
        ≡ some (d1, id, 1))
    × ((frag_try_reassemble_l2 table d0 id 0 1000).0 ≡ pending)
    × ((frag_try_reassemble_l2 table d1 id 1 1000).0 ≡ pending)
    × ((frag_try_reassemble_l2 (frag_try_reassemble_l2 table d0 id 0 1000).1 d1 id 1 2000).0
        ≡ joined p)
    × ((frag_try_reassemble_l2 (frag_try_reassemble_l2 table d1 id 1 1000).1 d0 id 0 2000).0
        ≡ joined p)
layer2_split-reassemble_example =
    layer2_split-reassemble plain_cipher sender keys 4096 nonces table true 7 (packet 1477) a_plan
      (wire_half 0 (plain0 a_plan (packet 1477))) (wire_half 1 (plain1 a_plan (packet 1477))) 1000
      2000 sound refl (λ id i. refl) (omega arith) planned (omega arith) split_made (omega arith)
      refl (omega arith) free soon
