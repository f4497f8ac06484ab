-- ===== src/Crypto/LayerTwo.antt =====
-- The packets of layer 2 encryption, src/crypto/crypto_layer2.c: the wire header, the mark of a fragment,
-- `crypto_layer2_encrypt`, `crypto_layer2_decrypt`, `crypto_layer2_encrypt_fragment_single`,
-- `crypto_layer2_decrypt_fragment` and `crypto_layer2_read_worker_idx`. The frame is the list of its
-- bytes; the context is initialised, `fake` is the EtherType of encrypted packets, and the nonce is an
-- argument, as in Crypto of this library.
pub mod Wire
pub mod Seal
pub mod Roundtrip
pub mod Packets
pub mod Composed
use ne_multi_core.Base.{
  ℕ, ◌+◌, ◌*◌, ◌/◌, ◌%◌, ◌^◌, ◌-◌, Bool, true, false, ◌&&◌, ◌||◌, not, Option, none, some, List, [],
  ◌∷◌, ◌++◌, length, take, drop, ltb, leb, ◌==◌, if◌then◌else◌,
}
use ne_multi_core.Fragment.{Bytes, byte_at, ethertype}
use ne_multi_core.Crypto.{
  Mode, ctr, gcm, pqc, Cipher, Keys, gcm_tag_size, nonce_bytes, crypto_nonce_to_iv, seal,
  crypto_aes_gcm_decrypt, crypto_aes_ctr_with_key,
}

-- NE_L2_FAKE_ETHERTYPE, L2_FRAG_MAGIC, and the offsets of the nonce, of the payload, and of the payload
-- of a fragment.
abbrev pub l2_fake_ethertype : ℕ
l2_fake_ethertype = 0x88B5

abbrev pub l2_frag_magic : ℕ
l2_frag_magic = 0x5B

abbrev pub nonce_off : ℕ
nonce_off = 16

abbrev pub l2_enc_start : ℕ
l2_enc_start = 28

abbrev pub l2_frag_enc_start : ℕ
l2_frag_enc_start = 33

-- What the encrypting thread is set to: the policy and the number of the worker.
pub record Sender : Type 0 where
  pub mode : Mode
  pub key : Bytes
  pub fake : ℕ
  pub policy_id : ℕ
  pub worker_idx : ℕ

-- The MAC addresses of `eth`, and what `l2_write_wire_header` writes behind them.
unfoldable pub l2_write_wire_header : Sender → Bytes → Bytes → Bytes
l2_write_wire_header s eth nonce =
    take 12 eth ++ (s.fake / 2 ^ 8 % 256 ∷ s.fake % 256 ∷ s.policy_id ∷ s.worker_idx ∷ nonce)

unfoldable pub l2_write_frag_tag : ℕ → ℕ → Bytes
l2_write_frag_tag pkt_id frag_index = pkt_id / 2 ^ 8 % 256 ∷ pkt_id % 256 ∷ frag_index ∷ 0 ∷ []

unfoldable pub l2_read_frag_tag : Bytes → ℕ → ℕ × ℕ
l2_read_frag_tag p off = (byte_at p off * 2 ^ 8 + byte_at p (off + 1), byte_at p (off + 2))

abbrev pub l2_pkt_fake_ethertype : ℕ → Bytes → Bool
l2_pkt_fake_ethertype fake p = not (fake == 0) && (ethertype p == fake)

unfoldable pub crypto_layer2_has_wire_frag_marker : ℕ → Bytes → Bool
crypto_layer2_has_wire_frag_marker fake p =
    if ltb (length p) l2_frag_enc_start
    then false
    else if not (l2_pkt_fake_ethertype fake p)
    then false
    else if not (byte_at p 28 == l2_frag_magic)
    then false
    else if ltb 1 (byte_at p 31)
    then false
    else if not (byte_at p 32 == 0)
    then false
    else true

unfoldable pub crypto_layer2_read_worker_idx : ℕ → Bytes → Option ℕ
crypto_layer2_read_worker_idx fake p =
    if ltb (length p) nonce_off
    then none
    else if not (l2_pkt_fake_ethertype fake p)
    then none
    else some (byte_at p 15)

unfoldable pub framed : Bytes → Option Bytes → Option Bytes
framed header none = none
framed header (some payload) = some (header ++ payload)

-- A packet that is not IPv4, or for which no EtherType is set, stays as it is.
unfoldable pub crypto_layer2_encrypt : Cipher → Sender → Bytes → Bytes → Option Bytes
unfolding framed seal l2_write_wire_header
crypto_layer2_encrypt c s nonce p =
    if ltb (length p) 22
    then none
    else if not (ethertype p == 0x0800) || (s.fake == 0)
    then some p
    else framed (l2_write_wire_header s p nonce) (seal c s.mode s.key nonce (drop 14 p))

unfoldable pub verify_ipv4_after_decrypt : Bytes → Bool
verify_ipv4_after_decrypt ip =
    let proto = byte_at ip 9 in
    if ltb (length ip) 20
    then false
    else if byte_at ip 8 == 0
    then false
    else (proto == 1)
      || (proto == 2)
      || (proto == 6)
      || (proto == 17)
      || (proto == 47)
      || (proto == 50)
      || (proto == 51)
      || (proto == 58)
      || (proto == 89)
      || (proto == 132)

unfoldable pub verified : Option Bytes → Option Bytes
unfolding verify_ipv4_after_decrypt
verified none = none
verified (some plain) = if verify_ipv4_after_decrypt plain then some plain else none

-- The payload of a packet, from `off` on, decrypted with one key.
unfoldable pub open_gcm : Cipher → Bytes → Bytes → Bytes → Option Bytes
unfolding crypto_aes_gcm_decrypt
open_gcm c key nonce sealed =
    let enc_len = length sealed - gcm_tag_size in
    if ltb (length sealed) gcm_tag_size
    then none
    else crypto_aes_gcm_decrypt c key nonce (take enc_len sealed) (drop enc_len sealed)

unfoldable pub open_packet : Cipher → Mode → Bytes → Bytes → Bytes → Option Bytes
unfolding open_gcm verified crypto_nonce_to_iv crypto_aes_ctr_with_key
open_packet c ctr key nonce sealed =
    verified (crypto_aes_ctr_with_key c key (crypto_nonce_to_iv nonce) sealed)
open_packet c gcm key nonce sealed = open_gcm c key nonce sealed
open_packet c pqc key nonce sealed = c.pqc_decrypt nonce sealed

-- The EtherType of IPv4, and a payload that still begins with it loses it.
unfoldable pub plain_frame : Bytes → Option Bytes → Option Bytes
plain_frame p none = none
plain_frame p (some plain) =
    if (byte_at plain 0 == 0x08) && (byte_at plain 1 == 0x00)
    then some (take 12 p ++ (0x08 ∷ 0x00 ∷ drop 2 plain))
    else some (take 12 p ++ (0x08 ∷ 0x00 ∷ plain))

-- A packet of another EtherType, or with the mark of a fragment, stays as it is.
unfoldable pub crypto_layer2_decrypt : Cipher → Mode → Keys → ℕ → Bytes → Option Bytes
unfolding plain_frame
crypto_layer2_decrypt c mode keys fake p =
    if ltb (length p) l2_enc_start
    then none
    else if not (l2_pkt_fake_ethertype fake p)
    then some p
    else if crypto_layer2_has_wire_frag_marker fake p
    then some p
    else plain_frame p (
        open_packet c mode keys.current (take nonce_bytes (drop nonce_off p)) (drop l2_enc_start p))

-- `out_max` must hold the fragment; with the tag also where the mode has one.
abbrev pub tag_room : Mode → ℕ
tag_room ctr = 0
tag_room gcm = gcm_tag_size
tag_room pqc = gcm_tag_size

unfoldable pub crypto_layer2_encrypt_fragment_single :
    Cipher → Sender → ℕ → Bytes → Bytes → Bytes → ℕ → ℕ → Option Bytes
unfolding framed seal l2_write_wire_header l2_write_frag_tag
crypto_layer2_encrypt_fragment_single c s out_max nonce eth_hdr plain pkt_id frag_index =
    if (length plain == 0) || not (ethertype eth_hdr == 0x0800)
    then none
    else if ltb out_max (l2_frag_enc_start + length plain + tag_room s.mode)
    then none
    else if s.fake == 0
    then none
    else framed
        (l2_write_wire_header s eth_hdr nonce
          ++ (l2_frag_magic ∷ l2_write_frag_tag pkt_id frag_index))
        (seal c s.mode s.key nonce plain)

-- The first of the keys that opens a payload.
or_else : Option Bytes → Option Bytes → Option Bytes
or_else none o = o
or_else (some plain) o = some plain

-- The current key, the one before it and the next one are tried in turn.
unfoldable pub open_fragment : Cipher → Mode → Keys → Bytes → Bytes → Option Bytes
unfolding or_else open_gcm crypto_nonce_to_iv crypto_aes_ctr_with_key
open_fragment c ctr keys nonce sealed =
    let iv = crypto_nonce_to_iv nonce in
    or_else (crypto_aes_ctr_with_key c keys.current iv sealed) (
      or_else (crypto_aes_ctr_with_key c keys.prev iv sealed)
        (crypto_aes_ctr_with_key c keys.next iv sealed))
open_fragment c gcm keys nonce sealed =
    or_else (open_gcm c keys.current nonce sealed)
      (or_else (open_gcm c keys.prev nonce sealed) (open_gcm c keys.next nonce sealed))
open_fragment c pqc keys nonce sealed = c.pqc_decrypt nonce sealed

-- In PQC mode only the first byte of the mark is looked at.
abbrev pub is_marked : Mode → ℕ → Bytes → Bool
is_marked ctr fake p = crypto_layer2_has_wire_frag_marker fake p
is_marked gcm fake p = crypto_layer2_has_wire_frag_marker fake p
is_marked pqc fake p = byte_at p 28 == l2_frag_magic

unfoldable pub opened : Bytes → Option Bytes → Option (Bytes × ℕ × ℕ)
unfolding l2_read_frag_tag
opened p none = none
opened p (some plain) =
    let (pkt_id, frag_index) = l2_read_frag_tag p 29 in
    some (take 14 p ++ plain, pkt_id, frag_index)

-- The frame with the plaintext behind its Ethernet header, and the id and the index of the fragment.
unfoldable pub crypto_layer2_decrypt_fragment :
    Cipher → Mode → Keys → ℕ → Bytes → Option (Bytes × ℕ × ℕ)
unfolding opened open_fragment crypto_layer2_has_wire_frag_marker
crypto_layer2_decrypt_fragment c mode keys fake p =
    if ltb (length p) l2_frag_enc_start || not (l2_pkt_fake_ethertype fake p)
    then none
    else if not (is_marked mode fake p)
    then none
    else opened p
        (open_fragment c mode keys (take nonce_bytes (drop nonce_off p)) (drop l2_frag_enc_start p))
