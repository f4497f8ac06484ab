-- ===== src/Crypto.antt =====
-- What the packet formats share, src/crypto/packet_crypto.c: the nonces (`packet_crypto_next_counter`,
-- `packet_crypto_reset_counter`, `crypto_generate_nonce`, `crypto_nonce_to_iv`), the keys of a context
-- (`packet_crypto_get_key`, `packet_crypto_init`) and the tunnel header. The ciphers are third-party
-- code, a parameter here, as are the random salt of a thread and the key derivation (HMAC).
pub mod Fixup
pub mod Nonce
pub mod LayerTwo
pub mod Dispatch
use Prim.Native.Nat.{bit_or}
use ne_multi_core.Base.{
  ℕ, ◌+◌, ◌*◌, ◌/◌, ◌%◌, ◌^◌, ◌-◌, Bool, Option, none, some, List, [], ◌∷◌, ◌++◌, length, take,
  drop, replicate, bit_and, ltb, ◌==◌, if◌then◌else◌,
}
use ne_multi_core.Fragment.{Bytes, byte_at}

-- CRYPTO_MODE_CTR, CRYPTO_MODE_GCM, CRYPTO_MODE_PQC.
pub data Mode : Type 0 where
  ctr gcm pqc : Mode

-- PACKET_CRYPTO_NONCE_BYTES, AES_GCM_TAG_SIZE, AES128_IV_SIZE.
abbrev pub nonce_bytes : ℕ
nonce_bytes = 12

abbrev pub gcm_tag_size : ℕ
gcm_tag_size = 16

abbrev pub iv_size : ℕ
iv_size = 16

-- The library calls behind `crypto_aes_gcm_encrypt`, `crypto_aes_gcm_decrypt` and
-- `crypto_aes_ctr_with_key` (key, nonce, data, and the tag), on data that is not empty, and behind
-- `crypto_pqc_encrypt_payload` and `crypto_pqc_decrypt_payload` under the key of the session, whose
-- data ends with the tag. `none` is a failure.
pub record Cipher : Type 0 where
  pub gcm_encrypt : Bytes → Bytes → Bytes → Option (Bytes × Bytes)
  pub gcm_decrypt : Bytes → Bytes → Bytes → Bytes → Option Bytes
  pub ctr_crypt : Bytes → Bytes → Bytes → Option Bytes
  pub pqc_encrypt : Bytes → Bytes → Option Bytes
  pub pqc_decrypt : Bytes → Bytes → Option Bytes

-- The three keys of a context: KEY_SLOT_PREV, KEY_SLOT_CURRENT, KEY_SLOT_NEXT.
pub record Keys : Type 0 where
  pub prev : Bytes
  pub current : Bytes
  pub next : Bytes

-- `g_nonce_counter` is an `atomic_uint_fast32_t`, of 64 bits; the result is the counter of the packet
-- and the one after the call.
unfoldable pub packet_crypto_next_counter : ℕ → ℕ × ℕ
packet_crypto_next_counter g = (bit_and g 0x7FFFFFFF, (g + 1) % 2 ^ 64)

-- `proto_flag` is PROTO_FLAG_IPV4, 0, in every call. `salt` is the random salt of the thread.
unfoldable pub crypto_generate_nonce : ℕ → ℕ → Bytes → Bytes
crypto_generate_nonce counter proto_flag salt =
    bit_or (proto_flag * 2 ^ 7 % 256) (bit_and (counter / 2 ^ 24) 0x7F)
    ∷ bit_and (counter / 2 ^ 16) 0xFF
    ∷ bit_and (counter / 2 ^ 8) 0xFF
    ∷ bit_and counter 0xFF
    ∷ take (nonce_bytes - 4) salt

unfoldable pub crypto_nonce_to_iv : Bytes → Bytes
crypto_nonce_to_iv nonce =
    if ltb (length nonce) iv_size then nonce ++ replicate (iv_size - length nonce) 0 else nonce

-- The three keys of a context that is made from a master key, and the nonce counter after it:
-- `derive` is the derivation of a key for epoch 0.
unfoldable pub packet_crypto_init : (Bytes → Bytes) → Bytes → Keys × ℕ
packet_crypto_init derive master_key =
    (record { prev = derive master_key; current = derive master_key; next = derive master_key }, 0)

unfoldable pub crypto_write_l3_tunnel_header : Bytes → ℕ → ℕ → Bytes
crypto_write_l3_tunnel_header nonce policy_id orig_proto = nonce ++ (policy_id ∷ orig_proto ∷ [])

-- The nonce, the protocol flag, the policy and the protocol.
unfoldable pub crypto_read_l3_tunnel_header : Bytes → Bytes × ℕ × ℕ × ℕ
crypto_read_l3_tunnel_header buf = (
  take nonce_bytes buf,
  byte_at buf 0 / 2 ^ 7,
  byte_at buf nonce_bytes,
  byte_at buf (nonce_bytes + 1),
)

-- Empty data is not looked at, and not authenticated.
unfoldable pub crypto_aes_gcm_decrypt : Cipher → Bytes → Bytes → Bytes → Bytes → Option Bytes
crypto_aes_gcm_decrypt c key nonce sealed tag =
    if length sealed == 0 then some [] else c.gcm_decrypt key nonce sealed tag

unfoldable pub crypto_aes_ctr_with_key : Cipher → Bytes → Bytes → Bytes → Option Bytes
crypto_aes_ctr_with_key c key iv payload =
    if length payload == 0 then some [] else c.ctr_crypt key iv payload

-- The encryption of a payload as it stands on the wire, the tag behind it; it is not empty.
unfoldable pub append_tag : Option (Bytes × Bytes) → Option Bytes
append_tag none = none
append_tag (some (data_bytes, tag)) = some (data_bytes ++ tag)

unfoldable pub seal : Cipher → Mode → Bytes → Bytes → Bytes → Option Bytes
unfolding append_tag crypto_nonce_to_iv crypto_aes_ctr_with_key
seal c ctr key nonce plain = crypto_aes_ctr_with_key c key (crypto_nonce_to_iv nonce) plain
seal c gcm key nonce plain = append_tag (c.gcm_encrypt key nonce plain)
seal c pqc key nonce plain = c.pqc_encrypt nonce plain
