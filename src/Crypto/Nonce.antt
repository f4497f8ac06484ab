-- ===== src/Crypto/Nonce.antt =====
-- When nonces repeat, src/crypto/packet_crypto.c.
use Prim.Native.Nat.{bit_or, bit_or-bitwise}
use ne_multi_core.Base.{ℕ, ◌+◌, ◌/◌, ◌%◌, ◌^◌, ◌<◌, ◌≡◌, ◌≢◌, ap, arith, bit_and}
use ne_multi_core.Base.Bits.{and_mask}
use ne_multi_core.Fragment.{Bytes, byte_at}
use ne_multi_core.Crypto.{packet_crypto_next_counter, crypto_generate_nonce}

or_zero : (x : ℕ) → bit_or 0 x ≡ x
or_zero x = bit_or-bitwise 0 x

generate_nonce-injective :
    (m n : ℕ) (salt : Bytes)
    → crypto_generate_nonce m 0 salt ≡ crypto_generate_nonce n 0 salt
    → m % 2 ^ 31 ≡ n % 2 ^ 31
unfolding crypto_generate_nonce
generate_nonce-injective m n salt e =
    let b0 = ap (λ (l : Bytes). byte_at l 0) e in
    let b1 = ap (λ (l : Bytes). byte_at l 1) e in
    let b2 = ap (λ (l : Bytes). byte_at l 2) e in
    let b3 = ap (λ (l : Bytes). byte_at l 3) e in
    omega (
      arith,
      or_zero (bit_and (m / 2 ^ 24) 0x7F),
      or_zero (bit_and (n / 2 ^ 24) 0x7F),
      b0,
      b1,
      b2,
      b3,
      and_mask 7 (m / 2 ^ 24),
      and_mask 7 (n / 2 ^ 24),
      and_mask 8 (m / 2 ^ 16),
      and_mask 8 (n / 2 ^ 16),
      and_mask 8 (m / 2 ^ 8),
      and_mask 8 (n / 2 ^ 8),
      and_mask 8 m,
      and_mask 8 n,
    )

-- The nonce of the packet that is encrypted when `g_nonce_counter` is `g`.
abbrev pub nonce_at : ℕ → Bytes → Bytes
nonce_at g salt = crypto_generate_nonce (packet_crypto_next_counter g).0 0 salt

-- A thread gives no two of 2^31 packets in a row the same nonce, as long as nothing sets the counter
-- back.
pub generate_nonce-distinct :
    (g k : ℕ) (salt : Bytes) → 0 < k → k < 2 ^ 31 → nonce_at g salt ≢ nonce_at (g + k) salt
unfolding packet_crypto_next_counter
generate_nonce-distinct g k salt some_packet few e =
    omega (arith, generate_nonce-injective _ _ salt e, and_mask 31 g, and_mask 31 (g + k))
