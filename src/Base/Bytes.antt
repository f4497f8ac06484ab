-- ===== src/Base/Bytes.antt =====
-- `ntohl` and `htonl` on a little-endian host: the four bytes of a `uint32_t` in reverse.
use Prim.Native.Nat.{ℕ, ◌+◌, ◌*◌, ◌/◌, ◌%◌, ◌^◌, ◌<◌}
use mathlib.Core.Path.{◌≡◌, sym, ap, ◌∙◌}
use native.Mathlib.Omega.{arith}

unfoldable pub swap32 : ℕ → ℕ
swap32 x = x % 256 * 16777216 + x / 256 % 256 * 65536 + x / 65536 % 256 * 256 + x / 16777216 % 256

pub swap32-lt : (x : ℕ) → swap32 x < 2 ^ 32
unfolding swap32
swap32-lt x = omega arith

pub swap32-swap32 : (x : ℕ) → x < 2 ^ 32 → swap32 (swap32 x) ≡ x
unfolding swap32
swap32-swap32 x h = omega arith

pub swap32_injective : (x y : ℕ) → x < 2 ^ 32 → y < 2 ^ 32 → swap32 x ≡ swap32 y → x ≡ y
swap32_injective x y hx hy e = sym (swap32-swap32 x hx) ∙ ap swap32 e ∙ swap32-swap32 y hy
