-- ===== src/Base/Mod.antt =====
-- Remainders by a variable, for counters that wrap at a multiple of a table's size.
use Prim.Native.Nat.{ℕ, zero, suc, ◌+◌, ◌-◌, ◌*◌, ◌/◌, ◌%◌, ◌^◌, ◌<◌}
use mathlib.Core.Path.{◌≡◌, ◌∙◌, sym}
use mathlib.Core.Logic.{◌≢◌}
use native.Mathlib.Nat.{
  mod-lt, mod-eq_of_lt, div-add-mod, mul-add-mod_self_left, mod-add-mod, mod-eq-sub-mod,
  mod-mod_of_dvd, dvd-mul_right, pow-suc, pow-zero, mul_assoc,
}
use native.Mathlib.Decide.{dec_lt}
use native.Mathlib.Omega.{arith}

-- The remainder is the one number below `m` that differs from `x` by a multiple of `m`.
pub mod_unique : (m q r x : ℕ) → x ≡ m * q + r → r < m → x % m ≡ r
mod_unique m q r x e h = rw e (mul-add-mod_self_left m q r ∙ mod-eq_of_lt h)

pub double_mod : (m x : ℕ) → 0 < m → 2 * (x / 2 % m) + x % 2 ≡ x % (2 * m)
double_mod m x h = sym (
    mod_unique (2 * m) (x / 2 / m) _ x (omega (arith, div-add-mod (x / 2) m))
      (omega (arith, mod-lt (x / 2) h)))

-- A counter that wraps at `m * q` still has the right remainder by `m`.
pub mod-mod_mul : (m q x : ℕ) → x % (m * q) % m ≡ x % m
mod-mod_mul m q x = mod-mod_of_dvd m x (dvd-mul_right m q)

-- Fewer than `m` steps never come back to the same remainder.
pub mod-add_ne : (m x k : ℕ) → 0 < k → k < m → (x + k) % m ≢ x % m
mod-add_ne m x k hk hm e = elim (dec_lt (x % m + k) m) [
  | yes p ↦ omega (arith, mod-add-mod x m k, mod-eq_of_lt p, e)
  | no p ↦ omega (
    arith,
    e,
    mod-lt x {m = m} (omega arith),
    mod-add-mod x m k,
    mod-eq-sub-mod {n = x % m + k} {m = m} (omega arith),
    mod-eq_of_lt {n = x % m + k - m} {m = m} (omega (arith, mod-lt x {m = m} (omega arith))),
  )
]

pub pow-add : (b i j : ℕ) → b ^ (i + j) ≡ b ^ i * b ^ j
pow-add b i zero = let e : i + 0 ≡ i = omega arith in rw (e, pow-zero b) (omega arith)
pow-add b i (suc j) =
    let e : i + suc j ≡ suc (i + j) = omega arith in
    rw (e, pow-suc b (i + j), pow-suc b j, pow-add b i j) (mul_assoc (b ^ i) (b ^ j) b)
