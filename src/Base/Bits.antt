-- ===== src/Base/Bits.antt =====
-- `&` with a mask of low bits as a remainder, and the power-of-two test `n & (n - 1)`.
use Prim.Native.Nat.{
  ℕ, zero, suc, ◌+◌, ◌-◌, ◌*◌, ◌/◌, ◌%◌, ◌^◌, ◌≤◌, ◌<◌, min, bit_and, digits, bit_and-bitwise,
}
use mathlib.Core.Path.{◌≡◌, refl, ap, ◌∙◌}
use native.Mathlib.Nat.{pow-suc, one-le-pow, mod_self}
use native.Mathlib.Decide.{ℕ_discrete}
use native.Mathlib.Omega.{arith}
use ne_multi_core.Base.Mod.{double_mod}

-- The recursion on binary digits that the native `&` stands for, at a given fuel.
abbrev low_digits : ℕ → ℕ → ℕ → ℕ
low_digits fuel x y = digits (λ _. zero) min fuel x y

low_digits_fuel : (f g x y : ℕ) → x ≤ f → x ≤ g → low_digits f x y ≡ low_digits g x y
low_digits_fuel zero zero x y p q = refl
low_digits_fuel zero (suc g) zero y p q = refl
low_digits_fuel zero (suc g) (suc x) y p q = absurd (omega arith)
low_digits_fuel (suc f) zero zero y p q = refl
low_digits_fuel (suc f) zero (suc x) y p q = absurd (omega arith)
low_digits_fuel (suc f) (suc g) zero y p q = refl
low_digits_fuel (suc f) (suc g) (suc x) y p q =
    omega (arith, low_digits_fuel f g (suc x / 2) (y / 2) (omega arith) (omega arith))

zero_and : (y : ℕ) → bit_and 0 y ≡ 0
zero_and y = bit_and-bitwise 0 y

pub and_digit : (x y : ℕ) → bit_and x y ≡ 2 * bit_and (x / 2) (y / 2) + min (x % 2) (y % 2)
and_digit zero y = omega (arith, zero_and y, zero_and (y / 2))
and_digit (suc x) y = omega (
  arith,
  bit_and-bitwise (suc x) y,
  bit_and-bitwise (suc x / 2) (y / 2),
  low_digits_fuel x (suc x / 2) (suc x / 2) (y / 2) (omega arith) (omega arith),
)

and_zero_below : (f x : ℕ) → x ≤ f → bit_and x 0 ≡ 0
and_zero_below f zero h = refl
and_zero_below zero (suc x) h = absurd (omega arith)
and_zero_below (suc f) (suc x) h =
    omega (arith, and_digit (suc x) 0, and_zero_below f (suc x / 2) (omega arith))

-- `x & (2^k - 1)` is `x % 2^k`.
pub and_mask : (k x : ℕ) → bit_and x (2 ^ k - 1) ≡ x % 2 ^ k
and_mask zero x = omega (arith, and_zero_below x x)
and_mask (suc k) x = omega (
  arith,
  and_digit x (2 ^ suc k - 1),
  pow-suc 2 k,
  one-le-pow k 2 (omega arith),
  ap (λ t. bit_and (x / 2) t) (half_mask k),
  and_mask k (x / 2),
  double_mod (2 ^ k) x (one-le-pow k 2 (omega arith)),
  ap (λ t. x % t) (double k),
)
  where
    double : (j : ℕ) → 2 ^ suc j ≡ 2 * 2 ^ j
    double j = omega (arith, pow-suc 2 j)

    half_mask : (j : ℕ) → (2 ^ suc j - 1) / 2 ≡ 2 ^ j - 1
    half_mask j = omega (arith, pow-suc 2 j, one-le-pow j 2 (omega arith))

and_self_below : (f x : ℕ) → x ≤ f → bit_and x x ≡ x
and_self_below f zero h = refl
and_self_below zero (suc x) h = absurd (omega arith)
and_self_below (suc f) (suc x) h =
    omega (arith, and_digit (suc x) (suc x), and_self_below f (suc x / 2) (omega arith))

-- `n & (n - 1)` is 0 at powers of two only.
pow2_below : (f n : ℕ) → n ≤ f → 0 < n → bit_and n (n - 1) ≡ 0 → (k : ℕ) × (n ≡ 2 ^ k)
pow2_below zero n h p e = absurd (omega arith)
pow2_below (suc f) n h p e = elim (ℕ_discrete (n % 2) 0) [
  | yes even ↦
      let (k, ek) =
        pow2_below f (n / 2) (omega arith) (omega arith)
          (omega (arith, and_digit n (n - 1), ap (λ t. bit_and (n / 2) t) (half_pred even))) in
      (suc k, omega (arith, pow-suc 2 k))
  | no odd ↦
      (0, omega (arith, and_digit n (n - 1), same_half odd, and_self_below n (n / 2) (omega arith)))
]
  where
    half_pred : n % 2 ≡ 0 → (n - 1) / 2 ≡ n / 2 - 1
    half_pred z = omega arith

    same_half : ¬ (n % 2 ≡ 0) → bit_and (n / 2) ((n - 1) / 2) ≡ bit_and (n / 2) (n / 2)
    same_half z = ap (λ t. bit_and (n / 2) t) (omega arith)

pub pow2_of_and_pred : (n : ℕ) → 0 < n → bit_and n (n - 1) ≡ 0 → (k : ℕ) × (n ≡ 2 ^ k)
pow2_of_and_pred n p e = pow2_below n n (omega arith) p e

and_comm_below : (f x y : ℕ) → x ≤ f → bit_and x y ≡ bit_and y x
and_comm_below f zero y h = omega (arith, zero_and y, and_zero_below y y)
and_comm_below zero (suc x) y h = absurd (omega arith)
and_comm_below (suc f) (suc x) y h = omega (
  arith,
  and_digit (suc x) y,
  and_digit y (suc x),
  and_comm_below f (suc x / 2) (y / 2) (omega arith),
)

pub and_comm : (x y : ℕ) → bit_and x y ≡ bit_and y x
and_comm x y = and_comm_below x x y (omega arith)

-- Adjacent numbers share no digit when the upper one is a power of two.
pub and_pred_pow2 : (k : ℕ) → bit_and (2 ^ k - 1) (2 ^ k) ≡ 0
and_pred_pow2 k = and_comm (2 ^ k - 1) (2 ^ k) ∙ and_mask k (2 ^ k) ∙ mod_self (2 ^ k)
