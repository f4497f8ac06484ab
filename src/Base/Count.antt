-- ===== src/Base/Count.antt =====
-- How often a test holds on consecutive numbers.
use Prim.Native.Nat.{ℕ, zero, suc, ◌+◌, ◌-◌, ◌≤◌, ◌<◌, min, max}
use mathlib.Core.Path.{◌≡◌, refl, ap}
use mathlib.Core.Bool.{Bool, ◌&&◌}
use native.Mathlib.Omega.{arith}
use ne_multi_core.Base.Tests.{if◌then◌else◌, ltb, leb}

abbrev pub bit : Bool → ℕ
bit b = if b then 1 else 0

unfoldable pub count_range : (ℕ → Bool) → ℕ → ℕ → ℕ
count_range p start zero = 0
count_range p start (suc n) = bit (p start) + count_range p (start + 1) n

count_range-snoc :
    (p : ℕ → Bool) (start n : ℕ)
    → count_range p start (suc n) ≡ count_range p start n + bit (p (start + n))
unfolding count_range
count_range-snoc p start zero = let e : start + 0 ≡ start = omega arith in rw e (omega arith)
count_range-snoc p start (suc n) =
    let e : start + suc n ≡ start + 1 + n = omega arith in
    rw e (omega (arith, count_range-snoc p (start + 1) n))

-- A periodic test holds equally often on every period.
pub count_range-period :
    (p : ℕ → Bool) (m start : ℕ)
    → ((n : ℕ) → p (n + m) ≡ p n)
    → count_range p start m ≡ count_range p 0 m
unfolding count_range
count_range-period p m zero h = refl
count_range-period p m (suc start) h =
    let e : suc start ≡ start + 1 = omega arith in
    rw e
      (omega (arith, count_range-snoc p start m, ap bit (h start), count_range-period p m start h))

-- A test for an interval.
pub count_range-interval :
    (p : ℕ → Bool) (a b start n : ℕ)
    → ((k : ℕ) → start ≤ k → k < start + n → p k ≡ (leb a k && ltb k b))
    → count_range p start n ≡ min b (start + n) - max a start
unfolding count_range
count_range-interval p a b start zero h = omega arith
count_range-interval p a b start (suc n) h = ground (
  arith,
  h start (omega arith) (omega arith),
  count_range-interval p a b (start + 1) n (λ k l r. h k (omega arith) (omega arith)),
)
