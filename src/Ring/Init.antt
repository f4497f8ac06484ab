-- ===== src/Ring/Init.antt =====
-- `ne_ring_init`: which capacities it accepts.
use native.Mathlib.Nat.{pow-le-pow_right}
use native.Mathlib.Decide.{dec_lt}
use ne_multi_core.Base.{
  ℕ, ◌-◌, ◌^◌, ◌<◌, ◌≡◌, refl, Bool, some, [], length-replicate, arith, bit_and, replicate,
}
use ne_multi_core.Base.Bits.{pow2_of_and_pred}
use ne_multi_core.Circular.{IsSize, counter_mod, window}
use ne_multi_core.Ring.{Ring, Startup, ring_init, no_packet}
use ne_multi_core.Ring.Refine.{IsValid, contents}

abbrev fresh : ℕ → Bool → Ring
fresh cap mpsc_pop = record {
  buf = replicate cap no_packet;
  cap = cap;
  mask = cap - 1;
  head = 0;
  tail = 0;
  mpsc_pop = mpsc_pop;
}

ring_init-accepts :
    (env : Startup) (cap : ℕ) (mpsc_pop : Bool) (r : Ring)
    → ring_init env cap mpsc_pop ≡ some r
    → (0 < cap) × (bit_and cap (cap - 1) ≡ 0) × (r ≡ fresh cap mpsc_pop)
unfolding ring_init
ring_init-accepts env cap mpsc_pop r e = ground arith

-- A capacity that passes the power-of-two test and fits a `uint32_t` is a size.
pub size_of_test :
    (cap : ℕ) → 0 < cap → cap < counter_mod → bit_and cap (cap - 1) ≡ 0 → IsSize cap (cap - 1)
size_of_test cap p h t = elim (dec_lt k 32) [
  | yes s ↦ record { exponent = k; small = s; power = e; masked = refl }
  | no big ↦
      absurd
        (omega (arith, e, pow-le-pow_right {n = 2} (omega arith) {i = 32} {j = k} (omega arith)))
]
  where
    k : ℕ
    k = (pow2_of_and_pred cap p t).0

    e : cap ≡ 2 ^ k
    e = (pow2_of_and_pred cap p t).1

-- A ring that `ne_ring_init` returns, for a capacity that a `uint32_t` holds, is valid, and empty,
-- and its capacity is a power of two.
pub ring_init-IsValid :
    (env : Startup) (cap : ℕ) (mpsc_pop : Bool) (r : Ring)
    → cap < counter_mod
    → ring_init env cap mpsc_pop ≡ some r
    → IsValid r × (contents r ≡ []) × ((k : ℕ) × (r.cap ≡ 2 ^ k))
unfolding window
ring_init-IsValid env cap mpsc_pop r h e =
    let (p, t, f) = ring_init-accepts env cap mpsc_pop r e in
    let s = size_of_test cap p h t in
    rw f (
      record {
        size = s;
        storage = length-replicate cap no_packet;
        head_in = omega arith;
        tail_in = omega arith;
        fits = omega arith;
      },
      refl,
      (s.exponent, s.power),
    )
