-- ===== src/Config/Address.antt =====
-- Netmasks of src/db/config.c: `ipv4_prefix_to_mask_be` and `ipv4_mask_be_is_contiguous`.
use native.Mathlib.Nat.{pow-le-pow_right, one-le-pow}
use native.Mathlib.Decide.{dec_lt, ℕ_discrete}
use ne_multi_core.Base.{
  ℕ, ◌+◌, ◌-◌, ◌*◌, ◌%◌, ◌^◌, ◌<◌, ◌≤◌, ◌≡◌, ◌≢◌, refl, sym, ap, ◌∙◌, ◌↔◌, arith, Bool, true,
  bit_and, ◌==◌, if◌then◌else◌, leb,
}
use ne_multi_core.Base.Bits.{and_comm, and_pred_pow2, pow2_of_and_pred}
use ne_multi_core.Base.Bytes.{swap32, swap32-swap32, swap32-lt, swap32_injective}
use ne_multi_core.Base.Int.{ℤ, pos, negsuc}
use ne_multi_core.Base.Mod.{mod_unique}

abbrev all_ones : ℕ
all_ones = 0xffffffff

-- `0xFFFFFFFFu << (32 - prefix_len)`, in the host's byte order.
abbrev shifted_ones : ℕ → ℕ
shifted_ones prefix_len = all_ones * 2 ^ (32 - prefix_len) % 2 ^ 32

pub ipv4_prefix_to_mask_be : ℤ → ℕ
ipv4_prefix_to_mask_be (negsuc n) = 0
ipv4_prefix_to_mask_be (pos n) =
    if n == 0 then 0 else if leb 32 n then swap32 all_ones else swap32 (shifted_ones n)

-- `~m` is `all_ones - m`, and `inv + 1` wraps.
pub ipv4_mask_be_is_contiguous : ℕ → Bool
ipv4_mask_be_is_contiguous mask_be =
    let m = swap32 mask_be in
    if m == 0 then true else let inv = all_ones - m in bit_and inv ((inv + 1) % 2 ^ 32) == 0

pow_in_word : (k : ℕ) → k ≤ 32 → (1 ≤ 2 ^ k) × (2 ^ k ≤ 2 ^ 32)
pow_in_word k h = (one-le-pow k 2 (omega arith), pow-le-pow_right {n = 2} (omega arith) h)

-- Shifting ones leaves the ones above the prefix's end.
shifted_ones_lem : (n : ℕ) → 0 < n → n ≤ 32 → shifted_ones n ≡ 2 ^ 32 - 2 ^ (32 - n)
shifted_ones_lem n p h =
    let (lo, hi) = pow_in_word (32 - n) (omega arith) in
    mod_unique (2 ^ 32) (2 ^ (32 - n) - 1) (2 ^ 32 - 2 ^ (32 - n)) (all_ones * 2 ^ (32 - n))
      (omega arith) (omega arith)

contiguous-host :
    (m k : ℕ) → k ≤ 32 → m ≡ 2 ^ 32 - 2 ^ k → ipv4_mask_be_is_contiguous (swap32 m) ≡ true
unfolding ipv4_mask_be_is_contiguous
contiguous-host m k h e =
    let (lo, hi) = pow_in_word k h in
    let back : swap32 (swap32 m) ≡ m = swap32-swap32 m (omega arith) in ground (arith, back, cell)
  where
    cell : m ≢ 0 → bit_and (all_ones - m) ((all_ones - m + 1) % 2 ^ 32) ≡ 0
    cell ne =
        let (lo, hi) = pow_in_word k h in
        let a : all_ones - m ≡ 2 ^ k - 1 = omega arith in
        let b : (all_ones - m + 1) % 2 ^ 32 ≡ 2 ^ k = omega arith in rw (b, a) (and_pred_pow2 k)

prefix_lem :
    (n : ℕ) → 0 < n → n ≤ 32 → ipv4_prefix_to_mask_be (pos n) ≡ swap32 (2 ^ 32 - 2 ^ (32 - n))
unfolding ipv4_prefix_to_mask_be
prefix_lem n p h = elim (dec_lt n 32) [
  | yes lt ↦
      let t : ipv4_prefix_to_mask_be (pos n) ≡ swap32 (shifted_ones n) = ground arith in
      t ∙ ap swap32 (shifted_ones_lem n p h)
  | no ge ↦ let t : n ≡ 32 = omega arith in rw t refl
]

prefix-contiguous :
    (n : ℕ) → n ≤ 32 → ipv4_mask_be_is_contiguous (ipv4_prefix_to_mask_be (pos n)) ≡ true
unfolding ipv4_prefix_to_mask_be swap32
prefix-contiguous n h = elim (ℕ_discrete n 0) [
  | yes z ↦ rw z (contiguous-host 0 32 (omega arith) refl)
  | no nz ↦
      ap ipv4_mask_be_is_contiguous (prefix_lem n (omega arith) h)
      ∙ contiguous-host (2 ^ 32 - 2 ^ (32 - n)) (32 - n) (omega arith) refl
]

-- The zeros of an accepted mask, in the host's byte order, are a power of two in number.
contiguous_zeros :
    (mask : ℕ)
    → ipv4_mask_be_is_contiguous mask ≡ true
    → swap32 mask ≢ 0
    → (k : ℕ) × (k < 32) × (swap32 mask ≡ 2 ^ 32 - 2 ^ k)
unfolding ipv4_mask_be_is_contiguous
contiguous_zeros mask h nz =
    let m = swap32 mask in
    let inv = all_ones - m in
    let below = swap32-lt mask in
    let t : bit_and inv ((inv + 1) % 2 ^ 32) ≡ 0 = ground arith in
    let w : (inv + 1) % 2 ^ 32 ≡ inv + 1 = omega arith in
    let s : inv + 1 - 1 ≡ inv = omega arith in
    let (k, e) =
      pow2_of_and_pred (inv + 1) (omega arith)
        (rw s (and_comm (inv + 1) inv ∙ ap (bit_and inv) (sym w) ∙ t)) in
    elim (dec_lt k 32) [
      | yes lt ↦ (k, lt, omega (arith, e))
      | no ge ↦
          absurd (
            omega (arith, e, pow-le-pow_right {n = 2} (omega arith) {i = 32} {j = k} (omega arith)))
    ]

contiguous-prefix :
    (mask : ℕ)
    → mask < 2 ^ 32
    → ipv4_mask_be_is_contiguous mask ≡ true
    → (n : ℕ) × (n ≤ 32) × (mask ≡ ipv4_prefix_to_mask_be (pos n))
unfolding ipv4_prefix_to_mask_be swap32
contiguous-prefix mask small h = elim (ℕ_discrete (swap32 mask) 0) [
  | yes z ↦ (0, omega arith, swap32_injective mask 0 small (omega arith) z)
  | no nz ↦
      let (k, lt, e) = contiguous_zeros mask h nz in
      let r : 32 - (32 - k) ≡ k = omega arith in
      (
        32 - k,
        omega arith,
        sym (swap32-swap32 mask small)
            ∙ ap swap32 (e ∙ ap (λ t. 2 ^ 32 - 2 ^ t) (sym r))
            ∙ sym (prefix_lem (32 - k) (omega arith) (omega arith)),
      )
]

-- A netmask is accepted exactly when it is that of a prefix length from 0 to 32.
pub mask-contiguous_iff :
    (mask : ℕ)
    → mask < 2 ^ 32
    → (ipv4_mask_be_is_contiguous mask ≡ true)
      ↔ ((n : ℕ) × (n ≤ 32) × (mask ≡ ipv4_prefix_to_mask_be (pos n)))
mask-contiguous_iff mask small =
    (contiguous-prefix mask small, λ (n, h, e). rw e (prefix-contiguous n h))
