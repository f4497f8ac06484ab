-- ===== src/Circular.antt =====
-- A circular buffer indexed by running counters, as `struct ne_ring` and `struct ne_pool` of
-- src/core/interface.c share it: what its cells hold between two counters, as a list.
pub mod Cells
use mathlib.Core.Path.{ap₂}
use native.Mathlib.Nat.{mod-lt, mod-add-mod, one-le-pow, pow-suc}
use ne_multi_core.Base.{
  ℕ, zero, suc, ◌+◌, ◌*◌, ◌%◌, ◌^◌, ◌-◌, ◌<◌, ◌≤◌, ◌≡◌, refl, sym, ap, ◌∙◌, ◌≢◌, List, [], ◌∷◌,
  ◌++◌, arith, length, get_or, set, get_or-set_self, get_or-set_ne, bit_and,
}
use ne_multi_core.Base.Bits.{and_mask}
use ne_multi_core.Base.Mod.{mod-mod_mul, mod-add_ne, pow-add}

-- `uint32_t` counters wrap here.
abbrev pub counter_mod : ℕ
counter_mod = 2 ^ 32

-- `uint32_t` subtraction and addition.
abbrev pub sub32 : ℕ → ℕ → ℕ
sub32 a b = (a + counter_mod - b) % counter_mod

abbrev pub add32 : ℕ → ℕ → ℕ
add32 a b = (a + b) % counter_mod

-- A size that both structs accept: a power of two that divides the counters' modulus.
pub record IsSize (cap mask : ℕ) : Type 0 where
  pub exponent : ℕ
  pub small : exponent < 32
  pub power : cap ≡ 2 ^ exponent
  pub masked : mask ≡ cap - 1

size_divides : (cap mask : ℕ) (s : IsSize cap mask) → counter_mod ≡ cap * 2 ^ (32 - s.exponent)
size_divides cap mask s =
    let e : s.exponent + (32 - s.exponent) ≡ 32 = omega (arith, s.small) in
    rw s.power (ap (λ t. 2 ^ t) (sym e) ∙ pow-add 2 s.exponent (32 - s.exponent))

pub mask_index : (cap mask x : ℕ) → IsSize cap mask → bit_and x mask ≡ x % cap
mask_index cap mask x s =
    ap (λ t. bit_and x t) (s.masked ∙ ap (λ t. t - 1) s.power)
    ∙ and_mask s.exponent x
    ∙ ap (λ t. x % t) (sym s.power)

pub wrap_index : (cap mask x : ℕ) → IsSize cap mask → x % counter_mod % cap ≡ x % cap
wrap_index cap mask x s =
    ap (λ t. x % t % cap) (size_divides cap mask s) ∙ mod-mod_mul cap (2 ^ (32 - s.exponent)) x

pub size_pos : (cap mask : ℕ) → IsSize cap mask → 0 < cap
size_pos cap mask s = rw s.power (one-le-pow s.exponent 2 (omega arith))

pub size_small : (cap mask : ℕ) → IsSize cap mask → cap < counter_mod
size_small cap mask s =
    let e : 32 - s.exponent ≡ suc (31 - s.exponent) = omega (arith, s.small) in
    grind (
      arith,
      size_divides cap mask s,
      ap (λ t. 2 ^ t) e,
      pow-suc 2 (31 - s.exponent),
      one-le-pow (31 - s.exponent) 2,
      size_pos cap mask s,
      twice_le cap (2 ^ (31 - s.exponent)) (one-le-pow (31 - s.exponent) 2 (omega arith)),
    )
  where
    twice_le : (a b : ℕ) → 1 ≤ b → a * 2 ≤ a * (b * 2)
    twice_le a b h = grind arith

module _ {ℓ} {A : Type ℓ} (dflt : A) (cap : ℕ) where
  -- the `n` elements from counter `t` on
  unfoldable pub window : List A → ℕ → ℕ → List A
  window buf t zero = []
  window buf t (suc n) = get_or buf (t % cap) dflt ∷ window buf (t + 1) n

  pub length-window : (buf : List A) (t n : ℕ) → length (window buf t n) ≡ n
  unfolding window
  length-window buf t zero = refl
  length-window buf t (suc n) = ap suc (length-window buf (t + 1) n)

  pub window_snoc :
      (buf : List A) (t n : ℕ)
      → window buf t (n + 1) ≡ window buf t n ++ (get_or buf ((t + n) % cap) dflt ∷ [])
  unfolding window
  window_snoc buf t zero = let e : t + 0 ≡ t = omega arith in rw e refl
  window_snoc buf t (suc n) =
      let e : t + suc n ≡ t + 1 + n = omega arith in
      let m : suc n + 1 ≡ suc (n + 1) = omega arith in
      rw (e, m) (ap (λ l. get_or buf (t % cap) dflt ∷ l) (window_snoc buf (t + 1) n))

  -- A write outside the window leaves it alone.
  pub window_frame :
      (buf : List A) (x : A) (j t n : ℕ)
      → ((i : ℕ) → i < n → (t + i) % cap ≢ j)
      → window (set buf j x) t n ≡ window buf t n
  unfolding window
  window_frame buf x j t zero h = refl
  window_frame buf x j t (suc n) h =
      ap₂ ◌∷◌ (get_or-set_ne buf x dflt head_ne) (window_frame buf x j (t + 1) n tail_ne)
    where
      head_ne : j ≢ t % cap
      head_ne e = let z : t + 0 ≡ t = omega arith in h 0 (omega arith) (rw z (sym e))

      tail_ne : (i : ℕ) → i < n → (t + 1 + i) % cap ≢ j
      tail_ne i p e =
          let z : t + suc i ≡ t + 1 + i = omega arith in h (suc i) (omega arith) (rw z e)

  -- A write just behind a window that does not fill the buffer appends to it.
  pub window_write :
      (buf : List A) (x : A) (t n : ℕ)
      → length buf ≡ cap
      → n < cap
      → window (set buf ((t + n) % cap) x) t (n + 1) ≡ window buf t n ++ (x ∷ [])
  window_write buf x t n full room =
      window_snoc (set buf j x) t n
      ∙ ap₂ (λ l y. l ++ (y ∷ [])) (window_frame buf x j t n apart)
          (get_or-set_self buf j x dflt
            (omega (arith, full, mod-lt (t + n) {m = cap} (omega arith))))
    where
      j : ℕ
      j = (t + n) % cap

      apart : (i : ℕ) → i < n → (t + i) % cap ≢ j
      apart i p e =
          let z : t + i + (n - i) ≡ t + n = omega arith in
          mod-add_ne cap (t + i) (n - i) (omega arith) (omega arith) (rw z (sym e))

  -- Only the remainder of the counter counts.
  pub window_congr :
      (buf : List A) (t u n : ℕ) → t % cap ≡ u % cap → window buf t n ≡ window buf u n
  unfolding window
  window_congr buf t u zero e = refl
  window_congr buf t u (suc n) e =
      ap₂ ◌∷◌ (ap (λ i. get_or buf i dflt) e) (window_congr buf (t + 1) (u + 1) n step)
    where
      step : (t + 1) % cap ≡ (u + 1) % cap
      step = sym (mod-add-mod t cap 1) ∙ ap (λ i. (i + 1) % cap) e ∙ mod-add-mod u cap 1

  pub window_first :
      (buf : List A) (t n : ℕ)
      → 0 < n
      → window buf t n ≡ get_or buf (t % cap) dflt ∷ window buf (t + 1) (n - 1)
  unfolding window
  window_first buf t zero h = absurd (omega arith)
  window_first buf t (suc n) h =
      ap (λ k. get_or buf (t % cap) dflt ∷ window buf (t + 1) k) (omega arith)
