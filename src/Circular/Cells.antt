-- ===== src/Circular/Cells.antt =====
-- The state that `struct ne_ring` and `struct ne_pool` of src/core/interface.c have in common, when it
-- is valid, and what one write at the head and one read at the tail do to the elements that it holds.
use native.Mathlib.Nat.{pow-le-pow_right}
use ne_multi_core.Base.{
  ℕ, ◌^◌, ◌+◌, ◌-◌, ◌%◌, ◌≤◌, ◌<◌, ◌≡◌, refl, sym, ap, ◌∙◌, ◌≢◌, List, [], ◌∷◌, ◌++◌, length,
  get_or, set, length-set, bit_and, arith,
}
use ne_multi_core.Circular.{
  IsSize, counter_mod, sub32, add32, window, length-window, window_write, window_congr,
  window_first, mask_index, wrap_index, size_small,
}

pub record Cells {ℓ} (A : Type ℓ) : Type ℓ where
  pub buf : List A
  pub cap : ℕ
  pub mask : ℕ
  pub head : ℕ
  pub tail : ℕ

abbrev pub in_use {ℓ} : {A : Type ℓ} → Cells A → ℕ
in_use r = sub32 r.head r.tail

abbrev pub stored {ℓ} : {A : Type ℓ} → Cells A → A → Cells A
stored r x = record r { buf = set r.buf (bit_and r.head r.mask) x; head = add32 r.head 1 }

abbrev pub advanced {ℓ} : {A : Type ℓ} → Cells A → Cells A
advanced r = record r { tail = add32 r.tail 1 }

pub record IsValid {ℓ} {A : Type ℓ} (r : Cells A) : Type 0 where
  pub size : IsSize r.cap r.mask
  pub storage : length r.buf ≡ r.cap
  pub head_in : r.head < counter_mod
  pub tail_in : r.tail < counter_mod
  pub fits : in_use r ≤ r.cap

module _ {ℓ} {A : Type ℓ} (dflt : A) where
  abbrev pub contents : Cells A → List A
  contents r = window dflt r.cap r.buf r.tail (in_use r)

  abbrev pub oldest : Cells A → A
  oldest r = get_or r.buf (bit_and r.tail r.mask) dflt

  pub length-contents : (r : Cells A) → length (contents r) ≡ in_use r
  length-contents r = length-window dflt r.cap r.buf r.tail (in_use r)

module _ {ℓ} {A : Type ℓ} {r : Cells A} (v : IsValid r) where
  pub cap_small : r.cap < counter_mod
  cap_small = size_small r.cap r.mask v.size

  pub cap_half : r.cap ≤ 2 ^ 31
  cap_half = rw v.size.power (pow-le-pow_right (omega arith) {j = 31} (omega (arith, v.size.small)))

  -- The cell that a push writes is the one behind the window.
  head_index : bit_and r.head r.mask ≡ (r.tail + in_use r) % r.cap
  head_index =
      mask_index r.cap r.mask r.head v.size
      ∙ ap (λ t. t % r.cap) (omega (arith, v.head_in, v.tail_in))
      ∙ wrap_index r.cap r.mask (r.tail + in_use r) v.size

  pub count_push : in_use r < r.cap → sub32 (add32 r.head 1) r.tail ≡ in_use r + 1
  count_push room = omega (arith, v.head_in, v.tail_in, cap_small)

  pub count_pop : r.tail ≢ r.head → sub32 r.head (add32 r.tail 1) ≡ in_use r - 1
  count_pop ne = omega (arith, v.head_in, v.tail_in)

  pub stored-IsValid : (p : A) → in_use r < r.cap → IsValid (stored r p)
  stored-IsValid p room = record {
    size = v.size;
    storage = length-set r.buf _ p ∙ v.storage;
    head_in = omega arith;
    tail_in = v.tail_in;
    fits = omega (arith, count_push room);
  }

  pub advanced-IsValid : r.tail ≢ r.head → IsValid (advanced r)
  advanced-IsValid ne = record {
    size = v.size;
    storage = v.storage;
    head_in = v.head_in;
    tail_in = omega arith;
    fits = omega (arith, count_pop ne, v.fits);
  }

module _ {ℓ} {A : Type ℓ} (dflt : A) {r : Cells A} (v : IsValid r) where
  pub contents-stored :
      (p : A) → in_use r < r.cap → contents dflt (stored r p) ≡ contents dflt r ++ (p ∷ [])
  contents-stored p room =
      rw (count_push v room, head_index v)
        (window_write dflt r.cap r.buf p r.tail (in_use r) v.storage room)

  pub contents-advanced :
      r.tail ≢ r.head → contents dflt r ≡ oldest dflt r ∷ contents dflt (advanced r)
  contents-advanced ne =
      rw (count_pop v ne, mask_index r.cap r.mask r.tail v.size)
        (window_first dflt r.cap r.buf r.tail (in_use r) (omega (arith, v.head_in, v.tail_in))
          ∙ ap (λ l. get_or r.buf (r.tail % r.cap) dflt ∷ l)
              (window_congr dflt r.cap r.buf _ _ _
                (sym (wrap_index r.cap r.mask (r.tail + 1) v.size))))

  pub contents-empty : r.tail ≡ r.head → contents dflt r ≡ []
  unfolding window
  contents-empty e = let z : in_use r ≡ 0 = omega (arith, v.head_in, v.tail_in) in rw z refl
