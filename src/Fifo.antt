-- ===== src/Fifo.antt =====
-- The bounded queue that the packet rings and the frame pool implement, oldest element first.
use mathlib.Core.Option.{some-injective}
use ne_multi_core.Base.{
  ℕ, ◌-◌, ◌≡◌, sym, inl, inr, Bool-cases, List, [], ◌∷◌, ◌++◌, Option, none, some, length, take,
  ltb, if◌then◌else◌,
}

module _ {ℓ} {A : Type ℓ} where
  unfoldable pub push : ℕ → List A → A → Option (List A)
  push cap q x = if ltb (length q) cap then some (q ++ (x ∷ [])) else none

  pub push-some :
      (cap : ℕ) (q : List A) (x : A) (l : List A) → push cap q x ≡ some l → l ≡ q ++ (x ∷ [])
  unfolding push
  push-some cap q x l e = elim (Bool-cases (ltb (length q) cap)) [
    | inl room ↦ sym (some-injective _ _ (rw room at e))
    | inr full ↦ absurd (cc (rw full at e))
  ]

  unfoldable pub pop : List A → Option (A × List A)
  pop [] = none
  pop (x ∷ q) = some (x, q)

  -- As many of the elements as fit.
  unfoldable pub push_all : ℕ → List A → List A → List A
  push_all cap q xs = q ++ take (cap - length q) xs
