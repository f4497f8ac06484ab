-- ===== src/Flow/Wrr/Choice.antt =====
-- Which positions of the allowed WANs the choices of src/core/flow_table.c can give:
-- `wan_allowed_pos`, `first_positive_pos`, `next_enabled_pos`, `wrr_slot_to_wan` and `profile_wan_limit`.
use native.Mathlib.Decide.{dec_lt}
use native.Mathlib.Nat.{mod-lt, div-le_of_le-mul, div-le_self, mul-le-mul_left, mul_comm}
use ne_multi_core.Base.{
  ℕ, zero, suc, ◌+◌, ◌-◌, ◌*◌, ◌/◌, ◌%◌, ◌^◌, ◌≤◌, ◌<◌, ◌≡◌, ◌≢◌, refl, ap, ◌∙◌, subst, arith, Bool,
  true, ◌||◌, Option, none, some, List, [], ◌∷◌, length, get_or, ◌==◌, Bool-cases, inl, inr,
}
use ne_multi_core.Base.Int.{ℤ, pos, pos_part, ltb_ℤ, eqb_ℤ, eqb_ℤ→eq}
use ne_multi_core.Flow.Wrr.{
  weight_at, wan_at, as_int, slot_in_round, pos_loop, wan_allowed_pos, sum_loop,
  weights_sum_positive, first_loop, first_positive_pos, next_loop, next_in_weights,
  next_enabled_pos, wan_of_pos, wrr_slot_to_wan, share_limit, limit_in_pool, profile_wan_limit,
  get_next_wan, next_wan_of,
}
use ne_multi_core.Flow.Wrr.Fair.{
  as_int-fits, slot_loop-Falls, upto_mono, upto, upto-suc, sum_loop-upto,
}

-- Whether the weights, if any is positive, allow position `i`.
abbrev pub enabled : Option (List ℤ) → ℕ → Bool
enabled none i = true
enabled (some ws) i = (weights_sum_positive (some ws) == 0) || ltb_ℤ (pos 0) (weight_at ws i)

-- A position of the list that the weights allow.
abbrev pub IsEnabledPos : List ℤ → Option (List ℤ) → ℕ → Type 0
IsEnabledPos wans weights i = (i < length wans) × (enabled weights i ≡ true)

-- The WAN of such a position.
abbrev pub IsChoice : List ℤ → Option (List ℤ) → ℤ → Type 0
IsChoice wans weights w = (i : ℕ) × IsEnabledPos wans weights i × (w ≡ wan_at wans i)

-- The positive weights, if there are weights, sum to an `int`.
abbrev pub SumFits : Option (List ℤ) → Type 0
SumFits none = Unit
SumFits (some ws) = sum_loop ws 0 < 2 ^ 31

-- There is a weight for each WAN, where there are weights.
abbrev pub SameLength : List ℤ → Option (List ℤ) → Type 0
SameLength wans none = Unit
SameLength wans (some ws) = length wans ≡ length ws

-- Only a positive sum can give a positive `int`.
pub as_int-positive : (n : ℕ) → 0 < as_int n → 0 < n
unfolding as_int
as_int-positive n h = ground (arith, h)

pos_loop-some :
    (w : ℤ) (wans : List ℤ) (i p : ℕ)
    → pos_loop w wans i ≡ some p
    → (j : ℕ) × (p ≡ i + j) × (j < length wans) × (wan_at wans j ≡ w)
unfolding pos_loop
pos_loop-some w [] i p e = absurd (cc (e))
pos_loop-some w (x ∷ wans) i p e = elim (Bool-cases (eqb_ℤ x w)) [
  | inl h ↦
      let f : some i ≡ some p = ground (arith, e) in
      (0, ground (arith, f), omega arith, eqb_ℤ→eq x w h)
  | inr h ↦
      let (j, a, b, c) = pos_loop-some w wans (i + 1) p (ground (arith, e)) in
      (suc j, omega (arith, a), omega (arith, b), c)
]

pub wan_allowed_pos-some :
    (w : ℤ) (wans : List ℤ) (p : ℕ)
    → wan_allowed_pos w wans ≡ some p
    → (p < length wans) × (wan_at wans p ≡ w)
unfolding wan_allowed_pos
wan_allowed_pos-some w wans p e =
    let (j, a, b, c) = pos_loop-some w wans 0 p e in
    let z : p ≡ j = omega (arith, a) in (omega (arith, z, b), ap (wan_at wans) z ∙ c)

sum_loop_acc : (ws : List ℤ) (acc : ℕ) → acc ≤ sum_loop ws acc
unfolding sum_loop
sum_loop_acc [] acc = omega arith
sum_loop_acc (w ∷ ws) acc = ground (arith, sum_loop_acc ws acc, sum_loop_acc ws (acc + pos_part w))

first_loop-positive :
    (ws : List ℤ) (i : ℕ)
    → 0 < sum_loop ws 0
    → (j : ℕ) × (first_loop ws i ≡ i + j)
      × (j < length ws)
      × (ltb_ℤ (pos 0) (weight_at ws j) ≡ true)
unfolding first_loop sum_loop
first_loop-positive [] i h = absurd (omega arith)
first_loop-positive (w ∷ ws) i h = elim (Bool-cases (ltb_ℤ (pos 0) w)) [
  | inl e ↦ (0, ground arith, omega arith, e)
  | inr e ↦
      let (j, a, b, c) = first_loop-positive ws (i + 1) (ground (arith, h)) in
      (suc j, ground (arith, a), omega (arith, b), c)
]

-- A positive sum allows the first positive position.
pub first_positive_pos-IsEnabledPos :
    (wans ws : List ℤ)
    → length wans ≡ length ws
    → 0 < sum_loop ws 0
    → IsEnabledPos wans (some ws) (first_positive_pos (some ws))
unfolding first_positive_pos weights_sum_positive
first_positive_pos-IsEnabledPos wans ws same h =
    let (j, a, b, c) = first_loop-positive ws 0 h in
    let z : first_loop ws 0 ≡ j = omega (arith, a) in
    (omega (arith, z, b), rw z (ground (arith, c)))

next_loop-IsEnabledPos :
    (rounds step p : ℕ) (wans ws : List ℤ)
    → length wans ≡ length ws
    → 0 < length wans
    → 0 < sum_loop ws 0
    → IsEnabledPos wans (some ws) (next_loop rounds step p ws (length wans))
unfolding next_loop weights_sum_positive
next_loop-IsEnabledPos zero step p wans ws same some_wan h =
    first_positive_pos-IsEnabledPos wans ws same h
next_loop-IsEnabledPos (suc rounds) step p wans ws same some_wan h =
    let i = (p + step) % length wans in
    elim (Bool-cases (ltb_ℤ (pos 0) (weight_at ws i))) [
      | inl e ↦ (ground (arith, mod-lt (p + step) some_wan), ground arith)
      | inr e ↦
          subst (IsEnabledPos wans (some ws)) (ground arith)
            (next_loop-IsEnabledPos rounds (step + 1) p wans ws same some_wan h)
    ]

-- The position after any position, as `next_enabled_pos` finds it, is in the list and enabled.
pub next_enabled_pos-IsEnabledPos :
    (p : ℕ) (wans : List ℤ) (weights : Option (List ℤ))
    → SameLength wans weights
    → 0 < length wans
    → IsEnabledPos wans weights (next_enabled_pos p weights (length wans))
unfolding next_enabled_pos next_in_weights weights_sum_positive
next_enabled_pos-IsEnabledPos p wans none same some_wan =
    (ground (arith, mod-lt (p + 1) some_wan), refl)
next_enabled_pos-IsEnabledPos p wans (some ws) same some_wan =
    elim (Bool-cases (as_int (sum_loop ws 0) == 0)) [
      | inl e ↦ (ground (arith, mod-lt (p + 1) some_wan), ground arith)
      | inr e ↦ subst (IsEnabledPos wans (some ws)) (ground arith) (
          next_loop-IsEnabledPos (length wans) 1 p wans ws same some_wan
            (as_int-positive (sum_loop ws 0) (ground arith)))
    ]

slot_in_round-lt : (slot m : ℕ) → 0 < m → slot_in_round slot m < m
unfolding slot_in_round
slot_in_round-lt slot m h = mod-lt (as_int (slot % m + m)) h

-- Any slot falls to an enabled position, when the sum of the weights is positive and fits.
pub wrr_slot_to_wan-IsChoice :
    (slot : ℕ) (wans ws : List ℤ)
    → length wans ≡ length ws
    → 0 < sum_loop ws 0
    → sum_loop ws 0 < 2 ^ 31
    → IsChoice wans (some ws) (wrr_slot_to_wan slot wans (some ws) (sum_loop ws 0))
unfolding wrr_slot_to_wan wan_of_pos
wrr_slot_to_wan-IsChoice slot wans ws same h fits =
    let m = sum_loop ws 0 in
    let s = slot_in_round slot m in
    let lt : s < m = slot_in_round-lt slot m h in
    let (j, e, l, a, b) =
      slot_loop-Falls ws 0 0 s (omega arith) (rw (← sum_loop-upto ws 0) lt)
        (rw (← sum_loop-upto ws 0) fits) in
    let z : 0 + j ≡ j = omega arith in
    let f = e ∙ ap some z in
    (
      j,
      (omega (arith, l), ground (arith, upto-suc ws j 0, a, b)),
      ground (arith, ap (wan_of_pos wans) f, l),
    )

share-le : (a w s : ℕ) → w ≤ s → 0 < s → a * w / s ≤ a
share-le a w s h some_weight =
    div-le_of_le-mul s (subst (λ t. a * w ≤ t) (mul_comm a s) (mul-le-mul_left a h))

weight-le_sum : (ws : List ℤ) (p : ℕ) → p < length ws → pos_part (weight_at ws p) ≤ sum_loop ws 0
weight-le_sum ws p h =
    let e : suc p + (length ws - suc p) ≡ length ws = omega arith in
    omega (
      arith,
      upto-suc ws p 0,
      upto_mono ws (suc p) (length ws - suc p) 0,
      ap (λ (t : ℕ). upto ws t 0) e,
      sum_loop-upto ws 0,
    )

share_limit-le :
    (base : ℕ) (p : Option ℕ) (ws : List ℤ)
    → 0 < base
    → base < 2 ^ 32
    → 0 < sum_loop ws 0
    → ((i : ℕ) → p ≡ some i → i < length ws)
    → share_limit base (sum_loop ws 0) p ws ≤ base
unfolding share_limit
share_limit-le base none ws some_bytes small some_weight inside = omega arith
share_limit-le base (some p) ws some_bytes small some_weight inside = ground (
  arith,
  share-le base (pos_part (weight_at ws p)) (sum_loop ws 0) (weight-le_sum ws p (inside p refl))
      some_weight,
)

-- The share of a WAN in a pool is at most its window: the narrowing to 32 bits loses nothing.
pub profile_wan_limit-le :
    (wan_count : ℕ) (windows : List ℕ) (i : ℕ) (wans : List ℤ) (weights : Option (List ℤ))
    → SameLength wans weights
    → SumFits weights
    → get_or windows i 0 < 2 ^ 32
    → profile_wan_limit wan_count windows (pos i) wans weights ≤ get_or windows i 0
unfolding profile_wan_limit limit_in_pool weights_sum_positive
profile_wan_limit-le wan_count windows i wans none same fits small =
    ground (arith, div-le_self (get_or windows i 0) (length wans))
profile_wan_limit-le wan_count windows i wans (some ws) same fits small =
    let sum : as_int (sum_loop ws 0) ≡ sum_loop ws 0 = as_int-fits (sum_loop ws 0) fits in
    elim (Bool-cases ((sum_loop ws 0 == 0) || (get_or windows i 0 == 0))) [
      | inl h ↦ ground (arith, div-le_self (get_or windows i 0) (length wans))
      | inr h ↦ ground (
        arith,
        div-le_self (get_or windows i 0) (length wans),
        share_limit-le (get_or windows i 0) (wan_allowed_pos (pos i) wans) ws (ground arith) small
            (ground arith)
            (λ p e. subst (λ t. p < t) same (wan_allowed_pos-some (pos i) wans p e).0),
      )
    ]

-- The counter gives a WAN of the table, unless it stands at the least `int`.
pub get_next_wan-lt :
    (counter wan_count : ℕ)
    → counter < 2 ^ 32
    → counter ≢ 2 ^ 31
    → 0 < wan_count
    → (i : ℕ) × ((get_next_wan counter wan_count).0 ≡ pos i) × (i < wan_count)
unfolding get_next_wan next_wan_of
get_next_wan-lt counter n small ne some_wan = elim (dec_lt counter (2 ^ 31)) [
  | yes h ↦ (counter % n, ground arith, mod-lt counter some_wan)
  | no h ↦ ((2 ^ 32 - counter) % n, ground arith, mod-lt (2 ^ 32 - counter) some_wan)
]
