-- ===== src/Flow/Wrr/Fair.antt =====
-- The weighted choice of a WAN per packet, `wrr_slot_to_wan` and `flow_table_pick_wan_per_packet` of
-- src/core/flow_table.c, over a whole round of slots.
use native.Mathlib.Decide.{dec_lt, ℕ_discrete}
use native.Mathlib.Nat.{add-mod_right, mod-lt, mod-mod, mod-eq_of_lt}
use ne_multi_core.Base.{
  ℕ, zero, suc, ◌+◌, ◌-◌, ◌%◌, ◌^◌, ◌≤◌, ◌<◌, ◌≡◌, refl, sym, ap, ◌∙◌, subst, arith, Bool, true,
  false, ◌&&◌, Option, some, List, [], ◌∷◌, length, ltb, leb, ◌==◌, Bool-cases, inl, inr,
}
use ne_multi_core.Base.Count.{bit, count_range, count_range-period, count_range-interval}
use ne_multi_core.Base.Int.{ℤ, pos_part, eqb_ℤ, eqb_ℤ→eq, eqb_ℤ_refl}
use ne_multi_core.Flow.Wrr.{
  weight_at, wan_at, as_int, slot_in_round, sum_loop, weights_sum_positive, slot_loop, wan_of_pos,
  wrr_slot_to_wan, pick_by_sequence, flow_table_pick_wan_per_packet,
}

-- A sum that fits is kept.
pub as_int-fits : (n : ℕ) → n < 2 ^ 31 → as_int n ≡ n
unfolding as_int
as_int-fits n small = ground arith

pub sum-fits :
    (ws : List ℤ) → sum_loop ws 0 < 2 ^ 31 → weights_sum_positive (some ws) ≡ sum_loop ws 0
unfolding weights_sum_positive
sum-fits ws small = as_int-fits (sum_loop ws 0) small

-- The first slot of position `j`, when `acc` slots have passed.
pub upto : List ℤ → ℕ → ℕ → ℕ
upto ws zero acc = acc
upto [] (suc j) acc = acc
upto (w ∷ ws) (suc j) acc = upto ws j (acc + pos_part w)

pub upto-suc :
    (ws : List ℤ) (j acc : ℕ) → upto ws (suc j) acc ≡ upto ws j acc + pos_part (weight_at ws j)
unfolding upto
upto-suc [] zero acc = omega arith
upto-suc [] (suc j) acc = omega arith
upto-suc (w ∷ ws) zero acc = refl
upto-suc (w ∷ ws) (suc j) acc = upto-suc ws j (acc + pos_part w)

pub upto_mono : (ws : List ℤ) (j d acc : ℕ) → upto ws j acc ≤ upto ws (j + d) acc
upto_mono ws j zero acc = let e : j + 0 ≡ j = omega arith in rw e (omega arith)
upto_mono ws j (suc d) acc =
    let e : j + suc d ≡ suc (j + d) = omega arith in
    rw e (omega (arith, upto-suc ws (j + d) acc, upto_mono ws j d acc))

upto_acc : (ws : List ℤ) (j acc : ℕ) → acc ≤ upto ws j acc
unfolding upto
upto_acc ws zero acc = omega arith
upto_acc [] (suc j) acc = omega arith
upto_acc (w ∷ ws) (suc j) acc = omega (arith, upto_acc ws j (acc + pos_part w))

pub sum_loop-upto : (ws : List ℤ) (acc : ℕ) → sum_loop ws acc ≡ upto ws (length ws) acc
unfolding sum_loop upto
sum_loop-upto [] acc = refl
sum_loop-upto (w ∷ ws) acc = sum_loop-upto ws _ ∙ ap (upto ws (length ws)) (ground arith)

-- The position that a slot falls to.
abbrev pub Falls : List ℤ → ℕ → ℕ → ℕ → Option ℕ → Type 0
Falls ws i acc s o =
    (j : ℕ) × (o ≡ some (i + j)) × (j < length ws) × (upto ws j acc ≤ s) × (s < upto ws (suc j) acc)

Falls-cons :
    (w : ℤ) (ws : List ℤ) (i acc s : ℕ) (o : Option ℕ)
    → Falls ws (i + 1) (acc + pos_part w) s o
    → Falls (w ∷ ws) i acc s o
unfolding upto
Falls-cons w ws i acc s o (j, e, l, a, b) = (suc j, e ∙ ap some (omega arith), omega arith, a, b)

pub slot_loop-Falls :
    (ws : List ℤ) (i acc s : ℕ)
    → acc ≤ s
    → s < upto ws (length ws) acc
    → upto ws (length ws) acc < 2 ^ 31
    → Falls ws i acc s (slot_loop ws i acc s)
unfolding slot_loop upto
slot_loop-Falls [] i acc s lo hi fits = absurd (omega arith)
slot_loop-Falls (w ∷ ws) i acc s lo hi fits =
    let kept : as_int (acc + pos_part w) ≡ acc + pos_part w =
      as_int-fits (acc + pos_part w) (omega (arith, upto_acc ws (length ws) (acc + pos_part w))) in
    elim (Bool-cases (ltb s (acc + pos_part w))) [
      | inl h ↦ (0, ground (arith, kept, h), omega arith, lo, ground arith)
      | inr h ↦ Falls-cons w ws i acc s _ (
          subst (λ o. Falls ws (i + 1) (acc + pos_part w) s o) (ground (arith, kept, h))
            (slot_loop-Falls ws (i + 1) (acc + pos_part w) s (ground arith) hi fits))
    ]

-- No two positions share a slot.
Falls_unique :
    (ws : List ℤ) (j k s : ℕ)
    → upto ws j 0 ≤ s
    → s < upto ws (suc j) 0
    → upto ws k 0 ≤ s
    → s < upto ws (suc k) 0
    → j ≡ k
Falls_unique ws j k s a b c d = elim (dec_lt j k) [
  | yes lt ↦
      let e : suc j + (k - suc j) ≡ k = omega arith in
      absurd (omega (arith, ap (λ t. upto ws t 0) e, upto_mono ws (suc j) (k - suc j) 0))
  | no ge ↦ elim (dec_lt k j) [
    | yes lt ↦
        let e : suc k + (j - suc k) ≡ j = omega arith in
        absurd (omega (arith, ap (λ t. upto ws t 0) e, upto_mono ws (suc k) (j - suc k) 0))
    | no ge' ↦ omega arith
  ]
]

-- No other position has the WAN of position `j`.
abbrev pub OnlyAt : List ℤ → ℕ → Type 0
OnlyAt wans j = (k : ℕ) → k < length wans → wan_at wans k ≡ wan_at wans j → k ≡ j

-- A choice by weights goes to the position that the slot falls to.
pick_by_slot :
    (n : ℕ) (wans ws : List ℤ)
    → 0 < length wans
    → 0 < sum_loop ws 0
    → sum_loop ws 0 < 2 ^ 30
    → pick_by_sequence n wans (some ws) ≡ wan_of_pos wans (slot_loop ws 0 0 (n % sum_loop ws 0))
unfolding pick_by_sequence wrr_slot_to_wan slot_in_round
pick_by_slot n wans ws some_wan some_weight fits =
    let m = sum_loop ws 0 in
    let sum : weights_sum_positive (some ws) ≡ m = sum-fits ws (omega (arith, fits)) in
    let lt : n % m % m < m = mod-lt (n % m) some_weight in
    let kept : as_int (n % m % m + m) ≡ n % m % m + m =
      as_int-fits (n % m % m + m) (omega (arith, lt, fits)) in
    let e : (n % m % m + m) % m ≡ n % m =
      add-mod_right (n % m % m) m ∙ mod-mod (n % m) m ∙ mod-mod n m in
    let no_wan : (length wans == 0) ≡ false = ground arith in
    let no_sum : (m == 0) ≡ false = ground arith in
    let weighed : ltb 0 m ≡ true = ground arith in rw (sum, weighed, no_wan, no_sum, kept, e) refl

module _ (wans ws : List ℤ) (j : ℕ) (same : length wans ≡ length ws) (only : OnlyAt wans j)
    (fits : sum_loop ws 0 < 2 ^ 30) where
  abbrev picks_j : ℕ → Bool
  picks_j n = eqb_ℤ (pick_by_sequence n wans (some ws)) (wan_at wans j)

  slot_picks :
      (n : ℕ)
      → j < length wans
      → n < sum_loop ws 0
      → picks_j n ≡ (leb (upto ws j 0) n && ltb n (upto ws (suc j) 0))
  unfolding wan_of_pos
  slot_picks n inside small =
      let m = sum_loop ws 0 in
      let (k, e, l, a, b) =
        slot_loop-Falls ws 0 0 n (omega arith) (rw (← sum_loop-upto ws 0) small)
          (rw (← sum_loop-upto ws 0) (omega (arith, fits))) in
      let z : 0 + k ≡ k = omega arith in
      let at_k : pick_by_sequence n wans (some ws) ≡ wan_at wans k =
        pick_by_slot n wans ws (omega arith) (omega arith) fits
        ∙ ap (λ t. wan_of_pos wans (slot_loop ws 0 0 t)) (mod-eq_of_lt small)
        ∙ ap (wan_of_pos wans) (e ∙ ap some z) in
      rw at_k (decide_k k (rw same l) a b)
    where
      decide_k :
          (k : ℕ)
          → k < length wans
          → upto ws k 0 ≤ n
          → n < upto ws (suc k) 0
          → eqb_ℤ (wan_at wans k) (wan_at wans j)
            ≡ (leb (upto ws j 0) n && ltb n (upto ws (suc j) 0))
      decide_k k l a b = elim (ℕ_discrete k j) [
        | yes s ↦ ground (
          arith,
          ap (λ (t : ℕ). eqb_ℤ (wan_at wans t) (wan_at wans j)) s,
          eqb_ℤ_refl (wan_at wans j),
          ap (λ (t : ℕ). upto ws t 0) s,
          ap (λ (t : ℕ). upto ws (suc t) 0) s,
          a,
          b,
        )
        | no ne ↦ ground (
          arith,
          (λ (t : eqb_ℤ (wan_at wans k) (wan_at wans j) ≡ true).
              ne (only k l (eqb_ℤ→eq (wan_at wans k) (wan_at wans j) t))),
          (λ (x : upto ws j 0 ≤ n) (y : n < upto ws (suc j) 0). ne (Falls_unique ws k j n a b x y)),
        )
      ]

  picks_j-period :
      0 < length wans → 0 < sum_loop ws 0 → (n : ℕ) → picks_j (n + sum_loop ws 0) ≡ picks_j n
  picks_j-period some_wan some_weight n =
      let m = sum_loop ws 0 in
      ap (λ t. eqb_ℤ t (wan_at wans j))
        (pick_by_slot (n + m) wans ws some_wan some_weight fits
          ∙ ap (λ t. wan_of_pos wans (slot_loop ws 0 0 t)) (add-mod_right n m)
          ∙ sym (pick_by_slot n wans ws some_wan some_weight fits))

  slots_of_j :
      j < length wans
      → 0 < sum_loop ws 0
      → (start : ℕ) → count_range picks_j start (sum_loop ws 0) ≡ pos_part (weight_at ws j)
  slots_of_j inside some_weight start =
      let m = sum_loop ws 0 in
      let e : suc j + (length ws - suc j) ≡ length ws = omega arith in
      let counted =
        count_range-period picks_j m start (picks_j-period (omega arith) some_weight)
        ∙ count_range-interval picks_j (upto ws j 0) (upto ws (suc j) 0) 0 m
            (λ n lo hi. slot_picks n inside (omega arith)) in
      counted
      ∙ omega (
        arith,
        upto-suc ws j 0,
        upto_mono ws (suc j) (length ws - suc j) 0,
        ap (λ (t : ℕ). upto ws t 0) e,
        sum_loop-upto ws 0,
      )

pick_several :
    (n : ℕ) (wans : List ℤ) (weights : Option (List ℤ))
    → 1 < length wans
    → flow_table_pick_wan_per_packet n wans weights
      ≡ (pick_by_sequence n wans weights, (n + 1) % 2 ^ 64)
unfolding flow_table_pick_wan_per_packet
pick_several n wans weights several = ground arith

-- How many of `calls` calls in a row give `wan`, when the sequence number stands at `seq`.
abbrev pub times_picked : ℕ → ℤ → List ℤ → Option (List ℤ) → ℕ → ℕ
times_picked zero wan wans weights seq = 0
times_picked (suc calls) wan wans weights seq =
    let (got, seq') = flow_table_pick_wan_per_packet seq wans weights in
    bit (eqb_ℤ got wan) + times_picked calls wan wans weights seq'

times_picked-count :
    (calls : ℕ) (wan : ℤ) (wans : List ℤ) (weights : Option (List ℤ)) (seq : ℕ)
    → 1 < length wans
    → seq + calls < 2 ^ 64
    → times_picked calls wan wans weights seq
      ≡ count_range (λ n. eqb_ℤ (pick_by_sequence n wans weights) wan) seq calls
unfolding count_range
times_picked-count zero wan wans weights seq several small = refl
times_picked-count (suc calls) wan wans weights seq several small =
    let e : (seq + 1) % 2 ^ 64 ≡ seq + 1 = omega arith in
    rw (pick_several seq wans weights several, e)
      (ap (λ t. bit (eqb_ℤ (pick_by_sequence seq wans weights) wan) + t)
        (times_picked-count calls wan wans weights (seq + 1) several (omega arith)))

-- Of as many packets in a row as the weights sum to, wherever the sequence number stands (short of
-- its wrap), the WAN at position `j` gets exactly as many as its weight, and none if the weight is
-- not positive. There are at least two WANs, as many weights, some weight is positive, no other
-- position has the WAN of position `j`, and the positive weights sum to less than 2^30, so that no
-- `int` overflows.
pub pick_fair :
    (wans ws : List ℤ) (j seq : ℕ)
    → length wans ≡ length ws
    → 1 < length wans
    → j < length wans
    → OnlyAt wans j
    → sum_loop ws 0 < 2 ^ 30
    → 0 < weights_sum_positive (some ws)
    → seq + weights_sum_positive (some ws) < 2 ^ 64
    → times_picked (weights_sum_positive (some ws)) (wan_at wans j) wans (some ws) seq
      ≡ pos_part (weight_at ws j)
pick_fair wans ws j seq same several inside only fits some_weight small =
    let sum : weights_sum_positive (some ws) ≡ sum_loop ws 0 = sum-fits ws (omega (arith, fits)) in
    rw sum (
      times_picked-count (sum_loop ws 0) (wan_at wans j) wans (some ws) seq several
        (rw sum at small)
      ∙ slots_of_j wans ws j same only fits inside (rw sum at some_weight) seq)
