-- ===== src/Flow/Table/Profile.antt =====
-- The WAN that `flow_table_get_wan_profile` of src/core/flow_table.c gives, against the WANs that the
-- profile allows.
use mathlib.Core.Option.{some-injective}
use native.Mathlib.Nat.{mod-lt}
use ne_multi_core.Base.{
  ℕ, ◌%◌, ◌<◌, ◌≡◌, refl, sym, ap, subst, arith, Bool, true, false, Option, none, some, List, [],
  ◌∷◌, length, ltb, ◌==◌, Bool-cases, Option-cases, inl, inr,
}
use ne_multi_core.Base.Int.{ℤ}
use ne_multi_core.Flow.Hash.{FlowKey, flow_hash, normalize_flow_5tuple}
use ne_multi_core.Flow.Wrr.{
  wan_allowed_pos, as_int, sum_loop, weights_sum_positive, wrr_slot_to_wan,
}
use ne_multi_core.Flow.Wrr.Choice.{
  enabled, IsEnabledPos, IsChoice, SameLength, SumFits, as_int-positive, wan_allowed_pos-some,
  first_positive_pos-IsEnabledPos, wrr_slot_to_wan-IsChoice,
}
use ne_multi_core.Flow.Wrr.Fair.{as_int-fits}
use ne_multi_core.Flow.Table.{FlowEntry, FlowTable, Counters, walk, walk_on, found}
use ne_multi_core.Flow.Table.InPool.{
  touch_profile, repair, usable_pos, disabled, fallback_pos, first_wan_by_hash, new_profile_entry,
  insert_profile, profile_result, profile_entry_matches, get_wan_in_pool,
  flow_table_get_wan_profile,
}

walk_on-some :
    {A : Type 0} (e : FlowEntry) (o : Option (A × List FlowEntry)) (r : A × List FlowEntry)
    → walk_on e o ≡ some r
    → (r' : A × List FlowEntry) × (o ≡ some r') × (r.0 ≡ r'.0)
unfolding walk_on
walk_on-some e none r h = absurd (cc (h))
walk_on-some e (some (a, chain)) r h =
    ((a, chain), refl, ap (λ t. t.0) (some-injective _ _ (sym h)))

-- A walk gives what `touch` gives of some entry.
walk-touch :
    {A : Type 0} (P : A → Type 0) (matches : FlowEntry → Bool) (touch : FlowEntry → A × FlowEntry)
    (chain : List FlowEntry) (r : A × List FlowEntry)
    → ((e : FlowEntry) → P (touch e).0)
    → walk matches touch chain ≡ some r
    → P r.0
unfolding walk
walk-touch P matches touch [] r h e = absurd (cc (e))
walk-touch P matches touch (x ∷ chain) r h e = elim (Bool-cases (matches x)) [
  | inl m ↦
      let f : some ((touch x).0, (touch x).1 ∷ chain) ≡ some r = ground (arith, e) in
      subst (λ t. P t.0) (some-injective _ _ f) (h x)
  | inr m ↦
      let f : walk_on x (walk matches touch chain) ≡ some r = ground (arith, e) in
      let (r', a, b) = walk_on-some x (walk matches touch chain) r f in
      subst P (sym b) (walk-touch P matches touch chain r' h a)
]

not_disabled-enabled :
    (weights : Option (List ℤ)) (p : ℕ) → disabled weights p ≡ false → enabled weights p ≡ true
not_disabled-enabled none p h = refl
not_disabled-enabled (some ws) p h = ground arith

fallback_pos-IsEnabledPos :
    (wans : List ℤ) (weights : Option (List ℤ))
    → SameLength wans weights
    → 0 < length wans
    → IsEnabledPos wans weights (fallback_pos weights)
unfolding weights_sum_positive
fallback_pos-IsEnabledPos wans none same some_wan = (some_wan, refl)
fallback_pos-IsEnabledPos wans (some ws) same some_wan =
    elim (Bool-cases (ltb 0 (as_int (sum_loop ws 0)))) [
      | inl h ↦ subst (IsEnabledPos wans (some ws)) (ground arith) (
          first_positive_pos-IsEnabledPos wans ws same
            (as_int-positive (sum_loop ws 0) (ground arith)))
      | inr h ↦ (ground (arith, some_wan), ground arith)
    ]

repair-IsChoice :
    (wans : List ℤ) (weights : Option (List ℤ)) (e : FlowEntry)
    → SameLength wans weights
    → 0 < length wans
    → IsChoice wans weights (repair wans weights e).current_wan
unfolding repair usable_pos
repair-IsChoice wans weights e same some_wan =
    elim (Option-cases (wan_allowed_pos e.current_wan wans)) [
      | inl h ↦ (
        fallback_pos weights,
        fallback_pos-IsEnabledPos wans weights same some_wan,
        ground (arith, h),
      )
      | inr (p, h) ↦ elim (Bool-cases (disabled weights p)) [
        | inl d ↦ (
          fallback_pos weights,
          fallback_pos-IsEnabledPos wans weights same some_wan,
          ground (arith, h),
        )
        | inr d ↦
            let (l, a) = wan_allowed_pos-some e.current_wan wans p h in
            (p, (l, not_disabled-enabled weights p d), ground (arith, h, a))
      ]
    ]

first_wan_by_hash-IsChoice :
    (h : ℕ) (wans : List ℤ) (weights : Option (List ℤ))
    → SameLength wans weights
    → 0 < length wans
    → SumFits weights
    → IsChoice wans weights (first_wan_by_hash h wans weights)
unfolding first_wan_by_hash weights_sum_positive
first_wan_by_hash-IsChoice h wans none same some_wan fits =
    (h % length wans, (mod-lt h some_wan, refl), refl)
first_wan_by_hash-IsChoice h wans (some ws) same some_wan fits =
    elim (Bool-cases (ltb 0 (as_int (sum_loop ws 0)))) [
      | inl s ↦
          let sum : as_int (sum_loop ws 0) ≡ sum_loop ws 0 = as_int-fits (sum_loop ws 0) fits in
          let chosen = λ (m : ℕ). wrr_slot_to_wan (h % m) wans (some ws) m in
          rw s (
            subst (λ m. IsChoice wans (some ws) (chosen m)) (sym sum)
              (wrr_slot_to_wan-IsChoice (h % sum_loop ws 0) wans ws same
                (as_int-positive (sum_loop ws 0) (ground arith)) fits))
      | inr s ↦ (h % length wans, (mod-lt h some_wan, ground arith), ground arith)
    ]

only_one-enabled :
    (wans : List ℤ) (weights : Option (List ℤ))
    → SameLength wans weights
    → length wans ≡ 1
    → enabled weights 0 ≡ true
unfolding weights_sum_positive sum_loop
only_one-enabled wans none same one = refl
only_one-enabled wans (some []) same one = absurd (omega (arith, same))
only_one-enabled wans (some (w ∷ [])) same one = ground arith
only_one-enabled wans (some (w ∷ w' ∷ ws)) same one = absurd (omega (arith, same))

in_pool-IsChoice :
    (ft : FlowTable) (g : Counters) (now : ℕ) (k : FlowKey) (pkt_len : ℕ) (wans : List ℤ)
    (weights : Option (List ℤ))
    → SameLength wans weights
    → 0 < length wans
    → SumFits weights
    → IsChoice wans weights (get_wan_in_pool ft g now true k pkt_len wans weights).wan
unfolding get_wan_in_pool profile_result insert_profile found new_profile_entry touch_profile
in_pool-IsChoice ft g now k0 pkt_len wans weights same some_wan fits =
    let k = normalize_flow_5tuple k0 in
    let idx = flow_hash k in
    let touch = touch_profile ft now pkt_len wans weights in
    elim (Option-cases (walk (profile_entry_matches k) touch (ft.buckets idx))) [
      | inl h ↦ rw h (first_wan_by_hash-IsChoice idx wans weights same some_wan fits)
      | inr (r, h) ↦ rw h (
          walk-touch (IsChoice wans weights) (profile_entry_matches k) touch (ft.buckets idx) r
            (λ e. repair-IsChoice wans weights e same some_wan) h)
    ]

-- When memory is given, a packet of a profile goes to one of the profile's allowed WANs, and, if some
-- weight is positive, to one whose weight is; this holds of known and new flows, whatever entries the
-- table has. The list is not empty, and the weights, if there are any, are as many, and the positive ones
-- sum to an `int` (less than 2^31).
pub get_wan_profile-IsChoice :
    (ft : FlowTable) (g : Counters) (now : ℕ) (k : FlowKey) (pkt_len : ℕ) (wans : List ℤ)
    (weights : Option (List ℤ))
    → SameLength wans weights
    → 0 < length wans
    → SumFits weights
    → IsChoice wans weights (flow_table_get_wan_profile ft g now true k pkt_len wans weights).wan
unfolding flow_table_get_wan_profile
get_wan_profile-IsChoice ft g now k pkt_len wans weights same some_wan fits =
    let e0 : (length wans == 0) ≡ false = ground arith in
    elim (Bool-cases (length wans == 1)) [
      | inl h ↦ rw (e0, h) (0, (some_wan, only_one-enabled wans weights same (ground arith)), refl)
      | inr h ↦ rw (e0, h) (in_pool-IsChoice ft g now k pkt_len wans weights same some_wan fits)
    ]
