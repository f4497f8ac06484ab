-- ===== src/Runtime/Grown.antt =====
-- The tables of the slots that `fwd_crypto_ensure_profile_slots` of src/core/forwarder_crypto_runtime.c
-- leaves.
use native.Mathlib.Decide.{ℕ_discrete}
use ne_multi_core.Base.{
  ℕ, zero, suc, ◌<◌, ◌≡◌, ◌≢◌, ◌⊎◌, refl, sym, ap, ◌∙◌, subst, arith, inl, inr, true, false, Option,
  none, some, List, [], ◌∷◌, ltb, ◌==◌, lt→ltb, Bool-cases,
}
use ne_multi_core.Base.Int.{ℤ}
use ne_multi_core.Config.{AppConfig, ProfileConfig, WanConfig}
use ne_multi_core.Fragment.{frag_table_init}
use ne_multi_core.Flow.Table.{Counters, flow_table_init}
use ne_multi_core.Runtime.Slots.{free_loop-some}
use ne_multi_core.Runtime.{
  max_profiles, workers, Slot, Slots, set_slot, free_loop, claimed, alloc_unless,
  profile_slot_alloc, fresh_slot, made_ready, after_alloc, one_profile, ensure_loop,
  fwd_crypto_profile_slot_for_id, fwd_crypto_ensure_profile_slots,
}

-- All tables of the slot are empty: that of the flows, and those of the halves that wait.
abbrev pub IsEmpty : Slot → Type 0
IsEmpty x =
    ((i : ℕ) → x.flows.buckets i ≡ [])
    × ((w : ℕ) → w < workers → x.frag_l2 w ≡ frag_table_init)
    × (x.frag_l3 ≡ frag_table_init)
    × (x.frag_l4 ≡ frag_table_init)

-- Each slot is as it was, or was not in use and has empty tables.
abbrev pub Grown : Slots → Slots → Type 0
Grown s t = (k : ℕ) → (t k ≡ s k) ⊎ (((s k).ready ≡ false) × IsEmpty (t k))

Grown-trans : (s t u : Slots) → Grown s t → Grown t u → Grown s u
Grown-trans s t u f g k = elim (g k) [
  | inl e ↦ elim (f k) [
    | inl e' ↦ inl (e ∙ e')
    | inr (r, empty) ↦ inr (r, subst IsEmpty (sym e) empty)
  ]
  | inr (r, empty) ↦ elim (f k) [
    | inl e' ↦ inr (sym (ap (λ x. x.ready) e') ∙ r, empty)
    | inr (r', old) ↦ inr (r', empty)
  ]
]

fresh_slot-IsEmpty :
    (g : Counters) (wans : List WanConfig) (x : Slot) → IsEmpty (fresh_slot g wans x).0
unfolding fresh_slot flow_table_init
fresh_slot-IsEmpty g wans x =
    (λ i. refl, λ w h. let e : ltb w workers ≡ true = lt→ltb w workers h in rw e refl, refl, refl)

-- The slots `s` before the slot was claimed, and `s'` behind it.
made_ready-Grown :
    (wans : List WanConfig) (s s' : Slots) (g : Counters) (i : ℕ)
    → ((k : ℕ) → k ≢ i → s' k ≡ s k)
    → ((s' i).ready ≡ true → s' i ≡ s i)
    → (s' i).ready ≡ (s i).ready
    → Grown s (made_ready wans (s', g) i).0
unfolding made_ready
made_ready-Grown wans s s' g i others old same k = elim (Bool-cases (s' i).ready) [
  | inl r ↦ elim (ℕ_discrete k i) [
    | yes e ↦ rw r (inl (subst (λ j. s' j ≡ s j) (sym e) (old r)))
    | no ne ↦ rw r (inl (others k ne))
  ]
  | inr r ↦ elim (ℕ_discrete k i) [
    | yes e ↦
        let here : (k == i) ≡ true = ground (arith, e) in
        rw (r, here)
          (inr (ap (λ j. (s j).ready) e ∙ sym same ∙ r, fresh_slot-IsEmpty g wans (s' i)))
    | no ne ↦ let away : (k == i) ≡ false = ground (arith, ne) in rw (r, away) (inl (others k ne))
  ]
]

free-Grown :
    (wans : List WanConfig) (s : Slots) (g : Counters) (pid : ℤ) (o : Option ℕ)
    → free_loop s max_profiles 0 ≡ o
    → Grown s (after_alloc wans g (claimed s pid o)).1.0
unfolding after_alloc claimed
free-Grown wans s g pid none e = λ k. inl refl
free-Grown wans s g pid (some i) e =
    let (lt, r) = free_loop-some s max_profiles 0 i e in
    let s' = set_slot s i (record (s i) { profile_id = pid }) in
    let here : (i == i) ≡ true = ground arith in
    let same : (s' i).ready ≡ (s i).ready = rw here refl in
    made_ready-Grown wans s s' g i
      (λ k ne. let away : (k == i) ≡ false = ground (arith, ne) in rw away refl)
      (λ ready. absurd (cc (ready, same, r))) same

alloc-Grown :
    (wans : List WanConfig) (s : Slots) (g : Counters) (pid : ℤ) (o : Option ℕ)
    → Grown s (after_alloc wans g (alloc_unless s pid o)).1.0
unfolding after_alloc alloc_unless
alloc-Grown wans s g pid none = free-Grown wans s g pid (free_loop s max_profiles 0) refl
alloc-Grown wans s g pid (some i) = made_ready-Grown wans s s g i (λ k ne. refl) (λ r. refl) refl

one_profile-Grown :
    (wans : List WanConfig) (s : Slots) (g : Counters) (pid : ℤ)
    → Grown s (one_profile wans pid (s, g)).1.0
unfolding one_profile profile_slot_alloc
one_profile-Grown wans s g pid = alloc-Grown wans s g pid (fwd_crypto_profile_slot_for_id s pid)

ensure_loop-Grown :
    (wans : List WanConfig) (ps : List ProfileConfig) (room : ℕ) (s : Slots) (g : Counters)
    → Grown s (ensure_loop wans ps room (s, g)).1.0
unfolding ensure_loop
ensure_loop-Grown wans [] room s g = λ k. inl refl
ensure_loop-Grown wans (p ∷ ps) zero s g = λ k. inl refl
ensure_loop-Grown wans (p ∷ ps) (suc room) s g =
    let (ok, (t, g')) = one_profile wans p.id (s, g) in
    let first = one_profile-Grown wans s g p.id in
    elim (Bool-cases ok) [
      | inl h ↦ rw h (
          Grown-trans s t (ensure_loop wans ps room (t, g')).1.0 first
            (ensure_loop-Grown wans ps room t g'))
      | inr h ↦ rw h first
    ]

-- `fwd_crypto_ensure_profile_slots` leaves the slots in use as they are, and gives the new ones empty
-- tables.
pub ensure_profile_slots-Grown :
    (cfg : AppConfig) (s : Slots) (g : Counters)
    → Grown s (fwd_crypto_ensure_profile_slots cfg (s, g)).1.0
unfolding fwd_crypto_ensure_profile_slots
ensure_profile_slots-Grown cfg s g = ensure_loop-Grown cfg.wans cfg.profiles max_profiles s g
