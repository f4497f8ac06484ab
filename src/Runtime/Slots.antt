-- ===== src/Runtime/Slots.antt =====
-- Which slot a profile has, src/core/forwarder_crypto_runtime.c.
use mathlib.Core.Option.{some-injective}
use native.Mathlib.Decide.{ℕ_discrete}
use ne_multi_core.Base.{
  ℕ, zero, suc, ◌+◌, ◌<◌, ◌≤◌, ◌≡◌, ◌≢◌, refl, sym, ap, ◌∙◌, arith, inl, inr, Bool, true, false,
  ◌&&◌, Option, none, some, List, ◌==◌, Bool-cases, &&-true, ==_refl,
}
use ne_multi_core.Base.Int.{ℤ, eqb_ℤ, eqb_ℤ→eq, eqb_ℤ_refl}
use ne_multi_core.Config.{WanConfig}
use ne_multi_core.Flow.Table.{Counters}
use ne_multi_core.Runtime.{
  max_profiles, Slots, Tables, set_slot, slot_loop, fwd_crypto_profile_slot_for_id, free_loop,
  claimed, alloc_unless, profile_slot_alloc, fresh_slot, made_ready, after_alloc, one_profile,
}

-- The slot is in use, for the profile.
abbrev pub Holds : Slots → ℕ → ℤ → Type 0
Holds s i pid = (i < max_profiles) × ((s i).ready ≡ true) × ((s i).profile_id ≡ pid)

-- No profile has two slots.
abbrev pub OneEach : Slots → Type 0
OneEach s = (i : ℕ) (j : ℕ) (pid : ℤ) → Holds s i pid → Holds s j pid → i ≡ j

-- The slots in use are as they were.
abbrev pub Keeps : Slots → Slots → Type 0
Keeps s t = (k : ℕ) → (s k).ready ≡ true → t k ≡ s k

slot_loop-some :
    (s : Slots) (pid : ℤ) (left i k : ℕ)
    → slot_loop s pid left i ≡ some k
    → (k < i + left) × ((s k).ready ≡ true) × ((s k).profile_id ≡ pid)
unfolding slot_loop
slot_loop-some s pid zero i k e = absurd (cc e)
slot_loop-some s pid (suc left) i k e =
    elim (Bool-cases ((s i).ready && eqb_ℤ (s i).profile_id pid)) [
      | inl h ↦
          let same : i ≡ k = some-injective _ _ (rw h at e) in
          let (r, id) = &&-true (s i).ready (eqb_ℤ (s i).profile_id pid) h in
          let here : i < i + suc left = omega arith in rw (← same) (here, r, eqb_ℤ→eq _ _ id)
      | inr h ↦
          let (lt, r, id) = slot_loop-some s pid left (i + 1) k (rw h at e) in
          (omega (arith, lt), r, id)
    ]

slot_loop-none :
    (s : Slots) (pid : ℤ) (left i k : ℕ)
    → slot_loop s pid left i ≡ none
    → i ≤ k
    → k < i + left
    → (s k).ready ≡ true
    → ¬ ((s k).profile_id ≡ pid)
unfolding slot_loop
slot_loop-none s pid zero i k e lo hi r = absurd (omega arith)
slot_loop-none s pid (suc left) i k e lo hi r =
    elim (Bool-cases ((s i).ready && eqb_ℤ (s i).profile_id pid)) [
      | inl h ↦ absurd (cc (rw h at e))
      | inr h ↦ elim (ℕ_discrete i k) [
        | yes same ↦ λ id.
            let r' : (s i).ready ≡ true = ap (λ j. (s j).ready) same ∙ r in
            let id' : (s i).profile_id ≡ pid = ap (λ j. (s j).profile_id) same ∙ id in
            absurd (cc (rw (r', id', eqb_ℤ_refl pid) at h))
        | no ne ↦
            slot_loop-none s pid left (i + 1) k (rw h at e) (omega (arith, ne)) (omega (arith, hi))
              r
      ]
    ]

pub free_loop-some :
    (s : Slots) (left i k : ℕ)
    → free_loop s left i ≡ some k
    → (k < i + left) × ((s k).ready ≡ false)
unfolding free_loop
free_loop-some s zero i k e = absurd (cc e)
free_loop-some s (suc left) i k e = elim (Bool-cases (s i).ready) [
  | inl h ↦ let (lt, r) = free_loop-some s left (i + 1) k (rw h at e) in (omega (arith, lt), r)
  | inr h ↦ let same : i ≡ k = some-injective _ _ (rw h at e) in rw (← same) (omega arith, h)
]

-- What one profile does to the slots: nothing is lost, and at success the profile has a slot.
abbrev pub IsServed : Slots → ℤ → Bool × Tables → Type 0
IsServed s pid (ok, (t, g)) = OneEach t × Keeps s t × (ok ≡ true → (k : ℕ) × Holds t k pid)

-- A slot that is newly taken for a profile that has none.
taken-OneEach :
    (s t : Slots) (i : ℕ) (pid : ℤ)
    → OneEach s
    → ((k : ℕ) → k < max_profiles → (s k).ready ≡ true → ¬ ((s k).profile_id ≡ pid))
    → (t i).profile_id ≡ pid
    → ((k : ℕ) → k ≢ i → t k ≡ s k)
    → OneEach t
taken-OneEach s t i pid one none_has id others a b q (la, ra, ia) (lb, rb, ib) =
    elim (ℕ_discrete a i) [
      | yes ea ↦ elim (ℕ_discrete b i) [
        | yes eb ↦ ea ∙ sym eb
        | no nb ↦
            let same : q ≡ pid = sym ia ∙ ap (λ j. (t j).profile_id) ea ∙ id in
            let e = others b nb in
            absurd (
              none_has b lb (sym (ap (λ x. x.ready) e) ∙ rb)
                (sym (ap (λ x. x.profile_id) e) ∙ ib ∙ same))
      ]
      | no na ↦
          let e = others a na in
          let old_a : Holds s a q =
            (la, sym (ap (λ x. x.ready) e) ∙ ra, sym (ap (λ x. x.profile_id) e) ∙ ia) in
          elim (ℕ_discrete b i) [
            | yes eb ↦
                let same : q ≡ pid = sym ib ∙ ap (λ j. (t j).profile_id) eb ∙ id in
                absurd (none_has a la (old_a.1) (old_a.2 ∙ same))
            | no nb ↦
                let f = others b nb in
                one a b q old_a
                  (lb, sym (ap (λ x. x.ready) f) ∙ rb, sym (ap (λ x. x.profile_id) f) ∙ ib)
          ]
    ]

made_ready-old :
    (wans : List WanConfig) (s : Slots) (g : Counters) (i : ℕ)
    → (s i).ready ≡ true
    → made_ready wans (s, g) i ≡ (s, g)
unfolding made_ready
made_ready-old wans s g i r = rw r refl

-- The new slot is in use for the profile, and the others are as they were.
made_ready-new :
    (wans : List WanConfig) (s : Slots) (g : Counters) (i : ℕ) (pid : ℤ)
    → (s i).ready ≡ false
    → let t = (made_ready wans (set_slot s i (record (s i) { profile_id = pid }), g) i).0 in
      ((t i).ready ≡ true) × ((t i).profile_id ≡ pid) × ((k : ℕ) → k ≢ i → t k ≡ s k)
unfolding made_ready fresh_slot
made_ready-new wans s g i pid r = (
  rw (==_refl i, r, ==_refl i) refl,
  rw (==_refl i, r, ==_refl i) refl,
  λ k ne. let e : (k == i) ≡ false = ground (arith, ne) in rw (==_refl i, r, e) refl,
)

IsServed-free :
    (wans : List WanConfig) (s : Slots) (g : Counters) (pid : ℤ) (o : Option ℕ)
    → OneEach s
    → fwd_crypto_profile_slot_for_id s pid ≡ none
    → free_loop s max_profiles 0 ≡ o
    → IsServed s pid (after_alloc wans g (claimed s pid o))
unfolding after_alloc claimed fwd_crypto_profile_slot_for_id
IsServed-free wans s g pid none one nobody found = (one, λ k r. refl, λ e. absurd (cc e))
IsServed-free wans s g pid (some i) one nobody found =
    let (lt, r) = free_loop-some s max_profiles 0 i found in
    let (ready, id, others) = made_ready-new wans s g i pid r in
    let t = (made_ready wans (set_slot s i (record (s i) { profile_id = pid }), g) i).0 in
    (
      taken-OneEach s t i pid one
          (λ k hi has.
            slot_loop-none s pid max_profiles 0 k nobody (omega arith) (omega (arith, hi)) has)
          id others,
      λ k has. others k (λ e. absurd (cc (r, has, ap (λ j. (s j).ready) e))),
      λ e. (i, (omega (arith, lt), ready, id)),
    )

IsServed-by :
    (wans : List WanConfig) (s : Slots) (g : Counters) (pid : ℤ) (o : Option ℕ)
    → OneEach s
    → fwd_crypto_profile_slot_for_id s pid ≡ o
    → IsServed s pid (after_alloc wans g (alloc_unless s pid o))
unfolding after_alloc alloc_unless fwd_crypto_profile_slot_for_id
IsServed-by wans s g pid none one found = IsServed-free wans s g pid _ one found refl
IsServed-by wans s g pid (some i) one found =
    let (lt, r, id) = slot_loop-some s pid max_profiles 0 i found in
    rw (made_ready-old wans s g i r) (one, λ k has. refl, λ e. (i, (omega (arith, lt), r, id)))

pub one_profile-IsServed :
    (wans : List WanConfig) (s : Slots) (g : Counters) (pid : ℤ)
    → OneEach s
    → IsServed s pid (one_profile wans pid (s, g))
unfolding one_profile profile_slot_alloc
one_profile-IsServed wans s g pid one = IsServed-by wans s g pid _ one refl
