-- ===== src/CpuMap.antt =====
-- The cores of the threads, src/core/cpu_map.c and inc/core/cpu_map.h: the arrays, `ne_cpu_rx_lan` and its
-- like, and `ne_cpu_map_validate`. What it prints is left out.
use ne_multi_core.Base.{
  ℕ, ◌≡◌, refl, sym, ◌∙◌, ◌↔◌, inl, inr, arith, Bool, true, false, Option, none, some, List, [],
  ◌∷◌, ◌++◌, length, get_or, In, All, ltb, ◌==◌, if◌then◌else◌, Bool-cases,
}

abbrev pub ne_cpu_rx_lan_map : List ℕ
ne_cpu_rx_lan_map = 0 ∷ []

abbrev pub ne_cpu_tx_lan_map : List ℕ
ne_cpu_tx_lan_map = 1 ∷ 2 ∷ []

abbrev pub ne_cpu_crypto_map : List ℕ
ne_cpu_crypto_map = 3 ∷ 4 ∷ 5 ∷ 6 ∷ 7 ∷ 8 ∷ []

abbrev pub ne_cpu_tx_wan_map : List ℕ
ne_cpu_tx_wan_map = 9 ∷ 10 ∷ []

abbrev pub ne_cpu_rx_wan_map : List ℕ
ne_cpu_rx_wan_map = 11 ∷ []

-- The core of a thread; the first one for a number that is out of range.
unfoldable pub core_of : List ℕ → ℕ → ℕ
core_of cores slot = get_or cores (if ltb slot (length cores) then slot else 0) 0

unfoldable pub ne_cpu_crypto : ℕ → ℕ
unfolding core_of
ne_cpu_crypto worker = core_of ne_cpu_crypto_map worker

-- The cores of one group, which must not have been seen; `none` is the -1 of the source.
unfoldable pub claim_group : (ℕ → Bool) → List ℕ → Option (ℕ → Bool)
claim_group seen [] = some seen
claim_group seen (c ∷ cs) =
    let rest = claim_group (λ i. if i == c then true else seen i) cs in
    if seen c then none else rest

unfoldable pub claim_groups : Option (ℕ → Bool) → List (List ℕ) → Bool
unfolding claim_group
claim_groups none gs = false
claim_groups (some seen) [] = true
claim_groups (some seen) (g ∷ gs) = claim_groups (claim_group seen g) gs

-- Whether the groups are accepted.
unfoldable pub validate_groups : List (List ℕ) → Bool
unfolding claim_groups
validate_groups gs = claim_groups (some (λ i. false)) gs

unfoldable pub ne_cpu_map_validate : Bool
unfolding validate_groups
ne_cpu_map_validate = validate_groups (
    ne_cpu_rx_lan_map ∷ ne_cpu_tx_lan_map ∷ ne_cpu_crypto_map ∷ ne_cpu_tx_wan_map
    ∷ ne_cpu_rx_wan_map ∷ [])

abbrev pub all_cores : List (List ℕ) → List ℕ
all_cores [] = []
all_cores (g ∷ gs) = g ++ all_cores gs

abbrev pub Distinct : List ℕ → Type 0
Distinct [] = Unit
Distinct (x ∷ xs) = ¬ In x xs × Distinct xs

-- No core of the list has been seen, and none is there twice.
abbrev Fresh : (ℕ → Bool) → List ℕ → Type 0
Fresh seen l = All (λ (c : ℕ). seen c ≡ false) l × Distinct l

abbrev seeing : ℕ → (ℕ → Bool) → ℕ → Bool
seeing c seen i = if i == c then true else seen i

seeing_cases :
    (c : ℕ) (seen : ℕ → Bool) (x : ℕ) → seeing c seen x ≡ false → (seen x ≡ false) × ¬ (c ≡ x)
seeing_cases c seen x e = (ground (arith, e), λ s. ground (arith, e, s))

unseen_after :
    (c : ℕ) (seen : ℕ → Bool) (l : List ℕ)
    → All (λ (i : ℕ). seeing c seen i ≡ false) l
    → All (λ (i : ℕ). seen i ≡ false) l × (¬ In c l)
unseen_after c seen [] a = (tt, λ i. i)
unseen_after c seen (x ∷ l) (e, a) =
    let (rest, out) = unseen_after c seen l a in
    let (s, ne) = seeing_cases c seen x e in
    ((s, rest), λ i. elim i [ inl p ↦ ne p | inr q ↦ out q ])

still_unseen :
    (c : ℕ) (seen : ℕ → Bool) (l : List ℕ)
    → All (λ (i : ℕ). seen i ≡ false) l
    → ¬ In c l
    → All (λ (i : ℕ). seeing c seen i ≡ false) l
still_unseen c seen [] a out = tt
still_unseen c seen (x ∷ l) (e, a) out =
    let ne : ¬ (x ≡ c) = λ p. out (inl (sym p)) in
    (ground (arith, e, ne), still_unseen c seen l a (λ i. out (inr i)))

abbrev accepted : Option (ℕ → Bool) → Bool
accepted none = false
accepted (some seen) = true

-- Several groups are accepted like one list.
flat :
    (seen : ℕ → Bool) (g : List ℕ) (gs : List (List ℕ))
    → claim_groups (claim_group seen g) gs ≡ accepted (claim_group seen (g ++ all_cores gs))
unfolding claim_groups claim_group
flat seen [] [] = refl
flat seen [] (g ∷ gs) = flat seen g gs
flat seen (c ∷ cs) gs = elim (Bool-cases (seen c)) [
  | inl h ↦ rw h refl
  | inr h ↦ rw h (flat (seeing c seen) cs gs)
]

accepted→Fresh :
    (seen : ℕ → Bool) (l : List ℕ) → accepted (claim_group seen l) ≡ true → Fresh seen l
unfolding claim_group
accepted→Fresh seen [] e = (tt, tt)
accepted→Fresh seen (c ∷ cs) e = elim (Bool-cases (seen c)) [
  | inl h ↦ absurd (cc (rw h at e))
  | inr h ↦
      let (a, d) = accepted→Fresh (seeing c seen) cs (rw h at e) in
      let (rest, out) = unseen_after c seen cs a in ((h, rest), (out, d))
]

Fresh→accepted :
    (seen : ℕ → Bool) (l : List ℕ) → Fresh seen l → accepted (claim_group seen l) ≡ true
unfolding claim_group
Fresh→accepted seen [] f = refl
Fresh→accepted seen (c ∷ cs) ((h, a), (out, d)) =
    rw h (Fresh→accepted (seeing c seen) cs (still_unseen c seen cs a out, d))

none_seen : (l : List ℕ) → All (λ (c : ℕ). false ≡ false) l
none_seen [] = tt
none_seen (c ∷ cs) = (refl, none_seen cs)

-- The groups of cores are accepted exactly if no core is in two places, in one group or across them.
pub validate_groups_iff :
    (gs : List (List ℕ)) → (validate_groups gs ≡ true) ↔ Distinct (all_cores gs)
unfolding validate_groups
validate_groups_iff gs = (
  λ e. (accepted→Fresh (λ i. false) (all_cores gs) (sym (flat (λ i. false) [] gs) ∙ e)).1,
  λ d.
      flat (λ i. false) [] gs
      ∙ Fresh→accepted (λ i. false) (all_cores gs) (none_seen (all_cores gs), d),
)
