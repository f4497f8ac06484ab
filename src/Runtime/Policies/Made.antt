-- ===== src/Runtime/Policies/Made.antt =====
-- Which contexts the loop over the policies makes, src/core/forwarder_crypto_runtime.c.
use mathlib.Core.Option.{some-injective}
use native.Mathlib.Decide.{ℕ_discrete}
use ne_multi_core.Base.{
  ℕ, suc, ◌+◌, ◌<◌, ◌≤◌, ◌≡◌, ◌≢◌, refl, sym, ap, subst, ◌∙◌, arith, inl, inr, true, false, ◌&&◌,
  Option, none, some, List, [], ◌∷◌, length, get_elem?, ◌==◌, Bool-cases, &&-true,
}
use ne_multi_core.Base.Int.{ℤ, pos_part, eqb_ℤ, eqb_ℤ→eq}
use ne_multi_core.Config.{CryptoPolicy}
use ne_multi_core.Runtime.Policies.{
  Context, Making, Generation, update_at, crypto_action_valid, has_wire_id,
}
use ne_multi_core.Runtime.Policies.Rebuild.{
  context_of, with_context, indexed, one_policy, policies_loop,
}

-- A context at `i` is as `o` says.
abbrev pub AsMade : Option Context → Generation → ℕ → Type 0
AsMade none g i = g.ready i ≡ false
AsMade (some k) g i = (g.ready i ≡ true) × (g.contexts i ≡ k)

-- The policy that an action and an id lead to has them.
abbrev pub IsIndexed : Generation → Type 0
IsIndexed g =
    (a : ℤ) (id : ℕ) (j : ℕ)
    → g.index a id ≡ some j
    → (cp : CryptoPolicy) × (get_elem? g.policies j ≡ some cp)
      × (cp.action ≡ a)
      × (has_wire_id cp ≡ true)
      × (pos_part cp.id ≡ id)
      × (crypto_action_valid cp.action ≡ true)

module _ (m : Making) (old : Generation) where
  -- The contexts of the first `n` policies are made, and no others.
  abbrev pub IsMade : Generation → ℕ → Type 0
  IsMade g n =
      ((j : ℕ) (cp : CryptoPolicy)
        → j < n
        → get_elem? g.policies j ≡ some cp
        → crypto_action_valid cp.action ≡ true
        → AsMade (context_of m old cp) g j)
      × ((j : ℕ) → n ≤ j → g.ready j ≡ false)

  with_context-AsMade :
      (i : ℕ) (o : Option Context) (g : Generation)
      → g.ready i ≡ false
      → AsMade o (with_context i o g) i
  unfolding with_context
  with_context-AsMade i none g r = r
  with_context-AsMade i (some k) g r = (ground arith, ground arith)

  with_context-others :
      (i : ℕ) (o : Option Context) (g : Generation) (j : ℕ)
      → j ≢ i
      → ((with_context i o g).ready j ≡ g.ready j)
        × ((with_context i o g).contexts j ≡ g.contexts j)
  unfolding with_context
  with_context-others i none g j ne = (refl, refl)
  with_context-others i (some k) g j ne = (ground (arith, ne), ground (arith, ne))

  AsMade-same :
      (o : Option Context) (g g' : Generation) (j : ℕ)
      → g'.ready j ≡ g.ready j
      → g'.contexts j ≡ g.contexts j
      → AsMade o g j
      → AsMade o g' j
  AsMade-same none g g' j r c x = r ∙ x
  AsMade-same (some k) g g' j r c x = (r ∙ x.0, c ∙ x.1)

  with_context-fields :
      (i : ℕ) (o : Option Context) (g : Generation)
      → ((with_context i o g).index ≡ g.index) × ((with_context i o g).policies ≡ g.policies)
  unfolding with_context
  with_context-fields i none g = (refl, refl)
  with_context-fields i (some k) g = (refl, refl)

  -- The policy at `i` is put under its action and id.
  put-IsIndexed :
      (i : ℕ) (cp : CryptoPolicy) (g : Generation)
      → get_elem? g.policies i ≡ some cp
      → crypto_action_valid cp.action ≡ true
      → has_wire_id cp ≡ true
      → IsIndexed g
      → IsIndexed (record g { index = update_at g.index cp.action (pos_part cp.id) (some i) })
  put-IsIndexed i cp g here valid wire x a id j e =
      elim (Bool-cases (eqb_ℤ a cp.action && (id == pos_part cp.id))) [
        | inl hit ↦
            let same : i ≡ j = some-injective _ _ (rw hit at e) in
            let (ea, ei) = &&-true (eqb_ℤ a cp.action) (id == pos_part cp.id) hit in
            (
              cp,
              ap (get_elem? g.policies) (sym same) ∙ here,
              sym (eqb_ℤ→eq a cp.action ea),
              wire,
              ground (arith, ei),
              valid,
            )
        | inr miss ↦ x a id j (rw miss at e)
      ]

  indexed-IsIndexed :
      (i : ℕ) (cp : CryptoPolicy) (g : Generation)
      → get_elem? g.policies i ≡ some cp
      → crypto_action_valid cp.action ≡ true
      → IsIndexed g
      → IsIndexed (indexed i cp g)
  unfolding indexed
  indexed-IsIndexed i cp g here valid x = elim (Bool-cases (has_wire_id cp)) [
    | inr out ↦ rw out x
    | inl wire ↦ rw wire (put-IsIndexed i cp g here valid wire x)
  ]

  indexed-fields :
      (i : ℕ) (cp : CryptoPolicy) (g : Generation)
      → ((indexed i cp g).ready ≡ g.ready)
        × ((indexed i cp g).contexts ≡ g.contexts)
        × ((indexed i cp g).policies ≡ g.policies)
  unfolding indexed
  indexed-fields i cp g = elim (Bool-cases (has_wire_id cp)) [
    | inl h ↦ rw h (refl, refl, refl)
    | inr h ↦ rw h (refl, refl, refl)
  ]

  -- The step of policy `n` leaves the others as they are, and makes its context if its action is valid.
  abbrev StepsTo : ℕ → CryptoPolicy → Generation → Generation → Type 0
  StepsTo n cp g g' =
      (g'.policies ≡ g.policies)
      × (IsIndexed g → IsIndexed g')
      × ((j : ℕ) → j ≢ n → (g'.ready j ≡ g.ready j) × (g'.contexts j ≡ g.contexts j))
      × (crypto_action_valid cp.action ≡ true → AsMade (context_of m old cp) g' n)

  one_policy-StepsTo :
      (n : ℕ) (cp : CryptoPolicy) (g : Generation)
      → get_elem? g.policies n ≡ some cp
      → g.ready n ≡ false
      → StepsTo n cp g (one_policy m old n cp g)
  unfolding one_policy
  one_policy-StepsTo n cp g here unready = elim (Bool-cases (crypto_action_valid cp.action)) [
    | inr out ↦ rw out (refl, λ x. x, λ j ne. (refl, refl), λ e. absurd (cc e))
    | inl valid ↦
        let g1 = indexed n cp g in
        let o = context_of m old cp in
        let (r1, c1, p1) = indexed-fields n cp g in
        let (i2, p2) = with_context-fields n o g1 in
        rw valid (
          p2 ∙ p1,
          λ x a id j e.
              let (q, at, action, wire, number, good) =
                indexed-IsIndexed n cp g here valid x a id j (ap (λ f. f a id) (sym i2) ∙ e) in
              (q, ap (λ l. get_elem? l j) p2 ∙ at, action, wire, number, good),
          λ j ne.
              let (r, c) = with_context-others n o g1 j ne in
              (r ∙ ap (λ f. f j) r1, c ∙ ap (λ f. f j) c1),
          λ e. with_context-AsMade n o g1 (ap (λ f. f n) r1 ∙ unready),
        )
  ]

  StepsTo-IsMade :
      (n : ℕ) (cp : CryptoPolicy) (g g' : Generation)
      → get_elem? g.policies n ≡ some cp
      → StepsTo n cp g g'
      → IsMade g n
      → IsMade g' (n + 1)
  StepsTo-IsMade n cp g g' here (p, x, others, made) (before, after) = (
    λ j q lt at valid. elim (ℕ_discrete j n) [
      | yes same ↦
          let e : cp ≡ q = some-injective _ _ (
            sym here
            ∙ ap (get_elem? g.policies) (sym same)
            ∙ ap (λ l. get_elem? l j) (sym p)
            ∙ at) in
          subst (λ (z : CryptoPolicy). AsMade (context_of m old z) g' j) e
            (subst (λ (z : ℕ). AsMade (context_of m old cp) g' z) (sym same)
              (made (ap (λ (z : CryptoPolicy). crypto_action_valid z.action) e ∙ valid)))
      | no ne ↦
          let (r, c) = others j ne in
          AsMade-same (context_of m old q) g g' j r c
            (before j q (omega (arith, ne, lt)) (ap (λ l. get_elem? l j) (sym p) ∙ at) valid)
    ],
    λ j le. (others j (λ e. absurd (omega (arith, e)))).0 ∙ after j (omega arith),
  )

  pub policies_loop-IsMade :
      (cps : List CryptoPolicy) (n : ℕ) (g : Generation)
      → ((k : ℕ) → get_elem? g.policies (n + k) ≡ get_elem? cps k)
      → IsMade g n
      → IsIndexed g
      → let g' = policies_loop m old cps n g in
        (g'.policies ≡ g.policies) × IsMade g' (n + length cps) × IsIndexed g'
  unfolding policies_loop
  policies_loop-IsMade [] n g at made x =
      (refl, subst (λ (z : ℕ). IsMade g z) (omega arith) made, x)
  policies_loop-IsMade (cp ∷ cps) n g at made x =
      let here : get_elem? g.policies n ≡ some cp =
        ap (get_elem? g.policies) (omega arith) ∙ at 0 in
      let step = one_policy-StepsTo n cp g here (made.1 n (omega arith)) in
      let g1 = one_policy m old n cp g in
      let (p, made', x') =
        policies_loop-IsMade cps (n + 1) g1
          (λ k.
            ap (λ l. get_elem? l (n + 1 + k)) step.0
            ∙ ap (get_elem? g.policies) (omega arith)
            ∙ at (suc k))
          (StepsTo-IsMade n cp g g1 here step made) (step.1 x) in
      (
        p ∙ step.0,
        subst (λ (z : ℕ). IsMade (policies_loop m old cps (n + 1) g1) z) (omega arith) made',
        x',
      )
