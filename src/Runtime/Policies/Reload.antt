-- ===== src/Runtime/Policies/Reload.antt =====
-- What a reload keeps of the contexts, src/core/forwarder_crypto_runtime.c.
use mathlib.Core.Option.{some-injective}
use ne_multi_core.Base.{
  ℕ, zero, suc, ◌≡◌, refl, sym, ap, subst, lt→ltb, get_elem?-lt, ◌∙◌, arith, ◌⊎◌, inl, inr, true,
  ◌&&◌, not, Option, none, some, List, [], ◌∷◌, length, take, get_elem?, Bool-cases, ==_refl,
}
use ne_multi_core.Base.Int.{ℤ, pos_part, eqb_ℤ, eqb_ℤ_refl}
use ne_multi_core.Config.{AppConfig, ProfileConfig, CryptoPolicy}
use ne_multi_core.Fragment.LayerFour.{max_crypto_policies}
use ne_multi_core.Runtime.{max_profiles}
use ne_multi_core.Runtime.Policies.Made.{IsIndexed, IsMade, AsMade, policies_loop-IsMade}
use ne_multi_core.Runtime.Policies.{
  crypto_mode_pqc, Context, Making, Generation, crypto_action_valid, same_bytes, has_wire_id,
  with_policy, found_at, found, or_found,
}
use ne_multi_core.Runtime.Policies.Rebuild.{
  reuse, reused, context_of, policies_loop, policy_at, link_policy, links_loop, profiles_loop,
  emptied, rebuilt,
}

-- The loops over the profiles leave all but the profiles and the ids of contexts as it is.
abbrev SameKeys : Generation → Generation → Type 0
SameKeys g g' =
    (g'.policies ≡ g.policies)
    × (g'.index ≡ g.index)
    × (g'.ready ≡ g.ready)
    × ((i : ℕ) → (g'.contexts i).keys ≡ (g.contexts i).keys)

SameKeys-trans : (g g1 g2 : Generation) → SameKeys g g1 → SameKeys g1 g2 → SameKeys g g2
SameKeys-trans g g1 g2 (p, x, r, k) (p', x', r', k') = (p' ∙ p, x' ∙ x, r' ∙ r, λ i. k' i ∙ k i)

link_policy-SameKeys :
    (pid : ℤ) (i : ℕ) (o : Option CryptoPolicy) (g : Generation)
    → SameKeys g (link_policy pid i o g)
unfolding link_policy
link_policy-SameKeys pid i none g = (refl, refl, refl, λ j. refl)
link_policy-SameKeys pid i (some cp) g = elim (Bool-cases (not (crypto_action_valid cp.action))) [
  | inl out ↦ rw out (refl, refl, refl, λ j. refl)
  | inr valid ↦ elim (Bool-cases (eqb_ℤ cp.crypto_mode crypto_mode_pqc && g.ready i)) [
    | inl h ↦ rw (valid, h) (refl, refl, refl, λ j. ground arith)
    | inr h ↦ rw (valid, h) (refl, refl, refl, λ j. refl)
  ]
]

links_loop-SameKeys :
    (cps : List CryptoPolicy) (pid : ℤ) (pis : List ℤ) (room : ℕ) (g : Generation)
    → SameKeys g (links_loop cps pid pis room g)
unfolding links_loop
links_loop-SameKeys cps pid [] room g = (refl, refl, refl, λ j. refl)
links_loop-SameKeys cps pid (pi ∷ pis) zero g = (refl, refl, refl, λ j. refl)
links_loop-SameKeys cps pid (pi ∷ pis) (suc room) g =
    let g1 = link_policy pid (pos_part pi) (policy_at cps pi) g in
    SameKeys-trans g g1 (links_loop cps pid pis room g1)
      (link_policy-SameKeys pid _ (policy_at cps pi) g) (links_loop-SameKeys cps pid pis room g1)

profiles_loop-SameKeys :
    (cps : List CryptoPolicy) (ps : List ProfileConfig) (room : ℕ) (g : Generation)
    → SameKeys g (profiles_loop cps ps room g)
unfolding profiles_loop
profiles_loop-SameKeys cps [] room g = (refl, refl, refl, λ j. refl)
profiles_loop-SameKeys cps (p ∷ ps) zero g = (refl, refl, refl, λ j. refl)
profiles_loop-SameKeys cps (p ∷ ps) (suc room) g =
    let g1 = links_loop cps p.id p.policy_indices max_crypto_policies g in
    SameKeys-trans g g1 (profiles_loop cps ps room g1)
      (links_loop-SameKeys cps p.id p.policy_indices max_crypto_policies g)
      (profiles_loop-SameKeys cps ps room g1)

-- Nothing that the keys depend on is different in two policies.
abbrev pub IsUnchanged : CryptoPolicy → CryptoPolicy → Type 0
IsUnchanged old_cp cp =
    (old_cp.crypto_mode ≡ cp.crypto_mode)
    × (old_cp.aes_bits ≡ cp.aes_bits)
    × ((cp.crypto_mode ≡ crypto_mode_pqc) ⊎ (old_cp.key ≡ cp.key))

same_bytes_refl : (l : List ℕ) → same_bytes l l ≡ true
same_bytes_refl [] = refl
same_bytes_refl (b ∷ bs) = rw (==_refl b) (same_bytes_refl bs)

reuse-unchanged :
    (cp old_cp : CryptoPolicy) (k : Context)
    → IsUnchanged old_cp cp
    → reuse cp (some (old_cp, k)) ≡ some k
unfolding reuse
reuse-unchanged cp old_cp k (mode, bits, inl pqc) =
    rw (mode, bits, eqb_ℤ_refl cp.crypto_mode, eqb_ℤ_refl cp.aes_bits, pqc) refl
reuse-unchanged cp old_cp k (mode, bits, inr key) =
    elim (Bool-cases (eqb_ℤ cp.crypto_mode crypto_mode_pqc)) [
      | inl pqc ↦ rw (mode, bits, eqb_ℤ_refl cp.crypto_mode, eqb_ℤ_refl cp.aes_bits, pqc) refl
      | inr other ↦
          rw
            (
              mode,
              bits,
              eqb_ℤ_refl cp.crypto_mode,
              eqb_ℤ_refl cp.aes_bits,
              other,
              key,
              same_bytes_refl cp.key,
            )
            refl
    ]

found_here :
    (g : Generation) (a : ℤ) (id i : ℕ) (cp : CryptoPolicy)
    → g.index a id ≡ some i
    → get_elem? g.policies i ≡ some cp
    → g.ready i ≡ true
    → found g a id ≡ some (cp, g.contexts i)
unfolding found found_at with_policy
found_here g a id i cp at here ready =
    rw (at, lt→ltb i (length g.policies) (get_elem?-lt g.policies i cp here), ready, here) refl

emptied-IsMade :
    (m : Making) (old : Generation) (cps : List CryptoPolicy)
    → IsMade m old (emptied old cps) 0 × IsIndexed (emptied old cps)
unfolding emptied
emptied-IsMade m old cps =
    ((λ j cp lt at valid. absurd (omega arith), λ j le. refl), λ a id j e. absurd (cc e))

context_of-unchanged :
    (m : Making) (old : Generation) (a : ℤ) (id : ℕ) (old_cp cp : CryptoPolicy) (k : Context)
    → found old a id ≡ some (old_cp, k)
    → cp.action ≡ a
    → has_wire_id cp ≡ true
    → pos_part cp.id ≡ id
    → IsUnchanged old_cp cp
    → context_of m old cp ≡ some k
unfolding context_of reused or_found
context_of-unchanged m old a id old_cp cp k was action wire number same =
    rw (wire, action, number, was, reuse-unchanged cp old_cp k same) refl

-- A policy that a rebuild finds under the action and the id of an old one whose context was ready, with
-- the same mode, key size and key, is ready at once and has the old keys.
pub rebuilt-keeps_keys :
    (m : Making) (cfg : AppConfig) (old : Generation) (a : ℤ) (id i : ℕ) (old_cp cp : CryptoPolicy)
    (k : Context)
    → found old a id ≡ some (old_cp, k)
    → (rebuilt m cfg old).index a id ≡ some i
    → get_elem? (take max_crypto_policies cfg.policies) i ≡ some cp
    → IsUnchanged old_cp cp
    → (k' : Context) × (found (rebuilt m cfg old) a id ≡ some (cp, k')) × (k'.keys ≡ k.keys)
unfolding rebuilt emptied
rebuilt-keeps_keys m cfg old a id i old_cp cp k was at here same =
    let cps = take max_crypto_policies cfg.policies in
    let g = policies_loop m old cps 0 (emptied old cps) in
    let g' = profiles_loop cfg.policies cfg.profiles max_profiles g in
    let (made0, x0) = emptied-IsMade m old cps in
    let (p, made, x) =
      policies_loop-IsMade m old cps 0 (emptied old cps) (λ j. ap (get_elem? cps) (omega arith))
        made0 x0 in
    let (p', x', r', keys) = profiles_loop-SameKeys cfg.policies cfg.profiles max_profiles g in
    let at' : g.index a id ≡ some i = ap (λ f. f a id) (sym x') ∙ at in
    let (q, at_q, action, wire, number, valid) = x a id i at' in
    let here' : get_elem? g.policies i ≡ some cp = ap (λ l. get_elem? l i) p ∙ here in
    let e : q ≡ cp = some-injective _ _ (sym at_q ∙ here') in
    let good : crypto_action_valid cp.action ≡ true =
      ap (λ (z : CryptoPolicy). crypto_action_valid z.action) (sym e) ∙ valid in
    let kept =
      context_of-unchanged m old a id old_cp cp k was
        (ap (λ (z : CryptoPolicy). z.action) (sym e) ∙ action)
        (ap (λ (z : CryptoPolicy). has_wire_id z) (sym e) ∙ wire)
        (ap (λ (z : CryptoPolicy). pos_part z.id) (sym e) ∙ number) same in
    let (ready, context) =
      subst (λ (o : Option Context). AsMade o g i) kept
        (made.0 i cp (ground (arith, get_elem?-lt g.policies i cp here', p)) here' good) in
    (
      g'.contexts i,
      found_here g' a id i cp at (ap (λ l. get_elem? l i) p' ∙ here') (ap (λ f. f i) r' ∙ ready),
      keys i ∙ ap (λ (z : Context). z.keys) context,
    )
