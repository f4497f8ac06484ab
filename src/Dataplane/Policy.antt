-- ===== src/Dataplane/Policy.antt =====
-- The profile and the policy of a packet from a LAN: `pick_profile_policy` of
-- src/core/dataplane_local.c. Where the source keeps the priority and the id of the best policy beside
-- it, they are read from it. No flow stands for `flow_ok` 0.
use ne_multi_core.Base.{
  ℕ, ◌+◌, ◌≡◌, refl, ◌∙◌, inl, inr, arith, Bool, true, false, ◌&&◌, ◌||◌, not, Option, none, some,
  List, [], ◌∷◌, In, if◌then◌else◌, Bool-cases,
}
use ne_multi_core.Base.Int.{ℤ, pos, ltb_ℤ, eqb_ℤ, eq_of_parts}
use ne_multi_core.Config.{AppConfig, ProfileConfig, CryptoPolicy}
use ne_multi_core.Config.Policy.{Flow, config_select_crypto_policy}
use ne_multi_core.Config.Policy.Select.{Precedes, Precedes-refl, Precedes-trans}

-- The index of a profile, and its policy.
abbrev pub Picked : Type 0
Picked = ℕ × CryptoPolicy

unfoldable pub has_local : List ℤ → ℤ → Bool
has_local [] local_idx = false
has_local (i ∷ is) local_idx = eqb_ℤ i local_idx || has_local is local_idx

unfoldable pub select_if : AppConfig → Option Flow → ℕ → Option CryptoPolicy
select_if cfg none pi = none
select_if cfg (some f) pi = config_select_crypto_policy cfg (pos pi) f

unfoldable pub goes_first : CryptoPolicy → CryptoPolicy → Bool
goes_first c best =
    ltb_ℤ c.priority best.priority || (eqb_ℤ c.priority best.priority && ltb_ℤ c.id best.id)

-- The best so far, after the policy of the profile at `pi`.
unfoldable pub prefer : ℕ → Option CryptoPolicy → Option Picked → Option Picked
unfolding goes_first
prefer pi none best = best
prefer pi (some c) none = some (pi, c)
prefer pi (some c) (some best) = if goes_first c best.1 then some (pi, c) else some best

-- The policy that a profile offers for packets of the LAN.
unfoldable pub offer : AppConfig → ℤ → Option Flow → ProfileConfig → ℕ → Option CryptoPolicy
unfolding has_local select_if
offer cfg local_idx f p pi =
    if not p.enabled
    then none
    else if not (has_local p.local_indices local_idx)
    then none
    else select_if cfg f pi

unfoldable pub pick_loop :
    AppConfig → ℤ → Option Flow → List ProfileConfig → ℕ → Option Picked → Option Picked
unfolding prefer offer
pick_loop cfg local_idx f [] pi best = best
pick_loop cfg local_idx f (p ∷ ps) pi best =
    pick_loop cfg local_idx f ps (pi + 1) (prefer pi (offer cfg local_idx f p pi) best)

-- `none` is the -1 of the source.
unfoldable pub pick_profile_policy : AppConfig → ℤ → Option Flow → Option Picked
unfolding pick_loop
pick_profile_policy cfg local_idx f = pick_loop cfg local_idx f cfg.profiles 0 none

-- The offers of the profiles, with their indices.
abbrev prepend_offer : ℕ → Option CryptoPolicy → List Picked → List Picked
prepend_offer pi none l = l
prepend_offer pi (some c) l = (pi, c) ∷ l

abbrev pub offers_from : AppConfig → ℤ → Option Flow → List ProfileConfig → ℕ → List Picked
offers_from cfg local_idx f [] pi = []
offers_from cfg local_idx f (p ∷ ps) pi =
    prepend_offer pi (offer cfg local_idx f p pi) (offers_from cfg local_idx f ps (pi + 1))

abbrev pub First : Picked → List Picked → Type 0
First b [] = Unit
First b (x ∷ xs) = Precedes b.1 x.1 × First b xs

-- The best of a list of offers: one of them that no other goes before, or none of none.
abbrev pub IsPick : List Picked → Option Picked → Type 0
IsPick l none = l ≡ []
IsPick l (some b) = In b l × First b l

goes_first-Precedes : (c x : CryptoPolicy) → goes_first c x ≡ true → Precedes c x
unfolding goes_first
goes_first-Precedes c x h = ground (arith, eq_of_parts c.priority x.priority)

not_first-Precedes : (c x : CryptoPolicy) → goes_first c x ≡ false → Precedes x c
unfolding goes_first
not_first-Precedes c x h = ground (arith, eq_of_parts x.priority c.priority)

fold_offers : Option Picked → List Picked → Option Picked
fold_offers best [] = best
fold_offers best (x ∷ xs) = fold_offers (prefer x.0 (some x.1) best) xs

fold_some :
    (b : Picked) (xs : List Picked)
    → (r : Picked) × (fold_offers (some b) xs ≡ some r) × In r (b ∷ xs) × First r (b ∷ xs)
unfolding fold_offers prefer
fold_some b [] = (b, refl, inl refl, (Precedes-refl b.1, tt))
fold_some b (x ∷ xs) = elim (Bool-cases (goes_first x.1 b.1)) [
  | inl h ↦
      let (r, e, i, (px, pxs)) = fold_some x xs in
      let pb = Precedes-trans r.1 x.1 b.1 px (goes_first-Precedes x.1 b.1 h) in
      rw h (r, e, inr i, (pb, (px, pxs)))
  | inr h ↦
      let (r, e, i, (pb, pxs)) = fold_some b xs in
      let px = Precedes-trans r.1 b.1 x.1 pb (not_first-Precedes x.1 b.1 h) in
      rw h (r, e, elim i [ inl s ↦ inl s | inr s ↦ inr (inr s) ], (pb, (px, pxs)))
]

fold-IsPick : (l : List Picked) → IsPick l (fold_offers none l)
unfolding fold_offers prefer
fold-IsPick [] = refl
fold-IsPick (x ∷ xs) = let (r, e, i, p) = fold_some x xs in rw e (i, p)

pick_loop-fold :
    (cfg : AppConfig) (local_idx : ℤ) (f : Option Flow) (ps : List ProfileConfig) (pi : ℕ)
    (best : Option Picked)
    → pick_loop cfg local_idx f ps pi best ≡ fold_offers best (offers_from cfg local_idx f ps pi)
unfolding pick_loop fold_offers
pick_loop-fold cfg local_idx f [] pi best = refl
pick_loop-fold cfg local_idx f (p ∷ ps) pi best =
    pick_loop-fold cfg local_idx f ps (pi + 1) (prefer pi (offer cfg local_idx f p pi) best)
    ∙ prepended (offer cfg local_idx f p pi) pi best (offers_from cfg local_idx f ps (pi + 1))
  where
    prepended :
        (o : Option CryptoPolicy) (pi : ℕ) (best : Option Picked) (l : List Picked)
        → fold_offers (prefer pi o best) l ≡ fold_offers best (prepend_offer pi o l)
    prepended none pi best l = refl
    prepended (some c) pi best l = refl

-- `pick_profile_policy` returns the offer that no other goes before, by priority number and then by
-- id, among the policies that the enabled profiles with this LAN select for the flow, with the
-- profile that makes it; it returns none exactly if no profile makes an offer.
pub pick_profile_policy-IsPick :
    (cfg : AppConfig) (local_idx : ℤ) (f : Option Flow)
    → IsPick (offers_from cfg local_idx f cfg.profiles 0) (pick_profile_policy cfg local_idx f)
unfolding pick_profile_policy
pick_profile_policy-IsPick cfg local_idx f =
    rw (pick_loop-fold cfg local_idx f cfg.profiles 0 none) (fold-IsPick _)
