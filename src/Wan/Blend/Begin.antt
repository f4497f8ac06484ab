-- ===== src/Wan/Blend/Begin.antt =====
-- The start of a gradual change of weights, `fwd_wan_weight_blend_begin` of src/core/forwarder_wan.c. The
-- function pointer that gives the slot of a profile is an argument, `none` for its negative results (and
-- everywhere, for a null pointer). A profile has at most MAX_PROFILE_INTERFACES WANs.
use mathlib.Core.Option.{some-injective}
use ne_multi_core.Base.{
  ℕ, zero, suc, ◌+◌, ◌%◌, ◌≡◌, refl, sym, ap, ◌∙◌, arith, Bool, true, false, ◌&&◌, not, Option,
  none, some, List, [], ◌∷◌, map, length, set, All, In, ◌==◌, if◌then◌else◌, Bool-cases, inl, inr,
  ◌⊎◌,
}
use ne_multi_core.Base.Int.{ℤ, eqb_ℤ, eqb_ℤ→eq}
use ne_multi_core.Config.{AppConfig, ProfileConfig}
use ne_multi_core.Wan.{wan_drain_grace_ms}
use ne_multi_core.Wan.Blend.{Blend}

-- MAX_PROFILES.
abbrev max_profiles : ℕ
max_profiles = 32

profile_by_id : List ProfileConfig → ℤ → Option ProfileConfig
profile_by_id [] id = none
profile_by_id (p ∷ ps) id = let rest = profile_by_id ps id in if eqb_ℤ p.id id then some p else rest

same_list : List ℤ → List ℤ → Bool
same_list [] [] = true
same_list (a ∷ xs) (b ∷ ys) = eqb_ℤ a b && same_list xs ys
same_list _ _ = false

-- Whether the profile has as many WANs as before, and other WANs or other weights.
weights_changed : ProfileConfig → ProfileConfig → Bool
unfolding same_list
weights_changed op np =
    (length op.wan_indices == length np.wan_indices)
    && not (
        same_list op.wan_indices np.wan_indices
        && same_list op.wan_bandwidth_weight np.wan_bandwidth_weight)

new_blend : ℕ → ProfileConfig → ProfileConfig → Blend
new_blend now op np = record {
  active = true;
  profile_id = np.id;
  wan_cfg = np.wan_indices;
  old_w = op.wan_bandwidth_weight;
  new_w = np.wan_bandwidth_weight;
  start_ms = now;
  until_ms = now + wan_drain_grace_ms;
}

slot_or : Option ℕ → ℕ → ℕ
slot_or none pi = pi % max_profiles
slot_or (some slot) pi = slot

begin_one : ℕ → Option ProfileConfig → ProfileConfig → ℕ → List Blend → List Blend
unfolding weights_changed new_blend
begin_one now none np slot blends = blends
begin_one now (some op) np slot blends =
    if weights_changed op np then set blends slot (new_blend now op np) else blends

begin_loop :
    ℕ → List ProfileConfig → (ℤ → Option ℕ) → List ProfileConfig → ℕ → List Blend → List Blend
unfolding begin_one profile_by_id slot_or
begin_loop now old slot_for_id [] pi blends = blends
begin_loop now old slot_for_id (np ∷ nps) pi blends =
    begin_loop now old slot_for_id nps (pi + 1)
      (begin_one now (profile_by_id old np.id) np (slot_or (slot_for_id np.id) pi) blends)

ended : Blend → Blend
ended b = record b { active = false }

pub fwd_wan_weight_blend_begin :
    ℕ → AppConfig → AppConfig → (ℤ → Option ℕ) → List Blend → List Blend
unfolding begin_loop ended
fwd_wan_weight_blend_begin now old cfg slot_for_id blends =
    begin_loop now old.profiles slot_for_id cfg.profiles 0 (map ended blends)

-- A blend that is over, or one that begins now and goes from the weights of a profile in the old
-- configuration to those of the profile with the same id in the new one.
abbrev pub IsBegun : ℕ → List ProfileConfig → List ProfileConfig → Blend → Type 0
IsBegun now old nps b =
    (b.active ≡ false)
    ⊎ ((op : ProfileConfig) × (np : ProfileConfig) × In op old
        × In np nps
        × (op.id ≡ np.id)
        × (b.profile_id ≡ np.id)
        × (b.wan_cfg ≡ np.wan_indices)
        × (b.old_w ≡ op.wan_bandwidth_weight)
        × (b.new_w ≡ np.wan_bandwidth_weight)
        × (b.start_ms ≡ now)
        × (b.until_ms ≡ now + wan_drain_grace_ms))

profile_by_id-In :
    (ps : List ProfileConfig) (id : ℤ) (p : ProfileConfig)
    → profile_by_id ps id ≡ some p
    → In p ps × (p.id ≡ id)
unfolding profile_by_id
profile_by_id-In [] id p h = absurd (cc (h))
profile_by_id-In (x ∷ ps) id p h = elim (Bool-cases (eqb_ℤ x.id id)) [
  | inl t ↦
      let e : some x ≡ some p = ground (arith, h, t) in
      let f : x ≡ p = some-injective x p e in
      (inl (sym f), ap (λ t. t.id) (sym f) ∙ eqb_ℤ→eq x.id id t)
  | inr t ↦ let (i, e) = profile_by_id-In ps id p (ground (arith, h, t)) in (inr i, e)
]

All-set :
    {A : Type 0} (P : A → Type 0) (xs : List A) (i : ℕ) (a : A)
    → All P xs
    → P a
    → All P (set xs i a)
All-set P [] i a h k = tt
All-set P (x ∷ xs) zero a (p, h) k = (k, h)
All-set P (x ∷ xs) (suc i) a (p, h) k = (p, All-set P xs i a h k)

ended-IsBegun :
    (now : ℕ) (old nps : List ProfileConfig) (bs : List Blend)
    → All (IsBegun now old nps) (map ended bs)
unfolding ended
ended-IsBegun now old nps [] = tt
ended-IsBegun now old nps (b ∷ bs) = (inl refl, ended-IsBegun now old nps bs)

begin_one-IsBegun :
    (now : ℕ) (old nps : List ProfileConfig) (o : Option ProfileConfig) (np : ProfileConfig)
    (slot : ℕ) (bs : List Blend)
    → profile_by_id old np.id ≡ o
    → In np nps
    → All (IsBegun now old nps) bs
    → All (IsBegun now old nps) (begin_one now o np slot bs)
unfolding begin_one new_blend
begin_one-IsBegun now old nps none np slot bs e i h = h
begin_one-IsBegun now old nps (some op) np slot bs e i h =
    let (j, same) = profile_by_id-In old np.id op e in
    elim (Bool-cases (weights_changed op np)) [
      | inl t ↦ rw t (
          All-set (IsBegun now old nps) bs slot (new_blend now op np) h
            (inr (op, np, j, i, same, refl, refl, refl, refl, refl, refl)))
      | inr t ↦ rw t h
    ]

begin_loop-IsBegun :
    (now : ℕ) (old nps : List ProfileConfig) (slot_for_id : ℤ → Option ℕ)
    (rest : List ProfileConfig) (pi : ℕ) (bs : List Blend)
    → ((p : ProfileConfig) → In p rest → In p nps)
    → All (IsBegun now old nps) bs
    → All (IsBegun now old nps) (begin_loop now old slot_for_id rest pi bs)
unfolding begin_loop
begin_loop-IsBegun now old nps slot_for_id [] pi bs sub h = h
begin_loop-IsBegun now old nps slot_for_id (np ∷ rest) pi bs sub h =
    begin_loop-IsBegun now old nps slot_for_id rest (pi + 1) _ (λ p i. sub p (inr i))
      (begin_one-IsBegun now old nps (profile_by_id old np.id) np _ bs refl (sub np (inl refl)) h)

-- After a change of configuration every blend that is active begins now, lasts five seconds, and leads
-- from the weights that a profile had to those that it has, with the WANs that it has; no blend of an
-- earlier change goes on.
pub blend_begin-IsBegun :
    (now : ℕ) (old cfg : AppConfig) (slot_for_id : ℤ → Option ℕ) (blends : List Blend)
    → All
        (IsBegun now old.profiles cfg.profiles)
        (fwd_wan_weight_blend_begin now old cfg slot_for_id blends)
unfolding fwd_wan_weight_blend_begin
blend_begin-IsBegun now old cfg slot_for_id blends =
    begin_loop-IsBegun now old.profiles cfg.profiles slot_for_id cfg.profiles 0 (map ended blends)
      (λ p i. i) (ended-IsBegun now old.profiles cfg.profiles blends)
