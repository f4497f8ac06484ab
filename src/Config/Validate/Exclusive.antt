-- ===== src/Config/Validate/Exclusive.antt =====
-- An interface belongs to one profile in a configuration that `config_validate` accepts.
use ne_multi_core.Base.{
  get_elem?-lt, ◌≡◌, ◌≢◌, refl, ap, ◌∙◌, arith, Bool, true, false, some, List, [], ◌∷◌, All, In,
  inl, inr,
}
use ne_multi_core.Base.Int.{ℤ, pos, negsuc, ◌<ℤ◌, eqb_ℤ_refl}
use ne_multi_core.Config.{AppConfig, ProfileConfig, LocalConfig, WanConfig, get_at}
use ne_multi_core.Config.Owner.{
  has_index, owner_loop-pos, config_local_owner_profile, config_wan_owner_profile,
}
use ne_multi_core.Config.Validate.{
  none_bad, local_taken, wan_taken, profile_bad, config_validate_profiles, config_validate,
}

pub none_bad-In :
    {A : Type 0} (bad : A → Bool) (xs : List A) (x : A)
    → none_bad bad xs ≡ true
    → In x xs
    → bad x ≡ false
unfolding none_bad
none_bad-In bad [] x h i = absurd i
none_bad-In bad (y ∷ ys) x h (inl e) = ap bad e ∙ ground arith
none_bad-In bad (y ∷ ys) x h (inr i) = none_bad-In bad ys x (ground arith) i

In-has_index : (xs : List ℤ) (idx : ℤ) → In idx xs → has_index xs idx ≡ true
unfolding has_index
In-has_index [] idx i = absurd i
In-has_index (x ∷ xs) idx (inl e) = rw e (rw (eqb_ℤ_refl x) refl)
In-has_index (x ∷ xs) idx (inr i) = ground (arith, In-has_index xs idx i)

-- What a configuration must say for the interfaces of its profiles to be distinguishable.
abbrev pub IdsPositive : AppConfig → Type 0
IdsPositive cfg = All (λ (p : ProfileConfig). pos 0 <ℤ p.id) cfg.profiles

module _ (cfg : AppConfig) (ids : IdsPositive cfg) (q : ProfileConfig) (i : In q cfg.profiles) where
  local_taken_lem :
      (idx : ℤ) (profile_id : ℤ) (l : LocalConfig)
      → get_at cfg.locals idx ≡ some l
      → has_index q.local_indices idx ≡ true
      → q.id ≢ profile_id
      → local_taken cfg profile_id idx ≡ true
  unfolding local_taken config_local_owner_profile
  local_taken_lem (negsuc k) profile_id l e h ne = cc
  local_taken_lem (pos k) profile_id l e h ne = ground (
    arith,
    e,
    get_elem?-lt cfg.locals k l e,
    owner_loop-pos (λ p. p.local_indices) cfg.profiles q (pos k) profile_id ids i ne h,
  )

  wan_taken_lem :
      (idx : ℤ) (profile_id : ℤ) (w : WanConfig)
      → get_at cfg.wans idx ≡ some w
      → has_index q.wan_indices idx ≡ true
      → q.id ≢ profile_id
      → wan_taken cfg profile_id idx ≡ true
  unfolding wan_taken config_wan_owner_profile
  wan_taken_lem (negsuc k) profile_id w e h ne = cc
  wan_taken_lem (pos k) profile_id w e h ne = ground (
    arith,
    e,
    get_elem?-lt cfg.wans k w e,
    owner_loop-pos (λ p. p.wan_indices) cfg.profiles q (pos k) profile_id ids i ne h,
  )

profile_good :
    (cfg : AppConfig) (p : ProfileConfig)
    → profile_bad cfg p ≡ false
    → (none_bad (local_taken cfg p.id) p.local_indices ≡ true)
      × (none_bad (wan_taken cfg p.id) p.wan_indices ≡ true)
unfolding profile_bad
profile_good cfg p h = ground arith

validated_profiles :
    (cfg : AppConfig) → config_validate cfg ≡ true → none_bad (profile_bad cfg) cfg.profiles ≡ true
unfolding config_validate config_validate_profiles
validated_profiles cfg h = ground arith

-- In a configuration that `config_validate` accepts, two profiles with different ids share neither a
-- configured LAN nor a configured WAN, if all profile ids are positive.
pub validate-exclusive :
    (cfg : AppConfig) (p q : ProfileConfig) (idx : ℤ)
    → config_validate cfg ≡ true
    → IdsPositive cfg
    → In p cfg.profiles
    → In q cfg.profiles
    → q.id ≢ p.id
    → ((l : LocalConfig)
        → get_at cfg.locals idx ≡ some l
        → In idx p.local_indices
        → ¬ In idx q.local_indices)
      × ((w : WanConfig)
          → get_at cfg.wans idx ≡ some w
          → In idx p.wan_indices
          → ¬ In idx q.wan_indices)
validate-exclusive cfg p q idx h ids ip iq ne =
    let ok = none_bad-In (profile_bad cfg) cfg.profiles p (validated_profiles cfg h) ip in
    let (locals_ok, wans_ok) = profile_good cfg p ok in
    (
      λ l e a b. cc (
        none_bad-In (local_taken cfg p.id) p.local_indices idx locals_ok a,
        local_taken_lem cfg ids q iq idx p.id l e (In-has_index q.local_indices idx b) ne,
      ),
      λ w e a b. cc (
        none_bad-In (wan_taken cfg p.id) p.wan_indices idx wans_ok a,
        wan_taken_lem cfg ids q iq idx p.id w e (In-has_index q.wan_indices idx b) ne,
      ),
    )
