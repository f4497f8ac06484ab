-- ===== src/Wan/Select/Safe.antt =====
-- The WANs that the pool of a profile and the search for the least loaded WAN can give,
-- src/core/forwarder_wan.c.
use ne_multi_core.Base.{
  ℕ, zero, suc, ◌+◌, ◌-◌, ◌^◌, ◌<◌, ◌≡◌, refl, subst, arith, min, Bool, true, false, ◌&&◌, Option,
  none, some, List, [], ◌∷◌, length, get_elem?, ltb, ◌==◌, if◌then◌else◌, Bool-cases, Option-cases,
  inl, inr, ◌⊎◌,
}
use ne_multi_core.Base.Int.{ℤ, pos, ltb_ℤ, leb_ℤ}
use ne_multi_core.Config.{AppConfig, ProfileConfig}
use ne_multi_core.Config.WanIndex.{config_wan_cfg_to_dp}
use ne_multi_core.Wan.{
  WanState, Forwarder, max_interfaces, fwd_wan_dp_ok_for_new_traffic, fwd_wan_has_tx_room,
  wan_drain_taper_pct,
}
use ne_multi_core.Wan.Blend.{Blend, profile_wan_weight_blended}
use ne_multi_core.Wan.Select.{
  Allowed, tapered_weight, is_tapering, Least, usable, consider, least_in_profile, least_of_all,
  or_selected, least_loaded, pick_least_loaded_wan, fwd_mid_to_wan_depth,
}

-- One of the WANs of two parallel lists, with its weight as a running change of weights makes it, whose
-- slot takes new traffic.
abbrev pub IsOwn :
    ℕ → AppConfig → WanState → List Blend → ProfileConfig → List ℤ → List ℤ → Allowed → Type 0
IsOwn now cfg s blends p wis ws a =
    ((i : ℕ) × (w : ℤ) × (dp : ℕ) × (get_elem? wis i ≡ some a.0)
      × (get_elem? ws i ≡ some w)
      × (a.1 ≡ profile_wan_weight_blended now blends p a.0 w)
      × (config_wan_cfg_to_dp cfg a.0 ≡ some dp)
      × (fwd_wan_dp_ok_for_new_traffic s dp ≡ true))

-- A WAN that drains and has time left, with what is left of its weight.
abbrev pub IsDraining : ℕ → WanState → ℕ → Allowed → Type 0
IsDraining now s slots a =
    ((dp : ℕ) × (dp < slots)
      × (a.0 ≡ pos (s.drains dp).legacy_cfg_wan)
      × (is_tapering now s dp ≡ true)
      × (a.1 ≡ tapered_weight (s.drains dp).seed_weight (wan_drain_taper_pct now s dp))
      × (ltb_ℤ (pos 0) a.1 ≡ true))

-- A WAN of the profile that takes new traffic, or one that drains and has time left.
abbrev pub IsServed :
    ℕ → AppConfig → Forwarder → WanState → List Blend → ProfileConfig → Allowed → Type 0
IsServed now cfg fwd s blends p a =
    IsOwn now cfg s blends p p.wan_indices p.wan_bandwidth_weight a
    ⊎ IsDraining now s (min fwd.wan_count max_interfaces) a

-- Nothing was found, or a usable WAN.
abbrev IsUsable : ℕ → Forwarder → WanState → Option ℕ → Type 0
IsUsable worker fwd s none = Unit
IsUsable worker fwd s (some dp) = usable worker fwd s dp ≡ true

consider-IsUsable :
    (worker : ℕ) (fwd : Forwarder) (s : WanState) (o : Option ℕ) (best : Least)
    → IsUsable worker fwd s best.0
    → IsUsable worker fwd s (consider worker fwd s o best).0
unfolding consider
consider-IsUsable worker fwd s none best h = h
consider-IsUsable worker fwd s (some dp) best h = elim (Bool-cases (usable worker fwd s dp)) [
  | inl u ↦ elim (Bool-cases (ltb (fwd_mid_to_wan_depth fwd dp) best.1)) [
    | inl l ↦ rw (u, l) u
    | inr l ↦ rw (u, l) h
  ]
  | inr u ↦ rw u h
]

if-IsUsable :
    (worker : ℕ) (fwd : Forwarder) (s : WanState) (b : Bool) (x y : Least)
    → IsUsable worker fwd s x.0
    → IsUsable worker fwd s y.0
    → IsUsable worker fwd s (if b then x else y).0
if-IsUsable worker fwd s true x y h k = h
if-IsUsable worker fwd s false x y h k = k

least_in_profile-IsUsable :
    (worker : ℕ) (cfg : AppConfig) (fwd : Forwarder) (s : WanState) (sumw : ℕ) (wis ws : List ℤ)
    (best : Least)
    → IsUsable worker fwd s best.0
    → IsUsable worker fwd s (least_in_profile worker cfg fwd s sumw wis ws best).0
unfolding least_in_profile
least_in_profile-IsUsable worker cfg fwd s sumw [] ws best h = h
least_in_profile-IsUsable worker cfg fwd s sumw (wi ∷ wis) [] best h = h
least_in_profile-IsUsable worker cfg fwd s sumw (wi ∷ wis) (w ∷ ws) best h =
    let kept = ltb 0 sumw && leb_ℤ w (pos 0) in
    let next = consider worker fwd s (config_wan_cfg_to_dp cfg wi) best in
    least_in_profile-IsUsable worker cfg fwd s sumw wis ws (if kept then best else next) (
      if-IsUsable worker fwd s kept best next h
        (consider-IsUsable worker fwd s (config_wan_cfg_to_dp cfg wi) best h))

least_of_all-IsUsable :
    (worker : ℕ) (fwd : Forwarder) (s : WanState) (left wi : ℕ) (best : Least)
    → IsUsable worker fwd s best.0
    → IsUsable worker fwd s (least_of_all worker fwd s left wi best).0
unfolding least_of_all
least_of_all-IsUsable worker fwd s zero wi best h = h
least_of_all-IsUsable worker fwd s (suc left) wi best h =
    least_of_all-IsUsable worker fwd s left (wi + 1) (consider worker fwd s (some wi) best)
      (consider-IsUsable worker fwd s (some wi) best h)

least_loaded-IsUsable :
    (worker : ℕ) (cfg : AppConfig) (fwd : Forwarder) (s : WanState) (p : Option ProfileConfig)
    → IsUsable worker fwd s (least_loaded worker cfg fwd s p)
unfolding least_loaded
least_loaded-IsUsable worker cfg fwd s none =
    least_of_all-IsUsable worker fwd s fwd.wan_count 0 (none, 2 ^ 32 - 1) tt
least_loaded-IsUsable worker cfg fwd s (some p) = elim (Bool-cases (length p.wan_indices == 0)) [
  | inl h ↦ rw h (least_of_all-IsUsable worker fwd s fwd.wan_count 0 (none, 2 ^ 32 - 1) tt)
  | inr h ↦ rw h (
      least_in_profile-IsUsable worker cfg fwd s _ p.wan_indices p.wan_bandwidth_weight
        (none, 2 ^ 32 - 1) tt)
]

-- A packet leaves by the WAN that was selected for it unless that has no room and another is better:
-- the WAN that the search puts in its place takes new traffic and has room in the ring.
pub pick_least_loaded-usable :
    (worker : ℕ) (cfg : AppConfig) (fwd : Forwarder) (s : WanState) (p : Option ProfileConfig)
    (selected : ℕ)
    → let picked = pick_least_loaded_wan worker cfg fwd s p selected in
      (picked ≡ selected)
      ⊎ ((fwd_wan_has_tx_room worker fwd selected ≡ false)
          × (fwd_wan_has_tx_room worker fwd picked ≡ true)
          × (fwd_wan_dp_ok_for_new_traffic s picked ≡ true))
unfolding pick_least_loaded_wan or_selected
pick_least_loaded-usable worker cfg fwd s p selected =
    let found = least_loaded worker cfg fwd s p in
    elim (Bool-cases (fwd_wan_has_tx_room worker fwd selected)) [
      | inl h ↦ inl (ground (arith, h))
      | inr h ↦ elim (Option-cases found) [
        | inl n ↦ inl (ground (arith, h, n))
        | inr (dp, e) ↦
            let u : usable worker fwd s dp ≡ true =
              subst (IsUsable worker fwd s) e (least_loaded-IsUsable worker cfg fwd s p) in
            rw (h, e) (inr (refl, ground (arith, u), ground (arith, u)))
      ]
    ]
