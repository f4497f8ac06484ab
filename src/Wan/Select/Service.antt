-- ===== src/Wan/Select/Service.antt =====
-- Whether the WAN that `fwd_wan_pick_for_local` of src/core/forwarder_wan.c gives is in service.
use ne_multi_core.Base.{
  ℕ, ◌<◌, ◌≡◌, refl, sym, subst, arith, Bool, true, false, ◌||◌, Option, none, some, List, length,
  leb, ◌==◌, Bool-cases, inl, inr, ◌⊎◌,
}
use ne_multi_core.Config.{AppConfig, ProfileConfig}
use ne_multi_core.Flow.Hash.{FlowKey}
use ne_multi_core.Wan.{
  WanState, Forwarder, max_interfaces, fwd_wan_dp_ok_for_new_traffic, fwd_wan_is_stopped,
}
use ne_multi_core.Wan.Blend.{Blend}
use ne_multi_core.Wan.Select.{
  Flows, choose_wan, dp_of, selected_dp, pick_least_loaded_wan, fwd_wan_build_profile_pool,
  fwd_wan_pick_for_local,
}
use ne_multi_core.Wan.Select.Safe.{pick_least_loaded-usable}

-- The first WAN, or one that is not stopped.
abbrev pub IsInService : WanState → ℕ → Type 0
IsInService s dp = (dp ≡ 0) ⊎ (fwd_wan_is_stopped s dp ≡ false)

ok-not_stopped :
    (s : WanState) (dp : ℕ)
    → fwd_wan_dp_ok_for_new_traffic s dp ≡ true
    → fwd_wan_is_stopped s dp ≡ false
unfolding fwd_wan_dp_ok_for_new_traffic fwd_wan_is_stopped
ok-not_stopped s dp h = ground (arith, h)

selected_dp-IsInService :
    (fwd : Forwarder) (s : WanState) (o : Option ℕ) → IsInService s (selected_dp fwd s o)
unfolding selected_dp
selected_dp-IsInService fwd s none = inl refl
selected_dp-IsInService fwd s (some dp) =
    elim (Bool-cases (leb fwd.wan_count dp || fwd_wan_is_stopped s dp)) [
      | inl h ↦ rw h (inl refl)
      | inr h ↦ rw h (inr (ground (arith, h)))
    ]

picked-IsInService :
    (worker : ℕ) (cfg : AppConfig) (fwd : Forwarder) (s : WanState) (p : Option ProfileConfig)
    (selected : ℕ)
    → IsInService s selected
    → IsInService s (pick_least_loaded_wan worker cfg fwd s p selected)
picked-IsInService worker cfg fwd s p selected h =
    elim (pick_least_loaded-usable worker cfg fwd s p selected) [
      | inl e ↦ subst (IsInService s) (sym e) h
      | inr (full, room, ok) ↦ inr (ok-not_stopped s _ ok)
    ]

-- A WAN is picked for each packet from the LAN whenever there is a WAN, and the one that is picked is
-- not stopped, except that it may be the first WAN.
pub pick_for_local-IsInService :
    (worker now : ℕ) (cfg : AppConfig) (fwd : Forwarder) (s : WanState) (blends : List Blend)
    (f : Flows) (p : Option ProfileConfig) (flow_ok malloc_ok : Bool) (key : FlowKey) (pkt_len : ℕ)
    → 0 < fwd.wan_count
    → (dp : ℕ) × ((fwd_wan_pick_for_local worker now cfg fwd s blends f p flow_ok malloc_ok key
          pkt_len).0
        ≡ some dp)
      × IsInService s dp
unfolding fwd_wan_pick_for_local
pick_for_local-IsInService worker now cfg fwd s blends f none flow_ok malloc_ok key pkt_len
      some_wan =
    let e : (fwd.wan_count == 0) ≡ false = ground arith in
    rw e (_, refl, picked-IsInService worker cfg fwd s none 0 (inl refl))
pick_for_local-IsInService worker now cfg fwd s blends f (some p) flow_ok malloc_ok key pkt_len
      some_wan =
    let e : (fwd.wan_count == 0) ≡ false = ground arith in
    let pool = fwd_wan_build_profile_pool now cfg fwd s blends p max_interfaces in
    let wan_cfg = (choose_wan f now malloc_ok flow_ok key pkt_len pool).0 in
    elim (Bool-cases (length pool == 0)) [
      | inl h ↦ rw (e, h) (_, refl, picked-IsInService worker cfg fwd s (some p) 0 (inl refl))
      | inr h ↦
          rw (e, h)
            (
              _,
              refl,
              picked-IsInService worker cfg fwd s (some p) _
                  (selected_dp-IsInService fwd s (dp_of now cfg fwd s wan_cfg)),
            )
    ]
