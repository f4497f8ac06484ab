-- ===== src/Wan/Removal.antt =====
-- The WANs that a new configuration removes, `fwd_wan_configure_removal_drains` of
-- src/core/forwarder_wan.c. The clock is read once. Names are shorter than IF_NAMESIZE, so their copy is
-- whole.
use mathlib.Core.Option.{some-injective}
use native.Mathlib.Decide.{ℕ_discrete}
use ne_multi_core.Base.{
  ℕ, zero, suc, ◌+◌, ◌<◌, ◌≡◌, refl, sym, ap, ◌∙◌, subst, arith, min, Bool, true, false, ◌&&◌, ◌||◌,
  not, Option, none, some, List, [], ◌∷◌, get_elem?, ltb, leb, ==_refl, if◌then◌else◌, Bool-cases,
  Option-cases, inl, inr, ◌⊎◌,
}
use ne_multi_core.Base.Int.{ℤ, pos, negsuc}
use ne_multi_core.Config.{AppConfig, WanConfig, get_at}
use ne_multi_core.Config.WanIndex.{config_count_dataplane_wans}
use ne_multi_core.Config.Owner.{same_name}
use ne_multi_core.Wan.{
  DrainSlot, WanState, Forwarder, update, ifname_loop, max_interfaces, wan_drain_grace_ms,
  wan_seed_weight_from_cfg, fwd_wan_ifname_dataplane_in_cfg,
}

-- Whether a WAN of the old configuration carried traffic and is not in the new one.
pub removed : AppConfig → Option WanConfig → Bool
removed cfg none = false
removed cfg (some w) = w.dataplane && not (fwd_wan_ifname_dataplane_in_cfg cfg w.ifname)

pub name_of : Option WanConfig → List ℕ
name_of none = []
name_of (some w) = w.ifname

pub index_of : ℤ → ℕ
index_of (pos i) = i
index_of (negsuc i) = 0

-- The drain of a WAN that the old configuration has at `ci`.
pub new_drain : ℕ → AppConfig → ℤ → DrainSlot
unfolding name_of index_of
new_drain now old ci = record {
  active = true;
  legacy_cfg_wan = index_of ci;
  seed_weight = wan_seed_weight_from_cfg old ci;
  ifname = name_of (get_at old.wans ci);
  start_ms = now;
  until_ms = now + wan_drain_grace_ms;
}

abbrev pub leaves : AppConfig → AppConfig → Forwarder → ℕ → Bool
leaves old cfg fwd dp = removed cfg (get_at old.wans (fwd.wan_cfg_idx dp))

-- The slots that are left, and the number of this one.
drains_loop : ℕ → AppConfig → AppConfig → Forwarder → ℕ → ℕ → (ℕ → DrainSlot) → ℕ → DrainSlot
unfolding removed new_drain
drains_loop now old cfg fwd zero dp drains = drains
drains_loop now old cfg fwd (suc left) dp drains =
    let kept = drains_loop now old cfg fwd left (dp + 1) drains in
    let begun =
      drains_loop now old cfg fwd left (dp + 1)
        (update drains dp (new_drain now old (fwd.wan_cfg_idx dp))) in
    if leaves old cfg fwd dp then begun else kept

pub name_loop : List WanConfig → List ℕ → ℕ → Option ℕ
name_loop [] want i = none
name_loop (w ∷ ws) want i =
    let rest = name_loop ws want (i + 1) in
    if not w.dataplane then rest else if same_name w.ifname want then some i else rest

index_or : Option ℕ → ℤ → ℤ
index_or none old = old
index_or (some ci) old = pos ci

-- The numbers of the WANs in the new configuration, of slots below `n` that do not drain.
renumbered : AppConfig → Forwarder → (ℕ → DrainSlot) → ℕ → ℕ → ℤ
unfolding name_loop index_or
renumbered cfg fwd drains n dp =
    if leb n dp || (drains dp).active
    then fwd.wan_cfg_idx dp
    else index_or (name_loop cfg.wans (fwd.wan_ifnames dp) 0) (fwd.wan_cfg_idx dp)

pub fwd_wan_configure_removal_drains :
    ℕ → AppConfig → AppConfig → Forwarder → WanState → Forwarder × WanState
unfolding drains_loop renumbered
fwd_wan_configure_removal_drains now old cfg fwd s =
    let n = min fwd.wan_count max_interfaces in
    let drains = drains_loop now old cfg fwd n 0 s.drains in
    (
      record fwd { wan_cfg_idx = renumbered cfg fwd drains n },
      record s { drains = drains; active_dp_count = config_count_dataplane_wans cfg },
    )

-- Slot `dp` after the loop over the slots from `at` up to `stop`.
abbrev begun_slot : ℕ → AppConfig → AppConfig → Forwarder → ℕ → ℕ → ℕ → DrainSlot → DrainSlot
begun_slot now old cfg fwd at stop dp slot =
    if leb at dp && ltb dp stop && leaves old cfg fwd dp
    then new_drain now old (fwd.wan_cfg_idx dp)
    else slot

drains_loop-slot :
    (now : ℕ) (old cfg : AppConfig) (fwd : Forwarder) (left at : ℕ) (drains : ℕ → DrainSlot)
    (dp : ℕ)
    → drains_loop now old cfg fwd left at drains dp
      ≡ begun_slot now old cfg fwd at (at + left) dp (drains dp)
unfolding drains_loop
drains_loop-slot now old cfg fwd zero at drains dp = ground arith
drains_loop-slot now old cfg fwd (suc left) at drains dp =
    let begun = update drains at (new_drain now old (fwd.wan_cfg_idx at)) in
    elim (Bool-cases (leaves old cfg fwd at)) [
      | inl h ↦ rw h (
          drains_loop-slot now old cfg fwd left (at + 1) begun dp ∙ elim (ℕ_discrete dp at) [
            | yes same ↦
                subst
                  (λ t.
                    begun_slot now old cfg fwd (at + 1) (at + 1 + left) t (begun t)
                    ≡ begun_slot now old cfg fwd at (at + suc left) t (drains t))
                  (sym same) (ground (arith, h, ==_refl at))
            | no ne ↦ ground (arith, ne)
          ])
      | inr h ↦ rw h (
          drains_loop-slot now old cfg fwd left (at + 1) drains dp ∙ elim (ℕ_discrete dp at) [
            | yes same ↦
                subst
                  (λ t.
                    begun_slot now old cfg fwd (at + 1) (at + 1 + left) t (drains t)
                    ≡ begun_slot now old cfg fwd at (at + suc left) t (drains t))
                  (sym same) (ground (arith, h))
            | no ne ↦ ground (arith, ne)
          ])
    ]

-- The configured number and the name of a WAN in service agree.
abbrev pub IsNamed : AppConfig → List ℕ → ℤ → Type 0
IsNamed cfg want ci =
    (i : ℕ) × (ci ≡ pos i)
    × (w : WanConfig) × (get_elem? cfg.wans i ≡ some w)
    × (w.dataplane ≡ true)
    × (same_name w.ifname want ≡ true)

name_loop-some :
    (ws : List WanConfig) (want : List ℕ) (i ci : ℕ)
    → name_loop ws want i ≡ some ci
    → (j : ℕ) × (ci ≡ i + j)
      × (w : WanConfig) × (get_elem? ws j ≡ some w)
      × (w.dataplane ≡ true)
      × (same_name w.ifname want ≡ true)
unfolding name_loop
name_loop-some [] want i ci h = absurd (cc (h))
name_loop-some (x ∷ ws) want i ci h = elim (Bool-cases (x.dataplane && same_name x.ifname want)) [
  | inl t ↦
      let e : some i ≡ some ci = ground (arith, h, t) in
      (0, omega (arith, some-injective i ci e), x, refl, ground (arith, t), ground (arith, t))
  | inr t ↦
      let (j, a, w, b, c, d) = name_loop-some ws want (i + 1) ci (ground (arith, h, t)) in
      (suc j, omega (arith, a), w, b, c, d)
]

name_loop-none :
    (ws : List WanConfig) (want : List ℕ) (i : ℕ)
    → name_loop ws want i ≡ none
    → ifname_loop ws want ≡ false
unfolding name_loop ifname_loop
name_loop-none [] want i h = refl
name_loop-none (x ∷ ws) want i h = ground (arith, h, name_loop-none ws want (i + 1))

renumbered-IsNamed :
    (cfg : AppConfig) (fwd : Forwarder) (drains : ℕ → DrainSlot) (n dp : ℕ)
    → dp < n
    → (drains dp).active ≡ false
    → fwd_wan_ifname_dataplane_in_cfg cfg (fwd.wan_ifnames dp) ≡ true
    → IsNamed cfg (fwd.wan_ifnames dp) (renumbered cfg fwd drains n dp)
unfolding renumbered index_or fwd_wan_ifname_dataplane_in_cfg
renumbered-IsNamed cfg fwd drains n dp small rests known =
    let want = fwd.wan_ifnames dp in
    elim (Option-cases (name_loop cfg.wans want 0)) [
      | inl none_found ↦ absurd (ground (arith, known, name_loop-none cfg.wans want 0 none_found))
      | inr (ci, e) ↦
          let (j, a, w, b, c, d) = name_loop-some cfg.wans want 0 ci e in
          (j, ground (arith, rests, e, a), w, b, c, d)
    ]

-- When a new configuration is put in force, no WAN in service is lost from sight: each that carried
-- traffic in the old configuration, under the name of its slot, afterwards either drains, for five
-- seconds from now if it was not draining already, or has the number of a WAN of its name that
-- carries traffic in the new configuration.
pub removal-IsNamed :
    (now : ℕ) (old cfg : AppConfig) (fwd : Forwarder) (s : WanState) (dp : ℕ) (w : WanConfig)
    → dp < min fwd.wan_count max_interfaces
    → get_at old.wans (fwd.wan_cfg_idx dp) ≡ some w
    → w.dataplane ≡ true
    → w.ifname ≡ fwd.wan_ifnames dp
    → let (fwd', s') = fwd_wan_configure_removal_drains now old cfg fwd s in
      (((s'.drains dp).active ≡ true)
        × (((s'.drains dp).until_ms ≡ now + wan_drain_grace_ms) ⊎ ((s.drains dp).active ≡ true)))
      ⊎ IsNamed cfg (fwd.wan_ifnames dp) (fwd'.wan_cfg_idx dp)
unfolding fwd_wan_configure_removal_drains removed new_drain
removal-IsNamed now old cfg fwd s dp w small at carries named =
    let n = min fwd.wan_count max_interfaces in
    let drains = drains_loop now old cfg fwd n 0 s.drains in
    let slot = drains_loop-slot now old cfg fwd n 0 s.drains dp in
    let gone = not (fwd_wan_ifname_dataplane_in_cfg cfg (fwd.wan_ifnames dp)) in
    let e : leaves old cfg fwd dp ≡ gone =
      ap (removed cfg) at
      ∙ ground (arith, carries, ap (fwd_wan_ifname_dataplane_in_cfg cfg) named) in
    elim (Bool-cases gone) [
      | inl h ↦
          let begun : drains dp ≡ new_drain now old (fwd.wan_cfg_idx dp) =
            slot ∙ ground (arith, small, e, h) in
          inl (ap (λ t. t.active) begun, inl (ap (λ t. t.until_ms) begun))
      | inr h ↦
          let kept : drains dp ≡ s.drains dp = slot ∙ ground (arith, e, h) in
          elim (Bool-cases (s.drains dp).active) [
            | inl a ↦ inl (ap (λ t. t.active) kept ∙ a, inr a)
            | inr a ↦ inr (
                renumbered-IsNamed cfg fwd drains n dp small (ap (λ t. t.active) kept ∙ a)
                  (ground (arith, h)))
          ]
    ]
