-- ===== src/Config/WanIndex.antt =====
-- Configured WANs and the slots of those that carry traffic, inc/core/config.h:
-- `config_count_dataplane_wans`, `config_wan_cfg_to_dp` and `config_wan_dp_to_cfg`.
use ne_multi_core.Base.{
  ℕ, zero, suc, ◌+◌, ◌<◌, ◌≤◌, ◌≡◌, refl, ap, ◌∙◌, arith, Bool, ◌&&◌, true, false, Option, none,
  some, List, [], ◌∷◌, get_elem?, take, ◌==◌, if◌then◌else◌, Bool-cases, inl, inr, ◌↔◌,
}
use ne_multi_core.Base.Int.{ℤ, pos, negsuc}
use ne_multi_core.Config.{AppConfig, WanConfig}

unfoldable pub count_loop : List WanConfig → ℕ → ℕ
count_loop [] n = n
count_loop (w ∷ ws) n = count_loop ws (if w.dataplane then n + 1 else n)

pub config_count_dataplane_wans : AppConfig → ℕ
unfolding count_loop
config_count_dataplane_wans cfg = count_loop cfg.wans 0

-- `wans[cfg_idx]`, when the index is in range and the WAN carries traffic.
unfoldable pub dataplane_wan? : Option WanConfig → Bool
dataplane_wan? none = false
dataplane_wan? (some w) = w.dataplane

-- `none` is the -1 of the source.
unfoldable pub config_wan_cfg_to_dp : AppConfig → ℤ → Option ℕ
unfolding count_loop dataplane_wan?
config_wan_cfg_to_dp cfg (negsuc i) = none
config_wan_cfg_to_dp cfg (pos i) =
    if dataplane_wan? (get_elem? cfg.wans i) then some (count_loop (take i cfg.wans) 0) else none

dp_loop : List WanConfig → ℕ → ℕ → ℕ → Option ℕ
dp_loop [] i seen dp_idx = none
dp_loop (w ∷ ws) i seen dp_idx =
    let rest = dp_loop ws (i + 1) (if w.dataplane then seen + 1 else seen) dp_idx in
    if w.dataplane then (if seen == dp_idx then some i else rest) else rest

pub config_wan_dp_to_cfg : AppConfig → ℤ → Option ℕ
unfolding dp_loop
config_wan_dp_to_cfg cfg (negsuc i) = none
config_wan_dp_to_cfg cfg (pos dp_idx) = dp_loop cfg.wans 0 0 dp_idx

count_loop-ge : (ws : List WanConfig) (n : ℕ) → n ≤ count_loop ws n
unfolding count_loop
count_loop-ge [] n = omega arith
count_loop-ge (w ∷ ws) n = ground (arith, count_loop-ge ws (n + 1), count_loop-ge ws n)

-- From index `i` with `seen` slots passed, the loop finds the WAN at `i + j` by its own slot.
dp_loop-found :
    (ws : List WanConfig) (i seen j : ℕ)
    → dataplane_wan? (get_elem? ws j) ≡ true
    → dp_loop ws i seen (count_loop (take j ws) seen) ≡ some (i + j)
unfolding dp_loop count_loop dataplane_wan?
dp_loop-found [] i seen j h = cc
dp_loop-found (w ∷ ws) i seen zero h = ground arith
dp_loop-found (w ∷ ws) i seen (suc j) h = ground (
  arith,
  count_loop-ge (take j ws) (seen + 1),
  dp_loop-found ws (i + 1) (seen + 1) j h,
  dp_loop-found ws (i + 1) seen j h,
)

-- What the loop finds is a WAN that carries traffic, and that has the slot asked for.
abbrev Found : List WanConfig → ℕ → ℕ → ℕ → ℕ → Type 0
Found ws i seen d k =
    (j : ℕ) × (k ≡ i + j)
    × (dataplane_wan? (get_elem? ws j) ≡ true)
    × (count_loop (take j ws) seen ≡ d)

Found-cons :
    (w : WanConfig) (ws : List WanConfig) (i seen d k : ℕ)
    → Found ws (i + 1) (if w.dataplane then seen + 1 else seen) d k
    → Found (w ∷ ws) i seen d k
unfolding count_loop
Found-cons w ws i seen d k (j, e, p, q) = (suc j, omega arith, p, q)

dp_loop_sound :
    (ws : List WanConfig) (i seen d k : ℕ) → dp_loop ws i seen d ≡ some k → Found ws i seen d k
unfolding dp_loop count_loop dataplane_wan?
dp_loop_sound [] i seen d k h = cc
dp_loop_sound (w ∷ ws) i seen d k h = elim (Bool-cases (w.dataplane && (seen == d))) [
  | inl t ↦ (0, ground arith, ground arith, ground arith)
  | inr t ↦
      Found-cons w ws i seen d k
        (dp_loop_sound ws (i + 1) (if w.dataplane then seen + 1 else seen) d k (ground arith))
]

wan_cfg_to_dp-some :
    (cfg : AppConfig) (i d : ℕ)
    → config_wan_cfg_to_dp cfg (pos i) ≡ some d
    → (dataplane_wan? (get_elem? cfg.wans i) ≡ true) × (count_loop (take i cfg.wans) 0 ≡ d)
unfolding config_wan_cfg_to_dp
wan_cfg_to_dp-some cfg i d h = elim (Bool-cases (dataplane_wan? (get_elem? cfg.wans i))) [
  | inl t ↦ (t, cc (rw (t, config_wan_cfg_to_dp) at h))
  | inr t ↦ absurd (cc (rw (t, config_wan_cfg_to_dp) at h))
]

-- The two translations are inverse to each other: a configured WAN has a slot exactly when the slot
-- leads back to it. (So no two WANs share a slot, and a slot that leads anywhere is somebody's.)
pub wan_cfg_to_dp-dp_to_cfg_iff :
    (cfg : AppConfig) (i d : ℕ)
    → (config_wan_cfg_to_dp cfg (pos i) ≡ some d) ↔ (config_wan_dp_to_cfg cfg (pos d) ≡ some i)
unfolding config_wan_dp_to_cfg config_wan_cfg_to_dp
wan_cfg_to_dp-dp_to_cfg_iff cfg i d = (there, back)
  where
    there : config_wan_cfg_to_dp cfg (pos i) ≡ some d → config_wan_dp_to_cfg cfg (pos d) ≡ some i
    there h =
        let (t, e) = wan_cfg_to_dp-some cfg i d h in
        let z : 0 + i ≡ i = omega arith in rw (← e) (dp_loop-found cfg.wans 0 0 i t ∙ ap some z)

    back : config_wan_dp_to_cfg cfg (pos d) ≡ some i → config_wan_cfg_to_dp cfg (pos i) ≡ some d
    back h =
        let (j, e, t, q) = dp_loop_sound cfg.wans 0 0 d i h in
        let z : i ≡ j = omega arith in rw (z, t, q) refl

count_loop-take_lt :
    (ws : List WanConfig) (i n : ℕ)
    → dataplane_wan? (get_elem? ws i) ≡ true
    → count_loop (take i ws) n < count_loop ws n
unfolding count_loop dataplane_wan?
count_loop-take_lt [] i n h = cc
count_loop-take_lt (w ∷ ws) zero n h = ground (arith, count_loop-ge ws (n + 1))
count_loop-take_lt (w ∷ ws) (suc i) n h =
    count_loop-take_lt ws i (if w.dataplane then n + 1 else n) h

-- Every slot is below the number of WANs that carry traffic.
pub wan_cfg_to_dp-lt :
    (cfg : AppConfig) (i d : ℕ)
    → config_wan_cfg_to_dp cfg (pos i) ≡ some d
    → d < config_count_dataplane_wans cfg
unfolding config_count_dataplane_wans
wan_cfg_to_dp-lt cfg i d h =
    let (t, e) = wan_cfg_to_dp-some cfg i d h in rw (← e) (count_loop-take_lt cfg.wans i 0 t)
