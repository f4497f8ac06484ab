-- ===== src/Wan/Blend.antt =====
-- The gradual change of the weights of a profile's WANs, src/core/forwarder_wan.c: `wan_weight_blend`,
-- `wan_weight_blend_progress`, `profile_wan_weight_blended` and `fwd_wan_weight_blend_tick`. The products
-- of a weight and a percentage fit an `int`.
pub mod Begin
use native.Mathlib.Nat.{mul-le-mul_right, div-le_of_le-mul, mul-add}
use native.Mathlib.Decide.{dec_lt}
use ne_multi_core.Base.{
  ℕ, ◌+◌, ◌-◌, ◌*◌, ◌/◌, ◌%◌, ◌^◌, ◌≤◌, ◌<◌, ◌≡◌, sym, ap, ◌∙◌, arith, min, max, Bool, false, ◌&&◌,
  ◌||◌, not, Option, none, some, List, [], ◌∷◌, map, get_or, ltb, leb, ◌==◌, if◌then◌else◌,
}
use ne_multi_core.Base.Int.{ℤ, pos, pos_part, neg_part, leb_ℤ, eqb_ℤ}
use ne_multi_core.Config.{ProfileConfig}
use ne_multi_core.Flow.Wrr.{wan_allowed_pos}

pub record Blend : Type 0 where
  pub active : Bool
  pub profile_id : ℤ
  pub wan_cfg : List ℤ
  pub old_w : List ℤ
  pub new_w : List ℤ
  pub start_ms : ℕ
  pub until_ms : ℕ

-- `elapsed` and `total` are differences of 64 bits.
unfoldable pub wan_weight_blend_progress : ℕ → Blend → ℕ
wan_weight_blend_progress now b =
    let elapsed = (now + 2 ^ 64 - b.start_ms) % 2 ^ 64 in
    let total = (b.until_ms + 2 ^ 64 - b.start_ms) % 2 ^ 64 in
    if not b.active
    then 100
    else if leb b.until_ms now
    then 100
    else if total == 0
    then 100
    else elapsed * 100 % 2 ^ 64 / total

-- `(old * (100 - blend) + new * blend) / 100`, at least 1: a sum that is not positive gives 1, so its
-- quotient is taken of the positive part only.
unfoldable pub mix_weights : ℤ → ℤ → ℕ → ℕ
mix_weights old new blend =
    let up = pos_part old * (100 - blend) + pos_part new * blend in
    let down = neg_part old * (100 - blend) + neg_part new * blend in
    let w = (up - down) / 100 in if ltb 0 w then w else 1

unfoldable pub blend_at : ℕ → Blend → ℤ → Option ℕ → ℤ
unfolding mix_weights
blend_at now b nominal none = nominal
blend_at now b nominal (some i) = pos (
    mix_weights (get_or b.old_w i (pos 0)) (get_or b.new_w i (pos 0))
      (wan_weight_blend_progress now b))

unfoldable pub blends_loop : ℕ → List Blend → ℤ → ℤ → ℤ → ℤ
unfolding blend_at
blends_loop now [] profile_id cfg_wan nominal = nominal
blends_loop now (b ∷ bs) profile_id cfg_wan nominal =
    let rest = blends_loop now bs profile_id cfg_wan nominal in
    if not b.active || not (eqb_ℤ b.profile_id profile_id)
    then rest
    else blend_at now b nominal (wan_allowed_pos cfg_wan b.wan_cfg)

-- `blends` is `wan_weight_blends`. The search for the WAN in a blend is that of `wan_allowed_pos`.
unfoldable pub profile_wan_weight_blended : ℕ → List Blend → ProfileConfig → ℤ → ℤ → ℤ
unfolding blends_loop
profile_wan_weight_blended now blends p cfg_wan nominal =
    let blended = blends_loop now blends p.id cfg_wan nominal in
    if leb_ℤ nominal (pos 0) then nominal else blended

unfoldable pub tick_blend : ℕ → Blend → Blend
tick_blend now b =
    if b.active && leb 100 (wan_weight_blend_progress now b) then record b { active = false } else b

unfoldable pub fwd_wan_weight_blend_tick : ℕ → List Blend → List Blend
unfolding tick_blend
fwd_wan_weight_blend_tick now bs = map (tick_blend now) bs

progress-le :
    (now : ℕ) (b : Blend)
    → b.start_ms ≤ now
    → b.until_ms < 2 ^ 57
    → wan_weight_blend_progress now b ≤ 100
unfolding wan_weight_blend_progress
progress-le now b started small =
    let elapsed = (now + 2 ^ 64 - b.start_ms) % 2 ^ 64 in
    let total = (b.until_ms + 2 ^ 64 - b.start_ms) % 2 ^ 64 in
    let quotient : elapsed * 100 ≤ total * 100 → elapsed * 100 / total ≤ 100 =
      λ h. div-le_of_le-mul total h in
    ground (arith, started, small, quotient)

-- The mean of two weights lies between them.
mean-between :
    (a c t : ℕ)
    → t ≤ 100
    → a ≤ c
    → (a ≤ (a * (100 - t) + c * t) / 100)
      × ((a * (100 - t) + c * t) / 100 ≤ c)
      × (a ≤ (c * (100 - t) + a * t) / 100)
      × ((c * (100 - t) + a * t) / 100 ≤ c)
mean-between a c t small le =
    let e : 100 - t + t ≡ 100 = omega arith in
    let whole_a : a * (100 - t) + a * t ≡ a * 100 =
      sym (mul-add a (100 - t) t) ∙ ap (λ k. a * k) e in
    let whole_c : c * (100 - t) + c * t ≡ c * 100 =
      sym (mul-add c (100 - t) t) ∙ ap (λ k. c * k) e in
    let p = mul-le-mul_right t le in
    let q = mul-le-mul_right (100 - t) le in
    (
      omega (arith, whole_a, whole_c, p, q),
      omega (arith, whole_a, whole_c, p, q),
      omega (arith, whole_a, whole_c, p, q),
      omega (arith, whole_a, whole_c, p, q),
    )

mix-between :
    (a c t : ℕ)
    → 0 < a
    → 0 < c
    → t ≤ 100
    → (min a c ≤ mix_weights (pos a) (pos c) t) × (mix_weights (pos a) (pos c) t ≤ max a c)
unfolding mix_weights
mix-between a c t some_a some_c small = elim (dec_lt a c) [
  | yes h ↦
      let (p, q, r, s) = mean-between a c t small (omega (arith, h)) in
      (ground (arith, p, q, h), ground (arith, p, q, h))
  | no h ↦
      let (p, q, r, s) = mean-between c a t small (omega (arith, h)) in
      (ground (arith, r, s, h), ground (arith, r, s, h))
]

-- While the weight of a WAN changes from `a` to `c`, both positive, the weight in use stays between
-- the two at every time: the progress is at most 100 percent, at 0 percent the weight is `a`, and at
-- 100 percent it is `c`. The change began by `now`, and its end is a time that a clock in
-- milliseconds can reach.
pub blend_between :
    (now a c : ℕ) (b : Blend)
    → 0 < a
    → 0 < c
    → b.start_ms ≤ now
    → b.until_ms < 2 ^ 57
    → (min a c ≤ mix_weights (pos a) (pos c) (wan_weight_blend_progress now b))
      × (mix_weights (pos a) (pos c) (wan_weight_blend_progress now b) ≤ max a c)
      × (wan_weight_blend_progress now b ≤ 100)
      × (mix_weights (pos a) (pos c) 0 ≡ a)
      × (mix_weights (pos a) (pos c) 100 ≡ c)
unfolding mix_weights
blend_between now a c b some_a some_c started small =
    let h = progress-le now b started small in
    let (lo, hi) = mix-between a c (wan_weight_blend_progress now b) some_a some_c h in
    (lo, hi, h, ground arith, ground arith)
