-- ===== src/Wan/Drain.antt =====
-- The end of a drain: `fwd_wan_drain_tick` and `fwd_wan_flush_queue` of src/core/forwarder_wan.c.
use native.Mathlib.Decide.{ℕ_discrete}
use ne_multi_core.Base.{
  ℕ, zero, suc, ◌+◌, ◌≤◌, ◌<◌, ◌≡◌, ◌≢◌, min, refl, sym, ap, ◌∙◌, subst, arith, Bool, true, false,
  ◌&&◌, ◌||◌, not, ltb, leb, ==_refl, Bool-cases, inl, inr,
}
use ne_multi_core.Wan.{
  WanState, Forwarder, update, max_interfaces, wan_drain_taper_pct, fwd_wan_dp_ok_for_new_traffic,
  fwd_wan_is_stopped, wan_drain_finish_slot, drain_over, tick_loop, fwd_wan_drain_tick,
}

-- Whether the drain of `dp`, one of the slots from `at` up to `stop`, has run out.
abbrev due : ℕ → WanState → ℕ → ℕ → ℕ → Bool
due now s at stop dp =
    leb at dp && ltb dp stop && (s.drains dp).active && leb (s.drains dp).until_ms now

-- What one pass over the slots makes of slot `dp`.
abbrev IsSettled : ℕ → WanState → WanState → ℕ → ℕ → ℕ → Type 0
IsSettled now s s' at stop dp =
    (s'.stopped dp ≡ (s.stopped dp || due now s at stop dp))
    × ((s'.drains dp).active ≡ ((s.drains dp).active && not (due now s at stop dp)))
    × ((s'.drains dp).until_ms ≡ (s.drains dp).until_ms)
    × (s'.active_dp_count ≡ s.active_dp_count)

over-until :
    (now : ℕ) (s : WanState) (dp : ℕ)
    → drain_over now s dp ≡ ((s.drains dp).active && leb (s.drains dp).until_ms now)
unfolding wan_drain_taper_pct
over-until now s dp = ground arith

-- The state with the drain of slot `at` ended.
abbrev ended : WanState → ℕ → WanState
ended s at = record s {
  stopped = update s.stopped at true;
  drains = update s.drains at (record (s.drains at) { active = false });
}

finish-ended :
    (now : ℕ) (fwd : Forwarder) (s : WanState) (at : ℕ)
    → at < max_interfaces
    → drain_over now s at ≡ true
    → (wan_drain_finish_slot fwd s at).1 ≡ ended s at
unfolding wan_drain_finish_slot
finish-ended now fwd s at small over = ground (arith, over-until now s at, over)

ended-here :
    (now : ℕ) (s : WanState) (at stop dp : ℕ)
    → drain_over now s at ≡ true
    → at < stop
    → dp ≡ at
    → IsSettled now s (ended s at) at stop dp
ended-here now s at stop dp over lo same =
    let e = over-until now s at in
    let due_at : due now s at stop at ≡ true = ground (arith, e, over) in
    subst (IsSettled now s (ended s at) at stop) (sym same)
      (rw (==_refl at) (ground (arith, due_at), ground (arith, due_at), refl, refl))

finish-keeps :
    (now : ℕ) (s : WanState) (at dp : ℕ)
    → dp ≢ at
    → ((ended s at).drains dp ≡ s.drains dp) × ((ended s at).stopped dp ≡ s.stopped dp)
finish-keeps now s at dp ne = (ground (arith, ne), ground (arith, ne))

or_none : (x y l z : Bool) → x ≡ (y || l) → l ≡ false → y ≡ z → x ≡ z
or_none x y l z a b c = ground (arith, a, b, c)

and_none : (x y l z : Bool) → x ≡ (y && not l) → l ≡ false → y ≡ z → x ≡ z
and_none x y l z a b c = ground (arith, a, b, c)

or_same : (x y y' l l' : Bool) → x ≡ (y || l) → l ≡ l' → y ≡ y' → x ≡ (y' || l')
or_same x y y' l l' a b c = ground (arith, a, b, c)

and_same : (x y y' l l' : Bool) → x ≡ (y && not l) → l ≡ l' → y ≡ y' → x ≡ (y' && not l')
and_same x y y' l l' a b c = ground (arith, a, b, c)

-- A slot that the pass does not meet first is due in it just when it is due in what follows.
due-next :
    (now : ℕ) (s : WanState) (at left dp : ℕ)
    → dp ≢ at
    → due now s (at + 1) (at + 1 + left) dp ≡ due now s at (at + suc left) dp
due-next now s at left dp ne = ground (arith, ne)

due-rest :
    (now : ℕ) (s : WanState) (at left dp : ℕ)
    → drain_over now s at ≡ false
    → due now s (at + 1) (at + 1 + left) dp ≡ due now s at (at + suc left) dp
due-rest now s at left dp rest = elim (ℕ_discrete dp at) [
  | yes same ↦
      subst (λ t. due now s (at + 1) (at + 1 + left) t ≡ due now s at (at + suc left) t) (sym same)
        (ground (arith, over-until now s at, rest))
  | no ne ↦ due-next now s at left dp ne
]

loop-IsSettled :
    (now left at : ℕ) (fwd : Forwarder) (s : WanState) (dp : ℕ)
    → at + left ≤ max_interfaces
    → IsSettled now s (tick_loop now left at fwd s).1 at (at + left) dp
unfolding tick_loop
loop-IsSettled now zero at fwd s dp small = (ground arith, ground arith, refl, refl)
loop-IsSettled now (suc left) at fwd s dp small = elim (Bool-cases (drain_over now s at)) [
  | inl over ↦
      let fwd' = (wan_drain_finish_slot fwd s at).0 in
      let s' = (wan_drain_finish_slot fwd s at).1 in
      let e : s' ≡ ended s at = finish-ended now fwd s at (omega arith) over in
      let (a, b, c, d) =
        subst
          (λ t. IsSettled now t (tick_loop now left (at + 1) fwd' s').1 (at + 1) (at + 1 + left) dp)
          e (loop-IsSettled now left (at + 1) fwd' s' dp (omega arith)) in
      let x = (tick_loop now left (at + 1) fwd' s').1 in
      let l = due now (ended s at) (at + 1) (at + 1 + left) dp in
      rw over (elim (ℕ_discrete dp at) [
        | yes same ↦
            let (p, q, r, t) = ended-here now s at (at + suc left) dp over (omega arith) same in
            let late : l ≡ false = ground (arith, same) in
            (
              or_none (x.stopped dp) ((ended s at).stopped dp) l _ a late p,
              and_none (x.drains dp).active ((ended s at).drains dp).active l _ b late q,
              c ∙ r,
              d ∙ t,
            )
        | no ne ↦
            let (keeps, keeps') = finish-keeps now s at dp ne in
            let same_due : l ≡ due now s at (at + suc left) dp =
              ap (λ t. leb (at + 1) dp && ltb dp (at + 1 + left) && t.active && leb t.until_ms now)
                keeps
              ∙ due-next now s at left dp ne in
            (
              or_same (x.stopped dp) ((ended s at).stopped dp) _ l _ a same_due keeps',
              and_same (x.drains dp).active ((ended s at).drains dp).active _ l _ b same_due
                  (ap (λ t. t.active) keeps),
              c ∙ ap (λ t. t.until_ms) keeps,
              d,
            )
      ])
  | inr rest ↦
      let (a, b, c, d) = loop-IsSettled now left (at + 1) fwd s dp (omega arith) in
      let e = due-rest now s at left dp rest in
      rw rest (
        or_same _ (s.stopped dp) _ _ _ a e refl,
        and_same _ (s.drains dp).active _ _ _ b e refl,
        c,
        d,
      )
]

-- After a tick, the WANs that count as stopped are those that did before and those in service whose
-- drain had run out; such a drain has ended, and every other goes on. No tick changes which WANs are
-- offered to new traffic: a WAN goes from draining to stopped with no moment between.
pub drain_tick_settles :
    (now : ℕ) (fwd : Forwarder) (s : WanState) (dp : ℕ)
    → let s' = (fwd_wan_drain_tick now fwd s).1 in
      let ends =
        ltb dp (min fwd.wan_count max_interfaces)
        && (s.drains dp).active
        && leb (s.drains dp).until_ms now in
      (fwd_wan_is_stopped s' dp ≡ (fwd_wan_is_stopped s dp || ends))
      × ((s'.drains dp).active ≡ ((s.drains dp).active && not ends))
      × (fwd_wan_dp_ok_for_new_traffic s' dp ≡ fwd_wan_dp_ok_for_new_traffic s dp)
unfolding fwd_wan_drain_tick fwd_wan_is_stopped fwd_wan_dp_ok_for_new_traffic
drain_tick_settles now fwd s dp =
    let n = min fwd.wan_count max_interfaces in
    let (a, b, c, d) = loop-IsSettled now n 0 fwd s dp (omega arith) in
    let e : due now s 0 (0 + n) dp
        ≡ (ltb dp n && (s.drains dp).active && leb (s.drains dp).until_ms now) =
      ground arith in
    (
      ground (arith, or_same _ (s.stopped dp) _ _ _ a e refl),
      and_same _ (s.drains dp).active _ _ _ b e refl,
      ground (
        arith,
        or_same _ (s.stopped dp) _ _ _ a e refl,
        and_same _ (s.drains dp).active _ _ _ b e refl,
        d,
      ),
    )
