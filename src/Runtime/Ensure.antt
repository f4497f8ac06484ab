-- ===== src/Runtime/Ensure.antt =====
-- The slots over the calls of the configuration and of the collection, src/core/forwarder_crypto_runtime.c.
use ne_multi_core.Base.{
  ℕ, zero, suc, ◌<◌, ◌≡◌, refl, ap, ◌∙◌, arith, inl, inr, Bool, true, false, List, [], ◌∷◌, ltb,
  if◌then◌else◌, Bool-cases, lt→ltb,
}
use ne_multi_core.Base.Int.{ℤ}
use ne_multi_core.Config.{AppConfig, ProfileConfig, WanConfig}
use ne_multi_core.Flow.Table.{Counters}
use ne_multi_core.Runtime.Slots.{Holds, OneEach, Keeps, IsServed, one_profile-IsServed}
use ne_multi_core.Runtime.{
  max_profiles, Slots, Tables, one_profile, ensure_loop, fwd_crypto_ensure_profile_slots,
  cleared_slot, has_profile, fwd_crypto_cleanup_stale_profile_slots,
  fwd_crypto_cleanup_all_profile_slots, fwd_crypto_reset_on_init, gc_slot,
  fwd_crypto_frag_gc_worker_tick,
}

-- Every one of the profiles has a slot.
abbrev pub AllHold : Slots → List ProfileConfig → ℕ → Type 0
AllHold t [] room = Unit
AllHold t (p ∷ ps) zero = Unit
AllHold t (p ∷ ps) (suc room) = ((k : ℕ) × Holds t k p.id) × AllHold t ps room

Holds-Keeps : (s t : Slots) (k : ℕ) (pid : ℤ) → Keeps s t → Holds s k pid → Holds t k pid
Holds-Keeps s t k pid keeps (lt, r, id) =
    let e = keeps k r in (lt, ap (λ x. x.ready) e ∙ r, ap (λ x. x.profile_id) e ∙ id)

Keeps-trans : (s t u : Slots) → Keeps s t → Keeps t u → Keeps s u
Keeps-trans s t u f g k r = g k (ap (λ x. x.ready) (f k r) ∙ r) ∙ f k r

-- What the call does to the slots: no profile gets a second one, none in use is lost or changed, and
-- at success each of the profiles has one.
abbrev pub AllServed : Slots → List ProfileConfig → ℕ → Bool × Tables → Type 0
AllServed s ps room (ok, (t, g)) = OneEach t × Keeps s t × (ok ≡ true → AllHold t ps room)

grown-AllServed :
    (p : ProfileConfig) (ps : List ProfileConfig) (room : ℕ) (s : Slots) (ok : Bool) (t' : Tables)
    (rest : Bool × Tables)
    → IsServed s p.id (ok, t')
    → AllServed t'.0 ps room rest
    → AllServed s (p ∷ ps) (suc room) (if ok then rest else (false, t'))
grown-AllServed p ps room s true t' (ok, (u, g)) (one, keeps, served) (one', keeps', all) =
    let (k, holds) = served refl in
    (
      one',
      Keeps-trans s t'.0 u keeps keeps',
      λ e. ((k, Holds-Keeps t'.0 u k p.id keeps' holds), all e),
    )
grown-AllServed p ps room s false t' rest (one, keeps, served) more =
    (one, keeps, λ e. absurd (cc e))

ensure_loop-AllServed :
    (wans : List WanConfig) (ps : List ProfileConfig) (room : ℕ) (s : Slots) (g : Counters)
    → OneEach s
    → AllServed s ps room (ensure_loop wans ps room (s, g))
unfolding ensure_loop
ensure_loop-AllServed wans [] room s g one = (one, λ k r. refl, λ e. tt)
ensure_loop-AllServed wans (p ∷ ps) zero s g one = (one, λ k r. refl, λ e. tt)
ensure_loop-AllServed wans (p ∷ ps) (suc room) s g one =
    let served = one_profile-IsServed wans s g p.id one in
    let (ok, (t, g')) = one_profile wans p.id (s, g) in
    grown-AllServed p ps room s ok (t, g') (ensure_loop wans ps room (t, g')) served
      (ensure_loop-AllServed wans ps room t g' served.0)

-- `fwd_crypto_ensure_profile_slots` gives every profile of the configuration its own slot, when it
-- succeeds; in any case no profile gets a second one, and the slots in use keep their tables.
pub ensure_profile_slots-AllServed :
    (cfg : AppConfig) (s : Slots) (g : Counters)
    → OneEach s
    → AllServed s cfg.profiles max_profiles (fwd_crypto_ensure_profile_slots cfg (s, g))
unfolding fwd_crypto_ensure_profile_slots
ensure_profile_slots-AllServed cfg s g one =
    ensure_loop-AllServed cfg.wans cfg.profiles max_profiles s g one

-- No slot comes into use.
abbrev pub Fewer : Slots → Slots → Type 0
Fewer s t =
    (i : ℕ)
    → i < max_profiles
    → (t i).ready ≡ true
    → ((s i).ready ≡ true) × ((s i).profile_id ≡ (t i).profile_id)

pub Fewer-OneEach : (s t : Slots) → Fewer s t → OneEach s → OneEach t
Fewer-OneEach s t fewer one i j pid (li, ri, ii) (lj, rj, ij) =
    let (r, e) = fewer i li ri in
    let (r', e') = fewer j lj rj in one i j pid (li, r, e ∙ ii) (lj, r', e' ∙ ij)

pub cleanup_stale-Fewer :
    (cfg : AppConfig) (grace : Bool) (s : Slots)
    → Fewer s (fwd_crypto_cleanup_stale_profile_slots cfg grace s)
unfolding fwd_crypto_cleanup_stale_profile_slots cleared_slot
cleanup_stale-Fewer cfg grace s i lt r = (ground (arith, r), ground (arith, r))

pub cleanup_all-Fewer : (s : Slots) → Fewer s (fwd_crypto_cleanup_all_profile_slots s)
unfolding fwd_crypto_cleanup_all_profile_slots cleared_slot
cleanup_all-Fewer s i lt r = (ground (arith, r), ground (arith, r))

pub reset-Fewer : (s : Slots) → Fewer s (fwd_crypto_reset_on_init s)
unfolding fwd_crypto_reset_on_init
reset-Fewer s i lt r = (ground (arith, r), ground (arith, r))

pub tick-Fewer :
    (worker_idx now now_ns : ℕ) (s : Slots)
    → Fewer s (fwd_crypto_frag_gc_worker_tick worker_idx now now_ns s)
unfolding fwd_crypto_frag_gc_worker_tick gc_slot
tick-Fewer worker_idx now now_ns s i lt r = (ground (arith, r), ground (arith, r))

-- Outside the grace period, `fwd_crypto_cleanup_stale_profile_slots` leaves in use only slots of
-- profiles that are in the configuration, and those with all their tables.
pub cleanup_stale-lem :
    (cfg : AppConfig) (s : Slots) (i : ℕ)
    → i < max_profiles
    → let t = fwd_crypto_cleanup_stale_profile_slots cfg false s in
      ((t i).ready ≡ true
        → (has_profile cfg.profiles max_profiles (t i).profile_id ≡ true) × (t i ≡ s i))
      × ((s i).ready ≡ true
          → has_profile cfg.profiles max_profiles (s i).profile_id ≡ true
          → t i ≡ s i)
unfolding fwd_crypto_cleanup_stale_profile_slots cleared_slot
cleanup_stale-lem cfg s i lt =
    let e : ltb i max_profiles ≡ true = lt→ltb i max_profiles lt in
    elim (Bool-cases (s i).ready) [
      | inr r ↦ rw (e, r) (λ h. absurd (cc h), λ h k. refl)
      | inl r ↦ elim (Bool-cases (has_profile cfg.profiles max_profiles (s i).profile_id)) [
        | inl h ↦ rw (e, r, h) (λ k. (h, refl), λ k l. refl)
        | inr h ↦ rw (e, r, h) (λ k. absurd (cc k), λ k l. absurd (cc l))
      ]
    ]
