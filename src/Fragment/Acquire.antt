-- ===== src/Fragment/Acquire.antt =====
-- The search for the entry of a layer 2 half, `frag_l2_acquire` of src/core/fragment.c.
use native.Mathlib.Decide.{ℕ_discrete}
use ne_multi_core.Base.{
  ℕ, zero, suc, ◌+◌, ◌%◌, ◌≤◌, ◌<◌, ◌≡◌, refl, sym, subst, arith, Bool, true, false, ◌||◌, not,
  Option, none, some, ◌==◌, Bool-cases, inl, inr,
}
use ne_multi_core.Fragment.{
  FragTable, frag_table_size, frag_l2_entry_live, acquire_loop, frag_l2_acquire,
}

-- The entry that `step` probes lead to.
abbrev pub probe : ℕ → ℕ → ℕ
probe pkt_id step = (pkt_id % frag_table_size + step) % frag_table_size

-- Whether an entry is free, or of this packet.
abbrev pub usable : FragTable → ℕ → ℕ → ℕ → Bool
usable ft pkt_id now idx = not (frag_l2_entry_live (ft idx) now) || ((ft idx).pkt_id == pkt_id)

-- The first usable entry of the probes from `start` up to `stop`, or none.
abbrev pub IsFirstUsable : FragTable → ℕ → ℕ → ℕ → ℕ → Option ℕ → Type 0
IsFirstUsable ft pkt_id now start stop none =
    (k : ℕ) → start ≤ k → k < stop → usable ft pkt_id now (probe pkt_id k) ≡ false
IsFirstUsable ft pkt_id now start stop (some idx) =
    (step : ℕ) × (start ≤ step)
    × (step < stop)
    × (idx ≡ probe pkt_id step)
    × (usable ft pkt_id now idx ≡ true)
    × ((k : ℕ) → start ≤ k → k < step → usable ft pkt_id now (probe pkt_id k) ≡ false)

skip :
    (ft : FragTable) (pkt_id now start stop : ℕ)
    → usable ft pkt_id now (probe pkt_id start) ≡ false
    → ((k : ℕ) → start + 1 ≤ k → k < stop → usable ft pkt_id now (probe pkt_id k) ≡ false)
    → (k : ℕ) → start ≤ k
    → k < stop
    → usable ft pkt_id now (probe pkt_id k) ≡ false
skip ft pkt_id now start stop here rest k lo hi = elim (ℕ_discrete k start) [
  | yes e ↦ subst (λ t. usable ft pkt_id now (probe pkt_id t) ≡ false) (sym e) here
  | no ne ↦ rest k (omega (arith, ne)) hi
]

extend :
    (ft : FragTable) (pkt_id now start stop : ℕ) (o : Option ℕ)
    → usable ft pkt_id now (probe pkt_id start) ≡ false
    → IsFirstUsable ft pkt_id now (start + 1) stop o
    → IsFirstUsable ft pkt_id now start stop o
extend ft pkt_id now start stop none here rest = skip ft pkt_id now start stop here rest
extend ft pkt_id now start stop (some idx) here (step, lo, hi, e, use_it, before) =
    (step, omega (arith, lo), hi, e, use_it, skip ft pkt_id now start step here before)

loop-IsFirstUsable :
    (ft : FragTable) (pkt_id now rounds step : ℕ)
    → IsFirstUsable ft pkt_id now step (step + rounds) (acquire_loop ft pkt_id now rounds step)
unfolding acquire_loop
loop-IsFirstUsable ft pkt_id now zero step = λ k lo hi. absurd (omega arith)
loop-IsFirstUsable ft pkt_id now (suc rounds) step =
    let e : step + 1 + rounds ≡ step + suc rounds = omega arith in
    elim (Bool-cases (usable ft pkt_id now (probe pkt_id step))) [
      | inl h ↦
          let here : acquire_loop ft pkt_id now (suc rounds) step ≡ some (probe pkt_id step) =
            ground (arith, h) in
          subst (IsFirstUsable ft pkt_id now step (step + suc rounds)) (sym here)
            (step, omega arith, omega arith, refl, h, λ k lo hi. absurd (omega arith))
      | inr h ↦
          let there : acquire_loop ft pkt_id now (suc rounds) step
              ≡ acquire_loop ft pkt_id now rounds (step + 1) =
            ground (arith, h) in
          subst (IsFirstUsable ft pkt_id now step (step + suc rounds)) (sym there) (
            extend ft pkt_id now step (step + suc rounds) _ h (
              subst
                (λ t.
                  IsFirstUsable ft pkt_id now (step + 1) t
                    (acquire_loop ft pkt_id now rounds (step + 1)))
                e (loop-IsFirstUsable ft pkt_id now rounds (step + 1))))
    ]

-- The search gives the first entry, in probe order from the packet's own place around the table, that
-- is free or holds this packet id, and gives none only when every entry of the table is taken by
-- another packet.
pub acquire-IsFirstUsable :
    (ft : FragTable) (pkt_id now : ℕ)
    → IsFirstUsable ft pkt_id now 0 frag_table_size (frag_l2_acquire ft pkt_id now)
unfolding frag_l2_acquire
acquire-IsFirstUsable ft pkt_id now = loop-IsFirstUsable ft pkt_id now frag_table_size 0
