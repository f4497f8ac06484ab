-- ===== src/Flow/Table/Gc.antt =====
-- The collection of old flows, `flow_table_gc_slice` of src/core/flow_table.c.
use native.Mathlib.Decide.{ℕ_discrete}
use ne_multi_core.Base.{
  ℕ, zero, suc, ◌+◌, ◌-◌, ◌%◌, ◌≤◌, ◌<◌, ◌≡◌, ◌↔◌, refl, sym, ap, ◌∙◌, subst, arith, Bool, true,
  List, [], ◌∷◌, ltb, ◌==◌, if◌then◌else◌, Bool-cases, inl, inr, In,
}
use ne_multi_core.Flow.Hash.{flow_table_size}
use ne_multi_core.Flow.Table.{FlowEntry, FlowTable, set_bucket, flow_timeout_sec}
use ne_multi_core.Flow.Table.Sweep.{age, expired, sweep, gc_loop, flow_table_gc_slice}

sweep-sweep : (now : ℕ) (chain : List FlowEntry) → sweep now (sweep now chain) ≡ sweep now chain
unfolding sweep
sweep-sweep now [] = refl
sweep-sweep now (e ∷ chain) = ground (arith, sweep-sweep now chain)

sweep-In :
    (now : ℕ) (e : FlowEntry) (chain : List FlowEntry)
    → In e (sweep now chain) ↔ (In e chain × (age now e ≤ flow_timeout_sec))
unfolding sweep expired
sweep-In now e [] = (λ h. absurd h, λ h. absurd h.0)
sweep-In now e (x ∷ chain) = elim (Bool-cases (expired now x)) [
  | inl h ↦ (
    λ i. let (a, b) = (sweep-In now e chain).0 (subst (In e) (ground (arith, h)) i) in (inr a, b),
    λ p. elim (p.0) [
      | inl same ↦ absurd (ground (arith, h, p.1, ap (age now) same))
      | inr i ↦ subst (In e) (ground (arith, h)) ((sweep-In now e chain).1 (i, p.1))
    ],
  )
  | inr h ↦
      let kept : x ∷ sweep now chain ≡ sweep now (x ∷ chain) = ground (arith, h) in
      (
        λ i.
            let i' : In e (x ∷ sweep now chain) = subst (In e) (sym kept) i in
            elim i' [
              | inl same ↦ (inl same, ground (arith, h, ap (age now) same))
              | inr r ↦ let (a, b) = (sweep-In now e chain).0 r in (inr a, b)
            ],
        λ p.
            subst (In e) kept (elim (p.0) [
              | inl same ↦ inl same
              | inr r ↦ inr ((sweep-In now e chain).1 (r, p.1))
            ]),
      )
]

-- Whether bucket `i` is one of the `n` from `cursor` on, around the table.
abbrev pub in_slice : ℕ → ℕ → ℕ → Bool
in_slice cursor n i = ltb ((i + flow_table_size - cursor % flow_table_size) % flow_table_size) n

gc_loop-bucket :
    (now rounds at : ℕ) (ft : FlowTable) (i : ℕ)
    → i < flow_table_size
    → (gc_loop now rounds at ft).buckets i
      ≡ (if in_slice at rounds i then sweep now (ft.buckets i) else ft.buckets i)
unfolding gc_loop
gc_loop-bucket now zero at ft i small = ground arith
gc_loop-bucket now (suc rounds) at ft i small =
    let b = at % flow_table_size in
    let ft' = set_bucket ft b (sweep now (ft.buckets b)) in
    gc_loop-bucket now rounds (at + 1) ft' i small ∙ elim (ℕ_discrete i b) [
      | yes e ↦
          let in_it : in_slice at (suc rounds) i ≡ true = ground (arith, e) in
          let stored : ft'.buckets i ≡ sweep now (ft.buckets i) =
            ground (arith, e, ap (λ (t : ℕ). sweep now (ft.buckets t)) e) in
          rw (in_it, stored) (ground (arith, sweep-sweep now (ft.buckets i)))
      | no ne ↦
          let same : in_slice (at + 1) rounds i ≡ in_slice at (suc rounds) i = ground (arith, ne) in
          let stored : ft'.buckets i ≡ ft.buckets i = ground (arith, ne) in rw (same, stored) refl
    ]

slice-bucket :
    (now cursor n : ℕ) (ft : FlowTable) (i : ℕ)
    → i < flow_table_size
    → (flow_table_gc_slice now cursor n ft).0.buckets i
      ≡ (if in_slice cursor n i then sweep now (ft.buckets i) else ft.buckets i)
unfolding flow_table_gc_slice
slice-bucket now cursor n ft i small = elim (Bool-cases (n == 0)) [
  | inl h ↦ ground (arith, h)
  | inr h ↦ rw h (gc_loop-bucket now n cursor ft i small)
]

-- After a slice of the collection, the flows of a bucket are those that were there and, if the bucket
-- is one of the `n` from the cursor on (around the table), were seen in the last 60 seconds.
pub gc_slice-In :
    (now cursor n : ℕ) (ft : FlowTable) (i : ℕ) (e : FlowEntry)
    → i < flow_table_size
    → In e ((flow_table_gc_slice now cursor n ft).0.buckets i)
      ↔ (In e (ft.buckets i) × (in_slice cursor n i ≡ true → age now e ≤ flow_timeout_sec))
gc_slice-In now cursor n ft i e small = elim (Bool-cases (in_slice cursor n i)) [
  | inl h ↦
      let f : sweep now (ft.buckets i) ≡ (flow_table_gc_slice now cursor n ft).0.buckets i =
        ground (arith, h, slice-bucket now cursor n ft i small) in
      let (to, from) = sweep-In now e (ft.buckets i) in
      (
        λ m. let (a, b) = to (subst (In e) (sym f) m) in (a, λ t. b),
        λ p. subst (In e) f (from (p.0, p.1 h)),
      )
  | inr h ↦
      let f : ft.buckets i ≡ (flow_table_gc_slice now cursor n ft).0.buckets i =
        ground (arith, h, slice-bucket now cursor n ft i small) in
      (λ m. (subst (In e) (sym f) m, λ t. absurd (ground (arith, h, t))), λ p. subst (In e) f p.0)
]
