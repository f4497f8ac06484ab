-- ===== src/Flow/Table/Sweep.antt =====
-- `flow_table_gc_slice` of src/core/flow_table.c.
use ne_multi_core.Base.{
  ℕ, zero, suc, ◌+◌, ◌-◌, ◌%◌, ◌^◌, Bool, List, [], ◌∷◌, ltb, ◌==◌, if◌then◌else◌,
}
use ne_multi_core.Flow.Hash.{flow_table_size}
use ne_multi_core.Flow.Table.{FlowEntry, FlowTable, set_bucket, flow_timeout_sec}

-- `now - entry->last_seen` on 64 bits.
abbrev pub age : ℕ → FlowEntry → ℕ
age now e = (now + 2 ^ 64 - e.last_seen) % 2 ^ 64

unfoldable pub expired : ℕ → FlowEntry → Bool
expired now e = ltb flow_timeout_sec (age now e)

unfoldable pub sweep : ℕ → List FlowEntry → List FlowEntry
unfolding expired
sweep now [] = []
sweep now (e ∷ chain) = let rest = sweep now chain in if expired now e then rest else e ∷ rest

-- The rounds that are left, and the bucket of this one before its remainder.
unfoldable pub gc_loop : ℕ → ℕ → ℕ → FlowTable → FlowTable
unfolding sweep
gc_loop now zero at ft = ft
gc_loop now (suc rounds) at ft =
    let i = at % flow_table_size in
    gc_loop now rounds (at + 1) (set_bucket ft i (sweep now (ft.buckets i)))

-- The table, and the cursor after the call. For no buckets the source returns at once.
unfoldable pub flow_table_gc_slice : ℕ → ℕ → ℕ → FlowTable → FlowTable × ℕ
unfolding gc_loop
flow_table_gc_slice now cursor n ft =
    if n == 0 then (ft, cursor) else (gc_loop now n cursor ft, (cursor + n) % flow_table_size)
