-- ===== src/Runtime.antt =====
-- The tables of each profile, src/core/forwarder_crypto_runtime.c: `fwd_crypto_profile_slot_for_id`,
-- `profile_slot_alloc`, `fwd_crypto_ensure_profile_slots`, `fwd_crypto_cleanup_stale_profile_slots`,
-- `fwd_crypto_cleanup_all_profile_slots`, `fwd_crypto_frag_gc_worker_tick` and
-- `fwd_crypto_reset_on_init`. The static arrays are one state.
pub mod Slots
pub mod Ensure
pub mod Grown
pub mod Reachable
pub mod Windows
pub mod Policies
use ne_multi_core.Base.{
  ℕ, zero, suc, ◌+◌, ◌<◌, Bool, true, false, ◌&&◌, ◌||◌, not, Option, none, some, List, [], ◌∷◌,
  map, length, replicate, get_or, set, take, ltb, leb, ◌==◌, if◌then◌else◌, get_elem?,
}
use ne_multi_core.Base.Int.{ℤ, pos, negsuc, eqb_ℤ}
use ne_multi_core.Config.{AppConfig, ProfileConfig, WanConfig}
use ne_multi_core.Fragment.{FragTable, frag_table_init, frag_table_gc_at}
use ne_multi_core.Flow.Table.{FlowTable, Counters, flow_table_init, flow_table_cleanup}
use ne_multi_core.Flow.Table.Sweep.{flow_table_gc_slice}

-- MAX_PROFILES, NE_CRYPTO_WORKERS, FLOW_GC_BUCKETS_PER_TICK.
abbrev pub max_profiles : ℕ
max_profiles = 32

abbrev pub workers : ℕ
workers = 6

abbrev pub flow_gc_buckets_per_tick : ℕ
flow_gc_buckets_per_tick = 256

-- One slot: whether it is in use, the profile, and its tables: one of layer 2 for each worker.
pub record Slot : Type 0 where
  pub ready : Bool
  pub profile_id : ℤ
  pub flows : FlowTable
  pub gc_cursor : ℕ
  pub frag_l2 : ℕ → FragTable
  pub frag_l3 : FragTable
  pub frag_l4 : FragTable

abbrev pub Slots : Type 0
Slots = ℕ → Slot

abbrev pub set_slot : Slots → ℕ → Slot → Slots
set_slot s i x j = if j == i then x else s j

-- `left` slots from `i` on.
unfoldable pub slot_loop : Slots → ℤ → ℕ → ℕ → Option ℕ
slot_loop s profile_id zero i = none
slot_loop s profile_id (suc left) i =
    let rest = slot_loop s profile_id left (i + 1) in
    if (s i).ready && eqb_ℤ (s i).profile_id profile_id then some i else rest

-- `none` is the -1 of the source.
unfoldable pub fwd_crypto_profile_slot_for_id : Slots → ℤ → Option ℕ
unfolding slot_loop
fwd_crypto_profile_slot_for_id s profile_id = slot_loop s profile_id max_profiles 0

unfoldable pub free_loop : Slots → ℕ → ℕ → Option ℕ
free_loop s zero i = none
free_loop s (suc left) i =
    let rest = free_loop s left (i + 1) in if not (s i).ready then some i else rest

unfoldable pub claimed : Slots → ℤ → Option ℕ → Option ℕ × Slots
claimed s profile_id none = (none, s)
claimed s profile_id (some i) = (some i, set_slot s i (record (s i) { profile_id = profile_id }))

unfoldable pub alloc_unless : Slots → ℤ → Option ℕ → Option ℕ × Slots
unfolding claimed free_loop
alloc_unless s profile_id none = claimed s profile_id (free_loop s max_profiles 0)
alloc_unless s profile_id (some i) = (some i, s)

unfoldable pub profile_slot_alloc : Slots → ℤ → Option ℕ × Slots
unfolding alloc_unless
profile_slot_alloc s profile_id =
    alloc_unless s profile_id (fwd_crypto_profile_slot_for_id s profile_id)

-- The window sizes of the WANs, filled up with zeros.
windows_of : List WanConfig → ℕ → List ℕ
windows_of ws zero = []
windows_of [] (suc n) = 0 ∷ windows_of [] n
windows_of (w ∷ ws) (suc n) = w.window_size ∷ windows_of ws n

-- A slot with empty tables; the cursor of its collection stays where it was.
unfoldable pub fresh_slot : Counters → List WanConfig → Slot → Slot × Counters
unfolding windows_of
fresh_slot g wans x =
    let (ft, g') = flow_table_init g (some (windows_of wans 16)) (length wans) in
    (
      record x {
        ready = true;
        flows = ft;
        frag_l2 = λ w. if ltb w workers then frag_table_init else x.frag_l2 w;
        frag_l3 = frag_table_init;
        frag_l4 = frag_table_init;
      },
      g',
    )

-- The slots and the counters of the flow tables.
abbrev pub Tables : Type 0
Tables = Slots × Counters

unfoldable pub made_ready : List WanConfig → Tables → ℕ → Tables
unfolding fresh_slot
made_ready wans (s, g) i =
    let (x, g') = fresh_slot g wans (s i) in if (s i).ready then (s, g) else (set_slot s i x, g')

-- A slot that `profile_slot_alloc` gives gets its tables, if it has none yet.
unfoldable pub after_alloc : List WanConfig → Counters → Option ℕ × Slots → Bool × Tables
unfolding made_ready
after_alloc wans g (none, s) = (false, (s, g))
after_alloc wans g (some i, s) = (true, made_ready wans (s, g) i)

unfoldable pub one_profile : List WanConfig → ℤ → Tables → Bool × Tables
unfolding after_alloc
one_profile wans profile_id (s, g) = after_alloc wans g (profile_slot_alloc s profile_id)

-- Whether the call succeeds, and the state after it.
unfoldable pub ensure_loop : List WanConfig → List ProfileConfig → ℕ → Tables → Bool × Tables
unfolding one_profile
ensure_loop wans [] room t = (true, t)
ensure_loop wans (p ∷ ps) zero t = (true, t)
ensure_loop wans (p ∷ ps) (suc room) t =
    let (ok, t') = one_profile wans p.id t in
    let rest = ensure_loop wans ps room t' in if ok then rest else (false, t')

unfoldable pub fwd_crypto_ensure_profile_slots : AppConfig → Tables → Bool × Tables
unfolding ensure_loop
fwd_crypto_ensure_profile_slots cfg t = ensure_loop cfg.wans cfg.profiles max_profiles t

-- Whether one of the profiles has the id; `room` is what is left of MAX_PROFILES.
unfoldable pub has_profile : List ProfileConfig → ℕ → ℤ → Bool
has_profile [] room pid = false
has_profile (p ∷ ps) zero pid = false
has_profile (p ∷ ps) (suc room) pid = eqb_ℤ p.id pid || has_profile ps room pid

-- What is left of a slot that is given up. All bytes of its reassembly tables are 0.
unfoldable pub cleared_slot : Slot → Slot
cleared_slot x = record x {
  ready = false;
  profile_id = pos 0;
  flows = flow_table_cleanup x.flows;
  frag_l2 = λ w. if ltb w workers then frag_table_init else x.frag_l2 w;
  frag_l3 = frag_table_init;
  frag_l4 = frag_table_init;
}

-- `grace` is `prev_grace_active`.
unfoldable pub fwd_crypto_cleanup_stale_profile_slots : AppConfig → Bool → Slots → Slots
unfolding cleared_slot has_profile
fwd_crypto_cleanup_stale_profile_slots cfg grace s i =
    if grace || not (ltb i max_profiles)
    then s i
    else if not (s i).ready
    then s i
    else if has_profile cfg.profiles max_profiles (s i).profile_id
    then s i
    else cleared_slot (s i)

pub fwd_crypto_cleanup_all_profile_slots : Slots → Slots
unfolding cleared_slot
fwd_crypto_cleanup_all_profile_slots s i =
    if ltb i max_profiles && (s i).ready then cleared_slot (s i) else s i

-- What a start does to the slots.
pub fwd_crypto_reset_on_init : Slots → Slots
fwd_crypto_reset_on_init s i =
    if ltb i max_profiles then record (s i) { ready = false; profile_id = pos 0 } else s i

-- One slot in the tick of a worker: worker 0 collects the flows and the layer 3 table, the others the
-- layer 4 table, each its own layer 2 table. The time of the flows is in seconds.
gc_slot : ℕ → ℕ → ℕ → Slot → Slot
gc_slot worker_idx now now_ns x =
    let (ft, cursor) = flow_table_gc_slice now x.gc_cursor flow_gc_buckets_per_tick x.flows in
    let own =
      λ (w : ℕ). if w == worker_idx then frag_table_gc_at now_ns (x.frag_l2 w) else x.frag_l2 w in
    if worker_idx == 0
    then record x {
      flows = ft;
      gc_cursor = cursor;
      frag_l2 = own;
      frag_l3 = frag_table_gc_at now_ns x.frag_l3;
    }
    else record x { frag_l2 = own; frag_l4 = frag_table_gc_at now_ns x.frag_l4 }

pub fwd_crypto_frag_gc_worker_tick : ℕ → ℕ → ℕ → Slots → Slots
unfolding gc_slot
fwd_crypto_frag_gc_worker_tick worker_idx now now_ns s i =
    if leb workers worker_idx
    then s i
    else if ltb i max_profiles && (s i).ready
    then gc_slot worker_idx now now_ns (s i)
    else s i
