-- ===== src/Runtime/Reachable.antt =====
-- The slots of src/core/forwarder_crypto_runtime.c over everything that changes them: its calls, the
-- reload of src/core/forwarder_reload.c, the packets from the WANs (src/core/dataplane_wan.c) and those
-- from the LANs (src/core/dataplane_local.c).
use ne_multi_core.Base.{ℕ, ◌≡◌, refl, sym, ◌∙◌, Bool, false, Option, none, some, take, subst, leb}
use ne_multi_core.Base.Int.{ℤ}
use ne_multi_core.Config.{AppConfig}
use ne_multi_core.Flow.Table.{FlowTable, Counters}
use ne_multi_core.Ring.{Packet}
use ne_multi_core.Fragment.{Bytes, failed, pending, joined}
use ne_multi_core.Runtime.{
  Slots, set_slot, fwd_crypto_ensure_profile_slots, fwd_crypto_cleanup_stale_profile_slots,
  fwd_crypto_cleanup_all_profile_slots, fwd_crypto_reset_on_init, fwd_crypto_frag_gc_worker_tick,
}
use ne_multi_core.Runtime.Slots.{Holds, OneEach}
use ne_multi_core.Runtime.Ensure.{
  ensure_profile_slots-AllServed, Fewer, Fewer-OneEach, cleanup_stale-Fewer, cleanup_all-Fewer,
  reset-Fewer, tick-Fewer,
}
use ne_multi_core.Runtime.Windows.{fwd_crypto_sync_flow_table_windows, sync-same}
use ne_multi_core.Dataplane.{dp_write_l2_src_only}
use ne_multi_core.Dataplane.Wan.{WanEnv, WanSide, wan_has_crypto}
use ne_multi_core.Dataplane.Wan.Process.{
  Stage, dataplane_process_wan, forward, forward_to, write_and_push, push_to_local, free_frame,
  decrypt_wan, pick_local,
}
use ne_multi_core.Dataplane.Wan.Process.Plain.{if_cases}
use ne_multi_core.Dataplane.Wan.Process.Quiet.{
  SameProfiles, set_slot-SameProfiles, decrypt_wan-SameProfiles,
}

-- A flow table of a slot with what a packet from a LAN makes of it.
abbrev pub with_flow_table : Slots → ℕ → FlowTable → Slots
with_flow_table s i ft = set_slot s i (record (s i) { flows = ft })

-- The calls on the slots, and the packets, in any order. A packet from a LAN changes only the flow table
-- of the slot of its profile; whatever it makes of the table is covered.
pub data Step : Slots → Slots → Type 0 where
  ensured :
      (cfg : AppConfig) (s : Slots) (g : Counters)
      → Step s (fwd_crypto_ensure_profile_slots cfg (s, g)).1.0
  stale_cleaned :
      (cfg : AppConfig) (grace : Bool) (s : Slots)
      → Step s (fwd_crypto_cleanup_stale_profile_slots cfg grace s)
  all_cleaned : (s : Slots) → Step s (fwd_crypto_cleanup_all_profile_slots s)
  reset : (s : Slots) → Step s (fwd_crypto_reset_on_init s)
  collected :
      (worker_idx now now_ns : ℕ) (s : Slots)
      → Step s (fwd_crypto_frag_gc_worker_tick worker_idx now now_ns s)
  windows_synced : (cfg : AppConfig) (s : Slots) → Step s (fwd_crypto_sync_flow_table_windows cfg s)
  from_wan :
      (env : WanEnv) (s : WanSide) (job : Packet)
      → Step s.slots (dataplane_process_wan env s job).slots
  from_local : (s : Slots) (i : ℕ) (ft : FlowTable) → Step s (with_flow_table s i ft)

pub data Reachable : Slots → Type 0 where
  started : (s : Slots) → ((i : ℕ) → (s i).ready ≡ false) → Reachable s
  stepped : (s t : Slots) → Reachable s → Step s t → Reachable t

SameProfiles-Fewer : (s t : Slots) → SameProfiles s t → Fewer s t
SameProfiles-Fewer s t same i lt e = let (r, p) = same i in (sym r ∙ e, sym p)

pub sync-Fewer : (cfg : AppConfig) (s : Slots) → Fewer s (fwd_crypto_sync_flow_table_windows cfg s)
sync-Fewer cfg s = SameProfiles-Fewer s (fwd_crypto_sync_flow_table_windows cfg s) (sync-same cfg s)

-- The way to the LAN leaves the slots alone.
write_and_push-slots :
    (env : WanEnv) (s : WanSide) (job : Packet) (li : ℕ) (o : Option Bytes)
    → (write_and_push env s job li o).slots ≡ s.slots
unfolding write_and_push push_to_local free_frame
write_and_push-slots env s job li none = refl
write_and_push-slots env s job li (some q) = refl

forward_to-slots :
    (env : WanEnv) (s : WanSide) (job : Packet) (p : Bytes) (o : Option ℕ)
    → (forward_to env s job p o).slots ≡ s.slots
unfolding forward_to free_frame
forward_to-slots env s job p none = refl
forward_to-slots env s job p (some li) =
    let o = dp_write_l2_src_only p (env.src_mac li) in
    if_cases (λ t. t.slots ≡ s.slots) (leb env.local_count li) (free_frame s job)
      (write_and_push env s job li o) (λ h. refl) (λ h. write_and_push-slots env s job li o)

forward-slots : (env : WanEnv) (job : Packet) (st : Stage) → (forward env job st).slots ≡ st.1.slots
unfolding forward free_frame
forward-slots env job (failed, t) = refl
forward-slots env job (pending, t) = refl
forward-slots env job (joined p, t) = forward_to-slots env t job p (pick_local env p)

process_wan-SameProfiles :
    (env : WanEnv) (s : WanSide) (job : Packet)
    → SameProfiles s.slots (dataplane_process_wan env s job).slots
unfolding dataplane_process_wan
process_wan-SameProfiles env s job =
    let p = take job.len (s.mem job.addr) in
    if_cases (λ t. SameProfiles s.slots t.slots) (wan_has_crypto env s.contexts p)
      (forward env job (decrypt_wan env s p)) (forward env job (joined p, s))
      (λ h.
        subst (SameProfiles s.slots) (sym (forward-slots env job (decrypt_wan env s p)))
          (decrypt_wan-SameProfiles env s p))
      (λ h.
        subst (SameProfiles s.slots) (sym (forward-slots env job (joined p, s)))
          (λ i. (refl, refl)))

Step-OneEach : {s t : Slots} → Step s t → OneEach s → OneEach t
Step-OneEach (ensured cfg s g) one = (ensure_profile_slots-AllServed cfg s g one).0
Step-OneEach (stale_cleaned cfg grace s) one =
    Fewer-OneEach s (fwd_crypto_cleanup_stale_profile_slots cfg grace s)
      (cleanup_stale-Fewer cfg grace s) one
Step-OneEach (all_cleaned s) one =
    Fewer-OneEach s (fwd_crypto_cleanup_all_profile_slots s) (cleanup_all-Fewer s) one
Step-OneEach (reset s) one = Fewer-OneEach s (fwd_crypto_reset_on_init s) (reset-Fewer s) one
Step-OneEach (collected worker_idx now now_ns s) one =
    Fewer-OneEach s (fwd_crypto_frag_gc_worker_tick worker_idx now now_ns s)
      (tick-Fewer worker_idx now now_ns s) one
Step-OneEach (windows_synced cfg s) one =
    Fewer-OneEach s (fwd_crypto_sync_flow_table_windows cfg s) (sync-Fewer cfg s) one
Step-OneEach (from_wan env s job) one =
    let t = (dataplane_process_wan env s job).slots in
    Fewer-OneEach s.slots t (SameProfiles-Fewer s.slots t (process_wan-SameProfiles env s job)) one
Step-OneEach (from_local s i ft) one =
    let t = with_flow_table s i ft in
    Fewer-OneEach s t
      (SameProfiles-Fewer s t (set_slot-SameProfiles s i (record (s i) { flows = ft }) refl refl))
      one

-- In every state that the calls on the slots (those of a start, a reload, its cleaning up and the
-- collection), the packets from the WANs, which change the reassembly tables, and those from the LANs,
-- which change the flow tables, lead to from the start, in whatever order they come, no profile has two
-- slots, so all packets of a profile meet the same flow table and the same reassembly tables.
pub Reachable-OneEach : {s : Slots} → Reachable s → OneEach s
Reachable-OneEach (started s none_ready) =
    λ (i : ℕ) (j : ℕ) (pid : ℤ) (x : Holds s i pid) (y : Holds s j pid).
      absurd (cc (x.1, none_ready i))
Reachable-OneEach (stepped s t reached step) = Step-OneEach step (Reachable-OneEach reached)
