-- ===== src/Runtime/Windows.antt =====
-- The window sizes of the flow tables after a reload, `fwd_crypto_sync_flow_table_windows` of
-- src/core/forwarder_crypto_runtime.c. The entries of the array of WANs behind the last one are zero.
use ne_multi_core.Base.{
  ℕ, ◌≡◌, refl, ◌&&◌, Option, none, some, List, [], ◌∷◌, set, get_elem?, ltb, if◌then◌else◌,
  Bool-cases, inl, inr,
}
use ne_multi_core.Base.Int.{ℤ, pos, negsuc, eqb_ℤ}
use ne_multi_core.Config.{AppConfig, ProfileConfig, WanConfig}
use ne_multi_core.Flow.Table.{FlowTable}
use ne_multi_core.Flow.Table as Table
use ne_multi_core.Runtime.{Slot, Slots, max_profiles}

unfoldable pub profile_with : List ProfileConfig → ℤ → Option ProfileConfig
profile_with [] pid = none
profile_with (p ∷ ps) pid =
    let rest = profile_with ps pid in if eqb_ℤ p.id pid then some p else rest

abbrev pub size_of : Option WanConfig → ℕ
size_of none = 0
size_of (some w) = w.window_size

unfoldable pub set_window : List WanConfig → ℤ → List ℕ → List ℕ
set_window wans (pos wi) sizes =
    if ltb wi Table.max_interfaces then set sizes wi (size_of (get_elem? wans wi)) else sizes
set_window wans (negsuc n) sizes = sizes

unfoldable pub windows_loop : List WanConfig → List ℤ → List ℕ → List ℕ
unfolding set_window
windows_loop wans [] sizes = sizes
windows_loop wans (wi ∷ wis) sizes = windows_loop wans wis (set_window wans wi sizes)

unfoldable pub synced : List WanConfig → Option ProfileConfig → Slot → Slot
unfolding windows_loop
synced wans none x = x
synced wans (some p) x =
    let sizes = windows_loop wans p.wan_indices x.flows.wan_window_sizes in
    record x { flows = record (x.flows) { wan_window_sizes = sizes } }

pub fwd_crypto_sync_flow_table_windows : AppConfig → Slots → Slots
unfolding synced profile_with
fwd_crypto_sync_flow_table_windows cfg s i =
    if ltb i max_profiles && (s i).ready
    then synced cfg.wans (profile_with cfg.profiles (s i).profile_id) (s i)
    else s i

synced-same :
    (wans : List WanConfig) (o : Option ProfileConfig) (x : Slot)
    → ((synced wans o x).ready ≡ x.ready) × ((synced wans o x).profile_id ≡ x.profile_id)
unfolding synced
synced-same wans none x = (refl, refl)
synced-same wans (some p) x = (refl, refl)

-- The slots are for the same profiles as before.
pub sync-same :
    (cfg : AppConfig) (s : Slots) (i : ℕ)
    → let t = fwd_crypto_sync_flow_table_windows cfg s in
      ((t i).ready ≡ (s i).ready) × ((t i).profile_id ≡ (s i).profile_id)
unfolding fwd_crypto_sync_flow_table_windows
sync-same cfg s i = elim (Bool-cases (ltb i max_profiles && (s i).ready)) [
  | inl h ↦ rw h (synced-same cfg.wans _ (s i))
  | inr h ↦ rw h (refl, refl)
]

-- The slot has the tables of before: the flows, and the halves that wait.
abbrev pub SameTables : Slot → Slot → Type 0
SameTables x y =
    (y.flows.buckets ≡ x.flows.buckets)
    × (y.frag_l2 ≡ x.frag_l2)
    × (y.frag_l3 ≡ x.frag_l3)
    × (y.frag_l4 ≡ x.frag_l4)

synced-SameTables :
    (wans : List WanConfig) (o : Option ProfileConfig) (x : Slot) → SameTables x (synced wans o x)
unfolding synced
synced-SameTables wans none x = (refl, refl, refl, refl)
synced-SameTables wans (some p) x = (refl, refl, refl, refl)

-- The tables of the slots are the same but for the window sizes.
pub sync-SameTables :
    (cfg : AppConfig) (s : Slots) (i : ℕ)
    → SameTables (s i) (fwd_crypto_sync_flow_table_windows cfg s i)
unfolding fwd_crypto_sync_flow_table_windows
sync-SameTables cfg s i = elim (Bool-cases (ltb i max_profiles && (s i).ready)) [
  | inl h ↦ rw h (synced-SameTables cfg.wans _ (s i))
  | inr h ↦ rw h (refl, refl, refl, refl)
]
