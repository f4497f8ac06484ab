-- ===== src/Flow/Table.antt =====
-- The flow table, src/core/flow_table.c and inc/core/flow_table.h: `flow_table_init`,
-- `flow_table_cleanup`, `flow_table_get_wan`.
-- A bucket is the list that its chain of entries forms. Each operation holds the lock of a bucket for
-- all it does to it, so it is one step. Whether `malloc` gives memory is an argument, and so is the
-- time in seconds.
pub mod Lookup
pub mod Profile
pub mod Gc
pub mod InPool
pub mod Sweep
use ne_multi_core.Base.{
  ℕ, zero, suc, ◌+◌, ◌-◌, ◌%◌, ◌^◌, Bool, true, false, ◌&&◌, ◌||◌, not, Option, none, some, List,
  [], ◌∷◌, length, replicate, get_or, ltb, leb, ◌==◌, if◌then◌else◌,
}
use ne_multi_core.Base.Int.{ℤ, pos, negsuc, leb_ℤ}
use ne_multi_core.Flow.Hash.{
  FlowKey, flow_table_size, normalize_flow_5tuple, normalize_flow_ips, flow_hash, flow_hash_ips,
}
use ne_multi_core.Flow.Wrr.{
  weight_at, wan_at, wan_allowed_pos, weights_sum_positive, first_positive_pos, next_enabled_pos,
  wrr_slot_to_wan, profile_wan_limit, get_next_wan,
}

-- MAX_INTERFACES and FLOW_TIMEOUT_SEC.
abbrev pub max_interfaces : ℕ
max_interfaces = 16

abbrev pub flow_timeout_sec : ℕ
flow_timeout_sec = 60

pub record FlowEntry : Type 0 where
  pub key : FlowKey
  pub byte_count : ℕ
  pub current_wan : ℤ
  pub wrr_slot : ℕ
  pub last_seen : ℕ
  pub valid : Bool
  pub ip_only_key : Bool
  pub profile_wan_pool : Bool

pub record FlowTable : Type 0 where
  pub buckets : ℕ → List FlowEntry
  pub wan_count : ℕ
  pub wan_window_sizes : List ℕ

-- The static counters of the file: `next_wan` and `g_pkt_wrr_seq`.
pub record Counters : Type 0 where
  pub next_wan : ℕ
  pub pkt_wrr_seq : ℕ

windows_or_zeros : Option (List ℕ) → List ℕ
windows_or_zeros none = replicate max_interfaces 0
windows_or_zeros (some sizes) = sizes

-- Where `wan_window_sizes` is not null, it has `MAX_INTERFACES` elements.
unfoldable pub flow_table_init : Counters → Option (List ℕ) → ℕ → FlowTable × Counters
unfolding windows_or_zeros
flow_table_init g sizes wan_count = (
  record { buckets = λ i. []; wan_count = wan_count; wan_window_sizes = windows_or_zeros sizes },
  record g { pkt_wrr_seq = 0 },
)

abbrev empty_from : ℕ → (ℕ → List FlowEntry) → ℕ → List FlowEntry
empty_from n buckets i = if ltb i n then [] else buckets i

unfoldable pub flow_table_cleanup : FlowTable → FlowTable
flow_table_cleanup ft = record ft { buckets = empty_from flow_table_size ft.buckets }

abbrev pub set_bucket : FlowTable → ℕ → List FlowEntry → FlowTable
set_bucket ft idx chain = record ft { buckets = λ i. if i == idx then chain else ft.buckets i }

-- `byte_count += pkt_len` on 32 bits.
abbrev pub count_bytes : ℕ → ℕ → ℕ
count_bytes n pkt_len = (n + pkt_len) % 2 ^ 32

-- `(current_wan + 1) % wan_count`, of a WAN below the count.
abbrev following_wan : ℤ → ℕ → ℤ
following_wan (pos i) n = pos ((i + 1) % n)
following_wan (negsuc i) n = negsuc i

-- The window of a WAN of the table, and 0 for any other number.
pub window_of : FlowTable → ℤ → ℕ
window_of ft (negsuc n) = 0
window_of ft (pos i) = if ltb i ft.wan_count then get_or ft.wan_window_sizes i 0 else 0

pub ip_entry_matches : FlowKey → FlowEntry → Bool
ip_entry_matches k e = e.ip_only_key && (e.key.src_ip == k.src_ip) && (e.key.dst_ip == k.dst_ip)

-- What `flow_table_get_wan` does to the entry it finds.
pub touch_ip_entry : FlowTable → ℕ → ℕ → FlowEntry → FlowEntry
unfolding window_of
touch_ip_entry ft now pkt_len e =
    let n = count_bytes e.byte_count pkt_len in
    let cur_limit = window_of ft e.current_wan in
    if ltb 0 cur_limit && leb cur_limit n
    then record e {
      last_seen = now;
      byte_count = 0;
      current_wan = following_wan e.current_wan ft.wan_count;
    }
    else record e { last_seen = now; byte_count = n }

-- The walk down a chain to the first entry that matches: what is found, and the chain with `touch`
-- applied to it.
walk_on : {A : Type 0} → FlowEntry → Option (A × List FlowEntry) → Option (A × List FlowEntry)
walk_on e none = none
walk_on e (some (a, chain)) = some (a, e ∷ chain)

pub walk :
    {A : Type 0}
    → (FlowEntry → Bool)
    → (FlowEntry → A × FlowEntry)
    → List FlowEntry
    → Option (A × List FlowEntry)
unfolding walk_on
walk matches touch [] = none
walk matches touch (e ∷ chain) =
    let rest = walk matches touch chain in
    if matches e then some ((touch e).0, (touch e).1 ∷ chain) else walk_on e rest

touch_ip : FlowTable → ℕ → ℕ → FlowEntry → ℤ × FlowEntry
unfolding touch_ip_entry
touch_ip ft now pkt_len e = let e' = touch_ip_entry ft now pkt_len e in (e'.current_wan, e')

new_ip_entry : FlowKey → ℕ → ℕ → ℤ → FlowEntry
new_ip_entry k now pkt_len wan = record {
  key = k;
  byte_count = pkt_len;
  current_wan = wan;
  wrr_slot = 0;
  last_seen = now;
  valid = true;
  ip_only_key = true;
  profile_wan_pool = false;
}

-- The result of an operation: the WAN it gives, the table and the counters after it.
pub record Chosen : Type 0 where
  pub wan : ℤ
  pub table : FlowTable
  pub counters : Counters

insert_ip : FlowTable → Counters → ℕ → FlowKey → ℕ → ℕ → Bool → Chosen
unfolding new_ip_entry
insert_ip ft g idx k now pkt_len false = record { wan = pos 0; table = ft; counters = g }
insert_ip ft g idx k now pkt_len true =
    let (wan, next_wan) = get_next_wan g.next_wan ft.wan_count in
    record {
      wan = wan;
      table = set_bucket ft idx (new_ip_entry k now pkt_len wan ∷ ft.buckets idx);
      counters = record g { next_wan = next_wan };
    }

found : FlowTable → Counters → ℕ → ℤ × List FlowEntry → Chosen
found ft g idx (wan, chain) = record { wan = wan; table = set_bucket ft idx chain; counters = g }

ip_result : FlowTable → Counters → ℕ → FlowKey → ℕ → ℕ → Bool → Option (ℤ × List FlowEntry) → Chosen
unfolding insert_ip found
ip_result ft g idx k now pkt_len malloc_ok none = insert_ip ft g idx k now pkt_len malloc_ok
ip_result ft g idx k now pkt_len malloc_ok (some r) = found ft g idx r

pub flow_table_get_wan : FlowTable → Counters → ℕ → Bool → FlowKey → ℕ → Chosen
unfolding ip_result flow_hash_ips normalize_flow_ips ip_entry_matches touch_ip walk
flow_table_get_wan ft g now malloc_ok packet_key pkt_len =
    let k = normalize_flow_ips packet_key in
    let idx = flow_hash_ips k in
    ip_result ft g idx k now pkt_len malloc_ok
      (walk (ip_entry_matches k) (touch_ip ft now pkt_len) (ft.buckets idx))
