-- ===== src/Fragment.antt =====
-- Reassembly of split packets, src/core/fragment.c and inc/core/fragment.h: the entries, their table and
-- `frag_next_pkt_id`, `frag_table_init`, `frag_table_gc_at`, `frag_read_hdr`, `frag_require_ipv4`,
-- `frag_prepare_entry`, `frag_store_first`, `frag_store_second`, `frag_l2_entry_live`, `frag_l2_acquire`
-- and `frag_emit_join`. A packet is the list of its bytes; of an entry's buffers the list keeps the
-- bytes below the stored length. A byte read past the end is 0.
pub mod Entry
pub mod Reassemble
pub mod Split
pub mod Recognise
pub mod Acquire
pub mod LayerFour
use ne_multi_core.Base.{
  ℕ, zero, suc, ◌+◌, ◌-◌, ◌*◌, ◌/◌, ◌%◌, ◌^◌, Bool, true, false, ◌&&◌, ◌||◌, not, Option, none,
  some, List, [], ◌∷◌, ◌++◌, length, get_or, take, drop, replicate, ltb, leb, ◌==◌, if◌then◌else◌,
  bit_and,
}

-- FRAG_TABLE_SIZE, FRAG_TIMEOUT_NS, FRAG_MTU, the size of a buffer of an entry.
abbrev pub frag_table_size : ℕ
frag_table_size = 4096

abbrev pub frag_timeout_ns : ℕ
frag_timeout_ns = 200000000

abbrev pub frag_mtu : ℕ
frag_mtu = 1500

abbrev pub half_max : ℕ
half_max = 1600

abbrev pub Bytes : Type 0
Bytes = List ℕ

abbrev pub byte_at : Bytes → ℕ → ℕ
byte_at p i = get_or p i 0

pub record FragEntry : Type 0 where
  pub pkt_id : ℕ
  pub first : Bytes
  pub second : Bytes
  pub eth_hdr : Bytes
  pub timestamp_ns : ℕ
  pub got_first : Bool
  pub got_second : Bool

abbrev pub FragTable : Type 0
FragTable = ℕ → FragEntry

-- What `memset(entry, 0, sizeof(*entry))` leaves.
abbrev pub zero_entry : FragEntry
zero_entry = record {
  pkt_id = 0;
  first = [];
  second = [];
  eth_hdr = replicate 14 0;
  timestamp_ns = 0;
  got_first = false;
  got_second = false;
}

-- The counter is an `atomic_uint_fast32_t`, of 64 bits; the result is the id and the counter after.
unfoldable pub frag_next_pkt_id : ℕ → ℕ × ℕ
frag_next_pkt_id counter = (bit_and counter 0xFFFF, (counter + 1) % 2 ^ 64)

unfoldable pub frag_table_init : FragTable
frag_table_init i = zero_entry

-- `now - timestamp_ns > FRAG_TIMEOUT_NS` on 64 bits.
abbrev pub timed_out : ℕ → FragEntry → Bool
timed_out now e = ltb frag_timeout_ns ((now + 2 ^ 64 - e.timestamp_ns) % 2 ^ 64)

abbrev pub in_use : FragEntry → Bool
in_use e = e.got_first || e.got_second

unfoldable pub gc_entry : ℕ → FragEntry → FragEntry
gc_entry now e = if in_use e && timed_out now e then zero_entry else e

unfoldable pub frag_table_gc_at : ℕ → FragTable → FragTable
unfolding gc_entry
frag_table_gc_at now ft i = if ltb i frag_table_size then gc_entry now (ft i) else ft i

-- The id and the index that begin at `off`.
unfoldable pub frag_read_hdr : Bytes → ℕ → ℕ × ℕ
frag_read_hdr p off = (byte_at p off * 2 ^ 8 + byte_at p (off + 1), byte_at p (off + 2))

abbrev pub ethertype : Bytes → ℕ
ethertype p = byte_at p 12 * 2 ^ 8 + byte_at p 13

-- `(b & 0x0F) * 4`
abbrev pub ip_header_len : ℕ → ℕ
ip_header_len b = bit_and b 0x0F * 4

-- The length of the IP header, or `none` for the -1 of the source.
unfoldable pub frag_require_ipv4 : Bytes → Option ℕ
frag_require_ipv4 p =
    let ihl = ip_header_len (byte_at p 14) in
    if ltb (length p) 34
    then none
    else if not (ethertype p == 0x0800)
    then none
    else if ltb ihl 20 || ltb (length p) (14 + ihl)
    then none
    else some ihl

unfoldable pub frag_prepare_entry : FragEntry → ℕ → ℕ → FragEntry
frag_prepare_entry e pkt_id now =
    if not (e.pkt_id == pkt_id) || (in_use e && timed_out now e)
    then record zero_entry { pkt_id = pkt_id; timestamp_ns = now }
    else record e { pkt_id = pkt_id; timestamp_ns = now }

-- `none` is the -1 of a half that does not fit; the entry is then as it was.
unfoldable pub frag_store_first : FragEntry → ℕ → Bytes → Bytes → ℕ → Option FragEntry
unfolding frag_prepare_entry
frag_store_first e pkt_id eth half now =
    if ltb half_max (length half)
    then none
    else some (record (frag_prepare_entry e pkt_id now) {
      first = half;
      eth_hdr = take 14 eth;
      got_first = true;
    })

unfoldable pub frag_store_second : FragEntry → ℕ → Bytes → ℕ → Option FragEntry
unfolding frag_prepare_entry
frag_store_second e pkt_id half now =
    if ltb half_max (length half)
    then none
    else some (record (frag_prepare_entry e pkt_id now) { second = half; got_second = true })

unfoldable pub frag_l2_entry_live : FragEntry → ℕ → Bool
frag_l2_entry_live e now =
    if not e.got_first && not e.got_second then false else if timed_out now e then false else true

-- The rounds that are left, and the step of this one.
unfoldable pub acquire_loop : FragTable → ℕ → ℕ → ℕ → ℕ → Option ℕ
unfolding frag_l2_entry_live
acquire_loop ft pkt_id now zero step = none
acquire_loop ft pkt_id now (suc rounds) step =
    let rest = acquire_loop ft pkt_id now rounds (step + 1) in
    let idx = (pkt_id % frag_table_size + step) % frag_table_size in
    if not (frag_l2_entry_live (ft idx) now)
    then some idx
    else if (ft idx).pkt_id == pkt_id
    then some idx
    else rest

-- The index of the entry, where the source gives its address.
unfoldable pub frag_l2_acquire : FragTable → ℕ → ℕ → Option ℕ
unfolding acquire_loop
frag_l2_acquire ft pkt_id now = acquire_loop ft pkt_id now frag_table_size 0

-- -1, 0, and 1 with the packet that is put out.
pub data Outcome : Type 0 where
  failed : Outcome
  pending : Outcome
  joined : Bytes → Outcome

-- `eth_len` is `ETH_HEADER_SIZE` in every call.
unfoldable pub frag_emit_join : FragEntry → ℕ → Outcome × FragEntry
frag_emit_join e eth_len =
    if not e.got_first || not e.got_second
    then (pending, e)
    else if ltb 4096 ((length e.first + length e.second + eth_len) % 2 ^ 32)
    then (failed, zero_entry)
    else (joined (take eth_len e.eth_hdr ++ e.first ++ e.second), zero_entry)
