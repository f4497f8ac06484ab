-- ===== src/Flow/Wrr.antt =====
-- Weighted choice of a WAN, src/core/flow_table.c: `wan_allowed_pos`, `weights_sum_positive`,
-- `first_positive_pos`, `next_enabled_pos`, `wrr_slot_to_wan`, `profile_wan_limit`,
-- `flow_table_pick_wan_per_packet` and `get_next_wan`. `allowed_wans` and its count are a list (empty
-- for a null pointer); `allowed_weights` may be null. A sum that does not fit an `int` wraps.
pub mod Fair
pub mod Choice
use ne_multi_core.Base.{
  ℕ, zero, suc, ◌+◌, ◌-◌, ◌*◌, ◌/◌, ◌%◌, ◌^◌, Bool, true, false, ◌||◌, not, Option, none, some,
  List, [], ◌∷◌, length, get_or, ltb, leb, ◌==◌, if◌then◌else◌,
}
use ne_multi_core.Base.Int.{ℤ, pos, negsuc, pos_part, ltb_ℤ, leb_ℤ, eqb_ℤ}

abbrev pub weight_at : List ℤ → ℕ → ℤ
weight_at ws i = get_or ws i (pos 0)

abbrev pub wan_at : List ℤ → ℕ → ℤ
wan_at wans i = get_or wans i (pos 0)

unfoldable pub pos_loop : ℤ → List ℤ → ℕ → Option ℕ
pos_loop wan_idx [] i = none
pos_loop wan_idx (w ∷ ws) i =
    let rest = pos_loop wan_idx ws (i + 1) in if eqb_ℤ w wan_idx then some i else rest

-- `none` is the -1 of the source.
unfoldable pub wan_allowed_pos : ℤ → List ℤ → Option ℕ
unfolding pos_loop
wan_allowed_pos wan_idx wans = pos_loop wan_idx wans 0

-- An `int` sum: its low 32 bits, and 0 for a sum that has become negative, since no reader tells a
-- negative sum from 0. (Compiled code wraps; the standard leaves it open.)
unfoldable pub as_int : ℕ → ℕ
as_int n = if ltb (n % 2 ^ 32) (2 ^ 31) then n % 2 ^ 32 else 0

unfoldable pub sum_loop : List ℤ → ℕ → ℕ
sum_loop [] s = s
sum_loop (w ∷ ws) s = sum_loop ws (if ltb_ℤ (pos 0) w then s + pos_part w else s)

unfoldable pub weights_sum_positive : Option (List ℤ) → ℕ
unfolding sum_loop as_int
weights_sum_positive none = 0
weights_sum_positive (some ws) = as_int (sum_loop ws 0)

pub first_loop : List ℤ → ℕ → ℕ
first_loop [] i = 0
first_loop (w ∷ ws) i = let rest = first_loop ws (i + 1) in if ltb_ℤ (pos 0) w then i else rest

pub first_positive_pos : Option (List ℤ) → ℕ
unfolding first_loop
first_positive_pos none = 0
first_positive_pos (some ws) = first_loop ws 0

-- The rounds that are left, and the step of this one.
pub next_loop : ℕ → ℕ → ℕ → List ℤ → ℕ → ℕ
unfolding first_positive_pos
next_loop zero step p ws count = first_positive_pos (some ws)
next_loop (suc rounds) step p ws count =
    let rest = next_loop rounds (step + 1) p ws count in
    if ltb_ℤ (pos 0) (weight_at ws ((p + step) % count)) then (p + step) % count else rest

pub next_in_weights : ℕ → Option (List ℤ) → ℕ → ℕ
unfolding next_loop
next_in_weights p none count = (p + 1) % count
next_in_weights p (some ws) count =
    if weights_sum_positive (some ws) == 0 then (p + 1) % count else next_loop count 1 p ws count

pub next_enabled_pos : ℕ → Option (List ℤ) → ℕ → ℕ
unfolding next_in_weights
next_enabled_pos p weights count = if count == 0 then 0 else next_in_weights p weights count

-- The position whose share of the slots holds `s`, from position `i` on, with `acc` slots passed.
pub slot_loop : List ℤ → ℕ → ℕ → ℕ → Option ℕ
unfolding as_int
slot_loop [] i acc s = none
slot_loop (w ∷ ws) i acc s =
    let skipped = slot_loop ws (i + 1) acc s in
    let rest = slot_loop ws (i + 1) (acc + pos_part w) s in
    if leb_ℤ w (pos 0) then skipped else if ltb s (as_int (acc + pos_part w)) then some i else rest

pub wan_of_pos : List ℤ → Option ℕ → ℤ
wan_of_pos wans none = wan_at wans (length wans - 1)
wan_of_pos wans (some i) = wan_at wans i

-- `((slot % sumw) + sumw) % sumw`, for a slot that is not negative, as both callers pass it: if the sum
-- wraps, the remainder is at most 0, and falls before the first share like slot 0.
pub slot_in_round : ℕ → ℕ → ℕ
unfolding as_int
slot_in_round slot sumw = as_int (slot % sumw + sumw) % sumw

pub wrr_slot_to_wan : ℕ → List ℤ → Option (List ℤ) → ℕ → ℤ
unfolding slot_loop wan_of_pos slot_in_round
wrr_slot_to_wan slot wans none sumw = wan_at wans 0
wrr_slot_to_wan slot wans (some ws) sumw =
    if (length wans == 0) || (sumw == 0)
    then wan_at wans 0
    else wan_of_pos wans (slot_loop ws 0 0 (slot_in_round slot sumw))

-- `limit > 0 ? (uint32_t)limit : 1`
abbrev at_least_one : ℕ → ℕ
at_least_one limit = if ltb 0 limit then limit % 2 ^ 32 else 1

pub share_limit : ℕ → ℕ → Option ℕ → List ℤ → ℕ
share_limit base sumw none ws = 0
share_limit base sumw (some p) ws =
    if leb_ℤ (weight_at ws p) (pos 0)
    then 0
    else at_least_one (base * pos_part (weight_at ws p) / sumw)

pub limit_in_pool : ℕ → ℤ → List ℤ → Option (List ℤ) → ℕ
unfolding share_limit
limit_in_pool base wan_idx wans none = base / (if length wans == 0 then 1 else length wans)
limit_in_pool base wan_idx wans (some ws) =
    let sumw = weights_sum_positive (some ws) in
    if (sumw == 0) || (length wans == 0)
    then base / (if length wans == 0 then 1 else length wans)
    else share_limit base sumw (wan_allowed_pos wan_idx wans) ws

-- `windows` is `ft->wan_window_sizes`, `wan_count` is `ft->wan_count`.
pub profile_wan_limit : ℕ → List ℕ → ℤ → List ℤ → Option (List ℤ) → ℕ
unfolding limit_in_pool
profile_wan_limit wan_count windows (negsuc n) wans weights = 0
profile_wan_limit wan_count windows (pos i) wans weights =
    if leb wan_count i
    then 0
    else let base = get_or windows i 0 in
      if base == 0 then 0 else limit_in_pool base (pos i) wans weights

-- The WAN, and the sequence number `g_pkt_wrr_seq` after the call.
pub pick_by_sequence : ℕ → List ℤ → Option (List ℤ) → ℤ
unfolding wrr_slot_to_wan weights_sum_positive
pick_by_sequence n wans weights =
    let sumw = weights_sum_positive weights in
    if ltb 0 sumw
    then wrr_slot_to_wan (n % sumw) wans weights sumw
    else wan_at wans (n % length wans)

pub flow_table_pick_wan_per_packet : ℕ → List ℤ → Option (List ℤ) → ℤ × ℕ
unfolding pick_by_sequence
flow_table_pick_wan_per_packet seq wans weights =
    if length wans == 0
    then (pos 0, seq)
    else if length wans == 1
    then (wan_at wans 0, seq)
    else (pick_by_sequence seq wans weights, (seq + 1) % 2 ^ 64)

-- `-n`
abbrev minus : ℕ → ℤ
minus zero = pos 0
minus (suc n) = negsuc n

-- `next_wan` is an `int` kept as its bit pattern. Negating the least `int` leaves it as it is (as
-- compiled code does; the standard leaves it open), and the remainder then has its sign.
pub next_wan_of : ℕ → ℕ → ℤ
next_wan_of counter wan_count =
    if ltb counter (2 ^ 31)
    then pos (counter % wan_count)
    else if counter == 2 ^ 31
    then minus (2 ^ 31 % wan_count)
    else pos ((2 ^ 32 - counter) % wan_count)

-- The WAN, and the counter after the call.
pub get_next_wan : ℕ → ℕ → ℤ × ℕ
unfolding next_wan_of
get_next_wan counter wan_count =
    if wan_count == 0
    then (pos 0, counter)
    else (next_wan_of counter wan_count, (counter + 1) % 2 ^ 32)
