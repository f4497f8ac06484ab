-- ===== src/Pool.antt =====
-- The pool of free frames of src/core/interface.c: `struct ne_pool` with `pool_init`, `pool_push` and
-- `pool_pop`, and `ne_frame_alloc` and `ne_frame_free` on it. Each call holds the pool's lock, so it
-- is one step here.
pub mod Refine
pub mod Alloc
use ne_multi_core.Base.{
  ℕ, zero, suc, ◌-◌, Bool, not, Option, none, some, List, [], ◌∷◌, length, get_or, set, take,
  replicate, bit_and, min, ltb, ◌==◌, if◌then◌else◌,
}
use ne_multi_core.Circular.{sub32, add32}

pub record Pool : Type 0 where
  pub buf : List ℕ
  pub cap : ℕ
  pub mask : ℕ
  pub head : ℕ
  pub tail : ℕ

-- `none` is the -1 of the source; the two Booleans are the system's answers.
pub pool_init : Bool → Bool → ℕ → Option Pool
pool_init allocated lock_ready cap =
    if cap == 0
    then none
    else if not (bit_and cap (cap - 1) == 0)
    then none
    else if not allocated
    then none
    else if not lock_ready
    then none
    else some (record { buf = replicate cap 0; cap = cap; mask = cap - 1; head = 0; tail = 0 })

-- `for (i = 0; i < put; i++) buf[(head + i) & mask] = addrs[i];`
pub store_from : List ℕ → ℕ → ℕ → List ℕ → List ℕ
store_from buf mask h [] = buf
store_from buf mask h (a ∷ addrs) = store_from (set buf (bit_and h mask) a) mask (add32 h 1) addrs

-- `for (i = 0; i < got; i++) addrs[i] = buf[(tail + i) & mask];`
pub load_from : List ℕ → ℕ → ℕ → ℕ → List ℕ
load_from buf mask t zero = []
load_from buf mask t (suc got) = get_or buf (bit_and t mask) 0 ∷ load_from buf mask (add32 t 1) got

-- `n` is the length of the array. The first part is the count that the call returns.
unfoldable pub pool_push : Pool → List ℕ → ℕ × Pool
unfolding store_from
pool_push p addrs =
    let n = length addrs in
    let free_slots = sub32 p.cap (sub32 p.head p.tail) in
    let put = if ltb n free_slots then n else free_slots in
    (
      put,
      record p { buf = store_from p.buf p.mask p.head (take put addrs); head = add32 p.head put },
    )

pub pool_pop : Pool → ℕ → List ℕ × Pool
unfolding load_from
pool_pop p n =
    let avail = sub32 p.head p.tail in
    let got = if ltb n avail then n else avail in
    (load_from p.buf p.mask p.tail got, record p { tail = add32 p.tail got })

first_frame : List ℕ × Pool → Option ℕ × Pool
first_frame ([], q) = (none, q)
first_frame (addr ∷ rest, q) = (some addr, q)

pub frame_alloc : Pool → Option ℕ × Pool
unfolding first_frame
frame_alloc p = first_frame (pool_pop p 1)

unfoldable pub frame_free : Pool → ℕ → Pool
frame_free p addr = (pool_push p (addr ∷ [])).1
