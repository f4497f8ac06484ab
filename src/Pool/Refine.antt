-- ===== src/Pool/Refine.antt =====
-- A valid pool is the bounded queue of the free frames.
use mathlib.Core.List.{append-nil, append_assoc}
use ne_multi_core.Base.{
  ℕ, zero, suc, ◌+◌, ◌-◌, ◌<◌, ◌≤◌, ◌≡◌, refl, ap, ◌∙◌, ◌≢◌, some, List, [], ◌∷◌, ◌++◌, arith,
  length, take, drop, min, length-take, take_capped, drop_capped, if_min,
}
use ne_multi_core.Circular.{sub32, add32}
use ne_multi_core.Circular.Cells
use ne_multi_core.Circular.Cells.{Cells}
use ne_multi_core.Fifo
use ne_multi_core.Pool.{Pool, store_from, load_from, pool_push, pool_pop, frame_alloc, frame_free}

abbrev pub cells : Pool → Cells ℕ
cells p = record { buf = p.buf; cap = p.cap; mask = p.mask; head = p.head; tail = p.tail }

abbrev pub IsValid : Pool → Type 0
IsValid p = Cells.IsValid (cells p)

-- The addresses of the free frames, the next to be handed out first.
abbrev pub free_frames : Pool → List ℕ
free_frames p = Cells.contents 0 (cells p)

-- The cells after the loop of `pool_push`.
abbrev filled : Cells ℕ → List ℕ → Cells ℕ
filled c addrs = record c {
  buf = store_from c.buf c.mask c.head addrs;
  head = add32 c.head (length addrs);
}

store_from_lem :
    (c : Cells ℕ) (addrs : List ℕ)
    → Cells.IsValid c
    → Cells.in_use c + length addrs ≤ c.cap
    → Cells.IsValid (filled c addrs)
      × (Cells.contents 0 (filled c addrs) ≡ Cells.contents 0 c ++ addrs)
unfolding store_from
store_from_lem c [] v h =
    let e : add32 c.head 0 ≡ c.head = omega (arith, v.head_in) in rw (e, append-nil) (v, refl)
store_from_lem c (a ∷ addrs) v h =
    let room : Cells.in_use c < c.cap = omega arith in
    let w = Cells.stored-IsValid v a room in
    let (v', e) =
      store_from_lem (Cells.stored c a) addrs w (omega (arith, Cells.count_push v room)) in
    let shift : add32 (add32 c.head 1) (length addrs) ≡ add32 c.head (suc (length addrs)) =
      omega arith in
    rw (← shift) (v', e ∙ rw (Cells.contents-stored 0 v a room, append_assoc) refl)

-- The cells after the loop of `pool_pop`.
abbrev drained : Cells ℕ → ℕ → Cells ℕ
drained c got = record c { tail = add32 c.tail got }

load_from_lem :
    (c : Cells ℕ) (got : ℕ)
    → Cells.IsValid c
    → got ≤ Cells.in_use c
    → Cells.IsValid (drained c got)
      × (load_from c.buf c.mask c.tail got ≡ take got (Cells.contents 0 c))
      × (Cells.contents 0 (drained c got) ≡ drop got (Cells.contents 0 c))
unfolding load_from
load_from_lem c zero v h =
    let e : add32 c.tail 0 ≡ c.tail = omega (arith, v.tail_in) in rw e (v, refl, refl)
load_from_lem c (suc got) v h =
    let ne : c.tail ≢ c.head = λ e. omega (arith, v.head_in, v.tail_in) in
    let w = Cells.advanced-IsValid v ne in
    let (v', e, f) = load_from_lem (Cells.advanced c) got w (omega (arith, Cells.count_pop v ne)) in
    let shift : add32 (add32 c.tail 1) got ≡ add32 c.tail (suc got) = omega arith in
    rw (← shift, Cells.contents-advanced 0 v ne) (v', ap (λ l. Cells.oldest 0 c ∷ l) e, f)

module _ (p : Pool) (v : IsValid p) where
  frames_held : ℕ
  frames_held = Cells.in_use (cells p)

  free_slots_lem : sub32 p.cap (sub32 p.head p.tail) ≡ p.cap - length (free_frames p)
  free_slots_lem = omega (arith, Cells.length-contents 0 (cells p), Cells.cap_small v, v.fits)

  -- `pool_push` returns how many of the addresses fit, appends exactly those, in order, to the free
  -- frames, and keeps the pool valid.
  pub pool_push_lem :
      (addrs : List ℕ)
      → let (n, q) = pool_push p addrs in
        (n ≡ min (length addrs) (p.cap - length (free_frames p)))
        × (free_frames q ≡ Fifo.push_all p.cap (free_frames p) addrs)
        × IsValid q
  unfolding pool_push Fifo.push_all
  pool_push_lem addrs =
      let k = min (length addrs) (p.cap - length (free_frames p)) in
      let len : length (take k addrs) ≡ k = omega (arith, length-take k addrs) in
      let (w, e) =
        store_from_lem (cells p) (take k addrs) v
          (omega (arith, len, Cells.length-contents 0 (cells p), v.fits)) in
      rw (if_min _ _, free_slots_lem)
        (
          refl,
          (rw len at e) ∙ ap (λ l. free_frames p ++ l) (take_capped _ k addrs flipped),
          rw len at w,
        )
    where
      flipped :
          min (length addrs) (p.cap - length (free_frames p))
          ≡ min (p.cap - length (free_frames p)) (length addrs)
      flipped = omega arith

  -- `pool_pop` hands out the longest-held frames first, as many as were asked for and are free, takes
  -- exactly those off the pool, and keeps it valid.
  pub pool_pop_lem :
      (n : ℕ)
      → let (got, q) = pool_pop p n in
        (got ≡ take n (free_frames p)) × (free_frames q ≡ drop n (free_frames p)) × IsValid q
  unfolding pool_pop
  pool_pop_lem n =
      let k = min n (sub32 p.head p.tail) in
      let (w, e, f) = load_from_lem (cells p) k v (omega arith) in
      let held : k ≡ min n (length (free_frames p)) =
        omega (arith, Cells.length-contents 0 (cells p)) in
      rw (if_min _ _) (e ∙ take_capped n k _ held, f ∙ drop_capped n k _ held, w)

pub take_one : (k a : ℕ) → 0 < k → take k (a ∷ []) ≡ a ∷ []
take_one zero a h = absurd (omega arith)
take_one (suc zero) a h = refl
take_one (suc (suc k)) a h = refl

pub pool_pop-cap : (p : Pool) (n : ℕ) → (pool_pop p n).1.cap ≡ p.cap
unfolding pool_pop
pool_pop-cap p n = refl

pub frame_alloc-eq :
    (p : Pool) (a : ℕ) (l : List ℕ)
    → (pool_pop p 1).0 ≡ a ∷ l
    → frame_alloc p ≡ (some a, (pool_pop p 1).1)
unfolding frame_alloc
frame_alloc-eq p a l e = ground (arith, e)

-- A frame that is handed out and given back is free again, behind all the others: none is lost.
pub frame_alloc-free :
    (p : Pool) (a : ℕ) (rest : List ℕ)
    → IsValid p
    → free_frames p ≡ a ∷ rest
    → let (got, q) = frame_alloc p in
      (got ≡ some a) × (free_frames q ≡ rest) × (free_frames (frame_free q a) ≡ rest ++ (a ∷ []))
unfolding frame_free Fifo.push_all
frame_alloc-free p a rest v e =
    let (got, left, w) = pool_pop_lem p v 1 in
    let q = (pool_pop p 1).1 in
    let left' : free_frames q ≡ rest = left ∙ ap (drop 1) e in
    rw (frame_alloc-eq p a [] (got ∙ ap (take 1) e)) (
      refl,
      left',
      (pool_push_lem q w (a ∷ [])).1
          ∙ ap (λ l. l ++ take (q.cap - length l) (a ∷ [])) left'
          ∙ ap (λ l. rest ++ l) (take_one _ a (room q (pool_pop-cap p 1))),
    )
  where
    room : (q : Pool) → q.cap ≡ p.cap → 0 < q.cap - length rest
    room q c = omega (arith, c, ap length e, Cells.length-contents 0 (cells p), v.fits)
