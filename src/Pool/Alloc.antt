-- ===== src/Pool/Alloc.antt =====
-- One frame taken from the pool or given back to it: `ne_frame_alloc` and `ne_frame_free` of
-- src/core/interface.c.
use ne_multi_core.Base.{
  ℕ, ◌<◌, ◌≡◌, refl, sym, ap, ◌∙◌, arith, ◌⊎◌, inl, inr, none, some, List, [], ◌∷◌, ◌++◌, length,
  take, drop,
}
use ne_multi_core.Fifo
use ne_multi_core.Pool.{Pool, pool_pop, frame_free, frame_alloc}
use ne_multi_core.Pool.Refine.{
  IsValid, free_frames, pool_push_lem, pool_pop_lem, take_one, frame_alloc-eq, pool_pop-cap,
}

-- A frame that is given back to a pool with room is free again.
pub frame_free-free :
    (pool : Pool) (a : ℕ)
    → IsValid pool
    → length (free_frames pool) < pool.cap
    → (free_frames (frame_free pool a) ≡ free_frames pool ++ (a ∷ [])) × IsValid (frame_free pool a)
unfolding frame_free Fifo.push_all
frame_free-free pool a v room =
    let (n, e, w) = pool_push_lem pool v (a ∷ []) in
    (e ∙ ap (λ l. free_frames pool ++ l) (take_one _ a (omega arith)), w)

-- A pool hands out its first free frame, or has none.
abbrev pub HandsOut : Pool → Type 0
HandsOut pool =
    (((frame_alloc pool).0 ≡ none)
      × (free_frames (frame_alloc pool).1 ≡ free_frames pool)
      × IsValid (frame_alloc pool).1
      × ((frame_alloc pool).1.cap ≡ pool.cap))
    ⊎ ((a : ℕ) × (rest : List ℕ) × (free_frames pool ≡ a ∷ rest)
        × ((frame_alloc pool).0 ≡ some a)
        × (free_frames (frame_alloc pool).1 ≡ rest)
        × IsValid (frame_alloc pool).1
        × ((frame_alloc pool).1.cap ≡ pool.cap))

no_frame : (pool : Pool) → (pool_pop pool 1).0 ≡ [] → frame_alloc pool ≡ (none, (pool_pop pool 1).1)
unfolding frame_alloc
no_frame pool e = ground (arith, e)

HandsOut-of : (pool : Pool) (l : List ℕ) → IsValid pool → free_frames pool ≡ l → HandsOut pool
HandsOut-of pool [] v e =
    let (got, left, w) = pool_pop_lem pool v 1 in
    rw (no_frame pool (got ∙ ap (take 1) e))
      (inl (refl, left ∙ ap (drop 1) e ∙ sym e, w, pool_pop-cap pool 1))
HandsOut-of pool (a ∷ rest) v e =
    let (got, left, w) = pool_pop_lem pool v 1 in
    rw (frame_alloc-eq pool a [] (got ∙ ap (take 1) e))
      (inr (a, rest, e, refl, left ∙ ap (drop 1) e, w, pool_pop-cap pool 1))

pub frame_alloc-HandsOut : (pool : Pool) → IsValid pool → HandsOut pool
frame_alloc-HandsOut pool v = HandsOut-of pool (free_frames pool) v refl
