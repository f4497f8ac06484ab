-- ===== src/Wan/Flush.antt =====
-- The end of `fwd_wan_flush_queue` of src/core/forwarder_wan.c: its inner loop, which pops until the ring
-- is empty.
use mathlib.Core.List.{append_assoc, append-nil}
use ne_multi_core.Base.{
  ℕ, zero, suc, ◌+◌, ◌≤◌, ◌≡◌, refl, sym, ap, ◌∙◌, arith, inl, inr, none, some, List, [], ◌∷◌, ◌++◌,
  length, length-append,
}
use ne_multi_core.Circular
use ne_multi_core.Circular.Cells
use ne_multi_core.Ring.{Packet, Ring, no_packet, ring_count, ring_try_pop, next_packet, advanced}
use ne_multi_core.Ring.Refine as Queue
use ne_multi_core.Ring.Refine.{cells, contents, pop_cases}
use ne_multi_core.Pool.{Pool, frame_free, pool_push}
use ne_multi_core.Pool.Refine as Free
use ne_multi_core.Pool.Refine.{free_frames}
use ne_multi_core.Pool.Alloc.{frame_free-free}
use ne_multi_core.Wan.{flush_loop}

-- The frames of packets.
abbrev pub frames_of : List Packet → List ℕ
frames_of [] = []
frames_of (p ∷ ps) = p.addr ∷ frames_of ps

-- The ring is empty, and the frames are behind the free ones of the pool, in their order; the pool is
-- valid.
abbrev pub IsFlushed : List Packet → Pool → ℕ → Ring × Pool × ℕ → Type 0
IsFlushed held pool dropped (r', pool', n) =
    (ring_try_pop r' ≡ none)
    × (contents r' ≡ [])
    × (free_frames pool' ≡ free_frames pool ++ frames_of held)
    × (n ≡ dropped + length held)
    × Free.IsValid pool'
    × (pool'.cap ≡ pool.cap)

frame_free-cap : (pool : Pool) (a : ℕ) → (frame_free pool a).cap ≡ pool.cap
unfolding frame_free pool_push
frame_free-cap pool a = refl

flush_loop-last :
    (fuel : ℕ) (r : Ring) (pool : Pool) (dropped : ℕ)
    → ring_try_pop r ≡ none
    → flush_loop (suc fuel) r pool dropped ≡ (r, pool, dropped)
unfolding flush_loop
flush_loop-last fuel r pool dropped h = rw (flush_loop, h) refl

flush_loop-more :
    (fuel : ℕ) (r r' : Ring) (p : Packet) (pool : Pool) (dropped : ℕ)
    → ring_try_pop r ≡ some (p, r')
    → flush_loop (suc fuel) r pool dropped
      ≡ flush_loop fuel r' (frame_free pool p.addr) (dropped + 1)
unfolding flush_loop
flush_loop-more fuel r r' p pool dropped h = rw (flush_loop, h) refl

flush_loop-held :
    (fuel : ℕ) (r : Ring) (pool : Pool) (dropped : ℕ) (held : List Packet)
    → Queue.IsValid r
    → Free.IsValid pool
    → contents r ≡ held
    → length held ≤ fuel
    → length (free_frames pool) + length held ≤ pool.cap
    → IsFlushed held pool dropped (flush_loop fuel r pool dropped)
unfolding flush_loop frame_free pool_push Circular.window
flush_loop-held zero r pool dropped [] v w e enough room = elim (pop_cases r v) [
  | inl (last, empty) ↦ (last, e, sym (append-nil (free_frames pool)), omega arith, w, refl)
  | inr (more, held, v') ↦ absurd (cc (e, held))
]
flush_loop-held (suc fuel) r pool dropped [] v w e enough room = elim (pop_cases r v) [
  | inl (last, empty) ↦
      rw (flush_loop-last fuel r pool dropped last)
        (last, e, sym (append-nil (free_frames pool)), omega arith, w, refl)
  | inr (more, held, v') ↦ absurd (cc (e, held))
]
flush_loop-held zero r pool dropped (p ∷ ps) v w e enough room = absurd (omega (arith, enough))
flush_loop-held (suc fuel) r pool dropped (p ∷ ps) v w e enough room = elim (pop_cases r v) [
  | inl (last, empty) ↦ absurd (cc (e, empty))
  | inr (more, held, v') ↦
      let first : next_packet r ≡ p = cc (e, held) in
      let later : contents (advanced r) ≡ ps = cc (e, held) in
      let (grown, w') = frame_free-free pool p.addr w (omega (arith, room)) in
      let pool' = frame_free pool p.addr in
      let counted : length (free_frames pool') ≡ length (free_frames pool) + 1 =
        ap length grown ∙ length-append (free_frames pool) (p.addr ∷ []) in
      let fits : length (free_frames pool') + length ps ≤ pool'.cap =
        rw (frame_free-cap pool p.addr) (omega (arith, counted, room)) in
      let (none_left, empty, freed, n, w'', cap) =
        flush_loop-held fuel (advanced r) pool' (dropped + 1) ps v' w' later (omega (arith, enough))
          fits in
      rw (flush_loop-more fuel r (advanced r) (next_packet r) pool dropped more, first)
        (
          none_left,
          empty,
          freed
              ∙ ap (λ l. l ++ frames_of ps) grown
              ∙ append_assoc (free_frames pool) (p.addr ∷ []) (frames_of ps),
          omega (arith, n),
          w'',
          cap ∙ frame_free-cap pool p.addr,
        )
]

-- The loop that empties a ring ends with the ring empty, for any bound on its steps that is at least the
-- number of packets in the ring: nothing is left to pop, the frames of all its packets are behind the
-- free frames of the pool, in their order, and the packets are counted; the pool stays valid. The ring and the pool are valid,
-- and the pool has room for the frames.
pub flush-empties :
    (fuel : ℕ) (r : Ring) (pool : Pool) (dropped : ℕ)
    → Queue.IsValid r
    → Free.IsValid pool
    → ring_count r ≤ fuel
    → length (free_frames pool) + ring_count r ≤ pool.cap
    → IsFlushed (contents r) pool dropped (flush_loop fuel r pool dropped)
unfolding ring_count
flush-empties fuel r pool dropped v w enough room =
    let e : length (contents r) ≡ ring_count r = Cells.length-contents no_packet (cells r) in
    flush_loop-held fuel r pool dropped (contents r) v w refl (omega (arith, e, enough))
      (omega (arith, e, room))
