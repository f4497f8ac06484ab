-- ===== src/Wan/FlushQueue.antt =====
-- `fwd_wan_flush_queue` of src/core/forwarder_wan.c over the rings of all workers.
use native.Mathlib.Decide.{ℕ_discrete}
use mathlib.Core.List.{append_assoc, append-nil}
use ne_multi_core.Base.{
  ℕ, zero, suc, ◌+◌, ◌≤◌, ◌<◌, ◌≡◌, ◌≢◌, refl, sym, ap, ◌∙◌, subst, arith, false, none, List, [],
  ◌∷◌, ◌++◌, length, length-append, leb,
}
use ne_multi_core.Circular.Cells
use ne_multi_core.Ring.{Packet, Ring, no_packet, ring_count, ring_try_pop}
use ne_multi_core.Ring.Refine as Queue
use ne_multi_core.Ring.Refine.{cells, contents}
use ne_multi_core.Pool.{Pool}
use ne_multi_core.Pool.Refine as Free
use ne_multi_core.Pool.Refine.{free_frames}
use ne_multi_core.Wan.{
  Forwarder, update, ne_crypto_workers, flush_loop, flush_workers, fwd_wan_flush_queue,
}
use ne_multi_core.Wan.Flush.{frames_of, flush-empties}

abbrev pub Rings : Type 0
Rings = ℕ → ℕ → Ring

-- What the rings of `left` workers hold, from worker `w` on.
abbrev pub held_of : Rings → ℕ → ℕ → ℕ → List Packet
held_of rings wan zero w = []
held_of rings wan (suc left) w = contents (rings wan w) ++ held_of rings wan left (w + 1)

frames_of-append : (ps qs : List Packet) → frames_of (ps ++ qs) ≡ frames_of ps ++ frames_of qs
frames_of-append [] qs = refl
frames_of-append (p ∷ ps) qs = ap (λ l. p.addr ∷ l) (frames_of-append ps qs)

length-frames_of : (ps : List Packet) → length (frames_of ps) ≡ length ps
length-frames_of [] = refl
length-frames_of (p ∷ ps) = ap suc (length-frames_of ps)

held_of-same :
    (rings rings' : Rings) (wan left w : ℕ)
    → ((v : ℕ) → w ≤ v → rings' wan v ≡ rings wan v)
    → held_of rings' wan left w ≡ held_of rings wan left w
held_of-same rings rings' wan zero w same = refl
held_of-same rings rings' wan (suc left) w same =
    ap (λ r. contents r ++ held_of rings' wan left (w + 1)) (same w (omega arith))
    ∙ ap (λ l. contents (rings wan w) ++ l)
        (held_of-same rings rings' wan left (w + 1) (λ v h. same v (omega (arith, h))))

-- The rings of the workers from `w` on are empty, and no others have changed; the frames of their packets
-- are behind the free ones of the pool.
abbrev pub IsDrained : Rings → Pool → ℕ → ℕ → ℕ → ℕ → Forwarder × ℕ → Type 0
IsDrained rings pool dropped wan left w (fwd', n) =
    ((v : ℕ) → w ≤ v → v < w + left → ring_try_pop (fwd'.mid_to_wan wan v) ≡ none)
    × ((v : ℕ) → v < w → fwd'.mid_to_wan wan v ≡ rings wan v)
    × ((i : ℕ) (j : ℕ) → i ≢ wan → fwd'.mid_to_wan i j ≡ rings i j)
    × (free_frames fwd'.pool ≡ free_frames pool ++ frames_of (held_of rings wan left w))
    × (n ≡ dropped + length (held_of rings wan left w))

flush_workers-IsDrained :
    (left w wan : ℕ) (fwd : Forwarder) (dropped : ℕ)
    → ((v : ℕ) → w ≤ v → Queue.IsValid (fwd.mid_to_wan wan v))
    → Free.IsValid fwd.pool
    → length (free_frames fwd.pool) + length (held_of fwd.mid_to_wan wan left w) ≤ fwd.pool.cap
    → IsDrained fwd.mid_to_wan fwd.pool dropped wan left w (flush_workers left w wan fwd dropped)
unfolding flush_workers ring_count
flush_workers-IsDrained zero w wan fwd dropped v p room = (
  λ x lo hi. absurd (omega (arith, lo, hi)),
  λ x h. refl,
  λ i j ne. refl,
  sym (append-nil (free_frames fwd.pool)),
  omega arith,
)
flush_workers-IsDrained (suc left) w wan fwd dropped v p room =
    let rings = fwd.mid_to_wan in
    let ring = rings wan w in
    let held = contents ring in
    let (ring', pool', n) = flush_loop (ring_count ring) ring fwd.pool dropped in
    let rings' = update rings wan (update (rings wan) w ring') in
    let rest = held_of rings wan left (w + 1) in
    let count : length held ≡ ring_count ring = Cells.length-contents no_packet (cells ring) in
    let whole : length (held ++ rest) ≡ length held + length rest = length-append held rest in
    let (popped, empty, freed, counted, p', cap) =
      flush-empties (ring_count ring) ring fwd.pool dropped (v w (omega arith)) p (omega arith)
        (omega (arith, room, count, whole)) in
    let away : (x : ℕ) → w + 1 ≤ x → rings' wan x ≡ rings wan x = λ x lo. ground (arith, lo) in
    let later : held_of rings' wan left (w + 1) ≡ rest =
      held_of-same rings rings' wan left (w + 1) away in
    let grown : length (free_frames pool')
        ≡ length (free_frames fwd.pool) + length (frames_of held) =
      ap length freed ∙ length-append (free_frames fwd.pool) (frames_of held) in
    let (none_left, kept, others, frames, total) =
      flush_workers-IsDrained left (w + 1) wan (record fwd { mid_to_wan = rings'; pool = pool' }) n
        (λ x lo. subst Queue.IsValid (sym (away x lo)) (v x (omega (arith, lo)))) p'
        (omega (arith, room, whole, grown, ap length later, cap, length-frames_of held)) in
    (
      λ x lo hi. elim (ℕ_discrete x w) [
        | yes e ↦
            let here : rings' wan w ≡ ring' = ground arith in
            subst (λ r. ring_try_pop r ≡ none)
              (sym (kept x (omega (arith, e)) ∙ ap (rings' wan) e ∙ here)) popped
        | no ne ↦ none_left x (omega (arith, lo, ne)) (omega (arith, hi))
      ],
      λ x h. kept x (omega (arith, h)) ∙ ground (arith, h),
      λ i j ne. others i j ne ∙ ground (arith, ne),
      frames
          ∙ ap (λ l. free_frames pool' ++ frames_of l) later
          ∙ ap (λ l. l ++ frames_of rest) freed
          ∙ append_assoc (free_frames fwd.pool) (frames_of held) (frames_of rest)
          ∙ ap (λ l. free_frames fwd.pool ++ l) (sym (frames_of-append held rest)),
      omega (arith, total, counted, ap length later, whole),
    )

-- After `fwd_wan_flush_queue` nothing is left to pop in the ring of any worker to the WAN: the frames of
-- all the packets that were in them are behind the free frames of the pool, in their order, their number
-- is returned, and the rings to other WANs are as they were. The WAN is one of those in use, its rings and
-- the pool are valid, and the pool has room for the frames.
pub flush_queue-empties :
    (fwd : Forwarder) (wan : ℕ)
    → wan < fwd.wan_count
    → ((v : ℕ) → Queue.IsValid (fwd.mid_to_wan wan v))
    → Free.IsValid fwd.pool
    → length (free_frames fwd.pool) + length (held_of fwd.mid_to_wan wan ne_crypto_workers 0)
      ≤ fwd.pool.cap
    → let (fwd', n) = fwd_wan_flush_queue fwd wan in
      let held = held_of fwd.mid_to_wan wan ne_crypto_workers 0 in
      ((v : ℕ) → v < ne_crypto_workers → ring_try_pop (fwd'.mid_to_wan wan v) ≡ none)
      × ((i : ℕ) (j : ℕ) → i ≢ wan → fwd'.mid_to_wan i j ≡ fwd.mid_to_wan i j)
      × (free_frames fwd'.pool ≡ free_frames fwd.pool ++ frames_of held)
      × (n ≡ length held)
unfolding fwd_wan_flush_queue
flush_queue-empties fwd wan in_use v p room =
    let e : leb fwd.wan_count wan ≡ false = ground (arith, in_use) in
    let (none_left, kept, others, frames, total) =
      flush_workers-IsDrained ne_crypto_workers 0 wan fwd 0 (λ x lo. v x) p room in
    rw e (λ x h. none_left x (omega arith) (omega (arith, h)), others, frames, omega (arith, total))
