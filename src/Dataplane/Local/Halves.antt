-- ===== src/Dataplane/Local/Halves.antt =====
-- Where the frames of a split packet are after `push_split_to_wan` of src/core/dataplane_local.c.
use mathlib.Core.List.{append_assoc}
use ne_multi_core.Base.{
  ℕ, ◌+◌, ◌%◌, ◌^◌, ◌≤◌, ◌<◌, ◌≡◌, refl, ap, ◌∙◌, arith, ◌⊎◌, inl, inr, false, ◌||◌, Option, none,
  some, [], ◌∷◌, ◌++◌, length, ltb, leb, ◌==◌, Bool-cases, ltb_false→le,
}
use ne_multi_core.Ring.{Packet, Ring, ring_count, ring_try_push, stored}
use ne_multi_core.Ring.Refine as Queue
use ne_multi_core.Ring.Refine.{contents}
use ne_multi_core.Pool.{Pool, frame_alloc}
use ne_multi_core.Pool.Refine.{free_frames}
use ne_multi_core.Pool.Alloc.{HandsOut, frame_alloc-HandsOut}
use ne_multi_core.Circular.Cells
use ne_multi_core.Wan.{Forwarder}
use ne_multi_core.Dataplane.Push.{try_push_room}
use ne_multi_core.Dataplane.Local.Accounted.{Healthy, Same, IsSplit, with_ring-OnlyRing}
use ne_multi_core.Dataplane.Local.{
  LocalEnv, with_pool, with_ring, to_wan, push_tail, push_halves, push_with_tail, push_split_to_wan,
}

-- With room for two, both pushes succeed.
two_pushed :
    (env : LocalEnv) (fwd : Forwarder) (pool : Pool) (wan_dp : ℕ) (pkt tail : Packet) (r : Ring)
    → Queue.IsValid r
    → ring_count r + 2 ≤ r.cap
    → (push_halves env (with_pool fwd pool) wan_dp tail (ring_try_push r pkt) ≡ (
      some tail.addr,
      with_ring (with_pool fwd pool) wan_dp env.worker (stored (stored r pkt) tail),
    ))
      × (contents (stored (stored r pkt) tail) ≡ contents r ++ (pkt ∷ tail ∷ []))
unfolding push_halves push_tail ring_count
two_pushed env fwd pool wan_dp pkt tail r v room =
    let (p, q, w) = try_push_room r pkt v (omega arith) in
    let (p', q', w') =
      try_push_room (stored r pkt) tail w (omega (arith, Cells.count_push v (omega arith))) in
    rw (p, p')
      (refl, q' ∙ ap (λ l. l ++ (tail ∷ [])) q ∙ append_assoc (contents r) (pkt ∷ []) (tail ∷ []))

-- How the push of two halves can end.
abbrev pub BothOrNone : Forwarder → ℕ → ℕ → Option ℕ × Forwarder → Type 0
BothOrNone fwd w addr r =
    ((r.0 ≡ none) × Same fwd r.1) ⊎ ((tail : ℕ) × (r.0 ≡ some tail) × IsSplit fwd r.1 w addr)

still_room :
    (p q : Pool)
    → free_frames q ≡ free_frames p
    → q.cap ≡ p.cap
    → length (free_frames p) < p.cap
    → length (free_frames q) < q.cap
still_room p q e c h =
    let n : length (free_frames q) ≡ length (free_frames p) = ap length e in omega (arith, n, c)

with_tail-BothOrNone :
    (env : LocalEnv) (fwd : Forwarder) (job : Packet) (l1 l2 wan_dp : ℕ)
    → Healthy fwd
    → ring_count (fwd.mid_to_wan wan_dp env.worker) + 2 ≤ (fwd.mid_to_wan wan_dp env.worker).cap
    → HandsOut fwd.pool
    → BothOrNone fwd env.worker job.addr
        (push_with_tail env fwd job l1 l2 wan_dp (frame_alloc fwd.pool))
unfolding push_with_tail
with_tail-BothOrNone env fwd job l1 l2 wan_dp (v, room, rings) fits (inl (e, same, w, c)) = rw e (
    inl (
      refl,
      ((w, still_room fwd.pool (frame_alloc fwd.pool).1 same c room, rings), same, λ i j. refl),
    ))
with_tail-BothOrNone env fwd job l1 l2 wan_dp (v, room, rings) fits
      (inr (a, rest, free, e, left, w, c)) =
    let pkt = to_wan (record job { len = l1 }) wan_dp in
    let tail : Packet = record {
      addr = a;
      len = l2;
      dir = 1;
      wan_idx = wan_dp % 256;
      local_idx = 0;
    } in
    let r = fwd.mid_to_wan wan_dp env.worker in
    let pool = (frame_alloc fwd.pool).1 in
    let (p, q) = two_pushed env fwd pool wan_dp pkt tail r (rings wan_dp env.worker) fits in
    rw (e, p)
      (inr (
        a,
        refl,
        (
          wan_dp,
          pkt,
          tail,
          refl,
          rw left free,
          with_ring-OnlyRing fwd pool wan_dp env.worker (stored (stored r pkt) tail) _ q,
        ),
      ))

room_for_two :
    (count cap : ℕ)
    → count ≤ cap
    → cap ≤ 2 ^ 31
    → ltb cap ((count + 2) % 2 ^ 32) ≡ false
    → count + 2 ≤ cap
room_for_two count cap le small h = omega (arith, ltb_false→le cap ((count + 2) % 2 ^ 32) h)

-- `push_split_to_wan` pushes both halves, the packet's own frame and behind it the frame that was the
-- first free one, or it pushes none, takes no frame, and leaves every ring as it was: the ring is
-- never left with the first half alone. The rings and the pool are valid, and the pool has room for
-- the frame of the packet.
pub push_split-BothOrNone :
    (env : LocalEnv) (fwd : Forwarder) (job : Packet) (l1 l2 wan_dp : ℕ)
    → Healthy fwd
    → BothOrNone fwd env.worker job.addr (push_split_to_wan env fwd job l1 l2 wan_dp)
unfolding push_split_to_wan ring_count
push_split-BothOrNone env fwd job l1 l2 wan_dp h =
    let r = fwd.mid_to_wan wan_dp env.worker in
    let v = h.2 wan_dp env.worker in
    elim (Bool-cases (leb fwd.wan_count wan_dp || ltb r.cap ((ring_count r + 2) % 2 ^ 32))) [
      | inl full ↦ rw full (inl (refl, (h, refl, λ i j. refl)))
      | inr ok ↦
          elim (Bool-cases
            ((l1 == 0) || (l2 == 0) || ltb env.frame_size l1 || ltb env.frame_size l2)) [
              | inl bad ↦ rw (ok, bad) (inl (refl, (h, refl, λ i j. refl)))
              | inr good ↦
                  rw (ok, good)
                    (with_tail-BothOrNone env fwd job l1 l2 wan_dp h
                      (room_for_two (ring_count r) r.cap v.fits (Cells.cap_half v)
                        (ground (arith, ok)))
                      (frame_alloc-HandsOut fwd.pool h.0))
            ]
    ]
