-- ===== src/Dataplane/Push.antt =====
-- Where a frame is after `dp_ring_push` of src/core/dataplane_util.c.
use ne_multi_core.Base.{
  ℕ, ◌<◌, ◌≡◌, refl, arith, true, false, ◌⊎◌, inl, inr, some, [], ◌∷◌, ◌++◌, ltb, Bool-cases,
}
use ne_multi_core.Circular.Cells
use ne_multi_core.Fifo.{push-some}
use ne_multi_core.Ring.{Packet, Ring, no_packet, ring_count, ring_try_push, stored}
use ne_multi_core.Ring.Refine.{IsValid, contents, push_cases}
use ne_multi_core.Pool.{Pool, frame_free}
use ne_multi_core.Dataplane.{pushed_or_freed, dp_ring_push}

-- A push with room for it, and one without.
pub try_push_room :
    (r : Ring) (pkt : Packet)
    → IsValid r
    → ring_count r < r.cap
    → (ring_try_push r pkt ≡ some (stored r pkt))
      × (contents (stored r pkt) ≡ contents r ++ (pkt ∷ []))
      × IsValid (stored r pkt)
unfolding ring_try_push ring_count
try_push_room r pkt v room =
    (ground arith, Cells.contents-stored no_packet v pkt room, Cells.stored-IsValid v pkt room)

-- The packet is behind the others in the ring and the pool is as it was, or its frame is given back
-- and the ring is as it was.
pub ring_push_cases :
    (frame_size : ℕ) (pool : Pool) (r : Ring) (pkt : Packet)
    → IsValid r
    → ((dp_ring_push frame_size pool r pkt ≡ (true, pool, stored r pkt))
        × (contents (stored r pkt) ≡ contents r ++ (pkt ∷ []))
        × IsValid (stored r pkt))
      ⊎ (dp_ring_push frame_size pool r pkt ≡ (false, frame_free pool pkt.addr, r))
unfolding dp_ring_push pushed_or_freed
ring_push_cases frame_size pool r pkt v = elim (Bool-cases (ltb frame_size pkt.len)) [
  | inl big ↦ inr (rw big refl)
  | inr fits ↦ elim (push_cases r v pkt) [
    | inl (full, q) ↦ inr (rw (fits, full) refl)
    | inr (room, q, w) ↦ inl (rw (fits, room) refl, push-some r.cap (contents r) pkt _ q, w)
  ]
]
