-- ===== src/Dataplane/Local/Accounted.antt =====
-- Where the frame of a packet from a LAN is at the end, for src/core/dataplane_local.c.
use ne_multi_core.Base.{
  List, ℕ, ◌<◌, ◌≡◌, ◌≢◌, refl, ap, ◌∙◌, arith, ◌⊎◌, inl, inr, [], ◌∷◌, ◌++◌, length,
}
use ne_multi_core.Ring.{Packet, Ring, stored}
use ne_multi_core.Ring.Refine as Queue
use ne_multi_core.Ring.Refine.{contents}
use ne_multi_core.Pool.{Pool, frame_free}
use ne_multi_core.Pool.Refine as Free
use ne_multi_core.Pool.Refine.{free_frames}
use ne_multi_core.Pool.Alloc.{frame_free-free}
use ne_multi_core.Wan.{Forwarder}
use ne_multi_core.Dataplane.Push.{ring_push_cases}
use ne_multi_core.Dataplane.Local.{LocalEnv, with_pool, with_ring, to_wan, drop_job, push_to_wan}

-- The rings and the pool are valid, and the pool has room for the frame of the packet.
abbrev pub Healthy : Forwarder → Type 0
Healthy fwd =
    Free.IsValid fwd.pool
    × (length (free_frames fwd.pool) < fwd.pool.cap)
    × ((dp : ℕ) (w : ℕ) → Queue.IsValid (fwd.mid_to_wan dp w))

-- No ring has changed, except that ring `dp` of worker `w` holds what `l` says.
abbrev pub OnlyRing : Forwarder → Forwarder → ℕ → ℕ → List Packet → Type 0
OnlyRing fwd fwd' dp w l =
    (contents (fwd'.mid_to_wan dp w) ≡ l)
    × ((i : ℕ) (j : ℕ) → (i ≢ dp) ⊎ (j ≢ w) → fwd'.mid_to_wan i j ≡ fwd.mid_to_wan i j)

-- The frame is free again, behind the others, and no ring has changed.
abbrev pub IsFreed : Forwarder → Forwarder → ℕ → Type 0
IsFreed fwd fwd' addr =
    (free_frames fwd'.pool ≡ free_frames fwd.pool ++ (addr ∷ []))
    × ((i : ℕ) (j : ℕ) → fwd'.mid_to_wan i j ≡ fwd.mid_to_wan i j)

-- The frame is last in one ring of the worker, and the free frames are the same.
abbrev pub IsQueued : Forwarder → Forwarder → ℕ → ℕ → Type 0
IsQueued fwd fwd' w addr =
    (dp : ℕ) × (pkt : Packet) × (pkt.addr ≡ addr)
    × (free_frames fwd'.pool ≡ free_frames fwd.pool)
    × OnlyRing fwd fwd' dp w (contents (fwd.mid_to_wan dp w) ++ (pkt ∷ []))

-- The frame is in one ring of the worker, followed by the frame of the second half, which was the
-- first of the free ones.
abbrev pub IsSplit : Forwarder → Forwarder → ℕ → ℕ → Type 0
IsSplit fwd fwd' w addr =
    (dp : ℕ) × (pkt : Packet) × (tail : Packet) × (pkt.addr ≡ addr)
    × (free_frames fwd.pool ≡ tail.addr ∷ free_frames fwd'.pool)
    × OnlyRing fwd fwd' dp w (contents (fwd.mid_to_wan dp w) ++ (pkt ∷ tail ∷ []))

abbrev pub IsAccounted : Forwarder → Forwarder → ℕ → ℕ → Type 0
IsAccounted fwd fwd' w addr =
    IsFreed fwd fwd' addr ⊎ (IsQueued fwd fwd' w addr ⊎ IsSplit fwd fwd' w addr)

pub drop_job-IsFreed :
    (fwd : Forwarder) (job : Packet) → Healthy fwd → IsFreed fwd (drop_job fwd job) job.addr
unfolding drop_job
drop_job-IsFreed fwd job (v, room, rings) =
    ((frame_free-free fwd.pool job.addr v room).0, λ i j. refl)

with_ring-same :
    (fwd : Forwarder) (dp w : ℕ) (ring : Ring) → (with_ring fwd dp w ring).mid_to_wan dp w ≡ ring
with_ring-same fwd dp w ring = ground arith

with_ring-others :
    (fwd : Forwarder) (dp w : ℕ) (ring : Ring) (i j : ℕ)
    → (i ≢ dp) ⊎ (j ≢ w)
    → (with_ring fwd dp w ring).mid_to_wan i j ≡ fwd.mid_to_wan i j
with_ring-others fwd dp w ring i j ne = ground (arith, ne)

pub with_ring-OnlyRing :
    (fwd : Forwarder) (pool : Pool) (dp w : ℕ) (ring : Ring) (l : List Packet)
    → contents ring ≡ l
    → OnlyRing fwd (with_ring (with_pool fwd pool) dp w ring) dp w l
with_ring-OnlyRing fwd pool dp w ring l e = (
  ap contents (with_ring-same (with_pool fwd pool) dp w ring) ∙ e,
  with_ring-others (with_pool fwd pool) dp w ring,
)

-- A ring that is written back.
with_ring_self :
    (fwd : Forwarder) (dp w i j : ℕ)
    → (with_ring fwd dp w (fwd.mid_to_wan dp w)).mid_to_wan i j ≡ fwd.mid_to_wan i j
with_ring_self fwd dp w i j = ground arith

pub push_to_wan-IsAccounted :
    (env : LocalEnv) (fwd : Forwarder) (job : Packet) (wan_dp : ℕ)
    → Healthy fwd
    → IsAccounted fwd (push_to_wan env fwd job wan_dp) env.worker job.addr
unfolding push_to_wan
push_to_wan-IsAccounted env fwd job wan_dp (v, room, rings) =
    let r = fwd.mid_to_wan wan_dp env.worker in
    let pkt = to_wan job wan_dp in
    elim (ring_push_cases env.frame_size fwd.pool r pkt (rings wan_dp env.worker)) [
      | inl (e, q, w) ↦ rw e (
          inr (
            inl (
              wan_dp,
              pkt,
              refl,
              refl,
              with_ring-OnlyRing fwd fwd.pool wan_dp env.worker (stored r pkt) _ q,
            )))
      | inr e ↦ rw e (
          inl (
            (frame_free-free fwd.pool job.addr v room).0,
            with_ring_self (with_pool fwd (frame_free fwd.pool job.addr)) wan_dp env.worker,
          ))
    ]

-- What a push of two halves that fails leaves behind.
abbrev pub Same : Forwarder → Forwarder → Type 0
Same fwd fwd' =
    Healthy fwd'
    × (free_frames fwd'.pool ≡ free_frames fwd.pool)
    × ((i : ℕ) (j : ℕ) → fwd'.mid_to_wan i j ≡ fwd.mid_to_wan i j)

-- A frame that is dropped after that is free like the others.
pub Same-IsFreed :
    (fwd fwd' : Forwarder) (job : Packet) → Same fwd fwd' → IsFreed fwd (drop_job fwd' job) job.addr
Same-IsFreed fwd fwd' job (h, free, rings) =
    let (e, same) = drop_job-IsFreed fwd' job h in
    (e ∙ ap (λ l. l ++ (job.addr ∷ [])) free, λ i j. same i j ∙ rings i j)
