-- ===== src/Dataplane/Wan/Process/Conserved.antt =====
-- Where the frame of a packet from a WAN is at the end, src/core/dataplane_wan.c.
use ne_multi_core.Base.{
  ℕ, ◌<◌, ◌≡◌, ◌≢◌, refl, sym, ap, subst, ◌∙◌, arith, ◌⊎◌, inl, inr, Option, none, some, [], ◌∷◌,
  ◌++◌, length, take, drop, leb, Bool-cases,
}
use ne_multi_core.Fragment.{Bytes, failed, pending, joined}
use ne_multi_core.Ring.{Packet, Ring, stored}
use ne_multi_core.Ring.Refine as Queue
use ne_multi_core.Ring.Refine.{contents}
use ne_multi_core.Pool.{Pool, frame_free}
use ne_multi_core.Pool.Refine as Free
use ne_multi_core.Pool.Refine.{free_frames}
use ne_multi_core.Pool.Alloc.{frame_free-free}
use ne_multi_core.Wan.{update}
use ne_multi_core.Dataplane.{dp_write_l2_src_only}
use ne_multi_core.Dataplane.Push.{ring_push_cases}
use ne_multi_core.Dataplane.Local.{store_packet}
use ne_multi_core.Dataplane.Wan.{WanEnv, WanSide, wan_has_crypto}
use ne_multi_core.Dataplane.Wan.Process.{
  Stage, decrypt_wan, free_frame, pick_local, to_local, push_to_local, write_and_push, forward_to,
  forward, dataplane_process_wan,
}
use ne_multi_core.Dataplane.Wan.Process.Plain.{Gives, if_cases, IsPlainOf, decrypt_wan-Gives}
use ne_multi_core.Dataplane.Wan.Process.Quiet.{SameFrames, Quiet, decrypt_wan-Quiet}

module _ (env : WanEnv) where
  -- The pool has room for the frame of the packet, and the rings and the pool are valid.
  abbrev pub IsFit : WanSide → Type 0
  IsFit s =
      Free.IsValid s.pool
      × (length (free_frames s.pool) < s.pool.cap)
      × ((li : ℕ) (w : ℕ) → Queue.IsValid (s.mid_to_local li w))

  abbrev pub IsReturned : WanSide → WanSide → ℕ → Type 0
  IsReturned s s' addr =
      (free_frames s'.pool ≡ free_frames s.pool ++ (addr ∷ []))
      × ((i : ℕ) (j : ℕ) → s'.mid_to_local i j ≡ s.mid_to_local i j)

  -- The frame is last in the ring of the LAN that a packet `p` is for, one with `P`, with the LAN's
  -- address as the source, and nothing else has changed.
  abbrev pub IsDelivered : (Bytes → Type 0) → WanSide → WanSide → ℕ → Type 0
  IsDelivered P s s' addr =
      (li : ℕ) × (p : Bytes) × (q : Bytes) × (pkt : Packet) × P p
      × (pkt.addr ≡ addr)
      × (li < env.local_count)
      × (pick_local env p ≡ some li)
      × (dp_write_l2_src_only p (env.src_mac li) ≡ some q)
      × (take pkt.len (s'.mem addr) ≡ q)
      × (s'.pool ≡ s.pool)
      × (contents (s'.mid_to_local li env.worker)
          ≡ contents (s.mid_to_local li env.worker) ++ (pkt ∷ []))
      × ((i : ℕ) (j : ℕ) → (i ≢ li) ⊎ (j ≢ env.worker) → s'.mid_to_local i j ≡ s.mid_to_local i j)

  free_frame-IsReturned :
      (s t : WanSide) (job : Packet)
      → IsFit s
      → SameFrames s t
      → IsReturned s (free_frame t job) job.addr
  unfolding free_frame
  free_frame-IsReturned s t job (v, room, rings) (p, r, m) = (
    ap (λ (o : Pool). free_frames (frame_free o job.addr)) p
        ∙ (frame_free-free s.pool job.addr v room).0,
    λ i j. ap (λ f. f i j) r,
  )

  abbrev pub EndsWith : (Bytes → Type 0) → WanSide → WanSide → ℕ → Type 0
  EndsWith P s s' addr = IsReturned s s' addr ⊎ IsDelivered P s s' addr

  -- Whether the frame of the packet is given back, or delivered with its plain packet.
  abbrev pub IsSettled : WanSide → WanSide → Packet → Type 0
  IsSettled s s' job = EndsWith (IsPlainOf env s (take job.len (s.mem job.addr))) s s' job.addr

  take_stored : (q l : Bytes) → take (length q) (q ++ l) ≡ q
  take_stored [] l = refl
  take_stored (x ∷ q) l = ap (λ z. x ∷ z) (take_stored q l)

  stored_at :
      (mem : ℕ → Bytes) (addr : ℕ) (q : Bytes) → take (length q) (store_packet mem addr q addr) ≡ q
  stored_at mem addr q =
      ap (take (length q)) (ground arith) ∙ take_stored q (drop (length q) (mem addr))

  update_here : (f : ℕ → ℕ → Ring) (li w : ℕ) (r : Ring) → update f li (update (f li) w r) li w ≡ r
  update_here f li w r = ground arith

  push-EndsWith :
      (P : Bytes → Type 0) (s : WanSide) (job : Packet) (p q : Bytes) (li : ℕ)
      → IsFit s
      → li < env.local_count
      → P p
      → pick_local env p ≡ some li
      → dp_write_l2_src_only p (env.src_mac li) ≡ some q
      → EndsWith P s (write_and_push env s job li (some q)) job.addr
  unfolding write_and_push push_to_local
  push-EndsWith P s job p q li (v, room, rings) lt good picked written =
      let ring = s.mid_to_local li env.worker in
      let pkt = to_local job (length q) li in
      elim (ring_push_cases env.frame_size s.pool ring pkt (rings li env.worker)) [
        | inl (e, held, w) ↦ rw e (
            inr (
              li,
              p,
              q,
              pkt,
              good,
              refl,
              lt,
              picked,
              written,
              stored_at s.mem job.addr q,
              refl,
              ap contents (update_here s.mid_to_local li env.worker (stored ring pkt)) ∙ held,
              λ i j ne. ground (arith, ne),
            ))
        | inr e ↦ rw e (inl ((frame_free-free s.pool job.addr v room).0, λ i j. ground arith))
      ]

  write_and_push-EndsWith :
      (P : Bytes → Type 0) (s : WanSide) (job : Packet) (p : Bytes) (li : ℕ) (o : Option Bytes)
      → IsFit s
      → li < env.local_count
      → P p
      → pick_local env p ≡ some li
      → dp_write_l2_src_only p (env.src_mac li) ≡ o
      → EndsWith P s (write_and_push env s job li o) job.addr
  unfolding write_and_push
  write_and_push-EndsWith P s job p li none fit lt good e w =
      inl (free_frame-IsReturned s s job fit (refl, refl, refl))
  write_and_push-EndsWith P s job p li (some q) fit lt good e w =
      push-EndsWith P s job p q li fit lt good e w

  forward_to-EndsWith :
      (P : Bytes → Type 0) (s : WanSide) (job : Packet) (p : Bytes) (o : Option ℕ)
      → IsFit s
      → P p
      → pick_local env p ≡ o
      → EndsWith P s (forward_to env s job p o) job.addr
  unfolding forward_to
  forward_to-EndsWith P s job p none fit good e =
      inl (free_frame-IsReturned s s job fit (refl, refl, refl))
  forward_to-EndsWith P s job p (some li) fit good e = elim (Bool-cases (leb env.local_count li)) [
    | inl out ↦ rw out (inl (free_frame-IsReturned s s job fit (refl, refl, refl)))
    | inr ok ↦ rw ok (write_and_push-EndsWith P s job p li _ fit (ground (arith, ok)) good e refl)
  ]

  -- What a settled packet was before the stages, which leave the frames as they are.
  EndsWith-SameFrames :
      (P : Bytes → Type 0) (s t s' : WanSide) (addr : ℕ)
      → SameFrames s t
      → EndsWith P t s' addr
      → EndsWith P s s' addr
  EndsWith-SameFrames P s t s' addr (p, r, m) (inl (free, rings)) = inl (
    free ∙ ap (λ (o : Pool). free_frames o ++ (addr ∷ [])) p,
    λ i j. rings i j ∙ ap (λ f. f i j) r,
  )
  EndsWith-SameFrames P s t s' addr (p, r, m)
        (inr (li, a, b, pkt, good, at, lt, picked, written, bytes, pool, held, others)) =
      inr (
        li,
        a,
        b,
        pkt,
        good,
        at,
        lt,
        picked,
        written,
        bytes,
        pool ∙ p,
        held ∙ ap (λ f. contents (f li env.worker) ++ (pkt ∷ [])) r,
        λ i j ne. others i j ne ∙ ap (λ f. f i j) r,
      )

  IsFit-SameFrames : (s t : WanSide) → SameFrames s t → IsFit s → IsFit t
  IsFit-SameFrames s t (p, r, m) (v, room, rings) = (
    subst Free.IsValid (sym p) v,
    subst (λ (o : Pool). length (free_frames o) < o.cap) (sym p) room,
    λ li w. subst (λ (f : ℕ → ℕ → Ring). Queue.IsValid (f li w)) (sym r) (rings li w),
  )

  forward-EndsWith :
      (P : Bytes → Type 0) (s : WanSide) (job : Packet) (st : Stage)
      → IsFit s
      → Quiet s st
      → Gives (λ q u. P q) st
      → EndsWith P s (forward env job st) job.addr
  unfolding forward
  forward-EndsWith P s job (failed, t) fit e g = inl (free_frame-IsReturned s t job fit e)
  forward-EndsWith P s job (pending, t) fit e g = inl (free_frame-IsReturned s t job fit e)
  forward-EndsWith P s job (joined p, t) fit e g =
      EndsWith-SameFrames P s t (forward_to env t job p (pick_local env p)) job.addr e
        (forward_to-EndsWith P t job p (pick_local env p) (IsFit-SameFrames s t e fit) g refl)

-- Whatever `dataplane_process_wan` does with a packet from a WAN, decrypting it or waiting for its other
-- half included, its frame is either given back to the pool, every ring as it was, or is last in the
-- ring of the LAN that the plain packet is for, holding the plain packet with the LAN's address as its
-- source. The plain packet is the packet as it came if nothing marks it as encrypted, and otherwise what
-- layers 2, 3 and 4 in turn make of it: layer 2 a decryption that is plain IPv4 or two joined halves;
-- layer 3 two joined halves, a decryption, or the same packet if it names no policy; layer 4 two joined
-- halves or a decryption. The rings and the pool are valid, and the pool has room for the frame.
pub process_wan-IsSettled :
    (env : WanEnv) (s : WanSide) (job : Packet)
    → IsFit env s
    → IsSettled env s (dataplane_process_wan env s job) job
unfolding dataplane_process_wan
process_wan-IsSettled env s job fit =
    let p = take job.len (s.mem job.addr) in
    let P = IsPlainOf env s p in
    if_cases (λ t. EndsWith env P s t job.addr) (wan_has_crypto env s.contexts p)
      (forward env job (decrypt_wan env s p)) (forward env job (joined p, s))
      (λ h.
        forward-EndsWith env P s job (decrypt_wan env s p) fit (decrypt_wan-Quiet env s p)
          (decrypt_wan-Gives env s p h))
      (λ h. forward-EndsWith env P s job (joined p, s) fit (refl, refl, refl) (inl (h, refl)))
