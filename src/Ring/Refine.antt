-- ===== src/Ring/Refine.antt =====
-- A valid ring behaves as the bounded queue of its packets, also after the counters have wrapped.
use native.Mathlib.Decide.{dec_lt, ℕ_discrete}
use ne_multi_core.Base.{ℕ, ◌≡◌, refl, ap, ◌⊎◌, inl, inr, none, some, List, [], ◌∷◌, arith}
use ne_multi_core.Circular.{sub32}
use ne_multi_core.Circular.Cells
use ne_multi_core.Circular.Cells.{Cells}
use ne_multi_core.Fifo
use ne_multi_core.Ring.{
  Ring, Packet, no_packet, ring_try_push, ring_try_pop, stored, advanced, next_packet, Call, pushes,
  pops, Reply, accepted, refused, nothing, got, run,
}

abbrev pub cells : Ring → Cells Packet
cells r = record { buf = r.buf; cap = r.cap; mask = r.mask; head = r.head; tail = r.tail }

abbrev pub IsValid : Ring → Type 0
IsValid r = Cells.IsValid (cells r)

-- The packets in a ring, oldest first.
abbrev pub contents : Ring → List Packet
contents r = Cells.contents no_packet (cells r)

module _ (r : Ring) (v : IsValid r) where
  -- How a push and a pop can end.
  pub push_cases :
      (p : Packet)
      → ((ring_try_push r p ≡ none) × (Fifo.push r.cap (contents r) p ≡ none))
        ⊎ ((ring_try_push r p ≡ some (stored r p))
            × (Fifo.push r.cap (contents r) p ≡ some (contents (stored r p)))
            × IsValid (stored r p))
  unfolding ring_try_push Fifo.push
  push_cases p = elim (dec_lt (sub32 r.head r.tail) r.cap) [
    | yes room ↦ inr (
      ground arith,
      ground (
        arith,
        Cells.length-contents no_packet (cells r),
        Cells.contents-stored no_packet v p room,
      ),
      Cells.stored-IsValid v p room,
    )
    | no full ↦ inl (ground arith, ground (arith, Cells.length-contents no_packet (cells r)))
  ]

  pub pop_cases :
      ((ring_try_pop r ≡ none) × (contents r ≡ []))
      ⊎ ((ring_try_pop r ≡ some (next_packet r, advanced r))
          × (contents r ≡ next_packet r ∷ contents (advanced r))
          × IsValid (advanced r))
  unfolding ring_try_pop
  pop_cases = elim (ℕ_discrete r.tail r.head) [
    | yes e ↦ inl (ground arith, Cells.contents-empty no_packet v e)
    | no ne ↦
        inr (ground arith, Cells.contents-advanced no_packet v ne, Cells.advanced-IsValid v ne)
  ]

-- The same calls on the bounded queue.
pub spec_run : ℕ → List Packet → List Call → List Reply
spec_run cap q [] = []
spec_run cap q (pushes p ∷ cs) = elim (Fifo.push cap q p) [
  | none ↦ refused ∷ spec_run cap q cs
  | some s ↦ accepted ∷ spec_run cap s cs
]
spec_run cap q (pops ∷ cs) = elim (Fifo.pop q) [
  | none ↦ nothing ∷ spec_run cap q cs
  | some (p, s) ↦ got p ∷ spec_run cap s cs
]

-- No sequence of pushes and pops tells a valid ring from the first-in first-out queue of at most
-- `cap` packets, starting from the packets that the ring holds: each call gives the same answer.
pub run_refines :
    (cs : List Call) (r : Ring) → IsValid r → run r cs ≡ spec_run r.cap (contents r) cs
unfolding run spec_run Fifo.pop
run_refines [] r v = refl
run_refines (pushes p ∷ cs) r v = elim (push_cases r v p) [
  | inl (a, b) ↦ rw (a, run, b, spec_run) (ap (λ t. refused ∷ t) (run_refines cs r v))
  | inr (a, b, w) ↦
      rw (a, run, b, spec_run) (ap (λ t. accepted ∷ t) (run_refines cs (stored r p) w))
]
run_refines (pops ∷ cs) r v = elim (pop_cases r v) [
  | inl (a, b) ↦ rw (a, run, b, spec_run) (ap (λ t. nothing ∷ t) (run_refines cs r v))
  | inr (a, b, w) ↦
      rw (a, run, b, spec_run) (ap (λ t. got (next_packet r) ∷ t) (run_refines cs (advanced r) w))
]
