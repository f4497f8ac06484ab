-- ===== src/Ring.antt =====
-- The packet rings of src/core/interface.c: `struct ne_ring` and `ne_ring_init`, `ne_ring_try_push`,
-- `ne_ring_try_pop`, `ne_ring_count`. A push holds `push_lock` and a ring with several readers
-- holds `pop_lock`, so each call is one step here.
pub mod Refine
pub mod Init
use ne_multi_core.Base.{
  ℕ, ◌-◌, Bool, ◌&&◌, not, Option, none, some, List, [], ◌∷◌, get_or, set, replicate, bit_and, ltb,
  leb, ◌==◌, if◌then◌else◌,
}
use ne_multi_core.Circular.{sub32, add32}

-- `struct ne_packet`: a frame of the shared memory and where it is going.
pub record Packet : Type 0 where
  pub addr : ℕ
  pub len : ℕ
  pub dir : ℕ
  pub wan_idx : ℕ
  pub local_idx : ℕ

abbrev pub no_packet : Packet
no_packet = record { addr = 0; len = 0; dir = 0; wan_idx = 0; local_idx = 0 }

pub record Ring : Type 0 where
  pub buf : List Packet
  pub cap : ℕ
  pub mask : ℕ
  pub head : ℕ
  pub tail : ℕ
  pub mpsc_pop : Bool

-- Whether the allocator and the two lock initialisations succeed is up to the system.
pub record Startup : Type 0 where
  pub allocated : Bool
  pub push_lock_ready : Bool
  pub pop_lock_ready : Bool

-- `none` is the -1 of the source.
unfoldable pub ring_init : Startup → ℕ → Bool → Option Ring
ring_init env cap mpsc_pop =
    if cap == 0
    then none
    else if not (bit_and cap (cap - 1) == 0)
    then none
    else if not env.allocated
    then none
    else if not env.push_lock_ready
    then none
    else if mpsc_pop && not env.pop_lock_ready
    then none
    else some (record {
      buf = replicate cap no_packet;
      cap = cap;
      mask = cap - 1;
      head = 0;
      tail = 0;
      mpsc_pop = mpsc_pop;
    })

unfoldable pub ring_count : Ring → ℕ
ring_count r = sub32 r.head r.tail

-- What a push that finds room and a pop that finds a packet leave behind.
abbrev pub stored : Ring → Packet → Ring
stored r pkt = record r { buf = set r.buf (bit_and r.head r.mask) pkt; head = add32 r.head 1 }

abbrev pub advanced : Ring → Ring
advanced r = record r { tail = add32 r.tail 1 }

abbrev pub next_packet : Ring → Packet
next_packet r = get_or r.buf (bit_and r.tail r.mask) no_packet

unfoldable pub ring_try_push : Ring → Packet → Option Ring
ring_try_push r pkt = if leb r.cap (sub32 r.head r.tail) then none else some (stored r pkt)

unfoldable pub ring_try_pop : Ring → Option (Packet × Ring)
ring_try_pop r = if r.tail == r.head then none else some (next_packet r, advanced r)

-- The calls that the threads make on one ring, in the order in which the locks let them through,
-- and what each returns.
pub data Call : Type 0 where
  pushes : Packet → Call
  pops : Call

pub data Reply : Type 0 where
  accepted refused nothing : Reply
  got : Packet → Reply

pub run : Ring → List Call → List Reply
run r [] = []
run r (pushes p ∷ cs) = elim (ring_try_push r p) [
  | none ↦ refused ∷ run r cs
  | some s ↦ accepted ∷ run s cs
]
run r (pops ∷ cs) = elim (ring_try_pop r) [
  | none ↦ nothing ∷ run r cs
  | some (p, s) ↦ got p ∷ run s cs
]
