-- ===== src/Tests/Queue.antt =====
-- The packet rings and the frame pool of src/core/interface.c at concrete inputs.
use ne_multi_core.Base.{
  ℕ, ◌-◌, ◌≡◌, refl, arith, true, false, some, List, [], ◌∷◌, length, replicate, take, drop, min,
}
use ne_multi_core.Circular.{IsSize, window}
use ne_multi_core.Fifo
use ne_multi_core.Ring.{Packet, no_packet, Ring, Startup, ring_init, Call, pushes, pops, run}
use ne_multi_core.Ring.Refine as RingRefine
use ne_multi_core.Pool.{Pool, pool_push, pool_pop}
use ne_multi_core.Pool.Refine as PoolRefine

abbrev two_cells : Ring
two_cells = record {
  buf = replicate 2 no_packet;
  cap = 2;
  mask = 1;
  head = 0;
  tail = 0;
  mpsc_pop = false;
}

abbrev two_size : IsSize 2 1
two_size = record { exponent = 1; small = omega arith; power = refl; masked = refl }

two_cells-IsValid : RingRefine.IsValid two_cells
two_cells-IsValid = record {
  size = two_size;
  storage = refl;
  head_in = omega arith;
  tail_in = omega arith;
  fits = omega arith;
}

abbrev a_packet : ℕ → Packet
a_packet n = record { addr = n; len = 60; dir = 0; wan_idx = 1; local_idx = 0 }

abbrev calls : List Call
calls = pushes (a_packet 1) ∷ pushes (a_packet 2) ∷ pushes (a_packet 3) ∷ pops ∷ pops ∷ pops ∷ []

run_refines_example :
    run two_cells calls ≡ RingRefine.spec_run 2 (RingRefine.contents two_cells) calls
run_refines_example = RingRefine.run_refines calls two_cells two_cells-IsValid

abbrev ready : Startup
ready = record { allocated = true; push_lock_ready = true; pop_lock_ready = true }

two_made : ring_init ready 2 false ≡ some two_cells
unfolding ring_init
two_made = refl

abbrev two_frames : Pool
two_frames = record { buf = 64 ∷ 128 ∷ []; cap = 2; mask = 1; head = 1; tail = 0 }

two_frames-IsValid : PoolRefine.IsValid two_frames
two_frames-IsValid = record {
  size = two_size;
  storage = refl;
  head_in = omega arith;
  tail_in = omega arith;
  fits = omega arith;
}

two_frames_free : PoolRefine.free_frames two_frames ≡ 64 ∷ []
unfolding window
two_frames_free = refl

pool_push_lem_example :
    let (n, q) = pool_push two_frames (256 ∷ 320 ∷ []) in
    (n ≡ min 2 (2 - length (PoolRefine.free_frames two_frames)))
    × (PoolRefine.free_frames q
        ≡ Fifo.push_all 2 (PoolRefine.free_frames two_frames) (256 ∷ 320 ∷ []))
    × PoolRefine.IsValid q
pool_push_lem_example = PoolRefine.pool_push_lem two_frames two_frames-IsValid (256 ∷ 320 ∷ [])

pool_pop_lem_example :
    let (got, q) = pool_pop two_frames 5 in
    (got ≡ take 5 (PoolRefine.free_frames two_frames))
    × (PoolRefine.free_frames q ≡ drop 5 (PoolRefine.free_frames two_frames))
    × PoolRefine.IsValid q
pool_pop_lem_example = PoolRefine.pool_pop_lem two_frames two_frames-IsValid 5
