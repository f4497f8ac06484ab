-- ===== src/Tests/Passing.antt =====
-- The packets from the LANs, src/core/dataplane_local.c and src/core/dataplane_util.c, at concrete inputs.
use ne_multi_core.Base.{◌≡◌, refl, arith, true, false, none, some, [], ◌∷◌, ◌++◌, length, replicate}
use ne_multi_core.Base.Int.{pos}
use ne_multi_core.Circular.{IsSize, window}
use ne_multi_core.Config.Policy.{Flow}
use ne_multi_core.Fragment.{Bytes}
use ne_multi_core.Ring.{Ring, Packet, no_packet}
use ne_multi_core.Ring.Refine as RingRefine
use ne_multi_core.Pool.{Pool}
use ne_multi_core.Pool.Refine as PoolRefine
use ne_multi_core.Wan.{WanState, Forwarder, no_drain}
use ne_multi_core.Dataplane.{
  dp_parse_flow, dp_apply_wan_l2, dp_dest_ipv4, dp_write_l2_src_only, overwrite,
}
use ne_multi_core.Dataplane.Rewrite.{SameAbove, apply_wan_l2_keeps_flow}
use ne_multi_core.Dataplane.Policy.{
  IsPick, offers_from, pick_profile_policy, pick_profile_policy-IsPick,
}
use ne_multi_core.Dataplane.Local.{Cipher, LocalEnv, LocalState, push_split_to_wan}
use ne_multi_core.Dataplane.Local.Accounted.{Healthy, IsAccounted}
use ne_multi_core.Dataplane.Local.Halves.{BothOrNone, push_split-BothOrNone}
use ne_multi_core.Dataplane.Local.Process.{dataplane_process_local}
use ne_multi_core.Dataplane.Local.Process.Conserved.{process_local-IsAccounted}
use ne_multi_core.Tests.Configured.{a_config}

-- A TCP packet from 10.0.0.1:1000 to 10.0.1.2:80.
abbrev pub a_packet : Bytes
a_packet =
    replicate 12 2
    ++ (0x08 ∷ 0x00 ∷ 0x45 ∷ replicate 7 0 ++ (64 ∷ 6 ∷ 0 ∷ 0 ∷ []))
    ++ (10 ∷ 0 ∷ 0 ∷ 1 ∷ 10 ∷ 0 ∷ 1 ∷ 2 ∷ 3 ∷ 232 ∷ 0 ∷ 80 ∷ replicate 14 7)

parse_runs :
    dp_parse_flow a_packet
    ≡ some record {
      src_ip = 0x0100000A;
      dst_ip = 0x0201000A;
      src_port = 1000;
      dst_port = 80;
      protocol = 6;
    }
unfolding dp_parse_flow
parse_runs = refl

dest_runs : dp_dest_ipv4 a_packet ≡ 0x0201000A
unfolding dp_dest_ipv4 dp_parse_flow
dest_runs = refl

write_runs :
    dp_write_l2_src_only (replicate 14 0) (1 ∷ 2 ∷ 3 ∷ 4 ∷ 5 ∷ 6 ∷ [])
    ≡ some (replicate 6 0 ++ (1 ∷ 2 ∷ 3 ∷ 4 ∷ 5 ∷ 6 ∷ 0 ∷ 0 ∷ []))
unfolding dp_write_l2_src_only overwrite
write_runs = refl

apply_wan_l2_keeps_flow_example :
    (q : Bytes) × (dp_apply_wan_l2 a_packet (replicate 6 4) (replicate 6 5) ≡ some q)
    × SameAbove a_packet q
    × (dp_parse_flow q ≡ dp_parse_flow a_packet)
apply_wan_l2_keeps_flow_example =
    apply_wan_l2_keeps_flow a_packet (replicate 6 4) (replicate 6 5) (omega arith)

abbrev a_flow : Flow
a_flow = record { src_ip = 10; dst_ip = 20; src_port = 1000; dst_port = 80; protocol = 6 }

pick_profile_policy-IsPick_example :
    IsPick
      (offers_from a_config (pos 0) (some a_flow) a_config.profiles 0)
      (pick_profile_policy a_config (pos 0) (some a_flow))
pick_profile_policy-IsPick_example = pick_profile_policy-IsPick a_config (pos 0) (some a_flow)

abbrev pub a_ring : Ring
a_ring = record {
  buf = replicate 4 no_packet;
  cap = 4;
  mask = 3;
  head = 3;
  tail = 2;
  mpsc_pop = false;
}

abbrev four : IsSize 4 3
four = record { exponent = 2; small = omega arith; power = refl; masked = refl }

pub a_ring-IsValid : RingRefine.IsValid a_ring
a_ring-IsValid = record {
  size = four;
  storage = refl;
  head_in = omega arith;
  tail_in = omega arith;
  fits = omega arith;
}

-- Three frames are free, and the fourth is that of the packet.
abbrev pub a_pool : Pool
a_pool = record { buf = 64 ∷ 128 ∷ 192 ∷ 0 ∷ []; cap = 4; mask = 3; head = 3; tail = 0 }

pub a_pool-IsValid : PoolRefine.IsValid a_pool
a_pool-IsValid = record {
  size = four;
  storage = refl;
  head_in = omega arith;
  tail_in = omega arith;
  fits = omega arith;
}

abbrev a_forwarder : Forwarder
a_forwarder = record {
  wan_count = 2;
  mid_to_wan = λ dp w. a_ring;
  wan_ifnames = λ dp. dp ∷ [];
  wan_cfg_idx = λ dp. pos dp;
  pool = a_pool;
}

healthy : Healthy a_forwarder
unfolding window
healthy = (a_pool-IsValid, omega arith, λ dp w. a_ring-IsValid)

abbrev plain_cipher : Cipher
plain_cipher = record {
  policy_ready = λ cp. true;
  encrypt = λ layer cp p. some p;
  encrypt_fragment = λ layer cp header p id i. some (header ++ p);
}

abbrev all_up : WanState
all_up = record { drains = λ dp. no_drain; active_dp_count = 2; stopped = λ dp. false }

abbrev an_env : LocalEnv
an_env = record {
  worker = 1;
  now = 5000;
  malloc_ok = true;
  cfg = a_config;
  wans = all_up;
  blends = [];
  local_count = 2;
  frame_size = 4096;
  wan_macs = λ dp. (replicate 6 4, replicate 6 5);
  cipher = plain_cipher;
}

abbrev a_state : LocalState
a_state = record {
  fwd = a_forwarder;
  mem = λ addr. a_packet;
  counters = record { next_wan = 0; pkt_wrr_seq = 0 };
  tables = λ id. none;
  next_pkt_id = 0;
}

abbrev pub a_job : Packet
a_job = record { addr = 0; len = length a_packet; dir = 0; wan_idx = 0; local_idx = 0 }

push_split-BothOrNone_example :
    BothOrNone a_forwarder 1 0 (push_split_to_wan an_env a_forwarder a_job 60 40 1)
push_split-BothOrNone_example = push_split-BothOrNone an_env a_forwarder a_job 60 40 1 healthy

process_local-IsAccounted_example :
    IsAccounted a_forwarder (dataplane_process_local an_env a_state a_job).fwd 1 0
process_local-IsAccounted_example = process_local-IsAccounted an_env a_state a_job healthy
