-- ===== src/CryptoRoute.antt =====
-- Which worker a packet goes to, src/core/crypto_route.c. The worker of the calling thread, which
-- `dp_crypto_worker_bind` sets, is an argument wherever it is used.
pub mod Same
use Prim.Native.Nat.{bit_xor, bit_or}
use ne_multi_core.Base.{
  ℕ, zero, suc, ◌+◌, ◌*◌, ◌/◌, ◌%◌, ◌^◌, Bool, true, false, ◌&&◌, ◌||◌, not, Option, none, some,
  List, [], ◌∷◌, length, take, ltb, leb, ◌==◌, if◌then◌else◌,
}
use ne_multi_core.Config.{AppConfig}
use ne_multi_core.Fragment.{Bytes}
use ne_multi_core.Fragment.Recognise.{frag_is_fragment_l2}
use ne_multi_core.Base.Bytes.{swap32}
use ne_multi_core.Flow.Hash.{FlowKey, mix32}
use ne_multi_core.CpuMap.{ne_cpu_crypto_map}
use ne_multi_core.Crypto.LayerTwo.{crypto_layer2_read_worker_idx}
use ne_multi_core.Runtime.{workers}
use ne_multi_core.Runtime.Policies.{Contexts}
use ne_multi_core.Dataplane.{dp_parse_flow}
use ne_multi_core.Dataplane.Wan.{fwd_crypto_has_l2_marker, is_fragment}

unfoldable pub dp_flow_hash_mix : ℕ → ℕ → ℕ → ℕ → ℕ → ℕ
unfolding mix32
dp_flow_hash_mix src_ip dst_ip src_port dst_port protocol =
    let ips = bit_xor src_ip dst_ip in
    let ports = bit_xor ips (bit_or (src_port * 2 ^ 16) dst_port) in mix32 (bit_xor ports protocol)

-- The number of workers, 6, is not a power of two.
unfoldable pub dp_flow_hash_to_worker : ℕ → ℕ
dp_flow_hash_to_worker hash = hash % workers

unfoldable pub dp_crypto_worker_bind : ℕ → ℕ
dp_crypto_worker_bind worker_idx = if leb workers worker_idx then 0 else worker_idx

-- The cores from number `i` on.
unfoldable pub cpu_loop : List ℕ → ℕ → ℕ → Option ℕ
cpu_loop [] cpu_id i = none
cpu_loop (c ∷ cs) cpu_id i =
    let rest = cpu_loop cs cpu_id (i + 1) in if c == cpu_id then some i else rest

unfoldable pub dp_crypto_worker_idx_for_cpu : ℕ → Option ℕ
unfolding cpu_loop
dp_crypto_worker_idx_for_cpu cpu_id = cpu_loop ne_cpu_crypto_map cpu_id 0

unfoldable pub header_hash : Bytes → ℕ → ℕ
header_hash [] hash = hash
header_hash (b ∷ bs) hash = header_hash bs ((hash * 31 + b) % 2 ^ 32)

-- A packet without a flow goes by its length and its Ethernet header.
unfoldable pub worker_of : Bytes → Option FlowKey → ℕ
unfolding header_hash dp_flow_hash_mix dp_flow_hash_to_worker swap32
worker_of p none =
    let hash = header_hash (take 14 p) (length p % 2 ^ 32) in
    dp_flow_hash_to_worker (dp_flow_hash_mix hash (hash / 2 ^ 16) (length p % 2 ^ 16) 0 0)
worker_of p (some k) =
    dp_flow_hash_to_worker
      (dp_flow_hash_mix (swap32 k.src_ip) (swap32 k.dst_ip) k.src_port k.dst_port k.protocol)

unfoldable pub dp_crypto_pick_local_worker : Bytes → ℕ
unfolding worker_of
dp_crypto_pick_local_worker p = if ltb (length p) 14 then 0 else worker_of p (dp_parse_flow p)

-- A number that is no worker's is taken for a core.
unfoldable pub worker_of_wire : Option ℕ → Option ℕ
unfolding dp_crypto_worker_idx_for_cpu
worker_of_wire none = none
worker_of_wire (some wire_id) =
    if ltb wire_id workers then some wire_id else dp_crypto_worker_idx_for_cpu wire_id

-- `none` is the -1 of the source.
unfoldable pub dp_crypto_pick_wan_worker : AppConfig → Contexts → ℕ → Bytes → Option ℕ
unfolding worker_of_wire
dp_crypto_pick_wan_worker cfg c fake p =
    if not cfg.crypto_enabled
    then some 0
    else if not (fwd_crypto_has_l2_marker c fake p)
        && not (is_fragment (frag_is_fragment_l2 cfg fake p))
    then some 0
    else worker_of_wire (crypto_layer2_read_worker_idx fake p)
