-- ===== src/Flow/Hash.antt =====
-- `normalize_flow_5tuple`, `normalize_flow_ips`, `flow_hash` and `flow_hash_ips` of
-- src/core/flow_table.c. Addresses are in network byte order, ports in the host's.
use Prim.Native.Nat.{bit_xor, bit_or}
use ne_multi_core.Base.{
  ℕ, ◌*◌, ◌/◌, ◌%◌, ◌^◌, ◌<◌, ◌≡◌, arith, ◌&&◌, ◌||◌, ltb, ◌==◌, if◌then◌else◌,
}
use ne_multi_core.Base.Bytes.{swap32, swap32_injective}

abbrev pub flow_table_size : ℕ
flow_table_size = 16384

pub record FlowKey : Type 0 where
  pub src_ip : ℕ
  pub dst_ip : ℕ
  pub src_port : ℕ
  pub dst_port : ℕ
  pub protocol : ℕ

unfoldable pub normalize_flow_5tuple : FlowKey → FlowKey
normalize_flow_5tuple k =
    let a = swap32 k.src_ip in
    let b = swap32 k.dst_ip in
    if ltb b a || ((a == b) && ltb k.dst_port k.src_port)
    then record k {
      src_ip = k.dst_ip;
      dst_ip = k.src_ip;
      src_port = k.dst_port;
      dst_port = k.src_port;
    }
    else k

-- The ports stay as they are.
unfoldable pub normalize_flow_ips : FlowKey → FlowKey
normalize_flow_ips k =
    if ltb (swap32 k.dst_ip) (swap32 k.src_ip)
    then record k { src_ip = k.dst_ip; dst_ip = k.src_ip }
    else k

-- The mixing steps that `flow_hash`, `flow_hash_ips` and `dp_flow_hash_mix` share.
unfoldable pub mix32 : ℕ → ℕ
mix32 h0 =
    let h1 = bit_xor h0 (h0 / 2 ^ 16) in
    let h2 = h1 * 0x85ebca6b % 2 ^ 32 in
    let h3 = bit_xor h2 (h2 / 2 ^ 13) in
    let h4 = h3 * 0xc2b2ae35 % 2 ^ 32 in bit_xor h4 (h4 / 2 ^ 16)

unfoldable pub flow_hash : FlowKey → ℕ
unfolding mix32
flow_hash k =
    let ips = bit_xor k.src_ip k.dst_ip in
    let ports = bit_xor ips (bit_or (k.src_port * 2 ^ 16) k.dst_port) in
    mix32 (bit_xor ports k.protocol) % flow_table_size

unfoldable pub flow_hash_ips : FlowKey → ℕ
unfolding mix32
flow_hash_ips k = mix32 (bit_xor k.src_ip k.dst_ip) % flow_table_size

-- The key of the packets that go the other way.
abbrev pub reversed : FlowKey → FlowKey
reversed k = record k {
  src_ip = k.dst_ip;
  dst_ip = k.src_ip;
  src_port = k.dst_port;
  dst_port = k.src_port;
}

-- Both directions of a conversation normalize to one key, so they meet in one bucket and one entry.
pub normalize_5tuple-reversed :
    (k : FlowKey)
    → k.src_ip < 2 ^ 32
    → k.dst_ip < 2 ^ 32
    → normalize_flow_5tuple (reversed k) ≡ normalize_flow_5tuple k
unfolding normalize_flow_5tuple
normalize_5tuple-reversed k hs hd = ground (arith, swap32_injective k.src_ip k.dst_ip hs hd)

-- What the IP-only lookup reads of a key is the same in both directions.
pub normalize_ips-reversed :
    (k : FlowKey)
    → k.src_ip < 2 ^ 32
    → k.dst_ip < 2 ^ 32
    → ((normalize_flow_ips (reversed k)).src_ip ≡ (normalize_flow_ips k).src_ip)
      × ((normalize_flow_ips (reversed k)).dst_ip ≡ (normalize_flow_ips k).dst_ip)
unfolding normalize_flow_ips
normalize_ips-reversed k hs hd = ground (arith, swap32_injective k.src_ip k.dst_ip hs hd)

-- Every hash is the index of a bucket.
pub flow_hash-lt :
    (k : FlowKey) → (flow_hash k < flow_table_size) × (flow_hash_ips k < flow_table_size)
unfolding flow_hash flow_hash_ips
flow_hash-lt k = omega arith
