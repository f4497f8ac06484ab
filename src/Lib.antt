-- ===== src/Lib.antt =====
-- A model of ne_multi_core, a user-space packet forwarder that carries the traffic of several LANs over
-- several WANs, encrypts it by policy, and shares it among the WANs by weight.
--
-- The program. Receive threads take frames from the shared memory of AF_XDP sockets and push packets
-- onto rings (src/core/interface.c); crypto workers pop them, choose the policy (src/db/config.c),
-- choose a WAN (src/core/forwarder_wan.c, src/core/flow_table.c), encrypt (src/crypto), split what exceeds
-- the MTU and push the result onto the rings of the WANs (src/core/dataplane_local.c); in the other
-- direction they decrypt, reassemble (src/core/fragment.c) and push onto the rings of the LANs
-- (src/core/dataplane_wan.c). Configuration changes let WANs drain and weights change gradually
-- (src/core/forwarder_wan.c), and replace the contexts of the policies
-- (src/core/forwarder_crypto_runtime.c).
--
-- The files.
--   Base, Base/*: numbers, integers, lists, bits and bytes that the other modules share.
--   Circular, Circular/Cells: the circular buffer with running 32-bit counters that `struct ne_ring` and
--     `struct ne_pool` have in common, and the list of what it holds. Fifo: the bounded queue.
--   Ring, Ring/*: `struct ne_ring`, `ne_ring_init`, `ne_ring_try_push`, `ne_ring_try_pop`, `ne_ring_count`
--     (src/core/interface.c), against the bounded queue. A call holds the ring's locks, so a history of
--     the threads is a list of calls.
--   Pool, Pool/Refine, Pool/Alloc: `struct ne_pool` with `pool_init`, `pool_push`, `pool_pop`, `ne_frame_alloc` and
--     `ne_frame_free` (src/core/interface.c), as the list of the free frames.
--   Config: the structs of inc/core/config.h. Config/Policy, Config/Policy/*: policy matching and
--     selection; Config/Owner: owners of interfaces and routing to LANs; Config/Validate,
--     Config/Validate/*: `config_validate`; Config/Address: netmasks (all src/db/config.c).
--     Config/WanIndex: the two numberings of WANs (inc/core/config.h).
--   Flow/Hash, Flow/Wrr, Flow/Table and the modules below them: src/core/flow_table.c. Hash is the keys,
--     Wrr the choice by weights, Table the table of flows with its lookups and its collection.
--   Fragment and the modules below it: src/core/fragment.c. Reassemble and its children are about the two
--     halves in either order at layers 2 and 3 (Home: at the entry that the id leads to), LayerFour about
--     layer 4, Acquire about the search of layer 2, Split and its children about how a packet is cut and
--     comes back, Recognise about what is taken for a fragment.
--   Crypto: nonces, keys and the tunnel header (src/crypto/packet_crypto.c). Crypto/LayerTwo and the
--     modules below it: src/crypto/crypto_layer2.c; Wire is the bytes of a frame, Seal what is asked of
--     the ciphers, Composed the way through splitting, encryption, decryption and reassembly.
--     Crypto/Dispatch: src/crypto/crypto_dispatch.c. Crypto/Fixup: `crypto_layer4_fixup_packet`
--     (src/crypto/crypto_layer4.c) and the checksums of src/crypto/packet_crypto.c.
--   Runtime, Runtime/Slots, Runtime/Ensure, Runtime/Grown: the slots of the profiles with their tables;
--     Runtime/Reachable: the slots over all calls and packets that change them;
--     Runtime/Policies and its children: the contexts of the policies, what a reload makes of them
--     (Rebuild, Made), what it keeps (Reload) and for how long the old ones stay (Grace)
--     (all src/core/forwarder_crypto_runtime.c).
--     Runtime/Windows: the window sizes after a reload.
--   Reload, Reload/*: the two kinds of reload (src/core/forwarder_reload.c); Served is about the slots and
--     their tables, Grace about the contexts of before.
--   Dataplane, Dataplane/Rewrite, Dataplane/Push: src/core/dataplane_util.c. Dataplane/Policy and
--     Dataplane/Local with its children: src/core/dataplane_local.c; Dataplane/Wan with its children:
--     src/core/dataplane_wan.c. Accounted, Halves and Conserved are about where a frame is at the end, Plain about the
--     packet that decryption leaves, Quiet about what it leaves alone.
--   CryptoRoute, CryptoRoute/Same: the worker of a packet (src/core/crypto_route.c). CpuMap: the cores of the
--     threads (src/core/cpu_map.c, inc/core/cpu_map.h).
--   Wan and the modules below it: src/core/forwarder_wan.c. Drain is the end of a drain, Flush
--     and FlushQueue the emptying of a ring and of the rings of a WAN, Removal the
--     start of one by a change of configuration, Blend and Blend/Begin the gradual change of weights,
--     Select the pool of a profile and the choice for a packet from the LAN.
--   MacLearn, MacLearn/*: src/core/mac_learn.c, the table of learned addresses as a map from names.
--   Tests/*: runs at concrete inputs.
--
-- The correspondence. A function has the name of the function of the source; a loop is a helper by
-- structural recursion on the list, or on the number of rounds left. An array with its count is a list,
-- a chain of entries is a list, a table of fixed size is a function of the index. `none` stands for a
-- null pointer and for the -1 of an index. Arithmetic of a fixed width has its remainder written out. A
-- clock, the success of `malloc` and of a lock's initialisation are arguments, and so is the encryption of
-- a fragment where packets are cut. The ciphers of OpenSSL and of the post-quantum library are a record of
-- functions, of which the round trips ask that what is encrypted is decrypted with the same key and
-- nonce. In the data path a policy stands for its address; the bytes of a frame that is given back are
-- not followed. An operation on a bucket, a ring or the pool holds its lock from its first read to its last
-- write and is one step.
--
-- Bounds and fuel. The loops of the source that count are structural in the count (16384 buckets, 4096
-- entries, 16 interfaces, 6 workers). The flush of a ring (`flush_loop`) has the number of packets in the
-- ring as its fuel; any fuel of at least that number empties the ring. The folding of a checksum has two
-- rounds, which leave no carry of a sum of 32 bits (Crypto/Fixup). A sum of weights wraps like the `int` of
-- the source (`as_int`).
--
-- Not modelled. The threads and their CPU pinning (src/core/forwarder.c), the queue of reloads
-- (src/core/forwarder_reload.c), the set-up of sockets and the descriptors of AF_XDP
-- (src/core/interface.c), the encryption of layers 3 and 4 (src/crypto/crypto_layer3.c,
-- crypto_layer4.c) but for their lengths and the repair of a packet, the ciphers and key exchanges (src/crypto), the database
-- (src/db/db_*.c), the parsers of src/db/config.c, the eBPF programs and main.c.
pub mod Base
pub mod Circular
pub mod Fifo
pub mod Config
pub mod Flow
pub mod Ring
pub mod Pool
pub mod Fragment
pub mod Wan
pub mod MacLearn
pub mod Crypto
pub mod CpuMap
pub mod CryptoRoute
pub mod Reload
pub mod Runtime
pub mod Dataplane
pub mod Tests
