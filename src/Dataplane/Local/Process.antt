-- ===== src/Dataplane/Local/Process.antt =====
-- One packet from a LAN, src/core/dataplane_local.c: `encrypt_to_wan` and `dataplane_process_local`. A
-- policy stands for its address, and no flow for `flow_ok` 0. The bytes that a call leaves in a frame
-- that is then given back are not followed.
pub mod Conserved
use ne_multi_core.Base.{
  ℕ, Bool, true, false, ◌&&◌, ◌||◌, not, Option, none, some, length, take, get_elem?, ltb,
  if◌then◌else◌,
}
use ne_multi_core.Base.Int.{ℤ, pos, eqb_ℤ}
use ne_multi_core.Config.{
  ProfileConfig, CryptoPolicy, policy_action_bypass, policy_action_encrypt_l2,
  policy_action_encrypt_l3, policy_action_encrypt_l4,
}
use ne_multi_core.Config.Policy.{Flow}
use ne_multi_core.Fragment.{Bytes}
use ne_multi_core.Fragment.Split.{
  Split, frag_need_split, frag_need_split_l2, frag_split_and_encrypt, frag_split_and_encrypt_l2,
}
use ne_multi_core.Fragment.LayerFour.{frag_need_split_l4, frag_split_and_encrypt_l4}
use ne_multi_core.Flow.Hash.{FlowKey}
use ne_multi_core.Flow.Table.{FlowTable}
use ne_multi_core.Dataplane.Local.{
  Cipher, LocalEnv, LocalState, store_packet, drop_job, push_to_wan, push_split_to_wan,
}
use ne_multi_core.Ring.{Packet}
use ne_multi_core.Wan.{Forwarder, fwd_wan_has_tx_room}
use ne_multi_core.Wan.Select.{Flows, fwd_wan_pick_for_local}
use ne_multi_core.Dataplane.{dp_parse_flow, dp_apply_wan_l2}
use ne_multi_core.Dataplane.Policy.{Picked, pick_profile_policy}

-- A failure, the packet in its place, or two halves.
pub data Encrypted : Type 0 where
  refused : Encrypted
  whole : Bytes → Encrypted
  halves : Bytes → Bytes → Encrypted

whole_of : Option Bytes → Encrypted
whole_of none = refused
whole_of (some p) = whole p

halves_of : Split → Encrypted × ℕ
halves_of (none, counter) = (refused, counter)
halves_of (some (f1, f2), counter) = (halves f1 f2, counter)

-- `crypto_mode_uses_gcm_tag()`
abbrev pub uses_gcm_tag : CryptoPolicy → Bool
uses_gcm_tag cp = eqb_ℤ cp.crypto_mode (pos 1) || eqb_ℤ cp.crypto_mode (pos 2)

encrypt_whole : Cipher → CryptoPolicy → Bytes → Encrypted
unfolding whole_of
encrypt_whole c cp p =
    if eqb_ℤ cp.action policy_action_encrypt_l2
    then whole_of (c.encrypt 2 cp p)
    else if eqb_ℤ cp.action policy_action_encrypt_l3
    then whole_of (c.encrypt 3 cp p)
    else if eqb_ℤ cp.action policy_action_encrypt_l4
    then whole_of (c.encrypt 4 cp p)
    else refused

-- The encryption of a packet, and the counter of packet ids after it.
pub encrypt_packet : Cipher → CryptoPolicy → ℕ → Bytes → Encrypted × ℕ
unfolding halves_of encrypt_whole
encrypt_packet c cp counter p =
    let tagged = uses_gcm_tag cp in
    let gcm = eqb_ℤ cp.crypto_mode (pos 1) in
    if eqb_ℤ cp.action policy_action_encrypt_l2 && frag_need_split_l2 tagged (length p)
    then halves_of (frag_split_and_encrypt_l2 (c.encrypt_fragment 2 cp) tagged counter p)
    else if eqb_ℤ cp.action policy_action_encrypt_l3 && frag_need_split tagged (length p)
    then halves_of (frag_split_and_encrypt (c.encrypt_fragment 3 cp) tagged counter p)
    else if eqb_ℤ cp.action policy_action_encrypt_l4 && frag_need_split_l4 gcm (length p)
    then halves_of (frag_split_and_encrypt_l4 (c.encrypt_fragment 4 cp) tagged counter p)
    else (encrypt_whole c cp p, counter)

-- -1, 0 with the packet in place, and 1 when the halves are pushed.
pub data Sent : Type 0 where
  not_sent : Sent
  in_place : Sent
  pushed : Sent

with_next : LocalState → ℕ → LocalState
with_next s next_pkt_id = record s { next_pkt_id = next_pkt_id }

sent_of : LocalState → Packet → Bytes → Bytes → Option ℕ × Forwarder → Sent × LocalState
sent_of s job f1 f2 (none, fwd) = (not_sent, record s { fwd = fwd })
sent_of s job f1 f2 (some tail, fwd) =
    (pushed, record s { fwd = fwd; mem = store_packet (store_packet s.mem job.addr f1) tail f2 })

-- The two halves with their Ethernet headers are pushed.
send_halves : LocalEnv → LocalState → Packet → ℕ → Option Bytes → Option Bytes → Sent × LocalState
unfolding sent_of
send_halves env s job wan_dp none o2 = (not_sent, s)
send_halves env s job wan_dp (some f1) none = (not_sent, s)
send_halves env s job wan_dp (some f1) (some f2) =
    sent_of s job f1 f2 (push_split_to_wan env s.fwd job (length f1) (length f2) wan_dp)

-- The packet, of the length that `job` then has, is left in place.
send_encrypted : LocalEnv → LocalState → Packet → ℕ → Encrypted → Sent × Packet × LocalState
unfolding send_halves
send_encrypted env s job wan_dp refused = (not_sent, job, s)
send_encrypted env s job wan_dp (whole p) =
    (in_place, record job { len = length p }, record s { mem = store_packet s.mem job.addr p })
send_encrypted env s job wan_dp (halves f1 f2) =
    let (dst, src) = env.wan_macs wan_dp in
    let (sent, s') =
      send_halves env s job wan_dp (dp_apply_wan_l2 f1 dst src) (dp_apply_wan_l2 f2 dst src) in
    (sent, job, s')

pub encrypt_to_wan :
    LocalEnv → LocalState → Packet → CryptoPolicy → ℕ → Bytes → Sent × Packet × LocalState
unfolding send_encrypted encrypt_packet
encrypt_to_wan env s job cp wan_dp p =
    let (encrypted, next_pkt_id) = encrypt_packet env.cipher cp s.next_pkt_id p in
    send_encrypted env (with_next s next_pkt_id) job wan_dp encrypted

with_fwd : LocalState → Forwarder → LocalState
with_fwd s fwd = record s { fwd = fwd }

-- The label `drop`.
dropped : LocalState → Packet → LocalState
unfolding with_fwd
dropped s job = with_fwd s (drop_job s.fwd job)

after_encrypt : LocalEnv → ℕ → Sent × Packet × LocalState → LocalState
unfolding dropped with_fwd
after_encrypt env wan_dp (not_sent, job, s) = dropped s job
after_encrypt env wan_dp (in_place, job, s) = with_fwd s (push_to_wan env s.fwd job wan_dp)
after_encrypt env wan_dp (pushed, job, s) = s

-- With the packet rewritten for the WAN.
send_policy : LocalEnv → LocalState → Packet → CryptoPolicy → ℕ → Option Bytes → LocalState
unfolding after_encrypt dropped with_fwd
send_policy env s job cp wan_dp none = dropped s job
send_policy env s job cp wan_dp (some p) =
    let s' = record s { mem = store_packet s.mem job.addr p } in
    if eqb_ℤ cp.action policy_action_bypass
    then with_fwd s' (push_to_wan env s'.fwd job wan_dp)
    else if not env.cfg.crypto_enabled
    then dropped s' job
    else if not (env.cipher.policy_ready cp)
    then dropped s' job
    else after_encrypt env wan_dp (encrypt_to_wan env s' job cp wan_dp p)

send_by : LocalEnv → LocalState → Packet → CryptoPolicy → Bytes → Option ℕ → LocalState
unfolding send_policy dropped
send_by env s job cp p none = dropped s job
send_by env s job cp p (some wan_dp) =
    let (dst, src) = env.wan_macs wan_dp in
    if not (fwd_wan_has_tx_room env.worker s.fwd wan_dp)
    then dropped s job
    else send_policy env s job cp wan_dp (dp_apply_wan_l2 p dst src)

-- Without a flow the addresses, ports and protocol are 0.
key_of : Option FlowKey → FlowKey
key_of none = record { src_ip = 0; dst_ip = 0; src_port = 0; dst_port = 0; protocol = 0 }
key_of (some k) = k

is_some : Option FlowKey → Bool
is_some none = false
is_some (some k) = true

to_flow : Option FlowKey → Option Flow
to_flow none = none
to_flow (some k) = some record {
  src_ip = k.src_ip;
  dst_ip = k.dst_ip;
  src_port = k.src_port;
  dst_port = k.dst_port;
  protocol = k.protocol;
}

tables_after : LocalState → Option ProfileConfig → Flows → ℤ → Option FlowTable
tables_after s none f id = s.tables id
tables_after s (some p) f id = if eqb_ℤ id p.id then f.table else s.tables id

-- The counters and the table of the profile, after the choice of a WAN.
with_flows : LocalState → Option ProfileConfig → Flows → LocalState
unfolding tables_after
with_flows s o f = record s { counters = f.counters; tables = tables_after s o f }

flows_of : LocalState → Option ProfileConfig → Flows
flows_of s none = record { counters = s.counters; table = none }
flows_of s (some p) = record { counters = s.counters; table = s.tables p.id }

send_picked : LocalEnv → LocalState → Packet → Bytes → Option FlowKey → Option Picked → LocalState
unfolding send_by dropped key_of is_some with_flows flows_of
send_picked env s job p flow none = dropped s job
send_picked env s job p flow (some (pi, cp)) =
    let profile = get_elem? env.cfg.profiles pi in
    let (wan_dp, f) =
      fwd_wan_pick_for_local env.worker env.now env.cfg s.fwd env.wans env.blends
        (flows_of s profile) profile (is_some flow) env.malloc_ok (key_of flow) job.len in
    send_by env (with_flows s profile f) job cp p wan_dp

pub dataplane_process_local : LocalEnv → LocalState → Packet → LocalState
unfolding send_picked to_flow
dataplane_process_local env s job =
    let p = take job.len (s.mem job.addr) in
    let flow = dp_parse_flow p in
    let li = if ltb job.local_idx env.local_count then job.local_idx else 0 in
    send_picked env s job p flow (pick_profile_policy env.cfg (pos li) (to_flow flow))
