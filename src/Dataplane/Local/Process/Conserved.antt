-- ===== src/Dataplane/Local/Process/Conserved.antt =====
-- The frame of a packet from a LAN through the whole of `dataplane_process_local`,
-- src/core/dataplane_local.c.
use ne_multi_core.Base.{ℕ, inl, inr, not, Option, none, some, length, get_elem?, Bool-cases}
use ne_multi_core.Base.Int.{eqb_ℤ}
use ne_multi_core.Config.{CryptoPolicy, policy_action_bypass}
use ne_multi_core.Fragment.{Bytes}
use ne_multi_core.Flow.Hash.{FlowKey}
use ne_multi_core.Ring.{Packet}
use ne_multi_core.Wan.{Forwarder, fwd_wan_has_tx_room}
use ne_multi_core.Wan.Select.{fwd_wan_pick_for_local}
use ne_multi_core.Dataplane.{dp_apply_wan_l2}
use ne_multi_core.Dataplane.Policy.{Picked}
use ne_multi_core.Dataplane.Local.{LocalEnv, LocalState, store_packet}
use ne_multi_core.Dataplane.Local.Accounted.{
  Healthy, IsAccounted, drop_job-IsFreed, Same-IsFreed, push_to_wan-IsAccounted,
}
use ne_multi_core.Dataplane.Local.Halves.{BothOrNone, push_split-BothOrNone}
use ne_multi_core.Dataplane.Local.Process.{
  Encrypted, refused, whole, halves, sent_of, send_halves, send_encrypted, encrypt_to_wan,
  encrypt_packet, with_next, with_fwd, dropped, after_encrypt, send_policy, send_by, with_flows,
  flows_of, key_of, is_some, send_picked, dataplane_process_local,
}

module _ (env : LocalEnv) where
  -- The state after a call accounts for the frame of `job`.
  abbrev Kept : Forwarder → LocalState → Packet → Type 0
  Kept fwd s job = IsAccounted fwd s.fwd env.worker job.addr

  dropped-Kept : (s : LocalState) (job : Packet) → Healthy s.fwd → Kept s.fwd (dropped s job) job
  unfolding dropped with_fwd
  dropped-Kept s job h = inl (drop_job-IsFreed s.fwd job h)

  sent_of-Kept :
      (fwd : Forwarder) (s : LocalState) (job : Packet) (f1 f2 : Bytes) (wan_dp : ℕ)
      (r : Option ℕ × Forwarder)
      → BothOrNone fwd env.worker job.addr r
      → let (sent, s') = sent_of s job f1 f2 r in
        Kept fwd (after_encrypt env wan_dp (sent, job, s')) job
  unfolding sent_of after_encrypt dropped with_fwd
  sent_of-Kept fwd s job f1 f2 wan_dp (none, fwd') (inl (e, same)) =
      inl (Same-IsFreed fwd fwd' job same)
  sent_of-Kept fwd s job f1 f2 wan_dp (none, fwd') (inr (t, e, split)) = cc
  sent_of-Kept fwd s job f1 f2 wan_dp (some tail, fwd') (inl (e, same)) = cc
  sent_of-Kept fwd s job f1 f2 wan_dp (some tail, fwd') (inr (t, e, split)) = inr (inr split)

  halves-Kept :
      (s : LocalState) (job : Packet) (wan_dp : ℕ) (o1 o2 : Option Bytes)
      → Healthy s.fwd
      → let (sent, s') = send_halves env s job wan_dp o1 o2 in
        Kept s.fwd (after_encrypt env wan_dp (sent, job, s')) job
  unfolding send_halves after_encrypt
  halves-Kept s job wan_dp none o2 h = dropped-Kept s job h
  halves-Kept s job wan_dp (some f1) none h = dropped-Kept s job h
  halves-Kept s job wan_dp (some f1) (some f2) h =
      sent_of-Kept s.fwd s job f1 f2 wan_dp _
        (push_split-BothOrNone env s.fwd job (length f1) (length f2) wan_dp h)

  encrypted-Kept :
      (s : LocalState) (job : Packet) (wan_dp : ℕ) (e : Encrypted)
      → Healthy s.fwd
      → Kept s.fwd (after_encrypt env wan_dp (send_encrypted env s job wan_dp e)) job
  unfolding send_encrypted after_encrypt with_fwd
  encrypted-Kept s job wan_dp refused h = dropped-Kept s job h
  encrypted-Kept s job wan_dp (whole p) h =
      push_to_wan-IsAccounted env s.fwd (record job { len = length p }) wan_dp h
  encrypted-Kept s job wan_dp (halves f1 f2) h =
      let (dst, src) = env.wan_macs wan_dp in
      halves-Kept s job wan_dp (dp_apply_wan_l2 f1 dst src) (dp_apply_wan_l2 f2 dst src) h

  policy-Kept :
      (s : LocalState) (job : Packet) (cp : CryptoPolicy) (wan_dp : ℕ) (o : Option Bytes)
      → Healthy s.fwd
      → Kept s.fwd (send_policy env s job cp wan_dp o) job
  unfolding send_policy encrypt_to_wan with_next with_fwd
  policy-Kept s job cp wan_dp none h = dropped-Kept s job h
  policy-Kept s job cp wan_dp (some p) h =
      let s' = record s { mem = store_packet s.mem job.addr p } in
      let (encrypted, next_pkt_id) = encrypt_packet env.cipher cp s.next_pkt_id p in
      elim (Bool-cases (eqb_ℤ cp.action policy_action_bypass)) [
        | inl b ↦ rw b (push_to_wan-IsAccounted env s.fwd job wan_dp h)
        | inr b ↦ elim (Bool-cases (not env.cfg.crypto_enabled)) [
          | inl off ↦ rw (b, off) (dropped-Kept s' job h)
          | inr on ↦ elim (Bool-cases (not (env.cipher.policy_ready cp))) [
            | inl missing ↦ rw (b, on, missing) (dropped-Kept s' job h)
            | inr ready ↦
                rw (b, on, ready) (encrypted-Kept (with_next s' next_pkt_id) job wan_dp encrypted h)
          ]
        ]
      ]

  by-Kept :
      (s : LocalState) (job : Packet) (cp : CryptoPolicy) (p : Bytes) (o : Option ℕ)
      → Healthy s.fwd
      → Kept s.fwd (send_by env s job cp p o) job
  unfolding send_by
  by-Kept s job cp p none h = dropped-Kept s job h
  by-Kept s job cp p (some wan_dp) h =
      let (dst, src) = env.wan_macs wan_dp in
      elim (Bool-cases (not (fwd_wan_has_tx_room env.worker s.fwd wan_dp))) [
        | inl full ↦ rw full (dropped-Kept s job h)
        | inr room ↦ rw room (policy-Kept s job cp wan_dp (dp_apply_wan_l2 p dst src) h)
      ]

  picked-Kept :
      (s : LocalState) (job : Packet) (p : Bytes) (flow : Option FlowKey) (o : Option Picked)
      → Healthy s.fwd
      → Kept s.fwd (send_picked env s job p flow o) job
  unfolding send_picked with_flows
  picked-Kept s job p flow none h = dropped-Kept s job h
  picked-Kept s job p flow (some (pi, cp)) h =
      let profile = get_elem? env.cfg.profiles pi in
      let (wan_dp, f) =
        fwd_wan_pick_for_local env.worker env.now env.cfg s.fwd env.wans env.blends
          (flows_of s profile) profile (is_some flow) env.malloc_ok (key_of flow) job.len in
      by-Kept (with_flows s profile f) job cp p wan_dp h

-- Whatever `dataplane_process_local` does with a packet from a LAN, its frame ends in exactly one
-- place: given back to the pool with every ring as it was, or last in one ring of the worker, alone,
-- or there followed by the frame of its second half, which comes from the pool. No frame is lost,
-- and none is in two places. The rings and the pool are valid, and the pool has room for the frame.
pub process_local-IsAccounted :
    (env : LocalEnv) (s : LocalState) (job : Packet)
    → Healthy s.fwd
    → IsAccounted s.fwd (dataplane_process_local env s job).fwd env.worker job.addr
unfolding dataplane_process_local
process_local-IsAccounted env s job h = picked-Kept env s job _ _ _ h
