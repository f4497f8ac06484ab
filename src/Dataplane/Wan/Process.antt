-- ===== src/Dataplane/Wan/Process.antt =====
-- One packet from a WAN, src/core/dataplane_wan.c: `decrypt_wan`, `pick_local` and
-- `dataplane_process_wan`.
pub mod Quiet
pub mod Plain
pub mod Conserved
use ne_multi_core.Base.{
  ℕ, ◌+◌, ◌%◌, Bool, true, false, ◌&&◌, ◌||◌, not, Option, none, some, length, take, ltb, leb, ◌==◌,
  if◌then◌else◌,
}
use ne_multi_core.Base.Int.{ℤ}
use ne_multi_core.Config.{policy_action_encrypt_l3, policy_action_encrypt_l4}
use ne_multi_core.Config.Owner.{config_find_local_for_ip}
use ne_multi_core.Fragment.{Bytes, byte_at, ethertype, Outcome, failed, pending, joined}
use ne_multi_core.Fragment.LayerFour.{frag_is_fragment_l4}
use ne_multi_core.Fragment.Recognise.{frag_is_fragment, frag_is_fragment_l2}
use ne_multi_core.Crypto.LayerTwo.{crypto_layer2_has_wire_frag_marker}
use ne_multi_core.Crypto.Dispatch.{
  crypto_l3_extract_policy_id, crypto_l4_extract_policy_id_ipv4,
  crypto_decrypt_packet_auto_by_action,
}
use ne_multi_core.Runtime.Policies.{Contexts, fwd_crypto_maybe_expire_prev_grace}
use ne_multi_core.Ring.{Packet, Ring}
use ne_multi_core.Pool.{Pool, frame_free}
use ne_multi_core.Wan.{update}
use ne_multi_core.Dataplane.{Pushed, dp_dest_ipv4, dp_write_l2_src_only, dp_ring_push}
use ne_multi_core.Dataplane.Local.{store_packet}
use ne_multi_core.Dataplane.Wan.{
  WanEnv, WanSide, Layer, two, three, four, wan_has_crypto, is_fragment, with_contexts, decrypt_l2,
  reassemble,
}

abbrev pub Stage : Type 0
Stage = Outcome × WanSide

-- A packet that is dropped, or of which the other half is awaited, goes no further.
unfoldable pub and_then : Stage → (Bytes → WanSide → Stage) → Stage
and_then (failed, s) next = (failed, s)
and_then (pending, s) next = (pending, s)
and_then (joined p, s) next = next p s

unfoldable pub of_option : Option Bytes → WanSide → Stage
of_option none s = (failed, s)
of_option (some p) s = (joined p, s)

-- `wan_l2_plain_ipv4`
abbrev pub wan_l2_plain_ipv4 : Bytes → Bool
wan_l2_plain_ipv4 p = not (ltb (length p) 14) && (ethertype p == 0x0800)

unfoldable pub is_plain : Option Bytes → Bool
is_plain none = false
is_plain (some p) = wan_l2_plain_ipv4 p

-- A packet that does not become plain IPv4 must be a half; it is as it came if it was kept.
unfoldable pub stage_l2 : WanEnv → WanSide → Bytes → Stage
unfolding of_option is_plain
stage_l2 env s p =
    let ((plain, left), c) = decrypt_l2 env p s.contexts in
    let kept =
      (ltb 28 (length p) && crypto_layer2_has_wire_frag_marker env.fake_ethertype p)
      || is_fragment (frag_is_fragment_l2 env.cfg env.fake_ethertype p) in
    let q = if kept then p else left in
    let s' = with_contexts s c in
    if is_plain plain
    then of_option plain s'
    else if is_fragment (frag_is_fragment_l2 env.cfg env.fake_ethertype q)
    then reassemble two env s' q (byte_at q 14)
    else (failed, s')

unfoldable pub reassemble_if : Layer → WanEnv → WanSide → Bytes → Option ℕ → Stage
reassemble_if layer env s p none = (failed, s)
reassemble_if layer env s p (some id) = reassemble layer env s p id

-- A packet without a policy id goes on as it is.
unfoldable pub decrypt_l3_if : WanEnv → Bytes → WanSide → Option ℕ → Stage
unfolding of_option
decrypt_l3_if env p s none = (joined p, s)
decrypt_l3_if env p s (some id) =
    of_option
      (crypto_decrypt_packet_auto_by_action env.base_decrypt env.decrypt_l3 env.cfg s.contexts
        policy_action_encrypt_l3 p (some id))
      s

unfoldable pub stage_l3 : WanEnv → Bytes → WanSide → Stage
unfolding reassemble_if decrypt_l3_if
stage_l3 env p s =
    let id = crypto_l3_extract_policy_id env.cfg env.fake_protocol p in
    if is_fragment (frag_is_fragment env.cfg env.fake_protocol p)
    then reassemble_if three env s p id
    else decrypt_l3_if env p s id

unfoldable pub stage_l4 : WanEnv → Bytes → WanSide → Stage
unfolding reassemble_if of_option
stage_l4 env p s =
    let id = crypto_l4_extract_policy_id_ipv4 env.cfg p in
    if is_fragment (frag_is_fragment_l4 env.cfg p)
    then reassemble_if four env s p id
    else of_option
        (crypto_decrypt_packet_auto_by_action env.base_decrypt env.decrypt_l4 env.cfg s.contexts
          policy_action_encrypt_l4 p id)
        s

-- Layers 3 and 4, with the contexts as they are at the time.
unfoldable pub upper_stages : WanEnv → Bytes → WanSide → Stage
unfolding and_then stage_l3 stage_l4
upper_stages env p s =
    let s' = with_contexts s (fwd_crypto_maybe_expire_prev_grace env.now_ms s.contexts) in
    if not env.cfg.crypto_enabled
    then (joined p, s)
    else and_then (stage_l3 env p s') (stage_l4 env)

unfoldable pub decrypt_wan : WanEnv → WanSide → Bytes → Stage
unfolding and_then stage_l2 upper_stages
decrypt_wan env s p = and_then (stage_l2 env s p) (upper_stages env)

-- The label `drop`, and the end for a half that waits.
unfoldable pub free_frame : WanSide → Packet → WanSide
free_frame s job = record s { pool = frame_free s.pool job.addr }

-- `none` if no LAN has the destination.
unfoldable pub pick_local : WanEnv → Bytes → Option ℕ
pick_local env p =
    let dest_ip = dp_dest_ipv4 p in
    if dest_ip == 0 then none else config_find_local_for_ip env.cfg dest_ip

-- NE_DIR_LOCAL, and the `uint8_t` index of the LAN.
abbrev pub to_local : Packet → ℕ → ℕ → Packet
to_local job len li = record job { len = len; dir = 0; local_idx = li % 256 }

unfoldable pub push_to_local : WanEnv → WanSide → Packet → ℕ → Pushed → WanSide
push_to_local env s job li (ok, pool, ring) = record s {
  pool = pool;
  mid_to_local = update s.mid_to_local li (update (s.mid_to_local li) env.worker ring);
}

unfoldable pub write_and_push : WanEnv → WanSide → Packet → ℕ → Option Bytes → WanSide
unfolding push_to_local free_frame
write_and_push env s job li none = free_frame s job
write_and_push env s job li (some p) =
    let s' = record s { mem = store_packet s.mem job.addr p } in
    push_to_local env s' job li (
      dp_ring_push env.frame_size s.pool (s.mid_to_local li env.worker)
        (to_local job (length p) li))

unfoldable pub forward_to : WanEnv → WanSide → Packet → Bytes → Option ℕ → WanSide
unfolding write_and_push free_frame
forward_to env s job p none = free_frame s job
forward_to env s job p (some li) =
    if leb env.local_count li
    then free_frame s job
    else write_and_push env s job li (dp_write_l2_src_only p (env.src_mac li))

-- The packet that is left for the LAN, if any.
unfoldable pub forward : WanEnv → Packet → Stage → WanSide
unfolding forward_to free_frame pick_local
forward env job (failed, s) = free_frame s job
forward env job (pending, s) = free_frame s job
forward env job (joined p, s) = forward_to env s job p (pick_local env p)

unfoldable pub dataplane_process_wan : WanEnv → WanSide → Packet → WanSide
unfolding forward decrypt_wan wan_has_crypto
dataplane_process_wan env s job =
    let p = take job.len (s.mem job.addr) in
    if wan_has_crypto env s.contexts p
    then forward env job (decrypt_wan env s p)
    else forward env job (joined p, s)
