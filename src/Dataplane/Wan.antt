-- ===== src/Dataplane/Wan.antt =====
-- Packets from the WANs, src/core/dataplane_wan.c, with `fwd_crypto_has_l2_marker`
-- (src/core/forwarder_crypto_runtime.c): decryption at layer 2, 3 and 4 in turn, reassembly at each, and
-- the way to the LAN. Decryption at layers 3 and 4 and the ciphers are parameters; the settings of the
-- thread are those of the policy whose context is used.
pub mod Process
use ne_multi_core.Base.{
  ℕ, ◌+◌, ◌%◌, Bool, true, false, ◌&&◌, ◌||◌, not, Option, none, some, length, take, ltb, leb, ◌==◌,
  if◌then◌else◌,
}
use ne_multi_core.Base.Int.{ℤ, pos, eqb_ℤ}
use ne_multi_core.Config.{
  AppConfig, CryptoPolicy, policy_action_encrypt_l2, policy_action_encrypt_l3,
  policy_action_encrypt_l4,
}
use ne_multi_core.Config.Owner.{config_find_local_for_ip}
use ne_multi_core.Fragment.{Bytes, FragTable, byte_at, ethertype, Outcome, failed, pending, joined}
use ne_multi_core.Fragment.Reassemble.{Reassembled, frag_try_reassemble, frag_try_reassemble_l2}
use ne_multi_core.Fragment.LayerFour.{frag_is_fragment_l4, frag_try_reassemble_l4}
use ne_multi_core.Fragment.Recognise.{frag_is_fragment, frag_is_fragment_l2}
use ne_multi_core.Crypto.{Cipher, Mode, ctr, gcm, pqc}
use ne_multi_core.Crypto.LayerTwo.{
  crypto_layer2_decrypt, crypto_layer2_decrypt_fragment, crypto_layer2_has_wire_frag_marker,
}
use ne_multi_core.Crypto.Dispatch.{
  Decrypt, crypto_l3_extract_policy_id, crypto_l4_extract_policy_id_ipv4,
  crypto_decrypt_packet_auto_by_action,
}
use ne_multi_core.Runtime.{Slot, Slots, set_slot, fwd_crypto_profile_slot_for_id}
use ne_multi_core.Runtime.Policies.{
  Context, Generation, Contexts, fwd_crypto_ctx_for_policy_action_id,
  fwd_crypto_profile_id_for_policy_action_id, fwd_crypto_maybe_expire_prev_grace,
}
use ne_multi_core.Ring.{Packet, Ring}
use ne_multi_core.Pool.{Pool, frame_free}
use ne_multi_core.Wan.{update}
use ne_multi_core.Dataplane.{dp_dest_ipv4, dp_write_l2_src_only, dp_ring_push}
use ne_multi_core.Dataplane.Local.{store_packet}

-- The decryption of one half: the frame with the plaintext, its id and its index.
abbrev pub OpenHalf : Type 0
OpenHalf = CryptoPolicy → Context → Bytes → Option (Bytes × ℕ × ℕ)

-- What one call reads: the worker that makes it, the clock in ns and in ms, the configuration, the
-- addresses of the LANs, the ciphers of a context, and the decryption at layers 3 and 4. `spoilt` is
-- what a failed decryption at layer 2 leaves of the packet.
pub record WanEnv : Type 0 where
  pub worker : ℕ
  pub now_ns : ℕ
  pub now_ms : ℕ
  pub cfg : AppConfig
  pub local_count : ℕ
  pub frame_size : ℕ
  pub src_mac : ℕ → Bytes
  pub fake_ethertype : ℕ
  pub fake_protocol : ℕ
  pub cipher : CryptoPolicy → Context → Cipher
  pub spoilt : Bytes → Bytes
  pub base_decrypt : Bytes → Option Bytes
  pub decrypt_l3 : Decrypt
  pub decrypt_l4 : Decrypt
  pub open_l3 : OpenHalf
  pub open_l4 : OpenHalf

-- What it may change.
pub record WanSide : Type 0 where
  pub pool : Pool
  pub mid_to_local : ℕ → ℕ → Ring
  pub mem : ℕ → Bytes
  pub slots : Slots
  pub contexts : Contexts

unfoldable pub mode_of : ℤ → Mode
mode_of m = if eqb_ℤ m (pos 1) then gcm else if eqb_ℤ m (pos 2) then pqc else ctr

-- `policy_index_by_action_id[POLICY_ACTION_ENCRYPT_L2][...] >= 0`
abbrev pub is_index : Option ℕ → Bool
is_index none = false
is_index (some i) = true

unfoldable pub fwd_crypto_has_l2_marker : Contexts → ℕ → Bytes → Bool
fwd_crypto_has_l2_marker c fake p =
    if (fake == 0) || ltb (length p) 16
    then false
    else if not (ethertype p == fake)
    then false
    else is_index (c.active.index policy_action_encrypt_l2 (byte_at p 14))

abbrev pub is_fragment : Option (ℕ × ℕ) → Bool
is_fragment none = false
is_fragment (some h) = true

unfoldable pub wan_has_crypto : WanEnv → Contexts → Bytes → Bool
unfolding fwd_crypto_has_l2_marker
wan_has_crypto env c p =
    if not env.cfg.crypto_enabled
    then false
    else is_fragment (frag_is_fragment_l2 env.cfg env.fake_ethertype p)
      || is_fragment (frag_is_fragment env.cfg env.fake_protocol p)
      || is_fragment (frag_is_fragment_l4 env.cfg p)
      || fwd_crypto_has_l2_marker c env.fake_ethertype p
      || is_index (crypto_l3_extract_policy_id env.cfg env.fake_protocol p)
      || is_index (crypto_l4_extract_policy_id_ipv4 env.cfg p)

-- With the context of its policy; the packet that is left is the second result.
unfoldable pub opened_l2 : WanEnv → Bytes → Option (CryptoPolicy × Context) → Option Bytes × Bytes
unfolding mode_of
opened_l2 env p none = (none, p)
opened_l2 env p (some (cp, k)) = (
  crypto_layer2_decrypt (env.cipher cp k) (mode_of cp.crypto_mode) k.keys env.fake_ethertype p,
  env.spoilt p,
)

-- A packet with another EtherType stays as it is.
unfoldable pub decrypt_l2 : WanEnv → Bytes → Contexts → (Option Bytes × Bytes) × Contexts
unfolding opened_l2
decrypt_l2 env p c =
    let (found, c') =
      fwd_crypto_ctx_for_policy_action_id env.now_ms policy_action_encrypt_l2 (byte_at p 14) c in
    if (env.fake_ethertype == 0) || ltb (length p) 16
    then ((some p, p), c)
    else if not (ethertype p == env.fake_ethertype)
    then ((some p, p), c)
    else (opened_l2 env p found, c')

-- The reassembly tables of a slot: `fwd_crypto_frag_l2`, `fwd_crypto_frag_l3`, `fwd_crypto_frag_l4`.
pub data Layer : Type 0 where
  two three four : Layer

unfoldable pub action_of : Layer → ℤ
action_of two = policy_action_encrypt_l2
action_of three = policy_action_encrypt_l3
action_of four = policy_action_encrypt_l4

unfoldable pub frag_table_of : Layer → ℕ → Slot → FragTable
frag_table_of two w x = x.frag_l2 w
frag_table_of three w x = x.frag_l3
frag_table_of four w x = x.frag_l4

unfoldable pub with_frag_table : Layer → ℕ → FragTable → Slot → Slot
with_frag_table two w ft x = record x { frag_l2 = λ (v : ℕ). if v == w then ft else x.frag_l2 v }
with_frag_table three w ft x = record x { frag_l3 = ft }
with_frag_table four w ft x = record x { frag_l4 = ft }

unfoldable pub open_half : Layer → WanEnv → OpenHalf
unfolding mode_of
open_half two env cp k p =
    crypto_layer2_decrypt_fragment (env.cipher cp k) (mode_of cp.crypto_mode) k.keys
      env.fake_ethertype p
open_half three env cp k p = env.open_l3 cp k p
open_half four env cp k p = env.open_l4 cp k p

unfoldable pub try_reassemble : Layer → WanEnv → FragTable → Bytes → ℕ → ℕ → Reassembled
try_reassemble two env ft p id index = frag_try_reassemble_l2 ft p id index env.now_ns
try_reassemble three env ft p id index = frag_try_reassemble ft p id index env.now_ns
try_reassemble four env ft p id index = frag_try_reassemble_l4 ft p id index env.now_ns

unfoldable pub put_table : Layer → ℕ → WanSide → ℕ → Reassembled → Outcome × WanSide
unfolding with_frag_table
put_table layer w s slot (out, ft) =
    (out, record s { slots = set_slot s.slots slot (with_frag_table layer w ft (s.slots slot)) })

unfoldable pub join_half : Layer → WanEnv → WanSide → ℕ → Option (Bytes × ℕ × ℕ) → Outcome × WanSide
unfolding put_table try_reassemble
join_half layer env s slot none = (failed, s)
join_half layer env s slot (some (p, id, index)) =
    put_table layer env.worker s slot
      (try_reassemble layer env (frag_table_of layer env.worker (s.slots slot)) p id index)

unfoldable pub in_slot :
    Layer → WanEnv → WanSide → Bytes → CryptoPolicy × Context → Option ℕ → Outcome × WanSide
unfolding join_half
in_slot layer env s p (cp, k) none = (failed, s)
in_slot layer env s p (cp, k) (some slot) = join_half layer env s slot (open_half layer env cp k p)

abbrev pub with_contexts : WanSide → Contexts → WanSide
with_contexts s c = record s { contexts = c }

unfoldable pub by_context :
    Layer → WanEnv → WanSide → Bytes → ℕ → Option (CryptoPolicy × Context) → Outcome × WanSide
unfolding in_slot
by_context layer env s p id none = (failed, s)
by_context layer env s p id (some r) =
    let (profile_id, c) =
      fwd_crypto_profile_id_for_policy_action_id env.now_ms (action_of layer) id s.contexts in
    in_slot layer env (with_contexts s c) p r (fwd_crypto_profile_slot_for_id s.slots profile_id)

-- `reassemble_l2`, `reassemble_l3` and `reassemble_l4`, which differ in the layer only.
unfoldable pub reassemble : Layer → WanEnv → WanSide → Bytes → ℕ → Outcome × WanSide
unfolding by_context
reassemble layer env s p id =
    let (found, c) =
      fwd_crypto_ctx_for_policy_action_id env.now_ms (action_of layer) id s.contexts in
    by_context layer env (with_contexts s c) p id found
