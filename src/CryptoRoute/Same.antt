-- ===== src/CryptoRoute/Same.antt =====
-- The worker of the packets that belong together, src/core/crypto_route.c.
use ne_multi_core.Base.{
  ℕ, ◌/◌, ◌%◌, ◌^◌, ◌<◌, ◌≤◌, ◌≡◌, refl, ◌∙◌, arith, Bool, true, false, some, length, take, ltb,
  ◌==◌, lt→ltb, ==_refl, length-take,
}
use ne_multi_core.Config.{AppConfig, policy_action_encrypt_l2}
use ne_multi_core.Fragment.{Bytes, byte_at, ethertype}
use ne_multi_core.Crypto.{Cipher}
use ne_multi_core.Crypto.LayerTwo.{
  Sender, crypto_layer2_read_worker_idx, crypto_layer2_encrypt_fragment_single,
}
use ne_multi_core.Crypto.LayerTwo.Wire.{wire, wire-length, wire-type, wire-worker, byte-append}
use ne_multi_core.Crypto.LayerTwo.Roundtrip.{encrypt_fragment-frame}
use ne_multi_core.Crypto.LayerTwo.Composed.{layer2, split_l2-some}
use ne_multi_core.Fragment.{frag_next_pkt_id}
use ne_multi_core.Fragment.Split.{Plan, plan_l2, plain0, plain1, frag_split_and_encrypt_l2}
use ne_multi_core.Runtime.{workers}
use ne_multi_core.Runtime.Policies.{Contexts}
use ne_multi_core.Dataplane.Wan.{fwd_crypto_has_l2_marker, is_index}
use ne_multi_core.CryptoRoute.{dp_crypto_pick_wan_worker, worker_of_wire}

-- A frame with the wire header of a sender whose policy the receiver has goes to the worker of the
-- sender's number.
wire-worker_of :
    (cfg : AppConfig) (c : Contexts) (s : Sender) (macs nonce rest : Bytes)
    → length macs ≡ 12
    → length nonce ≡ 12
    → s.fake < 2 ^ 16
    → (s.fake == 0) ≡ false
    → s.worker_idx < workers
    → cfg.crypto_enabled ≡ true
    → is_index (c.active.index policy_action_encrypt_l2 s.policy_id) ≡ true
    → dp_crypto_pick_wan_worker cfg c s.fake
        (wire macs (s.fake / 2 ^ 8 % 256) (s.fake % 256) s.policy_id s.worker_idx nonce rest)
      ≡ some s.worker_idx
unfolding dp_crypto_pick_wan_worker fwd_crypto_has_l2_marker worker_of_wire
    crypto_layer2_read_worker_idx
wire-worker_of cfg c s macs nonce rest m n small fake few on known =
    let hi = s.fake / 2 ^ 8 % 256 in
    let lo = s.fake % 256 in
    let w = wire macs hi lo s.policy_id s.worker_idx nonce rest in
    let type : ethertype w ≡ s.fake =
      wire-type macs nonce rest hi lo s.policy_id s.worker_idx m n ∙ omega (arith, small) in
    let policy : byte_at w 14 ≡ s.policy_id = byte-append macs _ 14 2 (omega (arith, m)) in
    let long : ltb (length w) 16 ≡ false =
      ground (arith, wire-length macs nonce rest hi lo s.policy_id s.worker_idx m n) in
    let worker = wire-worker macs nonce rest hi lo s.policy_id s.worker_idx m n in
    rw
      (on, fake, long, type, ==_refl s.fake, policy, known, worker, lt→ltb s.worker_idx workers few)
      refl

sealed_half-worker :
    (cfg : AppConfig) (r : Contexts) (c : Cipher) (s : Sender) (out_max : ℕ)
    (nonce eth plain w : Bytes) (id i : ℕ)
    → crypto_layer2_encrypt_fragment_single c s out_max nonce eth plain id i ≡ some w
    → 12 ≤ length eth
    → length nonce ≡ 12
    → s.fake < 2 ^ 16
    → s.worker_idx < workers
    → cfg.crypto_enabled ≡ true
    → is_index (r.active.index policy_action_encrypt_l2 s.policy_id) ≡ true
    → dp_crypto_pick_wan_worker cfg r s.fake w ≡ some s.worker_idx
sealed_half-worker cfg r c s out_max nonce eth plain w id i e long n small few on known =
    let (sealed, o, framed, full, fake) =
      encrypt_fragment-frame c s out_max nonce eth plain id i w e in
    let m : length (take 12 eth) ≡ 12 = omega (arith, length-take 12 eth) in
    rw⁻¹ framed (wire-worker_of cfg r s (take 12 eth) nonce _ m n small fake few on known)

-- Both halves of a packet that a worker cuts and encrypts at layer 2 go to the worker of the same number
-- at the other end, in whose table they meet, whatever cores the two ends run on. The receiver has the
-- sender's policy, and the sender is one of the 6 workers.
pub split-SameWorker :
    (cfg : AppConfig) (r : Contexts) (c : Cipher) (s : Sender) (out_max : ℕ)
    (nonces : ℕ → ℕ → Bytes) (tagged : Bool) (counter : ℕ) (p w0 w1 : Bytes) (plan : Plan)
    → ((id : ℕ) (i : ℕ) → length (nonces id i) ≡ 12)
    → s.fake < 2 ^ 16
    → s.worker_idx < workers
    → cfg.crypto_enabled ≡ true
    → is_index (r.active.index policy_action_encrypt_l2 s.policy_id) ≡ true
    → 14 ≤ length p
    → plan_l2 tagged p ≡ some plan
    → (frag_split_and_encrypt_l2 (layer2 c s out_max nonces) tagged counter p).0 ≡ some (w0, w1)
    → (dp_crypto_pick_wan_worker cfg r s.fake w0 ≡ some s.worker_idx)
      × (dp_crypto_pick_wan_worker cfg r s.fake w1 ≡ some s.worker_idx)
unfolding frag_split_and_encrypt_l2
split-SameWorker cfg r c s out_max nonces tagged counter p w0 w1 plan n small few on known long
      planned split =
    let (s0, s1) =
      split_l2-some (layer2 c s out_max nonces) counter p plan w0 w1 (rw planned at split) in
    let id = (frag_next_pkt_id counter).0 in
    let eth : 12 ≤ length (take 14 p) = omega (arith, length-take 14 p) in
    (
      sealed_half-worker cfg r c s out_max (nonces id 0) (take 14 p) (plain0 plan p) w0 id 0 s0 eth
          (n id 0) small few on known,
      sealed_half-worker cfg r c s out_max (nonces id 1) (take 14 p) (plain1 plan p) w1 id 1 s1 eth
          (n id 1) small few on known,
    )
