-- ===== src/Dataplane/Wan/Process/Plain.antt =====
-- The plain packet that the stages of `decrypt_wan` of src/core/dataplane_wan.c leave of a packet from a WAN.
use ne_multi_core.Base.{
  ℕ, ◌≡◌, refl, ap, ◌∙◌, arith, ◌⊎◌, inl, inr, Bool, true, false, ◌&&◌, ◌||◌, not, Option, none,
  some, length, ltb, if◌then◌else◌,
}
use ne_multi_core.Config.{policy_action_encrypt_l3, policy_action_encrypt_l4}
use ne_multi_core.Fragment.{Bytes, byte_at, failed, pending, joined}
use ne_multi_core.Fragment.Recognise.{frag_is_fragment, frag_is_fragment_l2}
use ne_multi_core.Fragment.LayerFour.{frag_is_fragment_l4}
use ne_multi_core.Crypto.LayerTwo.{crypto_layer2_has_wire_frag_marker}
use ne_multi_core.Crypto.Dispatch.{
  crypto_l3_extract_policy_id, crypto_l4_extract_policy_id_ipv4,
  crypto_decrypt_packet_auto_by_action,
}
use ne_multi_core.Runtime.Policies.{fwd_crypto_maybe_expire_prev_grace}
use ne_multi_core.Dataplane.Wan.{
  WanEnv, WanSide, Layer, two, three, four, wan_has_crypto, is_fragment, with_contexts, decrypt_l2,
  reassemble,
}
use ne_multi_core.Dataplane.Wan.Process.{
  Stage, and_then, of_option, is_plain, stage_l2, reassemble_if, decrypt_l3_if, stage_l3, stage_l4,
  upper_stages, decrypt_wan,
}

-- The stage ends without a packet, or with one and a state such that.
abbrev pub Gives : (Bytes → WanSide → Type 0) → Stage → Type 0
Gives P (failed, t) = Unit
Gives P (pending, t) = Unit
Gives P (joined p, t) = P p t

-- What holds of both branches of a test.
pub if_cases :
    {A : Type 0} (P : A → Type 0) (b : Bool) (x y : A)
    → (b ≡ true → P x)
    → (b ≡ false → P y)
    → P (if b then x else y)
if_cases P true x y h k = h refl
if_cases P false x y h k = k refl

module _ (env : WanEnv) where
  -- Behind layer 2, the packet is `q` and the state `t`: the packet decrypted, if that is plain IPv4, or
  -- what its half and the one that waits in the tables make, when that half came second. The half is the
  -- packet as it came, or what a failed decryption has left of it.
  abbrev pub PlainL2 : WanSide → Bytes → Bytes → WanSide → Type 0
  PlainL2 s p q t =
      let ((plain, left), c) = decrypt_l2 env p s.contexts in
      let u = with_contexts s c in
      ((is_plain plain ≡ true) × (plain ≡ some q) × (t ≡ u))
      ⊎ ((is_plain plain ≡ false)
          × ((half : Bytes) × ((half ≡ p) ⊎ (half ≡ left))
              × (is_fragment (frag_is_fragment_l2 env.cfg env.fake_ethertype half) ≡ true)
              × (reassemble two env u half (byte_at half 14) ≡ (joined q, t))))

  -- Behind layer 3: the two halves joined, the packet as it was if it names no policy, or decrypted.
  abbrev pub PlainL3 : WanSide → Bytes → Bytes → WanSide → Type 0
  PlainL3 s p q t =
      let half = is_fragment (frag_is_fragment env.cfg env.fake_protocol p) in
      let id = crypto_l3_extract_policy_id env.cfg env.fake_protocol p in
      ((half ≡ true) × ((n : ℕ) × (id ≡ some n) × (reassemble three env s p n ≡ (joined q, t))))
      ⊎ ((half ≡ false) × (id ≡ none) × (q ≡ p) × (t ≡ s))
      ⊎ ((half ≡ false)
          × ((n : ℕ) × (id ≡ some n)
              × (crypto_decrypt_packet_auto_by_action env.base_decrypt env.decrypt_l3 env.cfg
                    s.contexts policy_action_encrypt_l3 p id
                  ≡ some q)
              × (t ≡ s)))

  -- Behind layer 4: the two halves joined, or the packet decrypted.
  abbrev pub PlainL4 : WanSide → Bytes → Bytes → WanSide → Type 0
  PlainL4 s p q t =
      let half = is_fragment (frag_is_fragment_l4 env.cfg p) in
      let id = crypto_l4_extract_policy_id_ipv4 env.cfg p in
      ((half ≡ true) × ((n : ℕ) × (id ≡ some n) × (reassemble four env s p n ≡ (joined q, t))))
      ⊎ ((half ≡ false)
          × (crypto_decrypt_packet_auto_by_action env.base_decrypt env.decrypt_l4 env.cfg s.contexts
                policy_action_encrypt_l4 p id
              ≡ some q)
          × (t ≡ s))

  -- Behind layers 3 and 4, which are left out without encryption.
  abbrev pub PlainUpper : WanSide → Bytes → Bytes → WanSide → Type 0
  PlainUpper s p q t =
      let u = with_contexts s (fwd_crypto_maybe_expire_prev_grace env.now_ms s.contexts) in
      ((env.cfg.crypto_enabled ≡ false) × (q ≡ p) × (t ≡ s))
      ⊎ ((env.cfg.crypto_enabled ≡ true)
          × ((between : Bytes) × (v : WanSide) × PlainL3 u p between v × PlainL4 v between q t))

  -- The plain packet of `p`: itself if nothing says that it is encrypted, and otherwise what the three
  -- layers in turn make of it, with the tables and the contexts that the state has.
  abbrev pub IsPlainOf : WanSide → Bytes → Bytes → Type 0
  IsPlainOf s p q =
      ((wan_has_crypto env s.contexts p ≡ false) × (q ≡ p))
      ⊎ ((wan_has_crypto env s.contexts p ≡ true)
          × ((between : Bytes) × (u : WanSide) × (t : WanSide) × PlainL2 s p between u
              × PlainUpper u between q t))

  of_option-Gives :
      (P : Bytes → WanSide → Type 0) (o : Option Bytes) (s : WanSide)
      → ((q : Bytes) → o ≡ some q → P q s)
      → Gives P (of_option o s)
  unfolding of_option
  of_option-Gives P none s h = tt
  of_option-Gives P (some q) s h = h q refl

  and_then-Gives :
      (P Q : Bytes → WanSide → Type 0) (st : Stage) (next : Bytes → WanSide → Stage)
      → Gives P st
      → ((p : Bytes) (t : WanSide) → P p t → Gives Q (next p t))
      → Gives Q (and_then st next)
  unfolding and_then
  and_then-Gives P Q (failed, t) next h n = tt
  and_then-Gives P Q (pending, t) next h n = tt
  and_then-Gives P Q (joined p, t) next h n = n p t h

  stage-Gives :
      (P : Bytes → WanSide → Type 0) (st : Stage)
      → ((q : Bytes) (t : WanSide) → st ≡ (joined q, t) → P q t)
      → Gives P st
  stage-Gives P (failed, t) h = tt
  stage-Gives P (pending, t) h = tt
  stage-Gives P (joined q, t) h = h q t refl

  Gives-mono :
      (P Q : Bytes → WanSide → Type 0) (st : Stage)
      → Gives P st
      → ((q : Bytes) (t : WanSide) → P q t → Q q t)
      → Gives Q st
  Gives-mono P Q (failed, t) h f = tt
  Gives-mono P Q (pending, t) h f = tt
  Gives-mono P Q (joined q, t) h f = f q t h

  reassemble_if-Gives :
      (P : Bytes → WanSide → Type 0) (layer : Layer) (p : Bytes) (s : WanSide) (o : Option ℕ)
      → ((n : ℕ) (q : Bytes) (t : WanSide)
          → o ≡ some n
          → reassemble layer env s p n ≡ (joined q, t)
          → P q t)
      → Gives P (reassemble_if layer env s p o)
  unfolding reassemble_if
  reassemble_if-Gives P layer p s none h = tt
  reassemble_if-Gives P layer p s (some id) h =
      stage-Gives P (reassemble layer env s p id) (λ q t e. h id q t refl e)

  decrypt_l3_if-Gives :
      (p : Bytes) (s : WanSide) (o : Option ℕ)
      → is_fragment (frag_is_fragment env.cfg env.fake_protocol p) ≡ false
      → crypto_l3_extract_policy_id env.cfg env.fake_protocol p ≡ o
      → Gives (PlainL3 s p) (decrypt_l3_if env p s o)
  unfolding decrypt_l3_if
  decrypt_l3_if-Gives p s none whole e = inr (inl (whole, e, refl, refl))
  decrypt_l3_if-Gives p s (some n) whole e =
      let decrypted = λ (o : Option ℕ).
        crypto_decrypt_packet_auto_by_action env.base_decrypt env.decrypt_l3 env.cfg s.contexts
          policy_action_encrypt_l3 p o in
      of_option-Gives (PlainL3 s p) (decrypted (some n)) s
        (λ q d. inr (inr (whole, (n, e, ap decrypted e ∙ d, refl))))

  stage_l3-Gives : (p : Bytes) (s : WanSide) → Gives (PlainL3 s p) (stage_l3 env p s)
  unfolding stage_l3
  stage_l3-Gives p s =
      let o = crypto_l3_extract_policy_id env.cfg env.fake_protocol p in
      if_cases (Gives (PlainL3 s p)) (is_fragment (frag_is_fragment env.cfg env.fake_protocol p))
        (reassemble_if three env s p o) (decrypt_l3_if env p s o)
        (λ h. reassemble_if-Gives (PlainL3 s p) three p s o (λ n q t e j. inl (h, (n, e, j))))
        (λ h. decrypt_l3_if-Gives p s o h refl)

  stage_l4-Gives : (p : Bytes) (s : WanSide) → Gives (PlainL4 s p) (stage_l4 env p s)
  unfolding stage_l4
  stage_l4-Gives p s =
      let o = crypto_l4_extract_policy_id_ipv4 env.cfg p in
      let plain =
        crypto_decrypt_packet_auto_by_action env.base_decrypt env.decrypt_l4 env.cfg s.contexts
          policy_action_encrypt_l4 p o in
      if_cases (Gives (PlainL4 s p)) (is_fragment (frag_is_fragment_l4 env.cfg p))
        (reassemble_if four env s p o) (of_option plain s)
        (λ h. reassemble_if-Gives (PlainL4 s p) four p s o (λ n q t e j. inl (h, (n, e, j))))
        (λ h. of_option-Gives (PlainL4 s p) plain s (λ q d. inr (h, d, refl)))

  upper_stages-Gives : (p : Bytes) (s : WanSide) → Gives (PlainUpper s p) (upper_stages env p s)
  unfolding upper_stages
  upper_stages-Gives p s =
      let u = with_contexts s (fwd_crypto_maybe_expire_prev_grace env.now_ms s.contexts) in
      if_cases (Gives (PlainUpper s p)) (not env.cfg.crypto_enabled) (joined p, s)
        (and_then (stage_l3 env p u) (stage_l4 env)) (λ off. inl (ground (arith, off), refl, refl))
        (λ on.
          and_then-Gives (PlainL3 u p) (PlainUpper s p) (stage_l3 env p u) (stage_l4 env)
            (stage_l3-Gives p u)
            (λ b v l3.
              Gives-mono (PlainL4 v b) (PlainUpper s p) (stage_l4 env b v) (stage_l4-Gives b v)
                (λ q t l4. inr (ground (arith, on), (b, v, l3, l4)))))

  kept_or_left :
      (b : Bool) (p left : Bytes) → let half = if b then p else left in (half ≡ p) ⊎ (half ≡ left)
  kept_or_left true p left = inl refl
  kept_or_left false p left = inr refl

  stage_l2-Gives : (s : WanSide) (p : Bytes) → Gives (PlainL2 s p) (stage_l2 env s p)
  unfolding stage_l2
  stage_l2-Gives s p =
      let ((plain, left), c) = decrypt_l2 env p s.contexts in
      let kept =
        (ltb 28 (length p) && crypto_layer2_has_wire_frag_marker env.fake_ethertype p)
        || is_fragment (frag_is_fragment_l2 env.cfg env.fake_ethertype p) in
      let q = if kept then p else left in
      let u = with_contexts s c in
      let half = is_fragment (frag_is_fragment_l2 env.cfg env.fake_ethertype q) in
      let joining = reassemble two env u q (byte_at q 14) in
      if_cases (Gives (PlainL2 s p)) (is_plain plain) (of_option plain u)
        (if half then joining else (failed, u))
        (λ h. of_option-Gives (PlainL2 s p) plain u (λ r e. inl (h, e, refl)))
        (λ h.
          if_cases (Gives (PlainL2 s p)) half joining (failed, u)
            (λ f.
              stage-Gives (PlainL2 s p) joining
                (λ r t e. inr (h, (q, kept_or_left kept p left, f, e))))
            (λ f. tt))

  -- What `decrypt_wan` leaves is the plain packet.
  pub decrypt_wan-Gives :
      (s : WanSide) (p : Bytes)
      → wan_has_crypto env s.contexts p ≡ true
      → Gives (λ q t. IsPlainOf s p q) (decrypt_wan env s p)
  unfolding decrypt_wan
  decrypt_wan-Gives s p has =
      and_then-Gives (PlainL2 s p) (λ q t. IsPlainOf s p q) (stage_l2 env s p) (upper_stages env)
        (stage_l2-Gives s p)
        (λ b u l2.
          Gives-mono (PlainUpper u b) (λ q t. IsPlainOf s p q) (upper_stages env b u)
            (upper_stages-Gives b u) (λ q t up. inr (has, (b, u, t, l2, up))))
