-- ===== src/Dataplane/Wan/Process/Quiet.antt =====
-- What the stages of src/core/dataplane_wan.c leave alone: the frames and the rings, and which slots are in
-- use for which profiles. Both follow from the steps that the stages are made of.
use native.Mathlib.Decide.{ℕ_discrete}
use ne_multi_core.Base.{
  ℕ, ◌≡◌, refl, sym, ap, arith, ◌∙◌, true, false, ◌==◌, inl, inr, ◌&&◌, ◌||◌, not, Option, none,
  some, length, ltb, if◌then◌else◌, Bool-cases,
}
use ne_multi_core.Config.{CryptoPolicy}
use ne_multi_core.Fragment.{Bytes, byte_at, failed, pending, joined}
use ne_multi_core.Fragment.Reassemble.{Reassembled}
use ne_multi_core.Fragment.Recognise.{frag_is_fragment, frag_is_fragment_l2}
use ne_multi_core.Fragment.LayerFour.{frag_is_fragment_l4}
use ne_multi_core.Crypto.LayerTwo.{crypto_layer2_has_wire_frag_marker}
use ne_multi_core.Runtime.{Slot, Slots, set_slot, fwd_crypto_profile_slot_for_id}
use ne_multi_core.Runtime.Policies.{
  Context, Contexts, fwd_crypto_ctx_for_policy_action_id,
  fwd_crypto_profile_id_for_policy_action_id, fwd_crypto_maybe_expire_prev_grace,
}
use ne_multi_core.Dataplane.Wan.{
  WanEnv, WanSide, Layer, two, three, four, is_fragment, with_contexts, decrypt_l2, action_of,
  frag_table_of, try_reassemble, with_frag_table, put_table, join_half, open_half, in_slot,
  by_context, reassemble,
}
use ne_multi_core.Dataplane.Wan.Process.{
  Stage, and_then, of_option, is_plain, stage_l2, reassemble_if, decrypt_l3_if, stage_l3, stage_l4,
  upper_stages, decrypt_wan,
}

-- A relation of the states before and after that holds when only the contexts change, and when a table is
-- put into a slot, holds of all stages.
module _ (env : WanEnv) (R : WanSide → WanSide → Type 0)
    (R-trans : (s t u : WanSide) → R s t → R t u → R s u)
    (R-contexts : (s : WanSide) (c : Contexts) → R s (with_contexts s c))
    (R-table : (layer : Layer) (w : ℕ) (s : WanSide) (slot : ℕ) (r : Reassembled)
      → R s (put_table layer w s slot r).1) where
  same : (s : WanSide) → R s s
  same s = R-contexts s s.contexts

  join_half-R :
      (layer : Layer) (s t : WanSide) (slot : ℕ) (o : Option (Bytes × ℕ × ℕ))
      → R s t
      → R s (join_half layer env t slot o).1
  unfolding join_half
  join_half-R layer s t slot none e = e
  join_half-R layer s t slot (some (q, n, i)) e =
      let r = try_reassemble layer env (frag_table_of layer env.worker (t.slots slot)) q n i in
      R-trans s t (put_table layer env.worker t slot r).1 e (R-table layer env.worker t slot r)

  in_slot-R :
      (layer : Layer) (p : Bytes) (s t : WanSide) (r : CryptoPolicy × Context) (o : Option ℕ)
      → R s t
      → R s (in_slot layer env t p r o).1
  unfolding in_slot
  in_slot-R layer p s t (cp, k) none e = e
  in_slot-R layer p s t (cp, k) (some slot) e =
      join_half-R layer s t slot (open_half layer env cp k p) e

  by_context-R :
      (layer : Layer) (s t : WanSide) (p : Bytes) (id : ℕ) (o : Option (CryptoPolicy × Context))
      → R s t
      → R s (by_context layer env t p id o).1
  unfolding by_context
  by_context-R layer s t p id none e = e
  by_context-R layer s t p id (some r) e =
      let (profile_id, c) =
        fwd_crypto_profile_id_for_policy_action_id env.now_ms (action_of layer) id t.contexts in
      in_slot-R layer p s (with_contexts t c) r (fwd_crypto_profile_slot_for_id t.slots profile_id)
        (R-trans s t (with_contexts t c) e (R-contexts t c))

  reassemble-R :
      (layer : Layer) (s : WanSide) (p : Bytes) (id : ℕ) → R s (reassemble layer env s p id).1
  unfolding reassemble
  reassemble-R layer s p id =
      let (o, c) = fwd_crypto_ctx_for_policy_action_id env.now_ms (action_of layer) id s.contexts in
      by_context-R layer s (with_contexts s c) p id o (R-contexts s c)

  of_option-R : (o : Option Bytes) (s s' : WanSide) → R s s' → R s (of_option o s').1
  unfolding of_option
  of_option-R none s s' e = e
  of_option-R (some p) s s' e = e

  and_then-R :
      (s : WanSide) (st : Stage) (next : Bytes → WanSide → Stage)
      → R s st.1
      → ((p : Bytes) (t : WanSide) → R t (next p t).1)
      → R s (and_then st next).1
  unfolding and_then
  and_then-R s (failed, t) next e n = e
  and_then-R s (pending, t) next e n = e
  and_then-R s (joined p, t) next e n = R-trans s t (next p t).1 e (n p t)

  reassemble_if-R :
      (layer : Layer) (s : WanSide) (p : Bytes) (o : Option ℕ)
      → R s (reassemble_if layer env s p o).1
  unfolding reassemble_if
  reassemble_if-R layer s p none = same s
  reassemble_if-R layer s p (some id) = reassemble-R layer s p id

  decrypt_l3_if-R : (p : Bytes) (s : WanSide) (o : Option ℕ) → R s (decrypt_l3_if env p s o).1
  unfolding decrypt_l3_if
  decrypt_l3_if-R p s none = same s
  decrypt_l3_if-R p s (some id) = of_option-R _ s s (same s)

  stage_l3-R : (p : Bytes) (s : WanSide) → R s (stage_l3 env p s).1
  unfolding stage_l3
  stage_l3-R p s = elim (Bool-cases (is_fragment (frag_is_fragment env.cfg env.fake_protocol p))) [
    | inl h ↦ rw h (reassemble_if-R three s p _)
    | inr h ↦ rw h (decrypt_l3_if-R p s _)
  ]

  stage_l4-R : (p : Bytes) (s : WanSide) → R s (stage_l4 env p s).1
  unfolding stage_l4
  stage_l4-R p s = elim (Bool-cases (is_fragment (frag_is_fragment_l4 env.cfg p))) [
    | inl h ↦ rw h (reassemble_if-R four s p _)
    | inr h ↦ rw h (of_option-R _ s s (same s))
  ]

  upper_stages-R : (p : Bytes) (s : WanSide) → R s (upper_stages env p s).1
  unfolding upper_stages
  upper_stages-R p s = elim (Bool-cases (not env.cfg.crypto_enabled)) [
    | inl off ↦ rw off (same s)
    | inr on ↦
        let t = with_contexts s (fwd_crypto_maybe_expire_prev_grace env.now_ms s.contexts) in
        rw on (
          and_then-R s (stage_l3 env p t) (stage_l4 env)
            (R-trans s t (stage_l3 env p t).1 (R-contexts s t.contexts) (stage_l3-R p t))
            stage_l4-R)
  ]

  stage_l2-R : (s : WanSide) (p : Bytes) → R s (stage_l2 env s p).1
  unfolding stage_l2
  stage_l2-R s p =
      let ((plain, left), c) = decrypt_l2 env p s.contexts in
      let kept =
        (ltb 28 (length p) && crypto_layer2_has_wire_frag_marker env.fake_ethertype p)
        || is_fragment (frag_is_fragment_l2 env.cfg env.fake_ethertype p) in
      let q = if kept then p else left in
      let t = with_contexts s c in
      elim (Bool-cases (is_plain plain)) [
        | inl h ↦ rw h (of_option-R plain s t (R-contexts s c))
        | inr h ↦
            elim (Bool-cases (is_fragment (frag_is_fragment_l2 env.cfg env.fake_ethertype q))) [
              | inl f ↦
                  rw (h, f)
                    (R-trans s t (reassemble two env t q (byte_at q 14)).1 (R-contexts s c)
                      (reassemble-R two t q (byte_at q 14)))
              | inr f ↦ rw (h, f) (R-contexts s c)
            ]
      ]

  decrypt_wan-R : (s : WanSide) (p : Bytes) → R s (decrypt_wan env s p).1
  unfolding decrypt_wan
  decrypt_wan-R s p =
      and_then-R s (stage_l2 env s p) (upper_stages env) (stage_l2-R s p) upper_stages-R

-- The pool and the rings are the same.
abbrev pub SameFrames : WanSide → WanSide → Type 0
SameFrames s s' = (s'.pool ≡ s.pool) × (s'.mid_to_local ≡ s.mid_to_local) × (s'.mem ≡ s.mem)

-- A stage leaves the frames as they are.
abbrev pub Quiet : WanSide → Stage → Type 0
Quiet s st = SameFrames s st.1

pub decrypt_wan-Quiet : (env : WanEnv) (s : WanSide) (p : Bytes) → Quiet s (decrypt_wan env s p)
unfolding put_table
decrypt_wan-Quiet env s p =
    decrypt_wan-R env SameFrames (λ s t u (a, b, c) (a', b', c'). (a' ∙ a, b' ∙ b, c' ∙ c))
      (λ s c. (refl, refl, refl)) (λ layer w s slot r. (refl, refl, refl)) s p

-- The same slots are in use, for the same profiles.
abbrev pub SameProfiles : Slots → Slots → Type 0
SameProfiles s t = (i : ℕ) → ((t i).ready ≡ (s i).ready) × ((t i).profile_id ≡ (s i).profile_id)

pub set_slot-SameProfiles :
    (s : Slots) (slot : ℕ) (x : Slot)
    → x.ready ≡ (s slot).ready
    → x.profile_id ≡ (s slot).profile_id
    → SameProfiles s (set_slot s slot x)
set_slot-SameProfiles s slot x r e i = elim (ℕ_discrete i slot) [
  | yes z ↦
      let here : (i == slot) ≡ true = ground (arith, z) in
      rw here (r ∙ ap (λ j. (s j).ready) (sym z), e ∙ ap (λ j. (s j).profile_id) (sym z))
  | no ne ↦ let away : (i == slot) ≡ false = ground (arith, ne) in rw away (refl, refl)
]

put_table-SameProfiles :
    (layer : Layer) (w : ℕ) (s : WanSide) (slot : ℕ) (r : Reassembled)
    → SameProfiles s.slots (put_table layer w s slot r).1.slots
unfolding put_table with_frag_table
put_table-SameProfiles two w s slot (out, ft) = set_slot-SameProfiles s.slots slot _ refl refl
put_table-SameProfiles three w s slot (out, ft) = set_slot-SameProfiles s.slots slot _ refl refl
put_table-SameProfiles four w s slot (out, ft) = set_slot-SameProfiles s.slots slot _ refl refl

pub decrypt_wan-SameProfiles :
    (env : WanEnv) (s : WanSide) (p : Bytes) → SameProfiles s.slots (decrypt_wan env s p).1.slots
decrypt_wan-SameProfiles env s p =
    decrypt_wan-R env (λ s t. SameProfiles s.slots t.slots)
      (λ s t u f g i. let (a, b) = f i in let (a', b') = g i in (a' ∙ a, b' ∙ b))
      (λ s c i. (refl, refl)) put_table-SameProfiles s p
