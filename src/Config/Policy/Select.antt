-- ===== src/Config/Policy/Select.antt =====
-- Which policy is selected, against a description of the best one that mentions no loop.
use mathlib.Core.Path.{ap₂}
use ne_multi_core.Base.{
  ◌≡◌, refl, ◌∙◌, ◌⊎◌, inl, inr, arith, Bool, true, false, ◌&&◌, ◌||◌, not, Option, none, some,
  List, [], ◌∷◌, All, In, if◌then◌else◌, Bool-cases,
}
use ne_multi_core.Base.Int.{ℤ, ◌<ℤ◌, ◌≤ℤ◌, ltb_ℤ, eqb_ℤ, eq_of_parts}
use ne_multi_core.Config.{AppConfig, ProfileConfig, CryptoPolicy, get_at, policy_action_bypass}
use ne_multi_core.Config.Policy.{
  Flow, Best, crypto_policy_matches_flow, crypto_policy_consider, consider_index, select_loop,
  config_select_crypto_policy, no_best, prefer_encrypt,
}

abbrev is_bypass : CryptoPolicy → Bool
is_bypass cp = eqb_ℤ cp.action policy_action_bypass

abbrev prepend_if : Bool → CryptoPolicy → List CryptoPolicy → List CryptoPolicy
prepend_if true cp cps = cp ∷ cps
prepend_if false cp cps = cps

abbrev prepend_match : Flow → Option CryptoPolicy → List CryptoPolicy → List CryptoPolicy
prepend_match f none cps = cps
prepend_match f (some cp) cps = prepend_if (crypto_policy_matches_flow cp f) cp cps

-- The policies of a profile that match a flow, in the profile's order.
abbrev pub candidates : AppConfig → Flow → List ℤ → List CryptoPolicy
candidates cfg f [] = []
candidates cfg f (pi ∷ pis) = prepend_match f (get_at cfg.policies pi) (candidates cfg f pis)

abbrev pub encrypting : List CryptoPolicy → List CryptoPolicy
encrypting [] = []
encrypting (c ∷ cs) = prepend_if (not (is_bypass c)) c (encrypting cs)

abbrev pub bypassing : List CryptoPolicy → List CryptoPolicy
bypassing [] = []
bypassing (c ∷ cs) = prepend_if (is_bypass c) c (bypassing cs)

-- A lower priority number goes first, then a lower id.
abbrev pub Precedes : CryptoPolicy → CryptoPolicy → Type 0
Precedes a b = (a.priority <ℤ b.priority) ⊎ ((a.priority ≡ b.priority) × (a.id ≤ℤ b.id))

abbrev pub IsBest : CryptoPolicy → List CryptoPolicy → Type 0
IsBest cp cs = In cp cs × All (Precedes cp) cs

-- What must be selected from the candidates: none if there is none, else the first one in the order
-- of `Precedes` among those that encrypt, and only if none of them does among those that bypass.
abbrev pub IsSelection : List CryptoPolicy → Option CryptoPolicy → Type 0
IsSelection cs none = cs ≡ []
IsSelection cs (some cp) =
    IsBest cp (encrypting cs) ⊎ ((encrypting cs ≡ []) × IsBest cp (bypassing cs))

beats : CryptoPolicy → CryptoPolicy → Bool
beats c best =
    ltb_ℤ c.priority best.priority || (eqb_ℤ c.priority best.priority && ltb_ℤ c.id best.id)

better : CryptoPolicy → CryptoPolicy → CryptoPolicy
better c x = if beats c x then c else x

least : CryptoPolicy → List CryptoPolicy → CryptoPolicy
least x [] = x
least x (c ∷ cs) = least (better c x) cs

pub Precedes-refl : (a : CryptoPolicy) → Precedes a a
Precedes-refl a = inr (refl, omega arith)

pub Precedes-trans : (a b c : CryptoPolicy) → Precedes a b → Precedes b c → Precedes a c
Precedes-trans a b c p q = ground arith

beats-Precedes : (c x : CryptoPolicy) → beats c x ≡ true → Precedes c x
unfolding beats
beats-Precedes c x h = ground (arith, eq_of_parts c.priority x.priority)

not-beats-Precedes : (c x : CryptoPolicy) → beats c x ≡ false → Precedes x c
unfolding beats
not-beats-Precedes c x h = ground (arith, eq_of_parts x.priority c.priority)

better_lem :
    (c x : CryptoPolicy)
    → ((better c x ≡ c) ⊎ (better c x ≡ x)) × Precedes (better c x) x × Precedes (better c x) c
unfolding better
better_lem c x = elim (Bool-cases (beats c x)) [
  | inl h ↦ rw h (inl refl, beats-Precedes c x h, Precedes-refl c)
  | inr h ↦ rw h (inr refl, Precedes-refl x, not-beats-Precedes c x h)
]

moved :
    (x c : CryptoPolicy) (cs : List CryptoPolicy) (y r : CryptoPolicy)
    → (y ≡ c) ⊎ (y ≡ x)
    → In r (y ∷ cs)
    → In r (x ∷ c ∷ cs)
moved x c cs y r (inl e) (inl i) = inr (inl (i ∙ e))
moved x c cs y r (inr e) (inl i) = inl (i ∙ e)
moved x c cs y r o (inr i) = inr (inr i)

least-IsBest : (x : CryptoPolicy) (cs : List CryptoPolicy) → IsBest (least x cs) (x ∷ cs)
unfolding least
least-IsBest x [] = (inl refl, (Precedes-refl x, tt))
least-IsBest x (c ∷ cs) =
    let y = better c x in
    let (origin, to_x, to_c) = better_lem c x in
    let (i, (p, ps)) = least-IsBest y cs in
    (
      moved x c cs y (least y cs) origin i,
      (Precedes-trans (least y cs) y x p to_x, (Precedes-trans (least y cs) y c p to_c, ps)),
    )

-- The loop of the code over a list of policies.
consider_all : Best → List CryptoPolicy → Best
consider_all b [] = b
consider_all b (c ∷ cs) = consider_all (crypto_policy_consider c b) cs

abbrev having : CryptoPolicy → Best
having cp = record { chosen = some cp; priority = cp.priority; id = cp.id }

consider-having : (c x : CryptoPolicy) → crypto_policy_consider c (having x) ≡ having (better c x)
unfolding crypto_policy_consider better beats
consider-having c x = ground arith

consider_all-having :
    (x : CryptoPolicy) (cs : List CryptoPolicy) → consider_all (having x) cs ≡ having (least x cs)
unfolding consider_all least
consider_all-having x [] = refl
consider_all-having x (c ∷ cs) = rw (consider-having c x) (consider_all-having (better c x) cs)

-- One round adds the policy at the index to one of the two lists, or to none.
select_round :
    (f : Flow) (o : Option CryptoPolicy) (cs : List CryptoPolicy) (enc bypass : Best)
    → let cs' = prepend_match f o cs in
      let (enc', bypass') = consider_index f o enc bypass in
      (consider_all enc' (encrypting cs) ≡ consider_all enc (encrypting cs'))
      × (consider_all bypass' (bypassing cs) ≡ consider_all bypass (bypassing cs'))
unfolding consider_index consider_all
select_round f none cs enc bypass = (refl, refl)
select_round f (some cp) cs enc bypass = elim (Bool-cases (crypto_policy_matches_flow cp f)) [
  | inl h ↦
      rw h
        (elim (Bool-cases (is_bypass cp)) [ inl b ↦ rw b (refl, refl) | inr b ↦ rw b (refl, refl) ])
  | inr h ↦ rw h (refl, refl)
]

-- The loop splits into one over the encrypting and one over the bypassing candidates.
select_loop_lem :
    (cfg : AppConfig) (f : Flow) (pis : List ℤ) (enc bypass : Best)
    → let cs = candidates cfg f pis in
      select_loop cfg f pis enc bypass
      ≡ (consider_all enc (encrypting cs), consider_all bypass (bypassing cs))
unfolding select_loop consider_all
select_loop_lem cfg f [] enc bypass = refl
select_loop_lem cfg f (pi ∷ pis) enc bypass =
    let o = get_at cfg.policies pi in
    let (e, b) = select_round f o (candidates cfg f pis) enc bypass in
    select_loop_lem cfg f pis (consider_index f o enc bypass).0 (consider_index f o enc bypass).1
    ∙ ap₂ (λ s t. (s, t)) e b

-- A loop that starts with nothing chosen.
consider_all-nil : consider_all no_best [] ≡ no_best
unfolding consider_all
consider_all-nil = refl

consider_all-cons :
    (x : CryptoPolicy) (l : List CryptoPolicy) → consider_all no_best (x ∷ l) ≡ having (least x l)
unfolding consider_all crypto_policy_consider
consider_all-cons x l = consider_all-having x l

-- The lists of candidates are empty together.
split-nil : (cs : List CryptoPolicy) → encrypting cs ≡ [] → bypassing cs ≡ [] → cs ≡ []
split-nil [] e b = refl
split-nil (c ∷ cs) e b = elim (Bool-cases (is_bypass c)) [
  | inl h ↦ absurd (cc (rw h at b))
  | inr h ↦ absurd (cc (rw h at e))
]

prefer_lem :
    (cs es bs : List CryptoPolicy)
    → encrypting cs ≡ es
    → bypassing cs ≡ bs
    → IsSelection cs (prefer_encrypt (consider_all no_best es, consider_all no_best bs))
unfolding prefer_encrypt
prefer_lem cs [] [] e b = rw consider_all-nil (split-nil cs e b)
prefer_lem cs [] (y ∷ bs) e b =
    rw (consider_all-nil, consider_all-cons y bs) (inr (e, rw b (least-IsBest y bs)))
prefer_lem cs (x ∷ es) bs e b = rw (consider_all-cons x es) (inl (rw e (least-IsBest x es)))

-- `config_select_crypto_policy` on a profile of the configuration returns the best candidate: no
-- matching policy of the profile that encrypts precedes the result by priority and id, a bypassing
-- policy is returned only if no encrypting one matches, then the best of those, and nothing is
-- returned only if no policy of the profile matches.
pub select_crypto_policy-IsSelection :
    (cfg : AppConfig) (profile_idx : ℤ) (f : Flow) (p : ProfileConfig)
    → get_at cfg.profiles profile_idx ≡ some p
    → IsSelection
        (candidates cfg f p.policy_indices)
        (config_select_crypto_policy cfg profile_idx f)
unfolding config_select_crypto_policy
select_crypto_policy-IsSelection cfg profile_idx f p e =
    rw (e, select_loop_lem cfg f p.policy_indices no_best no_best)
      (prefer_lem (candidates cfg f p.policy_indices) _ _ refl refl)
