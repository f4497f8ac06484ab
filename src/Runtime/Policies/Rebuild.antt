-- ===== src/Runtime/Policies/Rebuild.antt =====
-- The contexts of the policies after a change of configuration, `fwd_crypto_rebuild` of
-- src/core/forwarder_crypto_runtime.c.
use ne_multi_core.Base.{
  ℕ, zero, suc, ◌+◌, Bool, true, false, ◌&&◌, ◌||◌, not, Option, none, some, List, [], ◌∷◌, take,
  replicate, get_elem?, if◌then◌else◌,
}
use ne_multi_core.Base.Int.{ℤ, pos, negsuc, pos_part, eqb_ℤ}
use ne_multi_core.Config.{AppConfig, ProfileConfig, CryptoPolicy}
use ne_multi_core.Fragment.LayerFour.{max_crypto_policies}
use ne_multi_core.Crypto.{Keys, packet_crypto_init}
use ne_multi_core.Wan.{update}
use ne_multi_core.Runtime.{max_profiles}
use ne_multi_core.Runtime.Policies.{
  crypto_mode_pqc, Context, Making, Generation, Contexts, update_at, crypto_action_valid,
  key_nonzero, same_bytes, has_wire_id, found, or_found,
}

-- The context of the old policy, if nothing in it that matters has changed. The keys of PQC are not in
-- the configuration.
unfoldable pub reuse : CryptoPolicy → Option (CryptoPolicy × Context) → Option Context
reuse cp none = none
reuse cp (some (old_cp, k)) =
    if eqb_ℤ old_cp.crypto_mode cp.crypto_mode
      && eqb_ℤ old_cp.aes_bits cp.aes_bits
      && (eqb_ℤ cp.crypto_mode crypto_mode_pqc || same_bytes old_cp.key cp.key)
    then some k
    else none

unfoldable pub reused : Generation → CryptoPolicy → Option Context
unfolding reuse
reused old cp = if has_wire_id cp then reuse cp (found old cp.action (pos_part cp.id)) else none

abbrev pub no_keys : Keys
no_keys = record { prev = replicate 32 0; current = replicate 32 0; next = replicate 32 0 }

unfoldable pub new_context : Making → CryptoPolicy → Option Context
unfolding packet_crypto_init
new_context m cp =
    if eqb_ℤ cp.crypto_mode crypto_mode_pqc
    then some record {
      keys = no_keys;
      crypto_mode = crypto_mode_pqc;
      policy_id = cp.db_id;
      profile_id = pos 0;
    }
    else if key_nonzero cp.key && m.init_ok
    then some record {
      keys = (packet_crypto_init (m.derive cp.aes_bits) cp.key).0;
      crypto_mode = pos 0;
      policy_id = pos 0;
      profile_id = pos 0;
    }
    else none

unfoldable pub context_of : Making → Generation → CryptoPolicy → Option Context
unfolding or_found
context_of m old cp = or_found (reused old cp) (new_context m cp)

unfoldable pub with_context : ℕ → Option Context → Generation → Generation
with_context i none g = g
with_context i (some k) g = record g {
  ready = update g.ready i true;
  contexts = update g.contexts i k;
}

unfoldable pub indexed : ℕ → CryptoPolicy → Generation → Generation
indexed i cp g =
    if has_wire_id cp
    then record g { index = update_at g.index cp.action (pos_part cp.id) (some i) }
    else g

unfoldable pub one_policy : Making → Generation → ℕ → CryptoPolicy → Generation → Generation
one_policy m old i cp g =
    if crypto_action_valid cp.action
    then with_context i (context_of m old cp) (indexed i cp g)
    else g

-- The policies from `i` on.
unfoldable pub policies_loop : Making → Generation → List CryptoPolicy → ℕ → Generation → Generation
policies_loop m old [] i g = g
policies_loop m old (cp ∷ cps) i g = policies_loop m old cps (i + 1) (one_policy m old i cp g)

-- `policies[pi]`
abbrev pub policy_at : List CryptoPolicy → ℤ → Option CryptoPolicy
policy_at cps (pos n) = get_elem? cps n
policy_at cps (negsuc n) = none

-- The policy at `i` is one of profile `pid`.
unfoldable pub link_policy : ℤ → ℕ → Option CryptoPolicy → Generation → Generation
link_policy pid i none g = g
link_policy pid i (some cp) g =
    let owned =
      if has_wire_id cp
      then update_at g.profile_of cp.action (pos_part cp.id) pid
      else g.profile_of in
    let named = record (g.contexts i) { profile_id = pid; policy_id = cp.db_id } in
    if not (crypto_action_valid cp.action)
    then g
    else if eqb_ℤ cp.crypto_mode crypto_mode_pqc && g.ready i
    then record g { profile_of = owned; contexts = update g.contexts i named }
    else record g { profile_of = owned }

unfoldable pub links_loop : List CryptoPolicy → ℤ → List ℤ → ℕ → Generation → Generation
links_loop cps pid [] room g = g
links_loop cps pid (pi ∷ pis) zero g = g
links_loop cps pid (pi ∷ pis) (suc room) g =
    links_loop cps pid pis room (link_policy pid (pos_part pi) (policy_at cps pi) g)

unfoldable pub profiles_loop : List CryptoPolicy → List ProfileConfig → ℕ → Generation → Generation
profiles_loop cps [] room g = g
profiles_loop cps (p ∷ ps) zero g = g
profiles_loop cps (p ∷ ps) (suc room) g =
    profiles_loop cps ps room (links_loop cps p.id p.policy_indices max_crypto_policies g)

-- Nothing is ready and nothing is indexed; the contexts stay.
unfoldable pub emptied : Generation → List CryptoPolicy → Generation
emptied old cps = record {
  ready = λ i. false;
  contexts = old.contexts;
  index = λ a i. none;
  profile_of = λ a i. negsuc 0;
  policies = cps;
}

unfoldable pub rebuilt : Making → AppConfig → Generation → Generation
rebuilt m cfg old =
    let cps = take max_crypto_policies cfg.policies in
    profiles_loop cfg.policies cfg.profiles max_profiles
      (policies_loop m old cps 0 (emptied old cps))

-- Whether the call succeeds, and the state after it.
unfoldable pub fwd_crypto_rebuild : Making → AppConfig → Contexts → Bool × Contexts
fwd_crypto_rebuild m cfg c =
    if not cfg.crypto_enabled
    then (true, record c { active = emptied c.active [] })
    else if not m.base_ok
    then (false, record c { active = emptied c.active [] })
    else (true, record c { active = rebuilt m cfg c.active })
