-- ===== src/Config/Validate/Subnets.antt =====
-- What `config_validate` promises of the interfaces of a configuration that it accepts.
use ne_multi_core.Base.{
  ℕ, zero, suc, ◌<◌, ◌≡◌, ◌≢◌, ap, ◌∙◌, arith, Bool, true, false, some, List, [], ◌∷◌, In, inl, inr,
  get_elem?, &&-true,
}
use ne_multi_core.Config.{AppConfig, LocalConfig, WanConfig}
use ne_multi_core.Config.Validate.{
  none_bad, no_bad_pair, config_validate, ifname_missing, local_bad, same_subnet, wan_bad,
}
use ne_multi_core.Config.Validate.Exclusive.{none_bad-In}

In-get_elem? : {A : Type 0} (xs : List A) (i : ℕ) (a : A) → get_elem? xs i ≡ some a → In a xs
In-get_elem? [] i a e = cc
In-get_elem? (x ∷ xs) zero a e = inl (cc)
In-get_elem? (x ∷ xs) (suc i) a e = inr (In-get_elem? xs i a e)

no_bad_pair-at :
    {A : Type 0} (bad : A → A → Bool) (xs : List A) (i j : ℕ) (a b : A)
    → no_bad_pair bad xs ≡ true
    → i < j
    → get_elem? xs i ≡ some a
    → get_elem? xs j ≡ some b
    → bad a b ≡ false
unfolding no_bad_pair
no_bad_pair-at bad [] i j a b h lt e f = cc
no_bad_pair-at bad (x ∷ xs) i zero a b h lt e f = absurd (omega arith)
no_bad_pair-at bad (x ∷ xs) zero (suc j) a b h lt e f =
    let z : a ≡ x = cc in
    ap (λ y. bad y b) z ∙ none_bad-In (bad x) xs b (&&-true _ _ h).0 (In-get_elem? xs j b f)
no_bad_pair-at bad (x ∷ xs) (suc i) (suc j) a b h lt e f =
    no_bad_pair-at bad xs i j a b (&&-true (none_bad (bad x) xs) _ h).1 (omega arith) e f

validated :
    (cfg : AppConfig)
    → config_validate cfg ≡ true
    → (none_bad local_bad cfg.locals ≡ true)
      × (no_bad_pair same_subnet cfg.locals ≡ true)
      × (none_bad wan_bad cfg.wans ≡ true)
unfolding config_validate
validated cfg h = ground arith

-- In a configuration that `config_validate` accepts every LAN has a name and a netmask, no two LANs
-- have the same subnet, and every WAN has a name and a window.
pub validate-interfaces :
    (cfg : AppConfig)
    → config_validate cfg ≡ true
    → ((l : LocalConfig) → In l cfg.locals → (ifname_missing l.ifname ≡ false) × (l.netmask ≢ 0))
      × ((i j : ℕ) (a b : LocalConfig)
          → i < j
          → get_elem? cfg.locals i ≡ some a
          → get_elem? cfg.locals j ≡ some b
          → ¬ ((a.network ≡ b.network) × (a.netmask ≡ b.netmask)))
      × ((w : WanConfig) → In w cfg.wans → (ifname_missing w.ifname ≡ false) × (w.window_size ≢ 0))
unfolding local_bad wan_bad same_subnet
validate-interfaces cfg h =
    let (ls, ps, ws) = validated cfg h in
    (
      λ l i. let b = none_bad-In local_bad cfg.locals l ls i in (ground arith, ground arith),
      λ i j a b lt e f same.
          let n = no_bad_pair-at same_subnet cfg.locals i j a b ps lt e f in ground arith,
      λ w i. let b = none_bad-In wan_bad cfg.wans w ws i in (ground arith, ground arith),
    )
