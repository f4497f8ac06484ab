-- ===== src/Config/Owner.antt =====
-- Who uses an interface, src/db/config.c: `config_local_owner_profile`, `config_wan_owner_profile`,
-- `config_wan_dataplane_owner_profile`, `config_select_profile_for_local`,
-- `config_policy_db_id_taken`, `config_policy_pkt_tag_taken`, `config_local_ifname_in_cfg` and
-- `config_find_local_for_ip`.
use ne_multi_core.Base.{
  ℕ, suc, ◌+◌, ◌≡◌, ◌≢◌, refl, sym, ap, ◌∙◌, take, ==_iff, arith, Bool, true, false, not, Option,
  none, some, List, [], ◌∷◌, bit_and, ◌==◌, if◌then◌else◌, get_elem?, length, All, In, inl, inr,
  Bool-cases, ltb,
}
use ne_multi_core.Base.Int.{ℤ, pos, negsuc, eqb_ℤ, leb_ℤ, ◌<ℤ◌, eqb_ℤ→eq}
use ne_multi_core.Config.{AppConfig, ProfileConfig, LocalConfig, CryptoPolicy, get_at}

-- `for (i …) if (indices[i] == idx)`
unfoldable pub has_index : List ℤ → ℤ → Bool
has_index [] idx = false
has_index (x ∷ xs) idx = if eqb_ℤ x idx then true else has_index xs idx

-- `strcmp(a, b) == 0`
unfoldable pub same_name : List ℕ → List ℕ → Bool
same_name [] [] = true
same_name (a ∷ x) (b ∷ y) = if a == b then same_name x y else false
same_name _ _ = false

unfoldable pub owner_loop : (ProfileConfig → List ℤ) → List ProfileConfig → ℤ → ℤ → ℤ
owner_loop indices [] idx skip_profile_id = pos 0
owner_loop indices (p ∷ ps) idx skip_profile_id =
    let rest = owner_loop indices ps idx skip_profile_id in
    if eqb_ℤ p.id skip_profile_id then rest else if has_index (indices p) idx then p.id else rest

abbrev pub in_range {ℓ} : {A : Type ℓ} → List A → ℤ → Bool
in_range xs (pos i) = ltb i (length xs)
in_range xs (negsuc i) = false

unfoldable pub config_local_owner_profile : AppConfig → ℤ → ℤ → ℤ
config_local_owner_profile cfg local_idx skip_profile_id =
    if in_range cfg.locals local_idx
    then owner_loop (λ p. p.local_indices) cfg.profiles local_idx skip_profile_id
    else pos 0

unfoldable pub config_wan_owner_profile : AppConfig → ℤ → ℤ → ℤ
config_wan_owner_profile cfg wan_idx skip_profile_id =
    if in_range cfg.wans wan_idx
    then owner_loop (λ p. p.wan_indices) cfg.profiles wan_idx skip_profile_id
    else pos 0

unfoldable pub config_wan_dataplane_owner_profile : AppConfig → ℤ → ℤ → ℤ
config_wan_dataplane_owner_profile cfg wan_idx skip_profile_id = elim (get_at cfg.wans wan_idx) [
  | none ↦ pos 0
  | some w ↦ if w.dataplane then config_wan_owner_profile cfg wan_idx skip_profile_id else pos 0
]

unfoldable pub profile_loop : List ProfileConfig → ℕ → ℤ → Option ℕ
profile_loop [] pi local_idx = none
profile_loop (p ∷ ps) pi local_idx =
    let rest = profile_loop ps (pi + 1) local_idx in
    if not p.enabled then rest else if has_index p.local_indices local_idx then some pi else rest

-- `none` is the -1 of the source, here and in `config_find_local_for_ip`.
unfoldable pub config_select_profile_for_local : AppConfig → ℤ → Option ℕ
unfolding profile_loop
config_select_profile_for_local cfg local_idx =
    if in_range cfg.locals local_idx then profile_loop cfg.profiles 0 local_idx else none

unfoldable pub db_id_loop : List CryptoPolicy → ℤ → Bool
db_id_loop [] db_id = false
db_id_loop (p ∷ ps) db_id = if eqb_ℤ p.db_id db_id then true else db_id_loop ps db_id

unfoldable pub config_policy_db_id_taken : AppConfig → ℤ → Bool
unfolding db_id_loop
config_policy_db_id_taken cfg db_id =
    if leb_ℤ db_id (pos 0) then false else db_id_loop cfg.policies db_id

unfoldable pub pkt_tag_loop : List CryptoPolicy → ℤ → Bool
pkt_tag_loop [] pkt_tag = false
pkt_tag_loop (p ∷ ps) pkt_tag = if eqb_ℤ p.id pkt_tag then true else pkt_tag_loop ps pkt_tag

unfoldable pub config_policy_pkt_tag_taken : AppConfig → ℤ → Bool
unfolding pkt_tag_loop
config_policy_pkt_tag_taken cfg pkt_tag = pkt_tag_loop cfg.policies pkt_tag

unfoldable pub ifname_loop : List LocalConfig → List ℕ → Bool
ifname_loop [] ifname = false
ifname_loop (l ∷ ls) ifname = if same_name l.ifname ifname then true else ifname_loop ls ifname

unfoldable pub config_local_ifname_in_cfg : AppConfig → List ℕ → Bool
unfolding ifname_loop same_name
config_local_ifname_in_cfg cfg ifname = ifname_loop cfg.locals ifname

unfoldable pub local_loop : List LocalConfig → ℕ → ℕ → Option ℕ
local_loop [] i dest_ip = none
local_loop (l ∷ ls) i dest_ip =
    let rest = local_loop ls (i + 1) dest_ip in
    if bit_and dest_ip l.netmask == l.network then some i else rest

unfoldable pub config_find_local_for_ip : AppConfig → ℕ → Option ℕ
unfolding local_loop
config_find_local_for_ip cfg dest_ip = local_loop cfg.locals 0 dest_ip

-- An interface that a profile with another id uses has an owner, if profile ids are positive.
pub owner_loop-pos :
    (indices : ProfileConfig → List ℤ) (ps : List ProfileConfig) (q : ProfileConfig) (idx skip : ℤ)
    → All (λ p. pos 0 <ℤ p.id) ps
    → In q ps
    → q.id ≢ skip
    → has_index (indices q) idx ≡ true
    → pos 0 <ℤ owner_loop indices ps idx skip
unfolding owner_loop
owner_loop-pos indices [] q idx skip ids i ne h = absurd i
owner_loop-pos indices (p ∷ ps) q idx skip ids (inl e) ne h = elim (Bool-cases (eqb_ℤ p.id skip)) [
  | inl s ↦ absurd (ne (ap (λ (r : ProfileConfig). r.id) e ∙ eqb_ℤ→eq p.id skip s))
  | inr s ↦ rw (s, ap (λ r. has_index (indices r) idx) (sym e) ∙ h) ids.0
]
owner_loop-pos indices (p ∷ ps) q idx skip ids (inr i) ne h =
    let rest = owner_loop-pos indices ps q idx skip ids.1 i ne h in
    elim (Bool-cases (eqb_ℤ p.id skip)) [
      | inl s ↦ rw s rest
      | inr s ↦ elim (Bool-cases (has_index (indices p) idx)) [
        | inl t ↦ rw (s, t) ids.0
        | inr t ↦ rw (s, t) rest
      ]
    ]

-- The LAN at an index has the subnet of the address, and none before it does.
abbrev Routes : List LocalConfig → ℕ → ℕ → ℕ → Type 0
Routes ls i dest_ip k =
    (j : ℕ) × (k ≡ i + j)
    × ((l : LocalConfig) × (get_elem? ls j ≡ some l) × (bit_and dest_ip l.netmask ≡ l.network))
    × All (λ l. bit_and dest_ip l.netmask ≢ l.network) (take j ls)

local_loop-Routes :
    (ls : List LocalConfig) (i dest_ip k : ℕ)
    → local_loop ls i dest_ip ≡ some k
    → Routes ls i dest_ip k
unfolding local_loop
local_loop-Routes [] i dest_ip k h = cc
local_loop-Routes (l ∷ ls) i dest_ip k h =
    elim (Bool-cases (bit_and dest_ip l.netmask == l.network)) [
      | inl t ↦ (0, ground arith, (l, refl, (==_iff _ _).0 t), tt)
      | inr t ↦
          let (j, e, f, b) = local_loop-Routes ls (i + 1) dest_ip k (ground arith) in
          (suc j, omega arith, f, ((λ z. cc ((==_iff _ _).1 z)), b))
    ]

-- The LAN that `config_find_local_for_ip` picks is the first one whose subnet contains the address.
pub find_local_for_ip-Routes :
    (cfg : AppConfig) (dest_ip i : ℕ)
    → config_find_local_for_ip cfg dest_ip ≡ some i
    → ((l : LocalConfig) × (get_elem? cfg.locals i ≡ some l)
        × (bit_and dest_ip l.netmask ≡ l.network))
      × All (λ l. bit_and dest_ip l.netmask ≢ l.network) (take i cfg.locals)
unfolding config_find_local_for_ip
find_local_for_ip-Routes cfg dest_ip i h =
    let (j, e, f, b) = local_loop-Routes cfg.locals 0 dest_ip i h in
    let z : i ≡ j = omega arith in rw z (f, b)
