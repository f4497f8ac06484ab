-- ===== src/Flow/Table/Lookup.antt =====
-- What a lookup of a flow finds in the table after `flow_table_get_wan_profile`,
-- src/core/flow_table.c.
use mathlib.Core.Option.{some-injective}
use native.Mathlib.Decide.{ℕ_discrete}
use ne_multi_core.Base.{
  ℕ, ◌<◌, ◌^◌, ◌≡◌, ◌≢◌, refl, sym, ap, ◌∙◌, subst, arith, Bool, true, false, Option, none, some,
  List, [], ◌∷◌, if◌then◌else◌, Bool-cases, inl, inr, ==_refl,
}
use ne_multi_core.Base.Int.{ℤ}
use ne_multi_core.Flow.Hash.{
  FlowKey, flow_hash, normalize_flow_5tuple, reversed, normalize_5tuple-reversed,
}
use ne_multi_core.Flow.Wrr.{wan_allowed_pos}
use ne_multi_core.Flow.Table.{FlowEntry, FlowTable, Counters, Chosen, walk, walk_on, found}
use ne_multi_core.Flow.Table.InPool.{
  same_key, touch_profile, repair, move_on, usable_pos, new_profile_entry, insert_profile,
  profile_result, profile_entry_matches, get_wan_in_pool,
}

-- The first entry of a chain that passes a test.
abbrev find : (FlowEntry → Bool) → List FlowEntry → Option FlowEntry
find p [] = none
find p (e ∷ chain) = let rest = find p chain in if p e then some e else rest

-- The entry of a profile's flow, given by its normalized key.
abbrev pub lookup : FlowTable → FlowKey → Option FlowEntry
lookup ft k = find (profile_entry_matches k) (ft.buckets (flow_hash k))

walk_on-some :
    {A : Type 0} (e : FlowEntry) (o : Option (A × List FlowEntry)) (r : A × List FlowEntry)
    → walk_on e o ≡ some r
    → (r' : A × List FlowEntry) × (o ≡ some r') × (r ≡ (r'.0, e ∷ r'.1))
unfolding walk_on
walk_on-some e none r h = absurd (cc (h))
walk_on-some e (some (a, chain)) r h = ((a, chain), refl, some-injective _ _ (sym h))

walk-other :
    {A : Type 0} (m m' : FlowEntry → Bool) (touch : FlowEntry → A × FlowEntry)
    (chain : List FlowEntry) (r : A × List FlowEntry)
    → ((e : FlowEntry) → m e ≡ true → m' e ≡ false)
    → ((e : FlowEntry) → m' (touch e).1 ≡ m' e)
    → walk m touch chain ≡ some r
    → find m' r.1 ≡ find m' chain
unfolding walk
walk-other m m' touch [] r apart keeps e = absurd (cc (e))
walk-other m m' touch (x ∷ chain) r apart keeps e = elim (Bool-cases (m x)) [
  | inl h ↦
      let f : some ((touch x).0, (touch x).1 ∷ chain) ≡ some r = ground (arith, e) in
      ap (λ t. find m' t.1) (sym (some-injective _ _ f)) ∙ ground (arith, apart x h, keeps x)
  | inr h ↦
      let f : walk_on x (walk m touch chain) ≡ some r = ground (arith, e) in
      let (r', a, b) = walk_on-some x (walk m touch chain) r f in
      ap (λ t. find m' t.1) b
      ∙ ap (λ t. if m' x then some x else t) (walk-other m m' touch chain r' apart keeps a)
]

-- A walk finds what `find` finds.
walk-find :
    {A : Type 0} (m : FlowEntry → Bool) (touch : FlowEntry → A × FlowEntry) (chain : List FlowEntry)
    (e : FlowEntry)
    → find m chain ≡ some e
    → (chain' : List FlowEntry) × (walk m touch chain ≡ some ((touch e).0, chain'))
unfolding walk walk_on
walk-find m touch [] e h = absurd (cc (h))
walk-find m touch (x ∷ chain) e h = elim (Bool-cases (m x)) [
  | inl b ↦
      let f : some x ≡ some e = ground (arith, h) in
      let same : x ≡ e = some-injective _ _ f in
      ((touch x).1 ∷ chain, ground (arith, ap (λ (t : FlowEntry). (touch t).0) same))
  | inr b ↦
      let (chain', w) = walk-find m touch chain e (ground (arith, h)) in
      (x ∷ chain', ground (arith, w))
]

same_key-eq : (a b : FlowKey) → same_key a b ≡ true → a ≡ b
unfolding same_key
same_key-eq a b h =
    let e1 : a.src_ip ≡ b.src_ip = ground (arith, h) in
    let e2 : a.dst_ip ≡ b.dst_ip = ground (arith, h) in
    let e3 : a.src_port ≡ b.src_port = ground (arith, h) in
    let e4 : a.dst_port ≡ b.dst_port = ground (arith, h) in
    let e5 : a.protocol ≡ b.protocol = ground (arith, h) in
    λ i. record { src_ip = e1 i; dst_ip = e2 i; src_port = e3 i; dst_port = e4 i; protocol = e5 i }

keys_apart :
    (k k' : FlowKey) (e : FlowEntry)
    → k ≢ k'
    → profile_entry_matches k e ≡ true
    → profile_entry_matches k' e ≡ false
unfolding profile_entry_matches
keys_apart k k' e ne h = ground (
  arith,
  h,
  (λ (a : same_key e.key k ≡ true) (b : same_key e.key k' ≡ true).
      ne (sym (same_key-eq e.key k a) ∙ same_key-eq e.key k' b)),
)

move_on-matches :
    (ft : FlowTable) (k : FlowKey) (wans : List ℤ) (weights : Option (List ℤ)) (w : ℤ)
    (e : FlowEntry)
    → profile_entry_matches k (move_on ft wans weights w e) ≡ profile_entry_matches k e
unfolding profile_entry_matches move_on
move_on-matches ft k wans weights w e = ground arith

touch-matches :
    (ft : FlowTable) (k : FlowKey) (now pkt_len : ℕ) (wans : List ℤ) (weights : Option (List ℤ))
    (e : FlowEntry)
    → profile_entry_matches k (touch_profile ft now pkt_len wans weights e).1
      ≡ profile_entry_matches k e
unfolding profile_entry_matches touch_profile repair move_on
touch-matches ft k now pkt_len wans weights e = ground arith

-- In this section `idx` is the bucket of the normalized key `k`.
module _ (ft : FlowTable) (g : Counters) (now pkt_len idx : ℕ) (k : FlowKey) (wans : List ℤ)
    (weights : Option (List ℤ)) where
  abbrev touch : FlowEntry → ℤ × FlowEntry
  touch = touch_profile ft now pkt_len wans weights

  abbrev result : Bool → Option (ℤ × List FlowEntry) → Chosen
  result = profile_result ft g idx k now pkt_len wans weights

  other_bucket :
      (malloc_ok : Bool) (o : Option (ℤ × List FlowEntry)) (i : ℕ)
      → i ≢ idx
      → (result malloc_ok o).table.buckets i ≡ ft.buckets i
  unfolding profile_result insert_profile found
  other_bucket false none i ne = refl
  other_bucket true none i ne = ground arith
  other_bucket malloc_ok (some r) i ne = ground arith

  new-matches :
      (k' : FlowKey)
      → k ≢ k'
      → profile_entry_matches k' (new_profile_entry k idx now pkt_len wans weights) ≡ false
  unfolding profile_entry_matches new_profile_entry
  new-matches k' ne = ground (arith, (λ (b : same_key k k' ≡ true). ne (same_key-eq k k' b)))

  same_bucket :
      (malloc_ok : Bool) (o : Option (ℤ × List FlowEntry)) (k' : FlowKey)
      → walk (profile_entry_matches k) touch (ft.buckets idx) ≡ o
      → k ≢ k'
      → find (profile_entry_matches k') ((result malloc_ok o).table.buckets idx)
        ≡ find (profile_entry_matches k') (ft.buckets idx)
  unfolding profile_result insert_profile found
  same_bucket false none k' h ne = refl
  same_bucket true none k' h ne =
      let x = new_profile_entry k idx now pkt_len wans weights in
      rw (==_refl idx)
        (rw (move_on-matches ft k' wans weights x.current_wan x, new-matches k' ne) refl)
  same_bucket malloc_ok (some r) k' h ne = rw (==_refl idx) (
      walk-other (profile_entry_matches k) (profile_entry_matches k') touch (ft.buckets idx) r
        (λ x. keys_apart k k' x ne) (λ x. touch-matches ft k' now pkt_len wans weights x) h)

-- A packet of one flow changes nothing of what is known of another: for every normalized key but the
-- packet's own, a lookup gives the same entry before and after, whether the packet's flow was known,
-- was added, or found no memory.
pub other_flows_unchanged :
    (ft : FlowTable) (g : Counters) (now : ℕ) (malloc_ok : Bool) (k : FlowKey) (pkt_len : ℕ)
    (wans : List ℤ) (weights : Option (List ℤ)) (k' : FlowKey)
    → normalize_flow_5tuple k ≢ k'
    → lookup (get_wan_in_pool ft g now malloc_ok k pkt_len wans weights).table k' ≡ lookup ft k'
unfolding get_wan_in_pool
other_flows_unchanged ft g now malloc_ok k0 pkt_len wans weights k' ne =
    let k = normalize_flow_5tuple k0 in
    let idx = flow_hash k in
    let o =
      walk (profile_entry_matches k) (touch_profile ft now pkt_len wans weights) (ft.buckets idx) in
    elim (ℕ_discrete (flow_hash k') idx) [
      | yes e ↦
          subst
            (λ i.
              find (profile_entry_matches k')
                ((get_wan_in_pool ft g now malloc_ok k0 pkt_len wans weights).table.buckets i)
              ≡ find (profile_entry_matches k') (ft.buckets i))
            (sym e) (same_bucket ft g now pkt_len idx k wans weights malloc_ok o k' refl ne)
      | no apart ↦
          ap (find (profile_entry_matches k'))
            (other_bucket ft g now pkt_len idx k wans weights malloc_ok o (flow_hash k') apart)
    ]

-- A flow keeps its WAN: when the table has an entry for the flow of a packet and the entry's WAN is
-- allowed still (with a positive weight, if any is), the packet gets that WAN, and so does one of the
-- opposite direction.
pub known_flow_keeps_wan :
    (ft : FlowTable) (g : Counters) (now : ℕ) (malloc_ok : Bool) (k : FlowKey) (pkt_len : ℕ)
    (wans : List ℤ) (weights : Option (List ℤ)) (e : FlowEntry)
    → k.src_ip < 2 ^ 32
    → k.dst_ip < 2 ^ 32
    → lookup ft (normalize_flow_5tuple k) ≡ some e
    → usable_pos weights (wan_allowed_pos e.current_wan wans) ≡ true
    → ((get_wan_in_pool ft g now malloc_ok k pkt_len wans weights).wan ≡ e.current_wan)
      × ((get_wan_in_pool ft g now malloc_ok (reversed k) pkt_len wans weights).wan ≡ e.current_wan)
unfolding get_wan_in_pool profile_result found touch_profile repair
known_flow_keeps_wan ft g now malloc_ok k0 pkt_len wans weights e hs hd known usable =
    let k = normalize_flow_5tuple k0 in
    let touch = touch_profile ft now pkt_len wans weights in
    let (chain', w) =
      walk-find (profile_entry_matches k) touch (ft.buckets (flow_hash k)) e known in
    let kept : (touch e).0 ≡ e.current_wan = ground (arith, usable) in
    (rw w kept, rw (normalize_5tuple-reversed k0 hs hd, w) kept)
