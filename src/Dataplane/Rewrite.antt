-- ===== src/Dataplane/Rewrite.antt =====
-- What the rewriting of MAC addresses in src/core/dataplane_util.c leaves of a packet.
use ne_multi_core.Base.{
  ℕ, ◌+◌, ◌≤◌, ◌≡◌, refl, ◌∙◌, arith, inl, inr, some, [], ◌∷◌, length, set, take, length-set,
  get_or-set_ne, length-take, Bool-cases, le→ltb_false,
}
use ne_multi_core.Fragment.{Bytes, byte_at, ip_header_len}
use ne_multi_core.Dataplane.{
  mac_len, is_zero_mac, overwrite, dp_parse_flow, dp_write_l2, dp_apply_wan_l2,
}

length-overwrite : (p : Bytes) (off : ℕ) (bs : Bytes) → length (overwrite p off bs) ≡ length p
unfolding overwrite
length-overwrite p off [] = refl
length-overwrite p off (b ∷ bs) = length-overwrite (set p off b) (off + 1) bs ∙ length-set p off b

overwrite-above :
    (p : Bytes) (off : ℕ) (bs : Bytes) (i : ℕ)
    → off + length bs ≤ i
    → byte_at (overwrite p off bs) i ≡ byte_at p i
unfolding overwrite
overwrite-above p off [] i h = refl
overwrite-above p off (b ∷ bs) i h =
    overwrite-above (set p off b) (off + 1) bs i (omega arith)
    ∙ get_or-set_ne p b 0 (λ e. omega (arith, e))

-- Two packets that agree from the EtherType on.
abbrev pub SameAbove : Bytes → Bytes → Type 0
SameAbove p q = (length q ≡ length p) × ((i : ℕ) → 12 ≤ i → byte_at q i ≡ byte_at p i)

macs-SameAbove :
    (p dst src : Bytes)
    → SameAbove p (overwrite (overwrite p 0 (take mac_len dst)) mac_len (take mac_len src))
macs-SameAbove p dst src =
    let p' = overwrite p 0 (take mac_len dst) in
    (
      length-overwrite p' mac_len (take mac_len src) ∙ length-overwrite p 0 (take mac_len dst),
      λ (i : ℕ) (h : 12 ≤ i).
          overwrite-above p' mac_len (take mac_len src) i (omega (arith, length-take mac_len src))
          ∙ overwrite-above p 0 (take mac_len dst) i (omega (arith, length-take mac_len dst)),
    )

-- The fields of a flow are all behind the MAC addresses.
pub parse_flow-SameAbove : (p q : Bytes) → SameAbove p q → dp_parse_flow q ≡ dp_parse_flow p
unfolding dp_parse_flow
parse_flow-SameAbove p q (len, same) =
    let l4 = 14 + ip_header_len (byte_at p 14) in
    rw
      (
        len,
        same 12 (omega arith),
        same 13 (omega arith),
        same 14 (omega arith),
        same 23 (omega arith),
        same 26 (omega arith),
        same 27 (omega arith),
        same 28 (omega arith),
        same 29 (omega arith),
        same 30 (omega arith),
        same 31 (omega arith),
        same 32 (omega arith),
        same 33 (omega arith),
        same l4 (omega arith),
        same (l4 + 1) (omega arith),
        same (l4 + 2) (omega arith),
        same (l4 + 2 + 1) (omega arith),
      )
      refl

-- `dp_apply_wan_l2` never fails on a packet with an Ethernet header, keeps its length and all bytes
-- from the EtherType on, and leaves the flow that the packet is classified by as it was.
pub apply_wan_l2_keeps_flow :
    (p dst src : Bytes)
    → 14 ≤ length p
    → (q : Bytes) × (dp_apply_wan_l2 p dst src ≡ some q)
      × SameAbove p q
      × (dp_parse_flow q ≡ dp_parse_flow p)
unfolding dp_apply_wan_l2 dp_write_l2
apply_wan_l2_keeps_flow p dst src h = elim (Bool-cases (is_zero_mac dst)) [
  | inl zd ↦ rw (le→ltb_false _ _ h, zd) (p, refl, (refl, λ i l. refl), refl)
  | inr d ↦ elim (Bool-cases (is_zero_mac src)) [
    | inl zs ↦ rw (le→ltb_false _ _ h, d, zs) (p, refl, (refl, λ i l. refl), refl)
    | inr s ↦
        let same = macs-SameAbove p dst src in
        rw (le→ltb_false _ _ h, d, s) (_, refl, same, parse_flow-SameAbove p _ same)
  ]
]
