-- ===== src/MacLearn/Lookup.antt =====
-- The table of src/core/mac_learn.c as a map from interface names to addresses.
use mathlib.Core.Option.{some-injective}
use ne_multi_core.Base.{
  ℕ, suc, ◌+◌, ◌<◌, ◌≡◌, refl, sym, ap, ◌∙◌, arith, true, false, ◌&&◌, ◌||◌, not, Option, none,
  some, List, [], ◌∷◌, ◌++◌, length, take, ◌-◌, take-length_le, leb, ◌==◌, if◌then◌else◌,
  Bool-cases, Option-cases, inl, inr,
}
use ne_multi_core.Config.Owner.{same_name}
use ne_multi_core.MacLearn.{
  MacEntry, MacTable, max_interfaces, if_namesize, find_loop, find_idx, is_empty, found?,
  mac_learn_add, set_mac, edit_at, mac_learn_edit, remove_at, delete_at, mac_learn_delete,
}

-- The address that is known for a name.
abbrev pub lookup : MacTable → List ℕ → Option (List ℕ)
lookup [] x = none
lookup (e ∷ t) x = let rest = lookup t x in if same_name e.ifname x then some e.mac else rest

-- No name stands twice.
abbrev pub IsDistinct : MacTable → Type 0
IsDistinct [] = Unit
IsDistinct (e ∷ t) = (find_idx t e.ifname ≡ none) × IsDistinct t

pub same_name-eq : (a b : List ℕ) → same_name a b ≡ true → a ≡ b
unfolding same_name
same_name-eq [] [] h = refl
same_name-eq [] (y ∷ b) h = absurd (cc (h))
same_name-eq (x ∷ a) [] h = absurd (cc (h))
same_name-eq (x ∷ a) (y ∷ b) h = elim (Bool-cases (x == y)) [
  | inl e ↦
      let f : x ≡ y = ground (arith, e) in
      let g : same_name a b ≡ true = ground (arith, e, h) in
      ap (λ t. t ∷ a) f ∙ ap (λ t. y ∷ t) (same_name-eq a b g)
  | inr e ↦ absurd (ground (arith, e, h))
]

pub same_name_refl : (a : List ℕ) → same_name a a ≡ true
unfolding same_name
same_name_refl [] = refl
same_name_refl (x ∷ a) = ground (arith, same_name_refl a)

-- Two names that are both `x` are the same.
same_name-apart :
    (a b x : List ℕ)
    → same_name a b ≡ false
    → same_name a x ≡ true
    → same_name b x ≡ true
    → true ≡ false
same_name-apart a b x ne p q =
    let e = same_name-eq a x p ∙ sym (same_name-eq b x q) in
    absurd (cc (ne, same_name_refl b, ap (λ t. same_name t b) e))

find-lookup :
    (t : MacTable) (name : List ℕ) (i : ℕ) → find_loop t name i ≡ none → lookup t name ≡ none
unfolding find_loop
find-lookup [] name i h = refl
find-lookup (e ∷ t) name i h = ground (arith, h, find-lookup t name (i + 1))

set_mac-lookup :
    (t : MacTable) (name : List ℕ) (i k : ℕ)
    → find_loop t name i ≡ some k
    → (j : ℕ) × (k ≡ i + j)
      × ((mac x : List ℕ)
          → lookup (set_mac t j mac) x ≡ (if same_name name x then some mac else lookup t x))
unfolding find_loop set_mac
set_mac-lookup [] name i k h = absurd (cc (h))
set_mac-lookup (e ∷ t) name i k h = elim (Bool-cases (same_name e.ifname name)) [
  | inl s ↦
      let f : some i ≡ some k = ground (arith, h, s) in
      let same = same_name-eq e.ifname name s in
      (
        0,
        omega (arith, some-injective i k f),
        λ mac x. ground (arith, ap (λ (t : List ℕ). same_name t x) same),
      )
  | inr s ↦
      let (j, a, b) = set_mac-lookup t name (i + 1) k (ground (arith, h, s)) in
      (suc j, omega (arith, a), λ mac x. ground (arith, b mac x, same_name-apart e.ifname name x s))
]

remove_at-lookup :
    (t : MacTable) (name : List ℕ) (i k : ℕ)
    → IsDistinct t
    → find_loop t name i ≡ some k
    → (j : ℕ) × (k ≡ i + j)
      × ((x : List ℕ) → lookup (remove_at t j) x ≡ (if same_name name x then none else lookup t x))
unfolding find_loop remove_at find_idx
remove_at-lookup [] name i k d h = absurd (cc (h))
remove_at-lookup (e ∷ t) name i k (alone, d) h = elim (Bool-cases (same_name e.ifname name)) [
  | inl s ↦
      let f : some i ≡ some k = ground (arith, h, s) in
      let same = same_name-eq e.ifname name s in
      let gone = find-lookup t e.ifname 0 alone in
      (
        0,
        omega (arith, some-injective i k f),
        λ x. elim (Bool-cases (same_name name x)) [
          | inl q ↦
              let r = ap (lookup t) (same ∙ same_name-eq name x q) in
              ground (arith, q, sym r ∙ gone)
          | inr q ↦ ground (arith, q, ap (λ (t : List ℕ). same_name t x) same)
        ],
      )
  | inr s ↦
      let (j, a, b) = remove_at-lookup t name (i + 1) k d (ground (arith, h, s)) in
      (suc j, omega (arith, a), λ x. ground (arith, b x, same_name-apart e.ifname name x s))
]

append-lookup :
    (t : MacTable) (e : MacEntry) (i : ℕ) (x : List ℕ)
    → find_loop t e.ifname i ≡ none
    → lookup (t ++ (e ∷ [])) x ≡ (if same_name e.ifname x then some e.mac else lookup t x)
unfolding find_loop
append-lookup [] e i x h = refl
append-lookup (y ∷ t) e i x h = elim (Bool-cases (same_name y.ifname e.ifname)) [
  | inl s ↦ absurd (ground (arith, h, s))
  | inr s ↦ ground (
    arith,
    append-lookup t e (i + 1) x (ground (arith, h, s)),
    same_name-apart y.ifname e.ifname x s,
  )
]

-- The table is a map from names to addresses of at most 16 entries: adding a name that is new puts
-- the address there unless the table is full, and of a known name changes nothing; editing changes
-- the address of a known name only; deleting forgets the name; and no operation changes what is known
-- of any other name. The name is not empty and fits the buffer, and no name stands twice.
pub mac_learn-lookup :
    (t : MacTable) (name mac x : List ℕ)
    → 0 < length name
    → length name < if_namesize
    → IsDistinct t
    → (lookup (mac_learn_add t name mac) x ≡ (
        if same_name name x && not (found? (find_idx t name) || leb max_interfaces (length t))
        then some mac
        else lookup t x))
      × (lookup (mac_learn_edit t name mac) x
          ≡ (if same_name name x && found? (find_idx t name) then some mac else lookup t x))
      × (lookup (mac_learn_delete t name) x ≡ (if same_name name x then none else lookup t x))
unfolding mac_learn_add mac_learn_edit mac_learn_delete edit_at delete_at found? find_idx
mac_learn-lookup t name mac x some_name short d =
    let ne : is_empty name ≡ false = ground arith in
    let cut : take (if_namesize - 1) name ≡ name = take-length_le 15 name (omega arith) in
    elim (Option-cases (find_loop t name 0)) [
      | inl h ↦
          let gone = find-lookup t name 0 h in
          let unknown : (if same_name name x then none else lookup t x) ≡ lookup t x =
            elim (Bool-cases (same_name name x)) [
              | inl q ↦
                  let r = ap (lookup t) (same_name-eq name x q) in ground (arith, q, sym gone ∙ r)
              | inr q ↦ ground (arith, q)
            ] in
          rw (ne, h, cut)
            (
              ground (arith, append-lookup t (record { ifname = name; mac = mac }) 0 x h),
              ground arith,
              sym unknown,
            )
      | inr (k, h) ↦
          let (j, a, b) = set_mac-lookup t name 0 k h in
          let (j', a', b') = remove_at-lookup t name 0 k d h in
          let z : k ≡ j = omega (arith, a) in
          let z' : k ≡ j' = omega (arith, a') in
          rw (ne, h)
            (
              ground arith,
              ap (λ t'. lookup (set_mac t t' mac) x) z ∙ b mac x ∙ ground arith,
              ap (λ t'. lookup (remove_at t t') x) z' ∙ b' x,
            )
    ]
