-- ===== src/MacLearn/Distinct.antt =====
-- The names in the table of src/core/mac_learn.c.
use ne_multi_core.Base.{
  ℕ, zero, suc, ◌+◌, ◌-◌, ◌≤◌, ◌<◌, ◌≡◌, refl, ap, ◌∙◌, arith, false, none, some, List, [], ◌∷◌,
  ◌++◌, length, length-append, take, take-length_le, leb, ◌&&◌, ◌||◌, not, if◌then◌else◌,
  Bool-cases, Option-cases, inl, inr,
}
use ne_multi_core.Config.Owner.{same_name}
use ne_multi_core.MacLearn.{
  MacEntry, MacTable, max_interfaces, if_namesize, find_loop, find_idx, is_empty, found?,
  mac_learn_add, set_mac, edit_at, mac_learn_edit, remove_at, delete_at, mac_learn_delete,
}
use ne_multi_core.MacLearn.Lookup.{
  lookup, mac_learn-lookup, IsDistinct, same_name-eq, same_name_refl,
}

find_loop-none :
    (t : MacTable) (name : List ℕ) (i j : ℕ) → find_loop t name i ≡ none → find_loop t name j ≡ none
unfolding find_loop
find_loop-none [] name i j h = refl
find_loop-none (e ∷ t) name i j h = ground (arith, h, find_loop-none t name (i + 1) (j + 1))

find_loop-set_mac :
    (t : MacTable) (name mac : List ℕ) (i k : ℕ)
    → find_loop (set_mac t k mac) name i ≡ find_loop t name i
unfolding find_loop set_mac
find_loop-set_mac [] name mac i k = refl
find_loop-set_mac (e ∷ t) name mac i zero = refl
find_loop-set_mac (e ∷ t) name mac i (suc k) =
    ap (λ r. if same_name e.ifname name then some i else r) (find_loop-set_mac t name mac (i + 1) k)

set_mac-IsDistinct :
    (t : MacTable) (mac : List ℕ) (k : ℕ) → IsDistinct t → IsDistinct (set_mac t k mac)
unfolding set_mac find_idx
set_mac-IsDistinct [] mac k d = d
set_mac-IsDistinct (e ∷ t) mac zero d = d
set_mac-IsDistinct (e ∷ t) mac (suc k) (alone, d) =
    (find_loop-set_mac t e.ifname mac 0 k ∙ alone, set_mac-IsDistinct t mac k d)

find_loop-remove_at :
    (t : MacTable) (name : List ℕ) (i k : ℕ)
    → find_loop t name i ≡ none
    → find_loop (remove_at t k) name i ≡ none
unfolding find_loop remove_at
find_loop-remove_at [] name i k h = refl
find_loop-remove_at (e ∷ t) name i zero h = find_loop-none t name (i + 1) i (ground (arith, h))
find_loop-remove_at (e ∷ t) name i (suc k) h =
    ground (arith, h, find_loop-remove_at t name (i + 1) k)

remove_at-IsDistinct : (t : MacTable) (k : ℕ) → IsDistinct t → IsDistinct (remove_at t k)
unfolding remove_at find_idx
remove_at-IsDistinct [] k d = d
remove_at-IsDistinct (e ∷ t) zero (alone, d) = d
remove_at-IsDistinct (e ∷ t) (suc k) (alone, d) =
    (find_loop-remove_at t e.ifname 0 k alone, remove_at-IsDistinct t k d)

length-remove_at : (t : MacTable) (k : ℕ) → length (remove_at t k) ≤ length t
unfolding remove_at
length-remove_at [] k = omega arith
length-remove_at (e ∷ t) zero = omega arith
length-remove_at (e ∷ t) (suc k) = omega (arith, length-remove_at t k)

length-set_mac : (t : MacTable) (k : ℕ) (mac : List ℕ) → length (set_mac t k mac) ≡ length t
unfolding set_mac
length-set_mac [] k mac = refl
length-set_mac (e ∷ t) zero mac = refl
length-set_mac (e ∷ t) (suc k) mac = ap suc (length-set_mac t k mac)

same_name_comm : (a b : List ℕ) → same_name a b ≡ false → same_name b a ≡ false
same_name_comm a b h = elim (Bool-cases (same_name b a)) [
  | inl e ↦ absurd (cc (h, same_name_refl b, ap (λ t. same_name t b) (same_name-eq b a e)))
  | inr e ↦ e
]

find_loop-append :
    (t : MacTable) (e : MacEntry) (name : List ℕ) (i : ℕ)
    → find_loop t name i ≡ none
    → same_name e.ifname name ≡ false
    → find_loop (t ++ (e ∷ [])) name i ≡ none
unfolding find_loop
find_loop-append [] e name i h ne = ground (arith, ne)
find_loop-append (y ∷ t) e name i h ne = ground (arith, h, find_loop-append t e name (i + 1))

append-IsDistinct :
    (t : MacTable) (e : MacEntry) (i : ℕ)
    → IsDistinct t
    → find_loop t e.ifname i ≡ none
    → IsDistinct (t ++ (e ∷ []))
unfolding find_loop find_idx
append-IsDistinct [] e i d h = (refl, tt)
append-IsDistinct (y ∷ t) e i (alone, d) h =
    let ne : same_name y.ifname e.ifname ≡ false = ground (arith, h) in
    (
      find_loop-append t e y.ifname 0 alone (same_name_comm y.ifname e.ifname ne),
      append-IsDistinct t e (i + 1) d (ground (arith, h)),
    )

-- The table of at most 16 entries, with no name twice.
abbrev pub IsTable : MacTable → Type 0
IsTable t = (length t ≤ max_interfaces) × IsDistinct t

-- Adding, editing and deleting a name that fits the buffer keep the table within its 16 entries, with
-- no name twice.
pub mac_learn-IsTable :
    (t : MacTable) (name mac : List ℕ)
    → length name < if_namesize
    → IsTable t
    → IsTable (mac_learn_add t name mac)
      × IsTable (mac_learn_edit t name mac)
      × IsTable (mac_learn_delete t name)
unfolding mac_learn_add mac_learn_edit mac_learn_delete edit_at delete_at found? find_idx
mac_learn-IsTable t name mac short (fits, d) =
    let cut : take (if_namesize - 1) name ≡ name = take-length_le 15 name (omega arith) in
    elim (Bool-cases (is_empty name)) [
      | inl em ↦ rw em ((fits, d), (fits, d), (fits, d))
      | inr em ↦ elim (Option-cases (find_loop t name 0)) [
        | inl h ↦
            let e : MacEntry = record { ifname = name; mac = mac } in
            elim (Bool-cases (leb max_interfaces (length t))) [
              | inl full ↦ rw (em, h, full) ((fits, d), (fits, d), (fits, d))
              | inr room ↦
                  rw (em, h, room, cut)
                    (
                      (ground (arith, room, length-append t (e ∷ [])), append-IsDistinct t e 0 d h),
                      (fits, d),
                      (fits, d),
                    )
            ]
        | inr (k, h) ↦
            rw (em, h)
              (
                (fits, d),
                (omega (arith, length-set_mac t k mac, fits), set_mac-IsDistinct t mac k d),
                (omega (arith, length-remove_at t k, fits), remove_at-IsDistinct t k d),
              )
      ]
    ]

-- The table is a map from names to addresses of at most 16 entries in which no name stands twice, and
-- stays one: adding a name that is new puts the address there unless the table is full, and of a known
-- name changes nothing; editing changes the address of a known name only; deleting forgets the name;
-- no operation changes what is known of any other name. The name is not empty and fits the buffer.
pub mac_learn-IsMap :
    (t : MacTable) (name mac x : List ℕ)
    → 0 < length name
    → length name < if_namesize
    → IsTable t
    → IsTable (mac_learn_add t name mac)
      × IsTable (mac_learn_edit t name mac)
      × IsTable (mac_learn_delete t name)
      × (lookup (mac_learn_add t name mac) x ≡ (
          if same_name name x && not (found? (find_idx t name) || leb max_interfaces (length t))
          then some mac
          else lookup t x))
      × (lookup (mac_learn_edit t name mac) x
          ≡ (if same_name name x && found? (find_idx t name) then some mac else lookup t x))
      × (lookup (mac_learn_delete t name) x ≡ (if same_name name x then none else lookup t x))
mac_learn-IsMap t name mac x some_name short table =
    let (added, edited, deleted) = mac_learn-IsTable t name mac short table in
    let (a, b, c) = mac_learn-lookup t name mac x some_name short table.1 in
    (added, edited, deleted, a, b, c)
