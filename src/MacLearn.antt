-- ===== src/MacLearn.antt =====
-- The table of learned addresses, src/core/mac_learn.c: `find_idx`, `mac_learn_init`, `mac_learn_add`,
-- `mac_learn_edit` and `mac_learn_delete`. The list of the entries is as long as the count.
pub mod Lookup
pub mod Distinct
use ne_multi_core.Base.{
  ℕ, zero, suc, ◌+◌, ◌-◌, Bool, true, false, ◌||◌, Option, none, some, List, [], ◌∷◌, ◌++◌, length,
  take, leb, ◌==◌, if◌then◌else◌,
}
use ne_multi_core.Config.Owner.{same_name}

-- MAX_INTERFACES, IF_NAMESIZE.
abbrev pub max_interfaces : ℕ
max_interfaces = 16

abbrev pub if_namesize : ℕ
if_namesize = 16

pub record MacEntry : Type 0 where
  pub ifname : List ℕ
  pub mac : List ℕ

abbrev pub MacTable : Type 0
MacTable = List MacEntry

unfoldable pub find_loop : MacTable → List ℕ → ℕ → Option ℕ
find_loop [] name i = none
find_loop (e ∷ t) name i =
    let rest = find_loop t name (i + 1) in if same_name e.ifname name then some i else rest

-- `none` is the -1 of the source.
unfoldable pub find_idx : MacTable → List ℕ → Option ℕ
unfolding find_loop
find_idx t name = find_loop t name 0

unfoldable pub mac_learn_init : MacTable
mac_learn_init = []

abbrev pub is_empty : List ℕ → Bool
is_empty name = length name == 0

pub found? : Option ℕ → Bool
found? none = false
found? (some i) = true

pub mac_learn_add : MacTable → List ℕ → List ℕ → MacTable
unfolding found?
mac_learn_add t ifname mac =
    if is_empty ifname
    then t
    else if found? (find_idx t ifname) || leb max_interfaces (length t)
    then t
    else t ++ (record { ifname = take (if_namesize - 1) ifname; mac = mac } ∷ [])

pub set_mac : MacTable → ℕ → List ℕ → MacTable
set_mac [] i mac = []
set_mac (e ∷ t) zero mac = record e { mac = mac } ∷ t
set_mac (e ∷ t) (suc i) mac = e ∷ set_mac t i mac

pub edit_at : MacTable → Option ℕ → List ℕ → MacTable
unfolding set_mac
edit_at t none mac = t
edit_at t (some i) mac = set_mac t i mac

pub mac_learn_edit : MacTable → List ℕ → List ℕ → MacTable
unfolding edit_at
mac_learn_edit t ifname mac = if is_empty ifname then t else edit_at t (find_idx t ifname) mac

-- The entries after `i` move down by one.
pub remove_at : MacTable → ℕ → MacTable
remove_at [] i = []
remove_at (e ∷ t) zero = t
remove_at (e ∷ t) (suc i) = e ∷ remove_at t i

pub delete_at : MacTable → Option ℕ → MacTable
unfolding remove_at
delete_at t none = t
delete_at t (some i) = remove_at t i

pub mac_learn_delete : MacTable → List ℕ → MacTable
unfolding delete_at
mac_learn_delete t ifname = if is_empty ifname then t else delete_at t (find_idx t ifname)
