-- ===== src/Tests/Learning.antt =====
-- The table of learned addresses of src/core/mac_learn.c at concrete inputs.
use ne_multi_core.Base.{
  ◌≡◌, refl, arith, ◌&&◌, ◌||◌, not, none, some, [], ◌∷◌, replicate, leb, if◌then◌else◌,
}
use ne_multi_core.Config.Owner.{same_name}
use ne_multi_core.MacLearn.{
  MacTable, max_interfaces, find_idx, find_loop, found?, mac_learn_init, mac_learn_add,
  mac_learn_edit, mac_learn_delete,
}
use ne_multi_core.MacLearn.Lookup.{lookup, IsDistinct}
use ne_multi_core.MacLearn.Distinct.{IsTable, mac_learn-IsMap}

abbrev table : MacTable
table =
    record { ifname = 101 ∷ 48 ∷ []; mac = replicate 6 1 }
    ∷ record { ifname = 101 ∷ 49 ∷ []; mac = replicate 6 2 }
    ∷ []

started : mac_learn_init ≡ []
unfolding mac_learn_init
started = refl

distinct : IsDistinct table
unfolding find_idx find_loop same_name
distinct = (refl, (refl, tt))

mac_learn-IsMap_example :
    IsTable (mac_learn_add table (101 ∷ 49 ∷ []) (replicate 6 3))
    × IsTable (mac_learn_edit table (101 ∷ 49 ∷ []) (replicate 6 3))
    × IsTable (mac_learn_delete table (101 ∷ 49 ∷ []))
    × (lookup (mac_learn_add table (101 ∷ 49 ∷ []) (replicate 6 3)) (101 ∷ 48 ∷ []) ≡ (
        if same_name (101 ∷ 49 ∷ []) (101 ∷ 48 ∷ [])
          && not (found? (find_idx table (101 ∷ 49 ∷ [])) || leb max_interfaces 2)
        then some (replicate 6 3)
        else lookup table (101 ∷ 48 ∷ [])))
    × (lookup (mac_learn_edit table (101 ∷ 49 ∷ []) (replicate 6 3)) (101 ∷ 48 ∷ []) ≡ (
        if same_name (101 ∷ 49 ∷ []) (101 ∷ 48 ∷ []) && found? (find_idx table (101 ∷ 49 ∷ []))
        then some (replicate 6 3)
        else lookup table (101 ∷ 48 ∷ [])))
    × (lookup (mac_learn_delete table (101 ∷ 49 ∷ [])) (101 ∷ 48 ∷ []) ≡ (
        if same_name (101 ∷ 49 ∷ []) (101 ∷ 48 ∷ []) then none else lookup table (101 ∷ 48 ∷ [])))
mac_learn-IsMap_example =
    mac_learn-IsMap table (101 ∷ 49 ∷ []) (replicate 6 3) (101 ∷ 48 ∷ []) (omega arith)
      (omega arith) (omega arith, distinct)
