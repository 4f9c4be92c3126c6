-- ===== src/Tests/Maps.antt =====
-- Instances of the theorems on whole maps, at a map of two leaves that hold as little as they may.
use btree_monstrousity.Prelude.{suc, ℕ, ◌≡◌, Option, none, some, compare, Ordering}
use btree_monstrousity.Order.{find, upsert}
use btree_monstrousity.Node.{top}
use btree_monstrousity.Search.{search_tree}
use btree_monstrousity.Search.Descent.{SearchOk, search_tree_lem}
use btree_monstrousity.Map.{
  get_mut, BTreeMap, get, get_key_value, contains_key, insert, remove, remove_entry,
}
use btree_monstrousity.Map.View.{map_entries, IsMap}
use btree_monstrousity.Map.Get.{value_of, is_hit, get_lem, get_key_value_lem, contains_key_lem}
use btree_monstrousity.Map.Upsert.{Behind, needle-IsCut}
use btree_monstrousity.Map.Insert.{insert_lem}
use btree_monstrousity.Map.Delete.{delete}
use btree_monstrousity.Map.Remove.{remove_entry_lem, remove_lem}
use btree_monstrousity.Map.Update.{update, get_mut_lem}
use btree_monstrousity.Map.RoundTrip.{get-insert_self, get-insert_other, get-remove}
use btree_monstrousity.Extremes.{first_key_value, last_key_value, pop_first, pop_last}
use btree_monstrousity.Extremes.Pop.{PopsFirst, PopsLast, pop_first_lem, pop_last_lem}
use btree_monstrousity.Extremes.Read.{
  ReadsFirst, ReadsLast, first_key_value_lem, last_key_value_lem,
}
use btree_monstrousity.Tests.{compare-IsTotalOrder, root_of_two, map_of_two, map_of_two-IsMap}

abbrev ten : ℕ → Ordering
ten k = compare k 10

insert_lem_example :
    (m : BTreeMap ℕ ℕ) × (insert map_of_two 10 70 compare
      ≡ some (value_of (find ten (map_entries map_of_two)), m))
    × IsMap (Behind compare) m
    × (map_entries m ≡ upsert ten 10 70 (map_entries map_of_two))
insert_lem_example = insert_lem compare compare-IsTotalOrder 10 70 map_of_two map_of_two-IsMap

remove_entry_lem_example :
    (m : BTreeMap ℕ ℕ) × (remove_entry map_of_two ten ≡ some (find ten (map_entries map_of_two), m))
    × IsMap (Behind compare) m
    × (map_entries m ≡ delete ten (map_entries map_of_two))
remove_entry_lem_example =
    remove_entry_lem (Behind compare) ten (needle-IsCut compare compare-IsTotalOrder 10) map_of_two
      map_of_two-IsMap

remove_lem_example :
    (m : BTreeMap ℕ ℕ) × (remove map_of_two ten
      ≡ some (value_of (find ten (map_entries map_of_two)), m))
    × IsMap (Behind compare) m
    × (map_entries m ≡ delete ten (map_entries map_of_two))
remove_lem_example =
    remove_lem (Behind compare) ten (needle-IsCut compare compare-IsTotalOrder 10) map_of_two
      map_of_two-IsMap

get_lem_example : get map_of_two ten ≡ some (value_of (find ten (map_entries map_of_two)))
get_lem_example =
    get_lem (Behind compare) ten (needle-IsCut compare compare-IsTotalOrder 10) map_of_two
      map_of_two-IsMap

get_key_value_lem_example : get_key_value map_of_two ten ≡ some (find ten (map_entries map_of_two))
get_key_value_lem_example =
    get_key_value_lem (Behind compare) ten (needle-IsCut compare compare-IsTotalOrder 10) map_of_two
      map_of_two-IsMap

contains_key_lem_example :
    contains_key map_of_two ten ≡ some (is_hit (find ten (map_entries map_of_two)))
contains_key_lem_example =
    contains_key_lem (Behind compare) ten (needle-IsCut compare compare-IsTotalOrder 10) map_of_two
      map_of_two-IsMap

get-insert_self_example :
    (old : Option ℕ) × (m : BTreeMap ℕ ℕ) × (insert map_of_two 10 70 compare ≡ some (old, m))
    × (get m ten ≡ some (some 70))
get-insert_self_example =
    get-insert_self compare compare-IsTotalOrder 10 70 map_of_two map_of_two-IsMap

get-insert_other_example :
    (old : Option ℕ) × (m : BTreeMap ℕ ℕ) × (insert map_of_two 20 70 compare ≡ some (old, m))
    × (get m ten ≡ get map_of_two ten)
get-insert_other_example =
    get-insert_other compare compare-IsTotalOrder 20 10 70 (λ e. cc) map_of_two map_of_two-IsMap

get-remove_example :
    (old : Option ℕ) × (m : BTreeMap ℕ ℕ) × (remove map_of_two ten ≡ some (old, m))
    × (get m ten ≡ some none)
get-remove_example =
    get-remove (Behind compare) ten (needle-IsCut compare compare-IsTotalOrder 10) map_of_two
      map_of_two-IsMap

search_tree_lem_example : SearchOk ten root_of_two (search_tree ten 1 root_of_two.node top)
search_tree_lem_example =
    search_tree_lem (Behind compare) ten (needle-IsCut compare compare-IsTotalOrder 10) root_of_two
      (map_of_two-IsMap.filled) (map_of_two-IsMap.sorted)

pop_first_lem_example :
    PopsFirst (Behind compare) map_of_two (map_entries map_of_two) (pop_first map_of_two)
pop_first_lem_example = pop_first_lem (Behind compare) map_of_two map_of_two-IsMap

pop_last_lem_example :
    PopsLast (Behind compare) map_of_two (map_entries map_of_two) (pop_last map_of_two)
pop_last_lem_example = pop_last_lem (Behind compare) map_of_two map_of_two-IsMap

first_key_value_lem_example : ReadsFirst (map_entries map_of_two) (first_key_value map_of_two)
first_key_value_lem_example = first_key_value_lem map_of_two (map_of_two-IsMap.filled)

last_key_value_lem_example : ReadsLast (map_entries map_of_two) (last_key_value map_of_two)
last_key_value_lem_example = last_key_value_lem map_of_two (map_of_two-IsMap.filled)

get_mut_lem_example :
    (m : BTreeMap ℕ ℕ) × (get_mut map_of_two ten suc
      ≡ some (value_of (find ten (map_entries map_of_two)), m))
    × IsMap (Behind compare) m
    × (map_entries m ≡ update ten suc (map_entries map_of_two))
get_mut_lem_example =
    get_mut_lem (Behind compare) ten (needle-IsCut compare compare-IsTotalOrder 10) suc map_of_two
      map_of_two-IsMap
