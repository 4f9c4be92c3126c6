-- ===== src/Tests.antt =====
-- Small maps over the natural numbers for the instances of the theorems in the children, and runs.
mod Maps
mod Nodes
mod Iters
mod Appends
mod Ranges
use btree_monstrousity.Prelude.{
  ℕ, zero, suc, ◌*◌, ◌+◌, ◌≡◌, refl, List, [], ◌∷◌, none, some, Ordering, arith, compare,
}
use btree_monstrousity.Order.{IsTotalOrder}
use btree_monstrousity.Node.{LeafNode, InternalNode, Node, Root, replant}
use btree_monstrousity.Node.Content.{root_entries}
use btree_monstrousity.Node.Insert.{insert_recursing}
use btree_monstrousity.Search.{search_tree}
use btree_monstrousity.Defined.{Defined, ◌>>=◌}
use btree_monstrousity.Map.{BTreeMap, new, insert, remove}
use btree_monstrousity.Map.View.{map_entries, IsMap}
use btree_monstrousity.Map.Upsert.{Behind}

pub compare-IsTotalOrder : IsTotalOrder compare
compare-IsTotalOrder = ground arith

-- Pairs of five keys that go down, and a pair.
abbrev pub five : ℕ → LeafNode ℕ ℕ
five k = (k + 4, 4) ∷ (k + 3, 3) ∷ (k + 2, 2) ∷ (k + 1, 1) ∷ (k, 0) ∷ []

abbrev pub middle : ℕ × ℕ
middle = (10, 7)

-- A root with two leaves that hold as little as they may.
abbrev pub parent_of_two : InternalNode ℕ ℕ (Node ℕ ℕ 0)
parent_of_two = record { kvs = middle ∷ []; edges = five 11 ∷ five 5 ∷ [] }

abbrev pub root_of_two : Root ℕ ℕ
root_of_two = record { height = 1; node = parent_of_two }

abbrev pub map_of_two : BTreeMap ℕ ℕ
map_of_two = record { root = some root_of_two; length = 11 }

pub map_of_two-IsMap : IsMap (Behind compare) map_of_two
map_of_two-IsMap = record { filled = ground arith; sorted = ground arith; counted = refl }

-- The pairs after the keys of a list were inserted, and after those of another were removed.
abbrev insert_all : List ℕ → BTreeMap ℕ ℕ → Defined (BTreeMap ℕ ℕ)
insert_all [] m = some m
insert_all (k ∷ ks) m = insert m k (k * 10) compare >>= λ (_, m'). insert_all ks m'

abbrev remove_all : List ℕ → BTreeMap ℕ ℕ → Defined (BTreeMap ℕ ℕ)
remove_all [] m = some m
remove_all (k ∷ ks) m = remove m (λ c. compare c k) >>= λ (_, m'). remove_all ks m'

abbrev up_to : ℕ → List ℕ
up_to zero = []
up_to (suc n) = n ∷ up_to n

-- Fourteen keys split the root; all but two of them are removed again.
abbrev run : Defined (List (ℕ × ℕ))
run = insert_all (up_to 14) new >>= λ m. remove_all (up_to 12) m >>= λ m'. some (map_entries m')
