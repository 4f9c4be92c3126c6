-- ===== src/Lib.antt =====
-- A model of copse's B-tree map with comparators: the fork of Rust's `BTreeMap` in which each
-- operation is passed its comparator, in src/liballoc/collections/btree.
--
-- The parts and how they interact. node.rs has the nodes, handles into them, and the changes of one
-- node: insertion with splits, merges of siblings, steals between them. search.rs walks down from
-- the root. fix.rs and remove.rs take pairs out and repair nodes that hold too few. map.rs and
-- map/entry.rs put these together: a map is an optional root and a length.
--
-- - Prelude (Tests, Lists, Ends): tests on numbers, lists measured by native numbers.
-- - Defined: a step may panic or read what is not initialised; `none` stands for both, `some` for a
--   result, and `assert` is the source's `assert!`.
-- - Order (Cut): what the callers' comparators promise. `IsTotalOrder` is the contract of a
--   comparator of two keys, `IsCut` that of a search comparator, `find` and `upsert` are the abstract
--   lookup and insertion in a sorted list.
-- - Node: node.rs, lines 44 to 344 and 1787 to 1813. Node.Content gives the pairs below a node in
--   order (`entries`) and the fill of a tree (`IsFilled`: at most `capacity` pairs, one edge more than
--   pairs, at least `min_len` pairs except in the root). Node.Slots has the slice helpers,
--   Node.Replant a change in place below a path.
-- - Node.Insert (Split, Step, Climb): node.rs, lines 874 to 1066: `splitpoint`, `insert_fit`,
--   `split`, `insert`, `insert_recursing`.
-- - Search (Index, Descent, Divide, Bounds): search.rs, the linear search in a node, `search_tree`,
--   and the indices of the bounds of a range in a node.
-- - Balance (Content, Fill, Steal): node.rs, lines 1278 to 1617: `do_merge`, `bulk_steal_left`,
--   `bulk_steal_right`, `choose_parent_kv`.
-- - Fix (Paths, Merge, Repair, Branches, Room, Left, Right, Ancestors): fix.rs, lines 10 to 66.
-- - Remove (Around, Rebalance, Leaf, Next, Replace, Tracking): remove.rs, with the steps of
--   navigate.rs that it takes.
-- - Map (View, Get, Upsert, Insert, Delete, Remove, RoundTrip, Update): map.rs and map/entry.rs.
--   Map.View has the invariant of a map (`IsMap`: filled, sorted, counted).
-- - Extremes (Descent, Pop, Read): map.rs, lines 739 to 868: the first and the last pair.
-- - Navigate (Linked, Ends, Climb, Back, Step): navigate.rs, lines 387 to 430, 539 to 563 and 720 to
--   746: handles to leaf edges and to pairs, and the steps between them. `IsLinked` says that each
--   parent on a path has the node below in its slot, `IsEdge` and `IsKv` give the pairs on both sides.
-- - Iter (Range, Next, Script): the lazy ranges of navigate.rs, lines 99 to 308, and `Iter` of map.rs,
--   which `iter` makes. `collect` is a loop over an iterator and `calls` a sequence of calls on it.
-- - Range (Narrow, Sides, Edge, Spread, Descent, Select, Between, Found, Offset, Position, Next,
--   Script, Reversed): search.rs, lines 66 to 157, navigate.rs, lines 12 to 97 and 240 to 330, and `range` of map.rs.
--   `select` is what a range is for, as a filter of the sorted pairs. The bound for a child may differ
--   from that of the search; `Agrees` says that both mean the same for the child's keys. A lower bound
--   goes the way of an upper one with its kinds swapped (`flip`). A node is told from others by the
--   indices of the edges that lead to it, which stand for the node's address.
-- - Clone (Subtree, Whole): `clone` of map.rs, lines 232 to 320, with `push` and
--   `push_internal_level` of node.rs. The clones of keys and values are the callers' functions.
-- - Append (Spine, Push, Sibling, Plentiful, Merge, Sorted, Whole, Lookup): append.rs, `nexts` of
--   merge_iter.rs, lines 96 to 114 of fix.rs, and `append` of map.rs. `IsOpen` is a tree that is full but for the
--   nodes on its right border. `append` reads both maps by `IntoIter`, for which the pairs stand that
--   `iter` yields. A merging iterator takes two lists, what its sources still yield.
-- - Tests (Maps, Nodes, Iters, Ranges, Appends): runs on small maps, and the theorems at concrete values.
--
-- How state corresponds to the code. A node keeps the initialised prefix of its arrays: the list
-- `kvs` is keys and values side by side, since the source always moves them together, and `edges`
-- the children. The height of a node is an index of its type, as `force` tells leaf from internal by
-- the height. Parent pointers are a path from the node up to the root, each step a parent and the
-- index of the edge taken: `ascend` takes a step off, `descend` puts one on, and `replant` gives the
-- tree after a change in place at the end of the path; the child slot under a path is stale until
-- then. A removal tracks a position through merges; where the source reaches it by the parent
-- pointers afterwards, the repair here returns the path that leads to it. A comparator is a pure
-- function of the keys.
--
-- Bounds. Recursion is on the height, on a path or on a list, save for two loops over an iterator:
-- `collect` and `drain` take fuel, one more than there are pairs: every call but the last yields a pair. The
-- length of a node is a u16 in the source and the indices are usize; a filled node has at most 11
-- pairs, so nothing wraps. The length of a map is a usize that `insert` increments; it is taken to
-- stay below 2 ^ 64. `remove` decrements it under a check.
--
-- The order of keys. `insert` calls its comparator with the stored key first, and the search goes on
-- behind a key for which the answer is `Greater`: a map filled with `Ord::cmp` has its greatest key
-- first. `Behind` is that order.
--
-- Not modelled: allocation and deallocation, the borrow markers of handles, the iterators that write
-- values or free nodes, the leaf edge that a removal returns for drains, the clones and bounds of a
-- merging iterator, `split_off` (split.rs and the borders of fix.rs), `retain` and `drain_filter`, the sets
-- (set.rs) and the binary heap, which are commented out of the build.
pub mod Prelude
pub mod Defined
pub mod Order
pub mod Node
pub mod Balance
pub mod Fix
pub mod Remove
pub mod Search
pub mod Map
pub mod Extremes
pub mod Navigate
pub mod Iter
pub mod Range
pub mod Clone
pub mod Append
mod Tests
