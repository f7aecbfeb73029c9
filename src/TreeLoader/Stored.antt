-- ===== src/TreeLoader/Stored.antt =====
-- `find_node_to_store` for a new key, and the search of the loader beside it.
use zippy_fs.Common.{ℕ, zero, suc, ◌<◌, ◌≡◌, ap, ◌∙◌, true, false, List, Str, ok, arith}
use zippy_fs.Common.Map.{nat_key}
use zippy_fs.Index.Memory.{Mem, Node, node_at, put_node}
use zippy_fs.Index.Entries.{IsTree}
use zippy_fs.Index.Nodes.{child_to_store, descend_to_store}
use zippy_fs.Index.Store.{IsUnused, IsNew-node_at}
use zippy_fs.TreeLoader.Search.{next_child, descend}
use zippy_fs.TreeLoader.Descent.{RoundEnds, next_child-Kids, descend-at_leaf, descend-at_inner}
use zippy_fs.TreeLoader.Changed.{node_at-changed_self, descend-changed_inner}

-- Where the search for the place ends, and the loader's search with it, whatever leaf stands there.
unfoldable pub StoreEnds : ℕ → Mem → Str → ℕ → Type 0
StoreEnds fuel m p o =
    (t : ℕ) × (descend_to_store fuel m p o ≡ ok t)
    × ((node_at t m).is_leaf ≡ true)
    × (descend fuel m p o ≡ ok (node_at t m))
    × ((n' : Node) → n'.is_leaf ≡ true → descend fuel (put_node t n' m) p o ≡ ok n')

StoreEnds-at_leaf :
    (fuel : ℕ) (m : Mem) (p : Str) (o : ℕ)
    → (node_at o m).is_leaf ≡ true
    → StoreEnds (suc fuel) m p o
unfolding StoreEnds descend_to_store
StoreEnds-at_leaf fuel m p o h = (
  o,
  ground (arith, h),
  h,
  descend-at_leaf fuel m p o h,
  λ n' l'.
      let here = node_at-changed_self m o n' in
      descend-at_leaf fuel (put_node o n' m) p o (ap (λ n. n.is_leaf) here ∙ l') ∙ ap ok here,
)

StoreEnds-at_inner :
    (fuel : ℕ) (m : Mem) (p : Str) (o c : ℕ)
    → (node_at o m).is_leaf ≡ false
    → child_to_store m p (node_at o m) ≡ ok c
    → next_child m p (node_at o m) ≡ ok c
    → StoreEnds fuel m p c
    → StoreEnds (suc fuel) m p o
unfolding StoreEnds descend_to_store
StoreEnds-at_inner fuel m p o c h e e' ends = (
  ends.0,
  rw (h, descend_to_store, e) ends.1,
  ends.2,
  descend-at_inner fuel m p o c h e' ∙ ends.3,
  λ n' l'. descend-changed_inner m ends.0 n' fuel o c p ends.2 h e' ∙ ends.4 n' l',
)

-- For a key that is not in use yet, both searches end at the same leaf.
pub descend_to_store-StoreEnds :
    (fuel height : ℕ) (m : Mem) (p : Str) (o : ℕ) (es : List (Str × ℕ))
    → IsTree m height o es
    → height < fuel
    → IsUnused m p m.nodes
    → StoreEnds fuel m p o
unfolding IsTree RoundEnds
descend_to_store-StoreEnds zero height m p o es tree h u = absurd (omega arith)
descend_to_store-StoreEnds (suc fuel) zero m p o es tree h u = StoreEnds-at_leaf fuel m p o tree.0
descend_to_store-StoreEnds (suc fuel) (suc height) m p o es tree h u =
    let (c, fs, e, s, tree', r) =
      next_child-Kids m p (node_at o m) (IsTree m height) es tree.1 tree.2 tree.3 tree.4 tree.5 in
    StoreEnds-at_inner fuel m p o c tree.0 (s (IsNew-node_at m p o u)) e
      (descend_to_store-StoreEnds fuel height m p c fs tree' (omega arith) u)

-- In a tree that is lower than the fuel, and for a text that no key of a node has, the loop of
-- `find_node_to_store` ends, at a leaf, and the loop of the loader's search ends at the same leaf.
pub descend_to_store-leaf :
    (fuel height : ℕ) (m : Mem) (p : Str) (o : ℕ) (es : List (Str × ℕ))
    → IsTree m height o es
    → height < fuel
    → IsUnused m p m.nodes
    → (t : ℕ) × (descend_to_store fuel m p o ≡ ok t)
      × ((node_at t m).is_leaf ≡ true)
      × (descend fuel m p o ≡ ok (node_at t m))
unfolding StoreEnds
descend_to_store-leaf fuel height m p o es tree h u =
    let ends = descend_to_store-StoreEnds fuel height m p o es tree h u in
    (ends.0, ends.1, ends.2, ends.3)
