-- ===== src/TreeLoader/Search.antt =====
-- The search of one tree in `find_latest_inode`.
use zippy_fs.Common.{
  ℕ, zero, suc, ◌+◌, ◌-◌, ◌%◌, ◌^◌, true, false, ◌&&◌, not, Option, none, some, List, [], ◌∷◌,
  Result, ok, err, no_fuel, uncaught, ◌>>=◌, or_fault, Str, str_beq, str_lt, drop, if◌then◌else◌,
}
use zippy_fs.Index.Memory.{Mem, Node, node_at, text_at, at_index, live_keys}

-- The loop over the keys in the middle of a node; the last pair that fits decides. `cs` are the
-- children from the second on.
unfoldable pub middle : Mem → Str → List ℕ → List ℕ → Option ℕ → Option ℕ
middle m phash [] cs found = found
middle m phash (k ∷ []) cs found = found
middle m phash (k ∷ k' ∷ ks) [] found = found
middle m phash (k ∷ k' ∷ ks) (c ∷ cs) found =
    middle m phash (k' ∷ ks) cs
      (if not (str_lt phash (text_at k m)) && str_lt phash (text_at k' m) then some c else found)

-- The child that a round goes on to; where there is none it throws.
unfoldable pub next_child : Mem → Str → Node → Result ℕ
unfolding middle
next_child m phash n = do
  first ← at_index n.keys 0
  (if str_lt phash (text_at first m) then at_index n.children 0 else (do
    last ← at_index n.keys ((n.num_keys + 2 ^ 64 - 1) % 2 ^ 64)
    (if not (str_lt phash (text_at last m))
        then at_index n.children n.num_keys
        else or_fault (middle m phash (live_keys n) (drop 1 n.children) none) uncaught)))

-- The endless loop down to a leaf. A round for each level of the tree is enough.
unfoldable pub descend : ℕ → Mem → Str → ℕ → Result Node
descend zero m phash offset = err no_fuel
descend (suc fuel) m phash offset = elim (node_at offset m).is_leaf [
  | true ↦ ok (node_at offset m)
  | false ↦ (do next ← next_child m phash (node_at offset m); descend fuel m phash next)
]

-- The loop over the keys of the leaf, along its values.
unfoldable pub scan : Mem → Str → List ℕ → List ℕ → Option ℕ
scan m phash [] vs = none
scan m phash (k ∷ ks) [] = none
scan m phash (k ∷ ks) (v ∷ vs) = if str_beq (text_at k m) phash then some v else scan m phash ks vs

-- The offset of the inode of a path in one tree.
unfoldable pub inode_offset : ℕ → Mem → Str → Result (Option ℕ)
unfolding descend scan
inode_offset fuel m phash = do
  leaf ← descend fuel m phash m.header.root
  ok (scan m phash (live_keys leaf) leaf.values)
