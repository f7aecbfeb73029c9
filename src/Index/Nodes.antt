-- ===== src/Index/Nodes.antt =====
-- `find_node_to_store`, `insert_into_node` and `find` of bplus_index.cpp.
use zippy_fs.Common.{
  ℕ, zero, suc, ◌+◌, ◌-◌, ◌%◌, ◌^◌, Bool, true, false, ◌&&◌, ◌||◌, Option, none, some, List, [],
  ◌∷◌, Result, ok, err, out_of_bounds, no_fuel, ◌>>=◌, Str, str_beq, str_lt, take, drop, set, ltb,
  if◌then◌else◌,
}
use zippy_fs.Common.Splice.{copy_elem}
use zippy_fs.Index.Memory.{
  Mem, Node, max_keys, hash_size, node_at, put_node, text_at, at_index, live_keys,
}

-- The loop of `find_node_to_store` between the keys. Its last round is left out: there the first
-- test is of the last key against one that is not above it, and fails.
unfoldable pub between : Mem → Str → List ℕ → ℕ → ℕ → ℕ
between m key [] ii inner = inner
between m key (k ∷ []) ii inner = inner
between m key (k ∷ k' ∷ ks) ii inner =
    between m key (k' ∷ ks) (ii + 1)
      (if str_lt (text_at k m) key && str_lt key (text_at k' m) then ii else inner)

-- The child that one round goes on to. The loop starts at the second key.
unfoldable pub child_to_store : Mem → Str → Node → Result ℕ
unfolding between
child_to_store m key n = do
  first ← at_index n.keys 0
  (if str_lt key (text_at first m) then at_index n.children 0 else (do
    last ← at_index n.keys ((n.num_keys + 2 ^ 64 - 1) % 2 ^ 64)
    (if str_lt (text_at last m) key
        then at_index n.children n.num_keys
        else at_index n.children (between m key (drop 1 (live_keys n)) 1 0 + 1))))

-- The loop from a node on. A round for each level of the tree is enough.
unfoldable pub descend_to_store : ℕ → Mem → Str → ℕ → Result ℕ
descend_to_store zero m key offset = err no_fuel
descend_to_store (suc fuel) m key offset = elim (node_at offset m).is_leaf [
  | true ↦ ok offset
  | false ↦ (do next ← child_to_store m key (node_at offset m); descend_to_store fuel m key next)
]

-- Where `insert_into_node` puts a key: before the first larger one. Both are cut to 128 bytes.
unfoldable pub position : Mem → Str → List ℕ → ℕ → Option ℕ
position m new [] ii = none
position m new (k ∷ ks) ii =
    if str_lt (take hash_size new) (take hash_size (text_at k m))
    then some ii
    else position m new ks (suc ii)

-- The loop that moves the elements of an array from `ii` on up by one.
unfoldable pub shift_up : List ℕ → ℕ → ℕ → List ℕ → List ℕ
shift_up temp zero ii xs = xs
shift_up temp (suc rounds) ii xs = shift_up temp rounds (suc ii) (copy_elem temp ii (suc ii) xs)

-- The node with its entries from `cur_idx` on moved up.
unfoldable pub open_gap : ℕ → Node → Node
unfolding shift_up
open_gap cur_idx n = record n {
  keys = shift_up n.keys (n.num_keys - cur_idx) cur_idx n.keys;
  children = shift_up n.children (n.num_keys - cur_idx + 1) cur_idx n.children;
  values = shift_up n.values (n.num_keys - cur_idx) cur_idx n.values;
}

-- The place of the key, and the node with room at that place: behind the last key where none is
-- larger.
abbrev pub spot : Option ℕ → Node → ℕ
spot none n = n.num_keys
spot (some ii) n = ii

abbrev pub opened : Option ℕ → Node → Node
opened none n = n
opened (some ii) n = open_gap ii n

-- The writes at the place `cur_idx`.
abbrev pub filled : ℕ → ℕ → ℕ → Bool → ℕ → Node → ℕ × Node
filled cur_idx k v isleft child n =
    let keyed = record n { keys = set n.keys cur_idx k; num_keys = n.num_keys + 1 } in
    let below : ℕ = if isleft then cur_idx else cur_idx + 1 in
    if n.is_leaf
    then (cur_idx, record keyed { values = set keyed.values cur_idx v })
    else (below, record keyed { children = set keyed.children below child })

-- What `insert_into_node` makes of the node. In a full one it writes outside the arrays.
unfoldable pub insert_entry : Mem → ℕ → ℕ → Bool → ℕ → Node → Result (ℕ × Node)
unfolding position open_gap
insert_entry m k v isleft child n = elim (ltb n.num_keys max_keys) [
  | false ↦ err out_of_bounds
  | true ↦
      (let found = position m (text_at k m) (live_keys n) 0 in
        ok (filled (spot found n) k v isleft child (opened found n)))
]

-- `insert_into_node(nodeoffset, k, v, isleft, child)`.
unfoldable pub insert_into_node : ℕ → ℕ → ℕ → Bool → ℕ → Mem → Result (ℕ × Mem)
unfolding insert_entry
insert_into_node offset k v isleft child m = do
  (cur_idx, n) ← insert_entry m k v isleft child (node_at offset m)
  ok (cur_idx, put_node offset n m)

-- The loop of `find` over the keys of a leaf.
unfoldable pub has_key : Mem → Str → List ℕ → Bool
has_key m p [] = false
has_key m p (k ∷ ks) = str_beq (text_at k m) p || has_key m p ks
