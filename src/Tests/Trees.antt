-- ===== src/Tests/Trees.antt =====
-- The theorems on the trees of an index, applied.
use zippy_fs.Common.{
  ℕ, ◌≡◌, refl, true, false, [], ◌∷◌, ◌++◌, arith, replicate, Str, str, str_beq, str_lt, some, none,
  length, ok, AllOk, inr, inl, nat_beq, Bool-cases, sym, str_beq_iff, ◌≢◌, ◌<◌, subst,
}
use zippy_fs.Common.Map.{find, nat_key}
use zippy_fs.Util.Names.{crypto_hash, binary_to_hex, hex_loop, copied, c_str, byte_hex}
use zippy_fs.Cache.State.{in_cache}
use zippy_fs.Index.Memory.{
  Node, zero_node, node_at, text_at, no_offset, live_keys, max_keys, place_of,
}
use zippy_fs.Index.Entries.{IsLeaf, AllShort, leaf_entries, lookup, insert_sorted}
use zippy_fs.Index.Nodes.{descend_to_store, child_to_store, between, insert_entry}
use zippy_fs.Index.Insert.{insert_entry-insert_sorted}
use zippy_fs.Index.Split.{Rooted}
use zippy_fs.Index.Add.{insert_key}
use zippy_fs.Index.Store.{IsUnused, IsNew}
use zippy_fs.TreeLoader.Search.{descend, inode_offset}
use zippy_fs.TreeLoader.Descent.{inode_offset-lookup}
use zippy_fs.TreeLoader.Stored.{descend_to_store-leaf}
use zippy_fs.TreeLoader.Added.{insert_key-inode_offset}
use zippy_fs.TreeLoader.Latest.{
  find_latest_inode, inode_at, search_trees, nothing_found, Latest, get_children,
}
use zippy_fs.TreeLoader.Taken.{Hold, hold_none, hold_one}
use zippy_fs.TreeLoader.Newest.{find_latest_inode-stops}
use zippy_fs.TreeLoader.Reported.{loader_of, ReportsNewest, getattr-newest}
use zippy_fs.Inode.{Stat}
use zippy_fs.Fuse.{zero_stat}
use zippy_fs.Cache.Files.{getattr}
use zippy_fs.Tests.{no_files, abc}
use zippy_fs.TreeLoader.Listing.{in_directory, all_entries, get_children-in_directory}
use zippy_fs.TreeLoader.Times.{Rises, Dated, search_trees-Rises}
use zippy_fs.Tests.Forest.{
  node_of, short_hash, cell_of, two_leaves, one_leaf, a_entry, c_entry, two_leaves-IsTree,
  one_leaf-IsTree,
}

-- Both entries are found.
inode_offset-lookup_example :
    inode_offset 2 two_leaves (str "2F63") ≡ ok (lookup (str "2F63") (a_entry ++ c_entry))
inode_offset-lookup_example =
    inode_offset-lookup 2 1 two_leaves (str "2F63") (a_entry ++ c_entry) two_leaves-IsTree
      (omega arith)

other_text : (a b : Str) → str_beq a b ≡ false → a ≢ b
other_text a b e h = absurd (cc ((str_beq_iff a b).1 h, e))

b-IsUnused : IsUnused two_leaves (str "2F62") two_leaves.nodes
unfolding IsUnused IsNew text_at find replicate str_beq
b-IsUnused =
    let a_other = other_text (str "2F61") (str "2F62") refl in
    let c_other = other_text (str "2F63") (str "2F62") refl in
    ((c_other, tt), ((a_other, tt), ((c_other, tt), tt)))

descend_to_store-leaf_example :
    (t : ℕ) × (descend_to_store 2 two_leaves (str "2F62") 24 ≡ ok t)
    × ((node_at t two_leaves).is_leaf ≡ true)
    × (descend 2 two_leaves (str "2F62") 24 ≡ ok (node_at t two_leaves))
descend_to_store-leaf_example =
    descend_to_store-leaf 2 1 two_leaves (str "2F62") 24 (a_entry ++ c_entry) two_leaves-IsTree
      (omega arith) b-IsUnused

abbrev rooted : Rooted
rooted = record { mem = two_leaves; rootidx = 1 }

-- /b belongs into the first leaf.
b_place : descend_to_store 4 two_leaves (str "2F62") 24 ≡ ok 700
unfolding descend_to_store child_to_store between node_at text_at find str_lt replicate
b_place = refl

b_text : text_at 1256 two_leaves ≡ str "2F62"
unfolding text_at find
b_text = refl

node_at-IsLeaf : IsLeaf (node_at 700 two_leaves)
unfolding IsLeaf node_at find replicate
node_at-IsLeaf = (refl, refl, refl, omega arith)

a_short : AllShort two_leaves (live_keys (node_at 700 two_leaves))
unfolding AllShort node_at text_at find replicate
a_short = (omega arith, tt)

a_room : (node_at 700 two_leaves).num_keys < max_keys
unfolding node_at find
a_room = omega arith

root_place : place_of 1 two_leaves ≡ ok 24
unfolding find
root_place = refl

insert_key-inode_offset_example :
    (r' : Rooted) × (insert_key (λ n. 4096) (str "2F62") 1256 5160 rooted ≡ ok r')
    × (inode_offset 4 r'.mem (str "2F62") ≡ ok (some 5160))
unfolding text_at find str_beq
insert_key-inode_offset_example =
    insert_key-inode_offset (λ n. 4096) 1 rooted 1256 5160 700 (a_entry ++ c_entry) (str "2F62")
      root_place two_leaves-IsTree (omega arith) b-IsUnused b_place node_at-IsLeaf a_room
      (omega arith) a_short

insert_entry-insert_sorted_example :
    (i : ℕ) × (n' : Node) × (insert_entry two_leaves 1256 5160 false no_offset
        (node_at 700 two_leaves)
      ≡ ok (i, n'))
    × IsLeaf n'
    × (n'.num_keys ≡ 2)
    × (leaf_entries two_leaves n' ≡ a_entry ++ ((str "2F62", 5160) ∷ []))
    × (n'.parent ≡ no_offset)
unfolding node_at text_at find leaf_entries insert_sorted str_lt
insert_entry-insert_sorted_example =
    insert_entry-insert_sorted two_leaves 1256 5160 false no_offset (node_at 700 two_leaves)
      node_at-IsLeaf a_room (omega arith) a_short

-- A leaf with its 23 places in use.
abbrev full_leaf : Node
full_leaf = record (node_of true (replicate 23 1000) [] (replicate 23 5000)) { num_keys = 23 }

full_leaf-IsLeaf : IsLeaf full_leaf
unfolding IsLeaf replicate
full_leaf-IsLeaf = (refl, refl, refl, omega arith)

zero_node-IsLeaf : IsLeaf (record zero_node { is_leaf = true })
unfolding IsLeaf zero_node replicate
zero_node-IsLeaf = (refl, refl, refl, omega arith)

c_hash : crypto_hash short_hash (str "/c") ≡ str "2F63"
unfolding crypto_hash binary_to_hex hex_loop copied c_str byte_hex replicate
c_hash = refl

c_short : length (crypto_hash short_hash (str "/c")) < 128
c_short = rw c_hash (omega arith)

c_cells : Hold 2 (str "2F63") (two_leaves ∷ one_leaf ∷ []) (cell_of 2002 5 ∷ cell_of 2002 9 ∷ [])
unfolding lookup inode_at find str_beq
c_cells =
    hold_one 1 (a_entry ++ c_entry) 5080 two_leaves-IsTree (omega arith) refl
      (hold_one 0 ((str "2F63", 5000) ∷ []) 5000 one_leaf-IsTree (omega arith) refl hold_none)

a_hash : crypto_hash short_hash (str "/a") ≡ str "2F61"
unfolding crypto_hash binary_to_hex hex_loop copied c_str byte_hex replicate
a_hash = refl

a_cells : Hold 2 (str "2F61") (two_leaves ∷ []) (cell_of 2000 4 ∷ [])
unfolding lookup inode_at find str_beq
a_cells = hold_one 1 (a_entry ++ c_entry) 5000 two_leaves-IsTree (omega arith) refl hold_none

no_a : lookup (crypto_hash short_hash (str "/a")) ((str "2F63", 5000) ∷ []) ≡ none
unfolding lookup str_beq
no_a = rw a_hash refl

find_latest_inode-stops_example :
    find_latest_inode short_hash 2 0 (two_leaves ∷ one_leaf ∷ two_leaves ∷ []) (str "/a") false
    ≡ find_latest_inode short_hash 2 0 (two_leaves ∷ []) (str "/a") false
find_latest_inode-stops_example =
    find_latest_inode-stops short_hash 2 0 0 (two_leaves ∷ []) (two_leaves ∷ []) one_leaf (str "/a")
      (cell_of 2000 4 ∷ []) ((str "2F63", 5000) ∷ []) (omega arith) (rw a_hash (omega arith))
      (subst (λ p. Hold 2 p (two_leaves ∷ []) (cell_of 2000 4 ∷ [])) (sym a_hash) a_cells)
      one_leaf-IsTree (omega arith) no_a

-- /a and /c lie in the root, and /c stands in both trees.
get_children-in_directory_example :
    get_children (two_leaves ∷ one_leaf ∷ []) (str "/")
    ≡ ok (in_directory (str "/") (all_entries (two_leaves ∷ one_leaf ∷ [])))
get_children-in_directory_example =
    get_children-in_directory (two_leaves ∷ one_leaf ∷ []) (str "/")
      (omega arith, (omega arith, tt))

-- What was gathered before: a block 0 of time 3.
abbrev gathered : Latest
gathered = record (nothing_found 0) {
  block_time = (0, 3) ∷ [];
  info = record (nothing_found 0).info { i_block_data = (0, abc) ∷ [] };
}

gathered-Dated : Dated gathered
unfolding Dated find
gathered-Dated id = elim (Bool-cases (nat_beq id 0)) [ inl h ↦ rw h tt | inr h ↦ rw h tt ]

search_trees-Rises_example :
    AllOk
      (λ l'. Dated l' × Rises gathered.block_time l'.block_time)
      (search_trees 2 (str "2F63") true (two_leaves ∷ one_leaf ∷ []) gathered)
search_trees-Rises_example =
    search_trees-Rises 2 (str "2F63") true (two_leaves ∷ one_leaf ∷ []) gathered gathered-Dated

getattr-newest_example :
    (st' : Stat) × (getattr short_hash
        (loader_of short_hash 2 0 (two_leaves ∷ one_leaf ∷ []))
        (str "/c")
        zero_stat
        no_files
      ≡ ok (0, st'))
    × ReportsNewest
        (cell_of 2002 5 ∷ cell_of 2002 9 ∷ [])
        st'
        (cell_of 2002 5 ∷ cell_of 2002 9 ∷ [])
unfolding in_cache find str_beq
getattr-newest_example =
    getattr-newest short_hash 2 0 (two_leaves ∷ one_leaf ∷ []) (str "/c") zero_stat no_files
      (cell_of 2002 5) (cell_of 2002 9 ∷ []) refl (omega arith) c_short
      (subst (λ p. Hold 2 p (two_leaves ∷ one_leaf ∷ []) (cell_of 2002 5 ∷ cell_of 2002 9 ∷ []))
        (sym c_hash) c_cells)
      (omega arith)
