-- ===== src/Tests/Forest.antt =====
-- Small trees of an index.
use zippy_fs.Common.{
  ℕ, refl, true, false, List, [], ◌∷◌, ◌++◌, arith, replicate, take, Str, str, str_lt, length, ◌-◌,
  Bool,
}
use zippy_fs.Common.Map.{find, nat_key}
use zippy_fs.Tire
use zippy_fs.Index.Memory.{Mem, Node, InodeCell, node_at, text_at, no_offset, max_keys}
use zippy_fs.Index.Entries.{IsTree, Ascending, last_kid, more_kids, AllBelow, AllFrom, leaf_entries}
use zippy_fs.Index.Add.{empty_mem}

abbrev pub node_of : Bool → List ℕ → List ℕ → List ℕ → Node
node_of is_leaf keys children values = record {
  parent = no_offset;
  keys = keys ++ replicate (max_keys - length keys) 0;
  num_keys = length keys;
  is_leaf = is_leaf;
  children = children ++ replicate (24 - length children) 0;
  values = values ++ replicate (max_keys - length values) 0;
}

-- The first two bytes of what is hashed.
abbrev pub short_hash : List ℕ → List ℕ
short_hash content = take 2 content

abbrev pub cell_of : ℕ → ℕ → InodeCell
cell_of path mtime = record {
  mode = 0o100644;
  nlink = 1;
  mtime = mtime;
  ctime = 3;
  size = 6;
  deleted = 0;
  path = path;
  path_size = 2;
  hash = 0;
  block_data = no_offset;
  block_data_bytes = 0;
}

-- The hashes of /a, /c and, in no node, /b.
abbrev pub hashes : List (ℕ × Str)
hashes = (1000, str "2F61") ∷ (1128, str "2F63") ∷ (1256, str "2F62") ∷ []

-- A root over two leaves, with /a and /c.
abbrev pub two_leaves : Mem
two_leaves = record empty_mem {
  tire = record Tire.make { index_to_offset = (1, 24) ∷ [] };
  header = record { num_inodes = 2; inode_list = 5000; root = 24 };
  nodes =
      (24, node_of false (1128 ∷ []) (700 ∷ 1300 ∷ []) [])
      ∷ (700, node_of true (1000 ∷ []) [] (5000 ∷ []))
      ∷ (1300, node_of true (1128 ∷ []) [] (5080 ∷ []))
      ∷ [];
  inodes = (5000, cell_of 2000 4) ∷ (5080, cell_of 2002 5) ∷ [];
  texts = hashes;
  paths = (2000, str "/a") ∷ (2002, str "/c") ∷ [];
}

-- A leaf with /c alone, and a newer inode.
abbrev pub one_leaf : Mem
one_leaf = record empty_mem {
  header = record { num_inodes = 1; inode_list = 5000; root = 24 };
  nodes = (24, node_of true (1128 ∷ []) [] (5000 ∷ [])) ∷ [];
  inodes = (5000, cell_of 2002 9) ∷ [];
  texts = hashes;
  paths = (2002, str "/c") ∷ [];
}

abbrev pub a_entry : List (Str × ℕ)
a_entry = (str "2F61", 5000) ∷ []

abbrev pub c_entry : List (Str × ℕ)
c_entry = (str "2F63", 5080) ∷ []

pub two_leaves-IsTree : IsTree two_leaves 1 24 (a_entry ++ c_entry)
unfolding IsTree Ascending leaf_entries node_at text_at find str_lt replicate AllBelow AllFrom
two_leaves-IsTree = (
  refl,
  omega arith,
  omega arith,
  omega arith,
  tt,
  more_kids {k = 1128} {c = 700} {ks = []} {cs = 1300 ∷ replicate 22 0} {es = a_entry}
      {fs = c_entry} (refl, refl) (refl, tt) (refl, tt)
      (last_kid {c = 1300} {cs = replicate 22 0} {es = c_entry} (refl, refl)),
)

pub one_leaf-IsTree : IsTree one_leaf 0 24 ((str "2F63", 5000) ∷ [])
unfolding IsTree leaf_entries node_at text_at find replicate
one_leaf-IsTree = (refl, refl)
