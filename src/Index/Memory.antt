-- ===== src/Index/Memory.antt =====
-- The records of bplus_index.h, and the file of a tree as its typed cells. A pointer into the file
-- is kept as its offset from where the file is mapped, which is what `TireFire` says of an index.
use zippy_fs.Common.{
  ℕ, ◌-◌, ◌^◌, Bool, false, none, some, List, [], Result, null_deref, out_of_bounds, or_fault, Str,
  replicate, get_elem?, take,
}
use zippy_fs.Common.Map.{find, insert, nat_key}
use zippy_fs.Tire.{TireFire, get_tire}

-- `ORDER - 1` keys, and the bytes kept for a hash.
abbrev pub max_keys : ℕ
max_keys = 23

abbrev pub hash_size : ℕ
hash_size = 128

-- `-1` as the 64 bits of an offset.
abbrev pub no_offset : ℕ
no_offset = 2 ^ 64 - 1

-- `sizeof` of the records, on a machine of 64 bits.
abbrev pub header_size : ℕ
header_size = 24

abbrev pub node_size : ℕ
node_size = 584

abbrev pub inode_size : ℕ
inode_size = 80

abbrev pub block_data_size : ℕ
block_data_size = 32

pub record Header : Type 0 where
  pub num_inodes : ℕ
  pub inode_list : ℕ
  pub root : ℕ

-- `BPLUSIndex::inode`.
pub record InodeCell : Type 0 where
  pub mode : ℕ
  pub nlink : ℕ
  pub mtime : ℕ
  pub ctime : ℕ
  pub size : ℕ
  pub deleted : ℕ
  pub path : ℕ
  pub path_size : ℕ
  pub hash : ℕ
  pub block_data : ℕ
  pub block_data_bytes : ℕ

pub record BlockData : Type 0 where
  pub block_id : ℕ
  pub mtime : ℕ
  pub size : ℕ
  pub data_offset : ℕ

-- `BPLUSIndex::node`: its three arrays have 23, 24 and 23 places.
pub record Node : Type 0 where
  pub parent : ℕ
  pub keys : List ℕ
  pub num_keys : ℕ
  pub is_leaf : Bool
  pub children : List ℕ
  pub values : List ℕ

-- A node in memory that nothing was written to: a new file is all zeros, and the initialisers of
-- `node` do not run.
unfoldable pub zero_node : Node
unfolding replicate
zero_node = record {
  parent = 0;
  keys = replicate max_keys 0;
  num_keys = 0;
  is_leaf = false;
  children = replicate 24 0;
  values = replicate max_keys 0;
}

-- The file and its allocator. The header stands at the start of the file, the cells at their
-- offsets; `texts` are the hashes, `paths` and `bytes` what `memcpy` put there.
pub record Mem : Type 0 where
  pub tire : TireFire
  pub header : Header
  pub nodes : List (ℕ × Node)
  pub inodes : List (ℕ × InodeCell)
  pub blocks : List (ℕ × BlockData)
  pub texts : List (ℕ × Str)
  pub paths : List (ℕ × Str)
  pub bytes : List (ℕ × List ℕ)

unfoldable pub node_at : ℕ → Mem → Node
unfolding zero_node
node_at offset m = elim (find offset m.nodes) [ none ↦ zero_node | some n ↦ n ]

abbrev pub put_node : ℕ → Node → Mem → Mem
put_node offset n m = record m { nodes = insert offset n m.nodes }

-- The C string at an offset.
unfoldable pub text_at : ℕ → Mem → Str
text_at offset m = elim (find offset m.texts) [ none ↦ [] | some s ↦ s ]

-- `get_memory(index)`, dereferenced.
abbrev pub place_of : ℕ → Mem → Result ℕ
place_of index m = or_fault (find index m.tire.index_to_offset) null_deref

-- `mem_.get_tire(size)`; `maps` gives the address that the system maps the file to in each call.
unfoldable pub allocate : (ℕ → ℕ) → ℕ → Mem → ℕ × Mem
allocate maps size m =
    let (index, tire) = get_tire (maps m.tire.latest_index) size m.tire in
    (index, record m { tire = tire })

-- An element of an array.
abbrev pub at_index : List ℕ → ℕ → Result ℕ
at_index xs i = or_fault (get_elem? xs i) out_of_bounds

-- The keys in use.
abbrev pub live_keys : Node → List ℕ
live_keys n = take n.num_keys n.keys
