-- ===== src/TreeLoader/Latest.antt =====
-- `find_latest_inode` and `get_children` over all trees.
use zippy_fs.Common.{
  ◌^◌, ◌%◌, ◌*◌, no_fuel, ℕ, zero, suc, ◌+◌, ◌/◌, Bool, true, false, ◌&&◌, ◌||◌, Option, none, some,
  List, [], ◌∷◌, ◌++◌, Result, ok, err, out_of_bounds, ◌>>=◌, Str, str, str_beq, take, length,
  nat_beq, ltb, leb, if◌then◌else◌,
}
use zippy_fs.Common.Map.{find, insert, nat_key}
use zippy_fs.Block.{from_data}
use zippy_fs.Util.Names.{crypto_hash, parent_path, c_str}
use zippy_fs.Cache.State.{DiskInode, IndexEntry}
use zippy_fs.Index.Memory.{
  Mem, InodeCell, BlockData, hash_size, no_offset, inode_size, block_data_size,
}
use zippy_fs.TreeLoader.Search.{inode_offset}

-- What the loop over the trees carries: `latest`, with its `i_block_time`, and `latest_time`.
pub record Latest : Type 0 where
  pub info : DiskInode
  pub block_time : List (ℕ × ℕ)
  pub latest_time : ℕ

-- A cell of the file; where nothing was written it is all zeros.
unfoldable pub inode_at : ℕ → Mem → InodeCell
inode_at offset m = elim (find offset m.inodes) [
  | none ↦ record {
    mode = 0;
    nlink = 0;
    mtime = 0;
    ctime = 0;
    size = 0;
    deleted = 0;
    path = 0;
    path_size = 0;
    hash = 0;
    block_data = 0;
    block_data_bytes = 0;
  }
  | some cell ↦ cell
]

unfoldable pub block_at : ℕ → Mem → BlockData
block_at offset m = elim (find offset m.blocks) [
  | none ↦ record { block_id = 0; mtime = 0; size = 0; data_offset = 0 }
  | some cell ↦ cell
]

abbrev pub bytes_at : ℕ → Mem → List ℕ
bytes_at offset m = elim (find offset m.bytes) [ none ↦ [] | some bytes ↦ bytes ]

-- The attributes of an inode that is later than what there is.
unfoldable pub take_inode : Str → InodeCell → Latest → Latest
take_inode phash cell l =
    if ltb l.latest_time cell.mtime
    then record l {
      info = record l.info {
        i_mode = cell.mode;
        i_size = cell.size;
        i_nlink = cell.nlink;
        i_mtime = cell.mtime;
        i_ctime = cell.ctime;
        i_inode_id = phash;
        i_deleted = cell.deleted;
      };
      latest_time = cell.mtime;
    }
    else l

-- Whether a block is new, or not older than the one that there is.
abbrev pub is_later : ℕ → Option ℕ → Bool
is_later t none = true
is_later t (some old) = leb old t

-- One round of the loop over the blocks of an inode.
unfoldable pub take_block : Mem → BlockData → Latest → Result Latest
take_block m b l = elim (is_later b.mtime (find b.block_id l.block_time)) [
  | false ↦ ok l
  | true ↦ (do
    bp ← from_data (bytes_at b.data_offset m) b.size
    ok (record l {
      block_time = insert b.block_id b.mtime l.block_time;
      info = record l.info { i_block_data = insert b.block_id bp l.info.i_block_data };
    }))
]

-- The loop itself, a round for each description.
unfoldable pub take_blocks : ℕ → ℕ → Mem → Latest → Result Latest
unfolding take_block
take_blocks zero offset m l = ok l
take_blocks (suc rounds) offset m l = do
  l' ← take_block m (block_at offset m) l
  take_blocks rounds (offset + block_data_size) m l'

-- The number of descriptions of an inode: the loop goes up in steps of 32.
abbrev pub rounds_of : InodeCell → ℕ
rounds_of cell = (cell.block_data_bytes + 31) / block_data_size

-- The body of the loop over the trees, with whether the loop goes on: a tree without the path ends
-- it by `return`, and one whose inode has no blocks by `break`.
unfoldable pub take_tree : Str → Bool → Mem → Option ℕ → Latest → Result (Latest × Bool)
unfolding take_inode take_blocks
take_tree phash get_data m none l = ok (l, false)
take_tree phash false m (some offset) l = ok (take_inode phash (inode_at offset m) l, true)
take_tree phash true m (some offset) l =
    let cell = inode_at offset m in
    let l' = take_inode phash cell l in
    elim (nat_beq cell.block_data no_offset) [
      | true ↦ ok (l', false)
      | false ↦ (do l'' ← take_blocks (rounds_of cell) cell.block_data m l'; ok (l'', true))
    ]

-- The loop over the trees.
unfoldable pub search_trees : ℕ → Str → Bool → List Mem → Latest → Result Latest
unfolding take_tree
search_trees fuel phash get_data [] l = ok l
search_trees fuel phash get_data (m ∷ trees) l = do
  found ← inode_offset fuel m phash
  (l', goes_on) ← take_tree phash get_data m found l
  elim goes_on [ false ↦ ok l' | true ↦ search_trees fuel phash get_data trees l' ]

-- The record that `latest` is at first: `memory` is what stands in its uninitialised members.
abbrev pub nothing_found : ℕ → Latest
nothing_found memory = record {
  info = record {
    i_inode_id = [];
    i_mode = memory;
    i_nlink = memory;
    i_mtime = 0;
    i_ctime = memory;
    i_size = memory;
    i_deleted = memory;
    i_block_data = [];
  };
  block_time = [];
  latest_time = 0;
}

module _ (generichash : List ℕ → List ℕ) where
  -- `find_latest_inode(path, get_data)` over the mapped trees, which come in no certain order.
  -- With a hash of 128 bytes or more, `phash` is overrun or `strcmp` finds no NUL in it.
  unfoldable pub find_latest_inode : ℕ → ℕ → List Mem → Str → Bool → Result DiskInode
  unfolding search_trees
  find_latest_inode fuel memory trees path get_data = elim (nat_beq (length path) 0) [
    | true ↦ ok (nothing_found memory).info
    | false ↦ elim (ltb (length (crypto_hash generichash path)) hash_size) [
      | false ↦ err out_of_bounds
      | true ↦ (do
        l ← search_trees fuel (crypto_hash generichash path) get_data trees (nothing_found memory)
        ok l.info)
    ]
  ]

-- The path of an inode as `get_children` reads it.
unfoldable pub path_at : InodeCell → Mem → Str
path_at cell m = elim (find cell.path m.paths) [
  | none ↦ []
  | some path ↦ c_str (take cell.path_size path)
]

-- Whether an inode is listed: the root's children have an empty parent.
unfoldable pub is_child : Str → Str → Bool
is_child path strpath =
    let parent = parent_path strpath in
    (nat_beq (length parent) 0 && str_beq path (str "/")) || str_beq parent path

-- What is listed of an inode.
abbrev pub entry_at : ℕ → Mem → IndexEntry
entry_at offset m =
    let cell = inode_at offset m in
    record { path = path_at cell m; mtime = cell.mtime; deleted = cell.deleted }

-- The loop over the inodes of a tree. The counter has 32 bits, its limit 64: a list that does not
-- end below 2 ^ 32 is gone through for ever.
unfoldable pub children_of : ℕ → ℕ → ℕ → Str → Mem → Result (List IndexEntry)
unfolding path_at is_child
children_of zero ii last path m = err no_fuel
children_of (suc fuel) ii last path m = elim (ltb ii last) [
  | false ↦ ok []
  | true ↦ (do
    rest ← children_of fuel ((ii + inode_size) % 2 ^ 32) last path m
    ok (if is_child path (path_at (inode_at ii m) m) then entry_at ii m ∷ rest else rest))
]

-- `get_children(path)`, over the trees that `load_trees` maps anew. A round for each inode and one
-- more is enough for a list that ends below 2 ^ 32.
unfoldable pub get_children : List Mem → Str → Result (List IndexEntry)
unfolding children_of
get_children [] path = ok []
get_children (m ∷ trees) path = do
  let h = m.header
  let last = (h.inode_list + h.num_inodes * inode_size) % 2 ^ 64
  here ← children_of (suc h.num_inodes) (h.inode_list % 2 ^ 32) last path m
  there ← get_children trees path
  ok (here ++ there)
