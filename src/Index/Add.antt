-- ===== src/Index/Add.antt =====
-- `add_inode` and `find` of bplus_index.cpp.
use zippy_fs.Common.{
  ℕ, ◌+◌, ◌*◌, ◌%◌, ◌^◌, Bool, true, false, not, none, some, List, [], ◌∷◌, Result, ok,
  out_of_bounds, uncaught, check, ◌>>=◌, Str, length, set, take, leb, nat_beq, ltb, if◌then◌else◌,
  ◌||◌,
}
use zippy_fs.Common.Map.{find, insert, nat_key}
use zippy_fs.Block.{Block, get_data_ar, get_actual_size, physical_size}
use zippy_fs.Util.Names.{c_str}
use zippy_fs.Inode.{Inode, get_mode}
use zippy_fs.Tire.{get_offset}
use zippy_fs.Tire
use zippy_fs.Index.Memory.{
  Mem, InodeCell, BlockData, max_keys, hash_size, no_offset, header_size, node_size, inode_size,
  block_data_size, node_at, put_node, place_of, allocate, live_keys,
}
use zippy_fs.Index.Nodes.{descend_to_store, insert_into_node, has_key}
use zippy_fs.Index.Split.{Rooted, split_insert_node}

-- The members of `BPLUSIndex`. `has_root` says that `root_ptr_` is not null.
pub record BplusIndex : Type 0 where
  pub num_ents : ℕ
  pub num_blocks : ℕ
  pub path_size : ℕ
  pub block_size : ℕ
  pub has_root : Bool
  pub rooted : Rooted
  pub headeridx : ℕ
  pub path_arr_idx : ℕ
  pub cur_path_idx : ℕ
  pub inode_arr_idx : ℕ
  pub cur_inode_arr_idx : ℕ
  pub block_arr_idx : ℕ
  pub cur_block_arr_idx : ℕ
  pub bd_arr_idx : ℕ
  pub cur_bd_arr_idx : ℕ
  pub hash_arr_idx : ℕ
  pub cur_hash_arr_idx : ℕ

abbrev pub empty_mem : Mem
empty_mem = record {
  tire = Tire.make;
  header = record { num_inodes = 0; inode_list = 0; root = 0 };
  nodes = [];
  inodes = [];
  blocks = [];
  texts = [];
  paths = [];
  bytes = [];
}

-- `BPLUSIndex(num_ents, blocksize, num_blocks, path_size)`.
unfoldable pub make : ℕ → ℕ → ℕ → ℕ → BplusIndex
make num_ents blocksize num_blocks path_size = record {
  num_ents = num_ents;
  num_blocks = num_blocks;
  path_size = path_size;
  block_size = blocksize;
  has_root = false;
  rooted = record { mem = empty_mem; rootidx = 0 };
  headeridx = 0;
  path_arr_idx = 0;
  cur_path_idx = 0;
  inode_arr_idx = 0;
  cur_inode_arr_idx = 0;
  block_arr_idx = 0;
  cur_block_arr_idx = 0;
  bd_arr_idx = 0;
  cur_bd_arr_idx = 0;
  hash_arr_idx = 0;
  cur_hash_arr_idx = 0;
}

abbrev pub mem_of : BplusIndex → Mem
mem_of b = b.rooted.mem

abbrev pub set_mem : Mem → BplusIndex → BplusIndex
set_mem m b = record b { rooted = record b.rooted { mem = m } }

-- The loop over the dirty blocks: the descriptions one behind the other, and the bytes of the
-- blocks likewise. `bd_off` and `data_off` are where the two arrays start.
unfoldable pub add_blocks_of :
    ℕ → ℕ → List (ℕ × ℕ) → List (ℕ × Block) → BplusIndex → Result BplusIndex
add_blocks_of bd_off data_off mtimes [] b = ok b
add_blocks_of bd_off data_off mtimes ((id, block) ∷ rest) b = do
  let size = get_actual_size block
  u ← check (leb size physical_size) out_of_bounds
  let at = (data_off + b.cur_block_arr_idx) % 2 ^ 64
  let m = mem_of b
  let cell : BlockData = record {
    block_id = id;
    size = size;
    data_offset = at;
    mtime = elim (find id mtimes) [ none ↦ 0 | some t ↦ t ];
  }
  add_blocks_of bd_off data_off mtimes rest
      (record (set_mem
        (record m {
          blocks = insert ((bd_off + b.cur_bd_arr_idx * block_data_size) % 2 ^ 64) cell m.blocks;
          bytes = insert at (take size (get_data_ar block)) m.bytes;
        })
        b) {
          cur_block_arr_idx = (b.cur_block_arr_idx + size) % 2 ^ 64;
          cur_bd_arr_idx = b.cur_bd_arr_idx + 1;
        })

module _ (maps : ℕ → ℕ) where
  -- The branch for the first inode: the header, the root and the arrays.
  unfoldable pub start : BplusIndex → Result BplusIndex
  start b = do
    let (headeridx, m₁) = allocate maps header_size (mem_of b)
    let (rootidx, m₂) = allocate maps node_size m₁
    root ← place_of rootidx m₂
    let m₃ =
        put_node root
          (record (node_at root m₂) { is_leaf = true; num_keys = 1; parent = no_offset }) m₂
    let (inode_arr_idx, m₄) = allocate maps (inode_size * b.num_ents % 2 ^ 64) m₃
    inode_list ← place_of inode_arr_idx m₄
    let m₅ = record m₄ {
      header = record { num_inodes = b.num_ents; root = root; inode_list = inode_list };
    }
    let (block_arr_idx, m₆) = allocate maps b.block_size m₅
    let (bd_arr_idx, m₇) = allocate maps (b.num_blocks * block_data_size % 2 ^ 64) m₆
    let (hash_arr_idx, m₈) = allocate maps (b.num_ents * hash_size % 2 ^ 64) m₇
    let (path_arr_idx, m₉) = allocate maps b.path_size m₈
    ok (record b {
      has_root = true;
      rooted = record { mem = m₉; rootidx = rootidx };
      headeridx = headeridx;
      inode_arr_idx = inode_arr_idx;
      cur_inode_arr_idx = 0;
      block_arr_idx = block_arr_idx;
      cur_block_arr_idx = 0;
      bd_arr_idx = bd_arr_idx;
      hash_arr_idx = hash_arr_idx;
      cur_hash_arr_idx = 0;
      path_arr_idx = path_arr_idx;
      cur_path_idx = 0;
    })

  -- The insertion of the key and the value at the end of `add_inode`. A round for each node is
  -- enough for the search and for the splits, which follow one path of the tree.
  unfoldable pub insert_key : Str → ℕ → ℕ → Rooted → Result Rooted
  insert_key id key_of inode_of r = do
    root ← place_of r.rootidx r.mem
    let fuel = length r.mem.nodes + 1
    target ← descend_to_store fuel r.mem id root
    (if nat_beq (node_at target r.mem).num_keys max_keys
        then split_insert_node maps fuel target key_of inode_of false no_offset r
        else (do
          (at, m) ← insert_into_node target key_of inode_of false no_offset r.mem
          ok (record r { mem = m })))

  -- The root with its one entry.
  unfoldable pub first_key : ℕ → ℕ → Rooted → Result Rooted
  first_key key_of inode_of r = do
    root ← place_of r.rootidx r.mem
    let n = node_at root r.mem
    ok (record r {
      mem =
          put_node root (record n { keys = set n.keys 0 key_of; values = set n.values 0 inode_of })
            r.mem;
    })

  -- `add_inode(in, dirty_blocks, block_mtime)`. An id of 128 bytes or more would have no
  -- NUL behind it, or run over the next hash.
  unfoldable pub add_inode :
      Inode → List (ℕ × Block) → List (ℕ × ℕ) → BplusIndex → Result BplusIndex
  unfolding start insert_key first_key add_blocks_of
  add_inode i dirty_blocks block_mtime b₀ = do
    let isroot = not b₀.has_root
    b ← elim isroot [ true ↦ start b₀ | false ↦ ok b₀ ]
    let m = mem_of b
    path_arr ← place_of b.path_arr_idx m
    hash_arr ← place_of b.hash_arr_idx m
    inode_arr ← place_of b.inode_arr_idx m
    bd_arr ← place_of b.bd_arr_idx m
    block_arr ← place_of b.block_arr_idx m
    u ← check (ltb (length i.inode_id) hash_size) out_of_bounds
    mode ← get_mode i
    let path_of = (path_arr + b.cur_path_idx) % 2 ^ 64
    let key_of = (hash_arr + b.cur_hash_arr_idx) % 2 ^ 64
    let inode_of = (b.cur_inode_arr_idx * inode_size + inode_arr) % 2 ^ 64
    let initial_bdidx = b.cur_bd_arr_idx
    b₁ ← add_blocks_of bd_arr block_arr block_mtime dirty_blocks (
        set_mem
          (record m {
            paths = insert path_of i.path m.paths;
            texts = insert key_of (c_str i.inode_id) m.texts;
          })
          b)
    let m₁ = mem_of b₁
    let some_blocks = ltb 0 (length dirty_blocks)
    let cell : InodeCell = record {
      mode = mode;
      nlink = i.nlink;
      mtime = i.ul_mtime;
      ctime = i.ul_ctime;
      size = i.size;
      deleted = i.deleted;
      hash = key_of;
      path = path_of;
      path_size = length i.path;
      block_data =
          if some_blocks then (bd_arr + initial_bdidx * block_data_size) % 2 ^ 64 else no_offset;
      block_data_bytes = if some_blocks then block_data_size * length dirty_blocks else 0;
    }
    let r = record b₁.rooted { mem = record m₁ { inodes = insert inode_of cell m₁.inodes } }
    r' ← elim isroot [
      | true ↦ first_key key_of inode_of r
      | false ↦ insert_key (c_str i.inode_id) key_of inode_of r
    ]
    ok (record b₁ {
      rooted = r';
      cur_inode_arr_idx = b.cur_inode_arr_idx + 1;
      cur_hash_arr_idx = b.cur_hash_arr_idx + hash_size;
      cur_path_idx = (b.cur_path_idx + length i.path) % 2 ^ 64;
    })

-- `find(p)`, for a tree that has a root; without one `find_node_to_store` throws.
unfoldable pub find_key : Str → BplusIndex → Result Bool
find_key p b = do
  u ← check b.has_root uncaught
  root ← place_of b.rooted.rootidx (mem_of b)
  noff ← descend_to_store (length (mem_of b).nodes + 1) (mem_of b) (c_str p) root
  ok (
      if nat_beq noff 0 || nat_beq noff no_offset
      then false
      else has_key (mem_of b) (c_str p) (live_keys (node_at noff (mem_of b))))
