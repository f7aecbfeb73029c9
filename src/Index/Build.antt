-- ===== src/Index/Build.antt =====
-- The calls of `add_inode` that fill one tree, and what each of them writes.
pub mod Step
pub mod Keyed
pub mod All
pub mod Ids
use zippy_fs.Common.{
  true, ℕ, suc, ◌+◌, ◌*◌, ◌≤◌, ◌<◌, ◌≡◌, ◌^◌, some, List, [], ◌∷◌, Result, ok, ◌>>=◌, Str, length,
  ltb, if◌then◌else◌,
}
use zippy_fs.Common.Map.{find, nat_key}
use zippy_fs.Block.{Block}
use zippy_fs.Util.Names.{c_str}
use zippy_fs.Inode.{Inode, get_mode}
use zippy_fs.Index.Memory.{Mem, InodeCell, hash_size, inode_size, block_data_size, no_offset}
use zippy_fs.Index.Entries.{insert_sorted}
use zippy_fs.Index.Add.{BplusIndex, mem_of, add_inode}
use zippy_fs.Index.Cells.{Keeps, AllFit, bytes_of, LaidBlocks}
use zippy_fs.Index.AddKey.{RootLeaf}
use zippy_fs.Index.Started.{Layout, Places}

-- The arguments of one `add_inode`, with the blocks that the pointers lead to.
pub record Item : Type 0 where
  pub inode : Inode
  pub dirty_blocks : List (ℕ × Block)
  pub block_mtime : List (ℕ × ℕ)

-- The loop of `flush_to_disk` over the inodes.
unfoldable pub add_inodes : (ℕ → ℕ) → List Item → BplusIndex → Result BplusIndex
add_inodes maps [] b = ok b
add_inodes maps (a ∷ rest) b = do
  b' ← add_inode maps a.inode a.dirty_blocks a.block_mtime b
  add_inodes maps rest b'

-- What an inode has to be to go into the tree: it has a mode and a path, its id has room for the
-- NUL behind it, and its blocks are no larger than their arrays.
pub record IsItem (a : Item) (mode : ℕ) : Type 0 where
  pub moded : get_mode a.inode ≡ ok mode
  pub named : 1 ≤ length a.inode.path
  pub short : length a.inode.inode_id < hash_size
  pub fit : AllFit a.dirty_blocks

-- Positions in the arrays.
pub record Cursors : Type 0 where
  pub inodes : ℕ
  pub hashes : ℕ
  pub blocks : ℕ
  pub bytes : ℕ
  pub path : ℕ

abbrev pub cursors : BplusIndex → Cursors
cursors b = record {
  inodes = b.cur_inode_arr_idx;
  hashes = b.cur_hash_arr_idx;
  blocks = b.cur_bd_arr_idx;
  bytes = b.cur_block_arr_idx;
  path = b.cur_path_idx;
}

abbrev pub advance : Item → Cursors → Cursors
advance a c = record {
  inodes = c.inodes + 1;
  hashes = c.hashes + hash_size;
  blocks = c.blocks + length a.dirty_blocks;
  bytes = c.bytes + bytes_of a.dirty_blocks;
  path = c.path + length a.inode.path;
}

-- What lies before these positions ends below 2 ^ 64.
pub record Within (l : Layout) (c : Cursors) : Type 0 where
  pub inodes : l.inodes + inode_size * c.inodes < 2 ^ 64
  pub hashes : l.hashes + c.hashes < 2 ^ 64
  pub cells : l.cells + block_data_size * c.blocks < 2 ^ 64
  pub bytes : l.bytes + c.bytes < 2 ^ 64
  pub paths : l.paths + c.path < 2 ^ 64

-- The cell of an inode.
abbrev pub cell_of : Layout → Cursors → Item → ℕ → InodeCell
cell_of l c a mode =
    let some_blocks = ltb 0 (length a.dirty_blocks) in
    record {
      mode = mode;
      nlink = a.inode.nlink;
      mtime = a.inode.ul_mtime;
      ctime = a.inode.ul_ctime;
      size = a.inode.size;
      deleted = a.inode.deleted;
      hash = l.hashes + c.hashes;
      path = l.paths + c.path;
      path_size = length a.inode.path;
      block_data = if some_blocks then l.cells + block_data_size * c.blocks else no_offset;
      block_data_bytes = if some_blocks then block_data_size * length a.dirty_blocks else 0;
    }

-- An inode in the file, with its path and its blocks.
pub record Laid (l : Layout) (c : Cursors) (a : Item) (m : Mem) : Type 0 where
  pub mode : ℕ
  pub has_mode : get_mode a.inode ≡ ok mode
  pub cell : find (l.inodes + inode_size * c.inodes) m.inodes ≡ some (cell_of l c a mode)
  pub path : find (l.paths + c.path) m.paths ≡ some a.inode.path
  pub blocks :
      LaidBlocks m.blocks m.bytes
        (l.cells + block_data_size * c.blocks)
        (l.bytes + c.bytes)
        a.block_mtime
        a.dirty_blocks

-- What the arrays have before these positions is kept.
pub record KeepsBefore (l : Layout) (c : Cursors) (m m' : Mem) : Type 0 where
  pub inodes : Keeps (l.inodes + inode_size * c.inodes) m.inodes m'.inodes
  pub cells : Keeps (l.cells + block_data_size * c.blocks) m.blocks m'.blocks
  pub bytes : Keeps (l.bytes + c.bytes) m.bytes m'.bytes
  pub paths : Keeps (l.paths + c.path) m.paths m'.paths

-- A tree that is one leaf, with the entries that it has so far.
pub record Ready (l : Layout) (es : List (Str × ℕ)) (b : BplusIndex) : Type 0 where
  pub places : Places l b
  pub has_root : b.has_root ≡ true
  pub leaf : RootLeaf (mem_of b) (l.hashes + b.cur_hash_arr_idx) b.cur_inode_arr_idx es

-- What one call leaves: one more entry, and the inode where the cursors were.
pub record Added (l : Layout) (a : Item) (es : List (Str × ℕ)) (c : Cursors) (m : Mem)
    (b : BplusIndex) : Type 0 where
  pub ready :
      Ready l (insert_sorted (c_str a.inode.inode_id) (l.inodes + inode_size * c.inodes) es) b
  pub moved : cursors b ≡ advance a c
  pub laid : Laid l c a (mem_of b)
  pub keeps : KeepsBefore l c m (mem_of b)
