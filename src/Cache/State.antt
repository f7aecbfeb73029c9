-- ===== src/Cache/State.antt =====
-- The state of `BlockCache`, its loader as an interface, and the lookups that its methods share.
pub mod Lookup
use zippy_fs.Common.{
  ℕ, zero, suc, ◌+◌, ◌-◌, ◌*◌, ◌/◌, ◌%◌, ◌^◌, Bool, true, false, ◌&&◌, ◌||◌, not, Option, none,
  some, List, [], ◌∷◌, ◌++◌, ltb, leb, nat_beq, if◌then◌else◌, length, set, map, Result, ok, err,
  null_deref, uncaught, ◌>>=◌, or_fault, Str, str, str_beq,
}
use zippy_fs.Common.Map.{find, insert, insert_ordered, erase, nat_key, str_key}
use zippy_fs.Block.{Block}
use zippy_fs.Inode.{Inode, Heap, BlockMap, Ptr}

-- `BPLUSIndexLoader::disk_inode_info`. Its blocks are new ones, in no certain order.
pub record DiskInode : Type 0 where
  pub i_inode_id : Str
  pub i_mode : ℕ
  pub i_nlink : ℕ
  pub i_mtime : ℕ
  pub i_ctime : ℕ
  pub i_size : ℕ
  pub i_deleted : ℕ
  pub i_block_data : List (ℕ × Block)

-- `BPLUSIndexLoader::index_entry`.
pub record IndexEntry : Type 0 where
  pub path : Str
  pub mtime : ℕ
  pub deleted : ℕ

-- What the cache asks of its `loader_`.
pub record Loader : Type 0 where
  pub find_latest_inode : Str → Bool → Result DiskInode
  pub get_children : Str → Result (List IndexEntry)

-- The members of `BlockCache`, and the heap of the blocks that its inodes and maps point to. Each
-- inode hangs under one id, so `inode_ptrs_` holds the inodes themselves.
pub record Cache : Type 0 where
  pub heap : Heap
  pub inode_idx : List (Str × Str)
  pub inode_ptrs : List (Str × Inode)
  pub dirty_block : List (Str × BlockMap)
  pub dirty_block_mtime : List (Str × List (ℕ × ℕ))
  pub size : ℕ
  pub has_changed : Bool

-- The constructor. It leaves `size_` uninitialised: `memory` is the number found there.
unfoldable pub make : ℕ → Cache
make memory = record {
  heap = [];
  inode_idx = [];
  inode_ptrs = [];
  dirty_block = [];
  dirty_block_mtime = [];
  size = memory;
  has_changed = false;
}

abbrev pub max_size : ℕ
max_size = 65536

-- `in_cache(path)`: `true` is its 0, `false` its -1.
unfoldable pub in_cache : Str → Cache → Bool
in_cache path c = elim (find path c.inode_idx) [ some id ↦ true | none ↦ str_beq path (b'/' ∷ []) ]

-- `inode_idx_[path]` and `inode_ptrs_[…]`. For a missing key `operator[]` makes an empty entry and
-- the null pointer that comes of it is dereferenced at once by every caller.
unfoldable pub id_of : Str → Cache → Result Str
id_of path c = or_fault (find path c.inode_idx) null_deref

unfoldable pub inode_at : Str → Cache → Result Inode
inode_at id c = or_fault (find id c.inode_ptrs) null_deref

-- `get_inode_by_path(path)`, dereferenced.
unfoldable pub get_inode_by_path : Str → Cache → Result Inode
unfolding id_of inode_at
get_inode_by_path path c = do id ← id_of path c; inode_at id c

-- Stores an inode that a method has changed through its pointer.
unfoldable pub put_inode : Str → Inode → Cache → Cache
put_inode id i c = record c { inode_ptrs = insert_ordered id i c.inode_ptrs }

-- `get_inode_by_path(path)->f()`.
unfoldable pub update_inode : Str → (Inode → Inode) → Cache → Result Cache
unfolding id_of inode_at put_inode
update_inode path f c = do id ← id_of path c; i ← inode_at id c; ok (put_inode id (f i) c)

-- `m[k]` of a map of maps: an empty map where there is none.
abbrev pub inner : {V : Type 0} → Str → List (Str × List V) → List V
inner id m = elim (find id m) [ none ↦ [] | some x ↦ x ]
