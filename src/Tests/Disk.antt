-- ===== src/Tests/Disk.antt =====
-- The theorems on what a flush writes and the loader reads of it, applied.
use zippy_fs.Common.{
  length, ℕ, ◌≡◌, ◌≢◌, refl, ap, true, false, none, some, [], ◌∷◌, ◌++◌, arith, ok, str, replicate,
  str_beq, get_elem?,
}
use zippy_fs.Common.Map.{find, str_key, nat_key}
use zippy_fs.Util.Names.{crypto_hash, binary_to_hex, hex_loop, copied, c_str, byte_hex}
use zippy_fs.Inode.{Inode, get_mode}
use zippy_fs.Cache.State.{Cache, id_of, inode_at, get_inode_by_path, in_cache}
use zippy_fs.Cache.Files.{read_file}
use zippy_fs.Cache.Flush.{Flush, flush_to_disk}
use zippy_fs.Cache.Flush.Written.{Filed, blocks_at, write_tree}
use zippy_fs.Cache.Flush.Written.Found.{IsFlushable, reload_children-flush_to_disk}
use zippy_fs.Cache.Flush.Written.Readback.{read_file-flush_to_disk}
use zippy_fs.Cache.Flush.Sizes.{emptied}
use zippy_fs.Index.Add.{BplusIndex, mem_of, empty_mem}
use zippy_fs.Index.Build.{Item}
use zippy_fs.TreeLoader.Children.{lies_in, below_or_bare, below, is_name}
use zippy_fs.TreeLoader.ListWritten.{children_among}
use zippy_fs.TreeLoader.Files.{TreeFiles, reload_children, tree_in, load_trees, find-load_trees}
use zippy_fs.TreeLoader.Reported.{loader_of}
use zippy_fs.Fuse.{zippyfs_mknod, zippyfs_write, zippyfs_read, zippyfs_destroy}
use zippy_fs.Fuse.Persistence.{zippyfs_read-zippyfs_destroy}
use zippy_fs.Cache.Write.Fresh.{Ticking}
use zippy_fs.Util.Numbers.{Clock, get_time}
use zippy_fs.Cache.State
use zippy_fs.Tests.{
  empty_disk, abc, abc-IsBlock, abc-get_data, plain_hash, ticks, inode_of, one_block, no_files,
}

-- Two files under the hashes of their paths: /a holds the block, /b is empty.
abbrev a_file : Inode
a_file = inode_of (str "/a") (str "2F61") 3 one_block

abbrev b_file : Inode
b_file = inode_of (str "/b") (str "2F62") 0 []

abbrev hashed_files : Cache
hashed_files = record {
  heap = abc ∷ [];
  inode_idx = (str "/a", str "2F61") ∷ (str "/b", str "2F62") ∷ [];
  inode_ptrs = (str "2F61", a_file) ∷ (str "2F62", b_file) ∷ [];
  dirty_block = (str "2F61", one_block) ∷ [];
  dirty_block_mtime = (str "2F61", (0, 7) ∷ []) ∷ [];
  size = 2;
  has_changed = true;
}

abbrev a_item : Item
a_item = record { inode = a_file; dirty_blocks = (0, abc) ∷ []; block_mtime = (0, 7) ∷ [] }

abbrev b_item : Item
b_item = record { inode = b_file; dirty_blocks = []; block_mtime = [] }

a_hash : str "2F61" ≡ crypto_hash plain_hash (str "/a")
unfolding crypto_hash binary_to_hex hex_loop copied c_str byte_hex replicate
a_hash = refl

other_ids : c_str (str "2F61") ≢ c_str (str "2F62")
unfolding c_str
other_ids h =
    let e : ◌≡◌ {A = ℕ} 49 50 = ap (λ s. elim (get_elem? s 3) [ none ↦ 0 | some x ↦ x ]) h in
    omega arith

abbrev one_page : ℕ → ℕ
one_page n = 4096

a_Filed : Filed hashed_files (str "/a") (str "2F61") a_item
unfolding get_inode_by_path id_of inode_at find str_beq blocks_at get_mode
a_Filed = record {
  inode = refl;
  blocks = refl;
  mtimes = refl;
  same_path = refl;
  same_id = refl;
  mode = 0o100644;
  has_mode = refl;
  named = omega arith;
  short = omega arith;
  whole = (abc-IsBlock, tt);
}

b_Filed : Filed hashed_files (str "/b") (str "2F62") b_item
unfolding get_inode_by_path id_of inode_at find str_beq blocks_at get_mode
b_Filed = record {
  inode = refl;
  blocks = refl;
  mtimes = refl;
  same_path = refl;
  same_id = refl;
  mode = 0o100644;
  has_mode = refl;
  named = omega arith;
  short = omega arith;
  whole = tt;
}

hashed_files-IsFlushable : IsFlushable hashed_files (a_item ∷ b_item ∷ [])
hashed_files-IsFlushable = record {
  changed = refl;
  filed = (a_Filed, (b_Filed, tt));
  distinct = ((other_ids, tt), (tt, tt));
  in_heap = ((omega arith, tt), tt);
  few = omega arith;
  small = omega arith;
}

nothing_there : in_cache (str "/a") no_files ≡ false
unfolding in_cache find str_beq
nothing_there = refl

read_file-flush_to_disk_example :
    (f : Flush) × (flush_to_disk hashed_files ≡ ok (0, f ∷ [], emptied hashed_files))
    × (b : BplusIndex) × (write_tree one_page hashed_files.heap f ≡ ok b)
    × (c' : Cache) × (read_file plain_hash
          (loader_of plain_hash 1 5 (mem_of b ∷ []))
          ticks
          (str "/a")
          10
          1
          no_files
        ≡ ok (10, 98 ∷ 99 ∷ [], c'))
read_file-flush_to_disk_example =
    read_file-flush_to_disk plain_hash one_page 1 5 ticks hashed_files no_files
      (a_item ∷ b_item ∷ []) 0 a_item (str "/a") ((97 ∷ 98 ∷ 99 ∷ []) ∷ []) 10 1
      hashed_files-IsFlushable (λ i h. omega (arith, h)) refl a_hash (omega arith) (omega arith)
      refl (refl, abc-IsBlock, abc-get_data, tt) (omega arith) (omega arith) (omega arith)
      (omega arith) nothing_there

-- Both files are children of the root.
root_children :
    children_among (str "/") (a_item ∷ b_item ∷ [])
    ≡ record { path = str "/a"; mtime = 7; deleted = 0 }
      ∷ record { path = str "/b"; mtime = 7; deleted = 0 }
      ∷ []
unfolding children_among lies_in below_or_bare below is_name c_str str_beq
root_children = refl

reload_children-flush_to_disk_example :
    (f : Flush) × (b : BplusIndex) × (flush_to_disk hashed_files
      ≡ ok (0, f ∷ [], emptied hashed_files))
    × (write_tree one_page hashed_files.heap f ≡ ok b)
    × (s : TreeFiles) × (reload_children
          (λ file. none)
          ((str "TREE-" ++ str "00", mem_of b) ∷ [])
          (str "/")
          (record { path = str "/t/"; file_to_mem = [] })
        ≡ ok (children_among (str "/") (a_item ∷ b_item ∷ []), s))
reload_children-flush_to_disk_example =
    reload_children-flush_to_disk one_page (λ file. none) hashed_files (a_item ∷ b_item ∷ [])
      (str "/") (str "/t/") (str "00") hashed_files-IsFlushable (omega arith)
      (λ i h. omega (arith, h))

-- A tree that was mapped, and is in the directory no more.
abbrev one_mapped : TreeFiles
one_mapped = record { path = str "/t/"; file_to_mem = (str "/t/TREE-1", some empty_mem) ∷ [] }

find-load_trees_example : find (str "/t/TREE-1") (load_trees [] one_mapped).file_to_mem ≡ some none
unfolding find str_beq tree_in
find-load_trees_example = find-load_trees [] one_mapped (str "/t/TREE-1")

-- A clock that stands still.
abbrev noon : Clock
noon n = ticks 0

noon-Ticking : Ticking noon
unfolding get_time
noon-Ticking n = omega arith

n_hash : crypto_hash plain_hash (str "/n") ≡ str "2F6E"
unfolding crypto_hash binary_to_hex hex_loop copied c_str byte_hex replicate
n_hash = refl

n_missing : in_cache (str "/n") no_files ≡ false
unfolding in_cache find str_beq
n_missing = refl

zippyfs_read-zippyfs_destroy_example :
    (c₁ : Cache) × (c : Cache) × (c' : Cache) × (c₃ : Cache) × (f : Flush) × (b : BplusIndex)
    × (zippyfs_mknod plain_hash noon (str "/n") 0o100644 (State.make 0) ≡ (0, c₁))
    × (zippyfs_write plain_hash empty_disk (noon, noon) (str "/n") (5 ∷ 6 ∷ 7 ∷ []) 3 0 c₁
        ≡ ok (3, [], c))
    × (zippyfs_destroy c ≡ ok (f ∷ [], c'))
    × (write_tree one_page c.heap f ≡ ok b)
    × (zippyfs_read plain_hash
          (loader_of plain_hash 1 5 (mem_of b ∷ []))
          noon
          (str "/n")
          10
          1
          no_files
        ≡ ok (10, 6 ∷ 7 ∷ [], c₃))
zippyfs_read-zippyfs_destroy_example =
    zippyfs_read-zippyfs_destroy plain_hash empty_disk one_page 1 0 5 noon noon (noon, noon)
      (str "/n") 0o100644 (5 ∷ 6 ∷ 7 ∷ []) 3 10 1 no_files (λ i h. omega (arith, h)) (omega arith)
      noon-Ticking noon-Ticking (omega arith) (omega arith) (omega arith)
      (omega (arith, ap length n_hash)) (omega arith) (omega arith) (omega arith) n_missing
