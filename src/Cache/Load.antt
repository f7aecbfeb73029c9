-- ===== src/Cache/Load.antt =====
-- `BlockCache::load_from_disk`: an inode and its blocks, from the newest tree on disk.
use zippy_fs.Common.{
  ℕ, true, false, ◌||◌, not, List, [], ◌∷◌, ◌++◌, leb, nat_beq, if◌then◌else◌, length, Result, ok,
  ◌>>=◌, Str,
}
use zippy_fs.Common.Map.{insert_ordered, str_key}
use zippy_fs.Block.{Block}
use zippy_fs.Util.Numbers.{Clock, later}
use zippy_fs.Util.Names.{crypto_hash}
use zippy_fs.Inode.{
  Inode, Heap, make, minus, set_id, set_size, set_mode, set_nlink, set_mtime, set_ctime,
  delete_inode, add_block, undo_dirty,
}
use zippy_fs.Cache.State.{Cache, Loader, DiskInode, in_cache, get_inode_by_path, put_inode}

-- The loop that adds the blocks; each is an object of its own, so it is new in the heap.
unfoldable pub add_blocks : Clock → List (ℕ × Block) → Heap → Inode → Result (Heap × Inode)
add_blocks clock [] h i = ok (h, i)
add_blocks clock ((idx, b) ∷ rest) h i = do
  (h', i') ← add_block (clock 0) idx (length h) (h ++ (b ∷ [])) i
  add_blocks (later 1 clock) rest h' i'

-- The inode before its blocks are added.
unfoldable pub described : Clock → Str → Str → DiskInode → Inode
described clock path id di =
    let named = set_id di.i_inode_id (make clock path id) in
    let sized = set_size (clock 5) di.i_size named in
    let moded = set_mode (clock 6) di.i_mode sized in
    let timed = set_ctime di.i_ctime (set_mtime di.i_mtime (set_nlink di.i_nlink moded)) in
    if nat_beq di.i_deleted 0 then timed else delete_inode (clock 7) timed

-- The end of `load_from_disk`: the loaded inode replaces an older one, or one that is not there.
unfoldable pub keep_loaded : Str → ℕ → Inode → Cache → Result (ℕ × Cache)
keep_loaded path mtime latest c = do
  is_updated ← elim (in_cache path c) [
    | false ↦ ok false
    | true ↦ (do i ← get_inode_by_path path c; ok (leb mtime i.ul_mtime))
  ]
  ok (
    0,
    (if not is_updated || not (in_cache path c)
        then record (put_inode latest.inode_id (undo_dirty latest) c) {
          inode_idx = insert_ordered path latest.inode_id c.inode_idx;
        }
        else c),
  )

module _ (generichash : List ℕ → List ℕ) (loader : Loader) where
  -- `load_from_disk(path)`.
  unfoldable pub load_from_disk : Clock → Str → Cache → Result (ℕ × Cache)
  unfolding add_blocks described keep_loaded
  load_from_disk clock path c = do
    di ← loader.find_latest_inode path true
    elim (nat_beq di.i_mtime 0) [
      | true ↦ ok (minus 1, c)
      | false ↦ (do
        let id = crypto_hash generichash path
        (h, latest) ← add_blocks (later 8 clock) di.i_block_data c.heap (described clock path id di)
        keep_loaded path di.i_mtime latest (record c { heap = h }))
    ]

  -- `load_from_shdw(path)`.
  unfoldable pub load_from_shdw : Clock → Str → Cache → Result (ℕ × Cache)
  load_from_shdw clock path c = load_from_disk clock path c
