-- ===== src/Cache/Files/Attributes.antt =====
-- `make_file`, `getattr` and `truncate` of block_cache.cpp.
use zippy_fs.Common.Map.{find-insert_ordered_self, str_key}
use zippy_fs.Common.{
  ℕ, ◌^◌, ◌<◌, ◌≡◌, ◌≢◌, refl, ap, true, false, Bool, List, [], arith, ok, some, Str, if◌then◌else◌,
  length, flatten, take, drop,
}
use zippy_fs.Block.{physical_size}
use zippy_fs.Util.Numbers.{Clock, ulong_ceil}
use zippy_fs.Util.Names.{crypto_hash}
use zippy_fs.Inode.{
  Inode, Stat, make, set_mode, set_dirty_inode, s_isdir, stat, set_size, update_mtime, to_int,
}
use zippy_fs.Inode.Contents.{IsFile}
use zippy_fs.Cache.State.{Cache, Loader, id_of, inode_at, put_inode}
use zippy_fs.Cache.State.Lookup.{
  in_cache_of_id, get_inode_by_path-ok, update_inode-ok, inode_at-put_inode_self,
}
use zippy_fs.Cache.Files.{
  make_file, getattr, truncate, disk_blocks, read_file, null_deref, or_fault,
}
use zippy_fs.Cache.Write.Readback.{read_file-cached}

-- The inode that `make_file` makes.
abbrev pub new_inode : (List ℕ → List ℕ) → Clock → Str → ℕ → Bool → Inode
new_inode g clock path mode dirty =
    let fresh = set_mode (clock 5) mode (make clock path (crypto_hash g path)) in
    if dirty then set_dirty_inode fresh else fresh

module _ (generichash : List ℕ → List ℕ) where
  -- Where `make_file` puts the new file.
  pub make_file-stored :
      (clock : Clock) (path : Str) (mode : ℕ) (dirty : Bool) (c : Cache)
      → let c' = (make_file generichash clock path mode dirty c).1 in
        (id_of path c' ≡ ok (crypto_hash generichash path))
        × (inode_at (crypto_hash generichash path) c'
            ≡ ok (new_inode generichash clock path mode dirty))
        × (c'.heap ≡ c.heap)
        × ((new_inode generichash clock path mode dirty).blocks ≡ [])
  unfolding make_file set_mode make set_dirty_inode id_of inode_at put_inode
  make_file-stored clock path mode true c = (
    ap (λ o. or_fault o null_deref)
        (find-insert_ordered_self path (crypto_hash generichash path) c.inode_idx),
    ap (λ o. or_fault o null_deref)
        (find-insert_ordered_self (crypto_hash generichash path)
          (new_inode generichash clock path mode true) c.inode_ptrs),
    refl,
    refl,
  )
  make_file-stored clock path mode false c = (
    ap (λ o. or_fault o null_deref)
        (find-insert_ordered_self path (crypto_hash generichash path) c.inode_idx),
    ap (λ o. or_fault o null_deref)
        (find-insert_ordered_self (crypto_hash generichash path)
          (new_inode generichash clock path mode false) c.inode_ptrs),
    refl,
    refl,
  )

  -- A path made by `make_file` is found by `getattr`, which returns 0 and fills in the mode asked
  -- for, a link count of 2 for a directory and of 1 for all else, and a size of no bytes and no
  -- blocks.
  pub getattr-make_file :
      (loader : Loader) (clock : Clock) (path : Str) (mode : ℕ) (dirty : Bool) (c : Cache)
      (st : Stat)
      → (filled : Stat) × (getattr generichash loader path st
            (make_file generichash clock path mode dirty c).1
          ≡ ok (0, filled))
        × (filled.st_mode ≡ some mode)
        × (filled.st_nlink ≡ (if s_isdir mode then 2 else 1))
        × (filled.st_size ≡ 0)
        × (filled.st_blocks ≡ 0)
  unfolding getattr stat set_mode make set_dirty_inode
  getattr-make_file loader clock path mode dirty c st =
      let c' : Cache = (make_file generichash clock path mode dirty c).1 in
      let (hid, hi, hh, hb) = make_file-stored clock path mode dirty c in
      let seen =
        get_inode_by_path-ok path (crypto_hash generichash path)
          (new_inode generichash clock path mode dirty) c' hid hi in
      let cached = in_cache_of_id path (crypto_hash generichash path) c' hid in
      (
        (stat (new_inode generichash clock path mode dirty)).1,
        ground (arith, cached, seen),
        ground arith,
        ground arith,
        ground arith,
        ground arith,
      )

-- A cached file without gaps and of less than 2 ^ 32 blocks that `truncate` is called on has the new size afterwards, and reads as it
-- did before at any place below 2 ^ 44: the call returns 0, and bytes beyond the new size are still read.
pub read_file-truncate :
    (generichash : List ℕ → List ℕ) (loader : Loader) (clock reading : Clock) (path id : Str)
    (size n at : ℕ) (c : Cache) (i : Inode) {ds : List (List ℕ)}
    → id_of path c ≡ ok id
    → inode_at id c ≡ ok i
    → IsFile c.heap i.blocks ds
    → length i.blocks < 2 ^ 32
    → at < 2 ^ 44
    → (c' : Cache) × (truncate clock path size c ≡ ok (0, c'))
      × (i' : Inode) × (inode_at id c' ≡ ok i')
      × (i'.size ≡ size)
      × (read_file generichash loader reading path n at c'
          ≡ ok (to_int n, take n (drop at (flatten ds)), c'))
unfolding truncate set_size update_mtime put_inode id_of inode_at
read_file-truncate g loader clock reading path id size n at c i hid hi v hb ha =
    let i' : Inode = set_size (clock 0) size i in
    let c' : Cache = record (put_inode id i' c) { has_changed = true } in
    let there : inode_at id c' ≡ ok i' = inode_at-put_inode_self id i' c in
    (
      c',
      ground (
        arith,
        in_cache_of_id path id c hid,
        update_inode-ok path id (set_size (clock 0) size) i c hid hi,
      ),
      i',
      there,
      refl,
      read_file-cached g loader reading path n at c' id i' hid there v hb ha,
    )

-- The block count that `getattr` gives for a file on disk is never the number of blocks that its
-- bytes take.
pub disk_blocks-ne-ulong_ceil :
    (size : ℕ) → size < 2 ^ 64 → disk_blocks size ≢ ulong_ceil size physical_size
unfolding ulong_ceil
disk_blocks-ne-ulong_ceil size h e = ground arith
