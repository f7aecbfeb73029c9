-- ===== src/Cache/Files/Links.antt =====
-- `rename`, `symlink` and `readlink` of block_cache.cpp.
use zippy_fs.Common.{
  ℕ, ◌^◌, ◌<◌, ◌≡◌, ◌≢◌, refl, sym, ◌∙◌, ap, true, List, [], arith, ok, some, Str, length, flatten,
  take, drop, take-nil, or_fault, null_deref, subst,
}
use zippy_fs.Common.Map.{
  insert_ordered, str_key, find-insert_ordered, find-insert_ordered_self, find-insert_ordered_ne,
}
use zippy_fs.Util.Numbers.{Clock}
use zippy_fs.Util.Names.{crypto_hash}
use zippy_fs.Inode.{
  Inode, make, copy_of, set_mode, get_mode, delete_inode, update_mtime, read, to_int,
}
use zippy_fs.Inode.Contents.{IsFile, IsFile-nil}
use zippy_fs.Inode.Contents.Copy.{copy_lem}
use zippy_fs.Inode.Read.{read-take-drop}
use zippy_fs.Cache.State.{Cache, Loader, id_of, inode_at, put_inode, in_cache, get_inode_by_path}
use zippy_fs.Cache.State.Lookup.{in_cache_of_id, get_inode_by_path-ok, update_inode-ok}
use zippy_fs.Cache.Files.{symlink, readlink, rename, move_inode, ensure, read_file}
use zippy_fs.Cache.Write.Readback.{read_file-cached}

-- The inode that `symlink` makes.
abbrev link_inode : (List ℕ → List ℕ) → Clock → Str → Inode
link_inode g clock from = set_mode (clock 5) 0o120600 (make clock from (crypto_hash g from))

module _ (generichash : List ℕ → List ℕ) (clock : Clock) (from to : Str) (c : Cache) where
  symlink-stored :
      let c' = (symlink generichash clock from to c).1 in
      (id_of to c' ≡ ok (crypto_hash generichash from))
      × (inode_at (crypto_hash generichash from) c' ≡ ok (link_inode generichash clock from))
      × (c'.heap ≡ c.heap)
  unfolding symlink id_of inode_at put_inode set_mode make
  symlink-stored = (
    ap (λ o. or_fault o null_deref)
        (find-insert_ordered_self to (crypto_hash generichash from) c.inode_idx),
    ap (λ o. or_fault o null_deref)
        (find-insert_ordered_self (crypto_hash generichash from) (link_inode generichash clock from)
          c.inode_ptrs),
    refl,
  )

  -- After `symlink(from, to)`, `readlink(to)` answers with the size asked for and puts no byte into
  -- the buffer: the target of the link is not kept anywhere.
  pub readlink-symlink :
      (size : ℕ) → readlink to size (symlink generichash clock from to c).1 ≡ ok (to_int size, [])
  unfolding readlink get_mode set_mode make
  readlink-symlink size =
      let c' : Cache = (symlink generichash clock from to c).1 in
      let (hid, hi, hh) = symlink-stored in
      let i : Inode = link_inode generichash clock from in
      let none_read : read size 0 c'.heap i ≡ ok (to_int size, []) =
        read-take-drop i {ds = []} size 0 (IsFile-nil c'.heap) (omega arith) (omega arith)
        ∙ ap (λ xs. ok (to_int size, xs)) (take-nil size) in
      ground (
        arith,
        in_cache_of_id to (crypto_hash generichash from) c' hid,
        get_inode_by_path-ok to (crypto_hash generichash from) i c' hid hi,
        none_read,
      )

  symlink_keeps_id :
      id_of from c ≡ ok (crypto_hash generichash from)
      → id_of from (symlink generichash clock from to c).1 ≡ ok (crypto_hash generichash from)
  unfolding symlink id_of put_inode set_mode make
  symlink_keeps_id h =
      ground (arith, find-insert_ordered to from (crypto_hash generichash from) c.inode_idx)

  -- `symlink(from, to)` overwrites the inode of its target: where `from` is in the cache under the
  -- hash of its path, it is a link of size 0 with no block afterwards.
  pub symlink_replaces_target :
      id_of from c ≡ ok (crypto_hash generichash from)
      → (i : Inode) × (get_inode_by_path from (symlink generichash clock from to c).1 ≡ ok i)
        × (i.mode ≡ some 0o120600)
        × (i.size ≡ 0)
        × (i.blocks ≡ [])
  unfolding set_mode make
  symlink_replaces_target h =
      let c' : Cache = (symlink generichash clock from to c).1 in
      let (hid, hi, hh) = symlink-stored in
      (
        link_inode generichash clock from,
        get_inode_by_path-ok from (crypto_hash generichash from) _ c' (symlink_keeps_id h) hi,
        refl,
        refl,
        refl,
      )

-- Where both paths are in the cache, `rename` only moves the inode.
rename-cached :
    (generichash : List ℕ → List ℕ) (loader : Loader) (clocks : Clock × Clock × Clock × Clock)
    (from to : Str) (c : Cache)
    → in_cache from c ≡ true
    → in_cache to c ≡ true
    → rename generichash loader clocks from to c ≡ move_inode generichash clocks.3 from to c
unfolding rename ensure
rename-cached g loader clocks from to c hf ht = ground arith

module _ (generichash : List ℕ → List ℕ) (loader : Loader) (clock : Clock) (from to old : Str)
    (c : Cache) (i : Inode) (here : id_of from c ≡ ok old) (kept : inode_at old c ≡ ok i)
    (other_id : crypto_hash generichash to ≢ old) where
  -- The id under which the file stands afterwards, its inode, and what is left of the old one.
  abbrev new_id : Str
  new_id = crypto_hash generichash to

  abbrev moved : Inode
  moved = copy_of clock to new_id i i.blocks

  abbrev left : Inode
  left = delete_inode (clock 6) i

  abbrev renamed : Cache
  renamed = record (put_inode new_id moved (put_inode old left c)) {
    inode_idx = insert_ordered to new_id c.inode_idx;
    has_changed = true;
  }

  move_inode-renamed :
      {ds : List (List ℕ)}
      → IsFile c.heap i.blocks ds
      → move_inode generichash clock from to c ≡ ok (0, renamed)
  unfolding move_inode put_inode copy_of
  move_inode-renamed v = rw (
    get_inode_by_path-ok from old i c here kept,
    copy_lem clock to new_id i v.distinct,
    update_inode-ok from old (delete_inode (clock 6)) i c here kept,
  )

  renamed-stored :
      (id_of to renamed ≡ ok new_id)
      × (inode_at new_id renamed ≡ ok moved)
      × (inode_at old renamed ≡ ok left)
      × (renamed.heap ≡ c.heap)
      × (renamed.dirty_block ≡ c.dirty_block)
  unfolding id_of inode_at put_inode
  renamed-stored = (
    ap (λ o. or_fault o null_deref) (find-insert_ordered_self to new_id c.inode_idx),
    ap (λ o. or_fault o null_deref)
        (find-insert_ordered_self new_id moved (insert_ordered old left c.inode_ptrs)),
    ap (λ o. or_fault o null_deref)
        (find-insert_ordered_ne new_id old moved (insert_ordered old left c.inode_ptrs)
            (λ e. other_id (sym e))
          ∙ find-insert_ordered_self old left c.inode_ptrs),
    refl,
    refl,
  )

  -- Renaming a cached file without gaps and of less than 2 ^ 32 blocks, where both paths are in the cache and the new one has another
  -- hash, returns 0. Afterwards the new path has the size of the old file and reads as it did at any place below 2 ^ 44, and
  -- is not deleted, while the inode of the old path is deleted and has no blocks. The dirty blocks
  -- stay where they were.
  pub read_file-rename :
      (t₁ t₂ t₃ reading : Clock) (n at : ℕ) {ds : List (List ℕ)}
      → in_cache to c ≡ true
      → IsFile c.heap i.blocks ds
      → length i.blocks < 2 ^ 32
      → at < 2 ^ 44
      → (c' : Cache) × (rename generichash loader (t₁, t₂, t₃, clock) from to c ≡ ok (0, c'))
        × (read_file generichash loader reading to n at c'
            ≡ ok (to_int n, take n (drop at (flatten ds)), c'))
        × ((j : Inode) × (get_inode_by_path to c' ≡ ok j) × (j.size ≡ i.size) × (j.deleted ≡ 0))
        × ((j : Inode) × (inode_at old c' ≡ ok j) × (j.deleted ≡ 1) × (j.blocks ≡ []))
        × (c'.dirty_block ≡ c.dirty_block)
  unfolding copy_of delete_inode update_mtime
  read_file-rename t₁ t₂ t₃ reading n at {ds} cached v few ha =
      let (hid, hi, hold, hh, hd) = renamed-stored in
      (
        renamed,
        rename-cached generichash loader (t₁, t₂, t₃, clock) from to c
              (in_cache_of_id from old c here) cached
            ∙ move_inode-renamed v,
        read_file-cached generichash loader reading to n at renamed new_id moved hid hi
            (subst (λ h. IsFile h i.blocks ds) (sym hh) v) few ha,
        (moved, get_inode_by_path-ok to new_id moved renamed hid hi, refl, refl),
        (left, hold, refl, refl),
        hd,
      )
