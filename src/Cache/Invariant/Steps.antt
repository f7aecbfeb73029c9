-- ===== src/Cache/Invariant/Steps.antt =====
-- The operations of `BlockCache` keep `Linked`.
use zippy_fs.Util.Numbers.{ulong_ceil, Clock}
use zippy_fs.Common.{
  ℕ, ◌+◌, ◌%◌, ◌^◌, ◌≡◌, refl, sym, ◌∙◌, ap, true, false, Bool, List, arith, ok, some, Str, Result,
  ◌>>=◌, if◌then◌else◌, Bool-cases, ◌⊎◌, inl, inr, str_beq, AllOk, holds, AllOk-bind, AllOk-after,
  AllOk-branch, ltb, leb, ◌||◌, not,
}
use zippy_fs.Common.Map.{find, insert_ordered, str_key, find-insert_ordered}
use zippy_fs.Block.{physical_size}
use zippy_fs.Util.Names.{crypto_hash}
use zippy_fs.Inode.{Inode, copy, delete_inode, set_size, undo_dirty}
use zippy_fs.Cache.State.{
  Cache, id_of, inode_at, put_inode, in_cache, update_inode, get_inode_by_path, inner,
}
use zippy_fs.Cache.Load.{keep_loaded}
use zippy_fs.Cache.Files.{drop_links, remove, rmdir, truncate, make_file, symlink, move_inode}
use zippy_fs.Cache.Files.Removal.{find-drop_links, unlinked}
use zippy_fs.Cache.Write.{Writing}
use zippy_fs.Cache.Invariant.{Linked, Linked-put}

pub put_inode-Linked : (id : Str) (i : Inode) (c : Cache) → Linked c → Linked (put_inode id i c)
unfolding put_inode
put_inode-Linked id i c linked =
    Linked-put c (put_inode id i c) id i linked refl (λ path j h. inr h)

pub update_inode-Linked :
    (path : Str) (f : Inode → Inode) (c : Cache) → Linked c → AllOk Linked (update_inode path f c)
unfolding update_inode
update_inode-Linked path f c linked =
    AllOk-after (id_of path c)
      λ id. AllOk-after (inode_at id c) λ i. holds (put_inode-Linked id (f i) c linked)

-- What comes with a result keeps the invariant.
abbrev pub Keeps : Result (ℕ × Cache) → Type 0
Keeps r = AllOk (λ out. Linked out.1) r

pub drop_links-Linked :
    (path : Str) (c : Cache)
    → Linked c
    → Linked (record c { inode_ptrs = drop_links path c.inode_ptrs })
drop_links-Linked path c linked p id h =
    let (i, e) = linked p id h in (unlinked path i, find-drop_links path id c.inode_ptrs i e)

pub remove-Linked :
    (clock : Clock) (path : Str) (c : Cache) → Linked c → Keeps (remove clock path c)
unfolding remove
remove-Linked clock path c linked = AllOk-branch (in_cache path c) (holds linked) (
    AllOk-bind
      (update_inode-Linked path (delete_inode (clock 0)) _ (drop_links-Linked path c linked))
      λ c' v. holds v)

pub rmdir-Linked : (clock : Clock) (path : Str) (c : Cache) → Linked c → Keeps (rmdir clock path c)
unfolding rmdir
rmdir-Linked clock path c linked =
    AllOk-branch (in_cache path c) (holds linked)
      (AllOk-bind (update_inode-Linked path (delete_inode (clock 0)) c linked) λ c' v. holds v)

pub truncate-Linked :
    (clock : Clock) (path : Str) (size : ℕ) (c : Cache)
    → Linked c
    → Keeps (truncate clock path size c)
unfolding truncate
truncate-Linked clock path size c linked =
    AllOk-branch (in_cache path c) (holds linked)
      (AllOk-bind (update_inode-Linked path (set_size (clock 0) size) c linked) λ c' v. holds v)

-- A path that is given the id of an inode that is stored.
pub link-Linked :
    (c c' : Cache) (path id : Str) (i : Inode)
    → Linked c
    → c'.inode_ptrs ≡ insert_ordered id i c.inode_ptrs
    → c'.inode_idx ≡ insert_ordered path id c.inode_idx
    → Linked c'
link-Linked c c' path id i linked ptrs idx =
    Linked-put c c' id i linked ptrs (λ p j h. link_found p j (ap (λ m. find p m) (sym idx) ∙ h))
  where
    link_found :
        (p j : Str)
        → find p (insert_ordered path id c.inode_idx) ≡ some j
        → (j ≡ id) ⊎ (find p c.inode_idx ≡ some j)
    link_found p j h = elim (Bool-cases (str_beq p path)) [
      | inl k ↦ inl (ground (arith, find-insert_ordered path p id c.inode_idx))
      | inr k ↦ inr (ground (arith, find-insert_ordered path p id c.inode_idx))
    ]

module _ (g : List ℕ → List ℕ) where
  pub make_file-Linked :
      (clock : Clock) (path : Str) (mode : ℕ) (dirty : Bool) (c : Cache)
      → Linked c
      → Linked (make_file g clock path mode dirty c).1
  unfolding make_file put_inode
  make_file-Linked clock path mode dirty c linked =
      link-Linked c (make_file g clock path mode dirty c).1 path _ _ linked refl refl

  pub symlink-Linked :
      (clock : Clock) (from to : Str) (c : Cache) → Linked c → Linked (symlink g clock from to c).1
  unfolding symlink put_inode
  symlink-Linked clock from to c linked =
      link-Linked c (symlink g clock from to c).1 to _ _ linked refl refl

  pub move_inode-Linked :
      (clock : Clock) (from to : Str) (c : Cache) → Linked c → Keeps (move_inode g clock from to c)
  unfolding move_inode put_inode
  move_inode-Linked clock from to c linked = AllOk-after (get_inode_by_path from c) λ i.
      AllOk-after (copy clock to (crypto_hash g to) i) λ nto.
        AllOk-bind (update_inode-Linked from (delete_inode (clock 6)) c linked) λ c' v. holds (
          link-Linked c'
            (record (put_inode nto.inode_id nto c') {
              inode_idx = insert_ordered to nto.inode_id c'.inode_idx;
              has_changed = true;
            })
            to nto.inode_id nto v refl refl)

-- What the loop of `write` is called with.
abbrev pub blocks_of : ℕ → ℕ → ℕ
blocks_of size offset = ulong_ceil ((size + offset) % 2 ^ 64) physical_size

abbrev pub started : Cache → Str → Clock → ℕ → ℕ → Inode → Writing
started c id clock size offset i =
    let end = (size + offset) % 2 ^ 64 in
    record {
      heap = c.heap;
      inode = if ltb i.size end then set_size (clock 0) end i else i;
      dirty = inner id c.dirty_block;
      dirty_mtime = inner id c.dirty_block_mtime;
    }

pub keep_or_not-Linked :
    (path : Str) (latest : Inode) (c : Cache) (b : Bool)
    → Linked c
    → Linked (
        if b
        then record (put_inode latest.inode_id (undo_dirty latest) c) {
          inode_idx = insert_ordered path latest.inode_id c.inode_idx;
        }
        else c)
unfolding put_inode
keep_or_not-Linked path latest c true linked =
    link-Linked c
      (record (put_inode latest.inode_id (undo_dirty latest) c) {
        inode_idx = insert_ordered path latest.inode_id c.inode_idx;
      })
      path latest.inode_id (undo_dirty latest) linked refl refl
keep_or_not-Linked path latest c false linked = linked

pub keep_loaded-Linked :
    (path : Str) (mtime : ℕ) (latest : Inode) (c : Cache)
    → Linked c
    → Keeps (keep_loaded path mtime latest c)
unfolding keep_loaded
keep_loaded-Linked path mtime latest c linked =
    AllOk-after
      (elim (in_cache path c) [
        | false ↦ ok false
        | true ↦ (do i ← get_inode_by_path path c; ok (leb mtime i.ul_mtime))
      ])
      λ b. holds (keep_or_not-Linked path latest c (not b || not (in_cache path c)) linked)
