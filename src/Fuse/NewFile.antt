-- ===== src/Fuse/NewFile.antt =====
-- A cache that holds one new file, which was written from its start, is fit to be flushed.
use zippy_fs.Common.{
  ℕ, ◌^◌, ◌≤◌, ◌<◌, ◌≡◌, refl, sym, ◌∙◌, ap, subst, true, some, none, List, [], ◌∷◌, length,
  or_fault, null_deref, out_of_bounds, ok, Str, arith,
}
use zippy_fs.Common.Map.{find, insert_ordered, nat_key, str_key, find-insert_ordered_self}
use zippy_fs.Util.Numbers.{Clock, get_time}
use zippy_fs.Util.Names.{crypto_hash}
use zippy_fs.Inode.{Inode, make, set_mode, set_dirty_inode, remake_inode, get_mode}
use zippy_fs.Cache.State
use zippy_fs.Cache.State.{Cache, Loader, id_of, inode_at, put_inode, inner, in_cache, max_size}
use zippy_fs.Cache.State.Lookup.{get_inode_by_path-ok}
use zippy_fs.Cache.Files.{make_file}
use zippy_fs.Cache.Files.Attributes.{new_inode}
use zippy_fs.Cache.Write.{Writing}
use zippy_fs.Cache.Write.End.{committed, revived, inode_at-committed}
use zippy_fs.Cache.Write.Fresh.{Linear}
use zippy_fs.Cache.Flush.Sizes.{entries, all_bytes, path_bytes, AllInHeap}
use zippy_fs.Cache.Flush.Room.{DistinctIds}
use zippy_fs.Cache.Flush.Written.{Filed, AllFiled, blocks_at, blocks_at-sizes}
use zippy_fs.Cache.Flush.Written.Blocks.{Table}
use zippy_fs.Cache.Flush.Written.Found.{IsFlushable}
use zippy_fs.Index.Memory.{hash_size}
use zippy_fs.Index.Build.{Item}

-- The new inode, and how `write` goes on with it.
pub new_inode-fields :
    (generichash : List ℕ → List ℕ) (clock : Clock) (path : Str) (mode : ℕ)
    → let i = new_inode generichash clock path mode true in
      ((revived i).path ≡ path)
      × ((revived i).inode_id ≡ crypto_hash generichash path)
      × ((revived i).mode ≡ some mode)
      × (i.ul_mtime ≡ get_time (clock 5))
unfolding set_mode make set_dirty_inode remake_inode
new_inode-fields generichash clock path mode = (refl, refl, refl, refl)

find-one : {V : Type 0} (k : Str) (v : V) → find k ((k, v) ∷ []) ≡ some v
unfolding insert_ordered
find-one k v = find-insert_ordered_self k v []

module _ (generichash : List ℕ → List ℕ) (clock : Clock) (path : Str) (mode memory : ℕ)
    (w : Writing) where
  abbrev id : Str
  id = crypto_hash generichash path

  abbrev pub i : Inode
  i = new_inode generichash clock path mode true

  abbrev pub made : Cache
  made = (make_file generichash clock path mode true (State.make memory)).1

  -- The cache after the write, which holds the one file.
  abbrev pub written : Cache
  written = committed id w (put_inode id (revived i) made)

  written-idx : written.inode_idx ≡ (path, id) ∷ []
  unfolding make_file set_mode make set_dirty_inode State.make put_inode insert_ordered
  written-idx = refl

  written-dirty : written.dirty_block ≡ (id, w.dirty) ∷ []
  unfolding make_file set_mode make set_dirty_inode State.make put_inode insert_ordered
  written-dirty = refl

  pub no_dirty : inner id made.dirty_block ≡ []
  unfolding make_file State.make put_inode find
  no_dirty = refl

  id_of-written : id_of path written ≡ ok id
  unfolding id_of find
  id_of-written =
      ap (λ m. or_fault (find path m) null_deref) written-idx
      ∙ ap (λ o. or_fault o null_deref) (find-one path id)

  inner-written : inner id written.dirty_block ≡ w.dirty
  inner-written =
      ap (λ m. inner id m) written-dirty
      ∙ ap (λ o. elim o [ none ↦ [] | some x ↦ x ]) (find-one id w.dirty)

  module _ (n : ℕ) (few : n < 2 ^ 32) (v : Linear (revived i) n w) (ds : List (List ℕ))
      (t : Table w.heap w.dirty 0 ds) where
    -- The file, with the blocks that its pointers lead to.
    abbrev pub item : Item
    item = record {
      inode = w.inode;
      dirty_blocks = t.blocks;
      block_mtime = inner id written.dirty_block_mtime;
    }

    written-Filed : 1 ≤ length path → length id < hash_size → Filed written path id item
    unfolding get_mode
    written-Filed named short =
        let (path_eq, id_eq, mode_eq, late) = new_inode-fields generichash clock path mode in
        record {
          inode =
              get_inode_by_path-ok path id w.inode written id_of-written
                (inode_at-committed id w (put_inode id (revived i) made)).0;
          blocks = ap (blocks_at w.heap) inner-written ∙ t.read;
          mtimes = refl;
          same_path = v.path ∙ path_eq;
          same_id = v.id ∙ id_eq;
          mode = mode;
          has_mode = ap (λ o. or_fault o out_of_bounds) (v.mode ∙ mode_eq);
          named = named;
          short = short;
          whole = t.whole;
        }

    pub written-IsFlushable :
        1 ≤ length path
        → length id < hash_size
        → length path < 2 ^ 62
        → IsFlushable written (item ∷ [])
    unfolding put_inode
    written-IsFlushable named short small = record {
      changed = refl;
      filed =
          subst (λ m. AllFiled written m (item ∷ [])) (sym written-idx)
            (written-Filed named short, tt);
      distinct = subst DistinctIds (sym written-idx) (tt, tt);
      in_heap = subst (AllInHeap w.heap) (sym written-dirty) (t.in_heap, tt);
      few = omega (arith, ap length written-idx);
      small = omega (
        arith,
        ap length written-idx,
        ap path_bytes written-idx,
        ap entries written-dirty,
        ap (all_bytes w.heap) written-dirty,
        blocks_at-sizes w.heap w.dirty t.blocks t.read,
        t.bounded,
        v.count,
      );
    }
