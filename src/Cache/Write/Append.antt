-- ===== src/Cache/Write/Append.antt =====
-- `BlockCache::write` at the end of a file whose blocks are all full.
use zippy_fs.Common.{
  ℕ, ◌+◌, ◌≤◌, ◌≡◌, refl, sym, ◌⊎◌, List, [], ◌∷◌, ◌++◌, arith, length, flatten, take, drop, ok,
  none, length-take, length-drop, subst,
}
use zippy_fs.Common.Map.{
  find, insert, insert_ordered, nat_key, str_key, find-insert, find-insert_ordered,
}
use zippy_fs.Block.{physical_size}
use zippy_fs.Block.Data.{get_data-from_data}
use zippy_fs.Util.Numbers.{Clock}
use zippy_fs.Inode.{Ptr, Inode, add_block, has_block, update_mtime}
use zippy_fs.Inode.Contents.{IsFile}
use zippy_fs.Inode.Contents.Grow.{Full, Grown, Grown-append, IsFile-snoc}
use zippy_fs.Cache.Write.{Writing, append_block, write_block}

-- Where the pointer of block `j` changed, the dirty map has the new one.
abbrev pub Marked : Writing → Writing → Type 0
Marked w w' =
    (j : ℕ)
    → ((find j w'.inode.blocks ≡ find j w.inode.blocks) × (find j w'.dirty ≡ find j w.dirty))
      ⊎ (find j w'.dirty ≡ find j w'.inode.blocks)

-- The size and the deletion mark of the inode stay.
abbrev pub Same : Inode → Inode → Type 0
Same i j = (j.size ≡ i.size) × (j.deleted ≡ i.deleted)

-- `w'` is `w` with the bytes `data` added behind the chunks `ds`.
pub record Appended (w w' : Writing) (ds : List (List ℕ)) (bytes : List ℕ) : Type 0 where
  pub added : List (List ℕ)
  pub file : IsFile w'.heap w'.inode.blocks (ds ++ added)
  pub contents : flatten added ≡ bytes
  pub grown : Grown w.heap w'.heap
  pub same : Same w.inode w'.inode
  pub marked : Marked w w'

module _ (clock : Clock) (buf : List ℕ) where
  -- A round that adds a block.
  pub write_block-Appended :
      (curr idx bs amt : ℕ) (w : Writing) (ds : List (List ℕ))
      → IsFile w.heap w.inode.blocks ds
      → Full ds
      → idx ≡ length ds
      → bs ≤ physical_size
      → curr + bs ≤ length buf
      → (w' : Writing) × (write_block clock buf curr idx bs amt w ≡ ok w')
        × IsFile w'.heap w'.inode.blocks (ds ++ take bs (drop curr buf) ∷ [])
        × Grown w.heap w'.heap
        × Same w.inode w'.inode
        × Marked w w'
  unfolding write_block append_block has_block add_block update_mtime
  write_block-Appended curr idx bs amt w ds v f e hb hs =
      let (b, made, vb, sized, seen) =
        get_data-from_data (drop curr buf) bs (omega (arith, length-drop curr buf)) hb in
      let none_there : find idx w.inode.blocks ≡ none = v.fresh idx (omega arith) in
      let p : Ptr = length w.heap in
      let i' : Inode = record (update_mtime (clock 0) w.inode) {
        blocks = insert idx p w.inode.blocks;
      } in
      let w' : Writing = record {
        heap = w.heap ++ (b ∷ []);
        inode = i';
        dirty = insert_ordered idx p w.dirty;
        dirty_mtime = insert_ordered idx i'.ul_mtime w.dirty_mtime;
      } in
      (
        w',
        ground (arith, made, none_there),
        subst
            (λ n.
              IsFile (w.heap ++ (b ∷ [])) (insert n p w.inode.blocks)
                (ds ++ take bs (drop curr buf) ∷ []))
            (sym e)
            (IsFile-snoc w.heap w.inode.blocks ds b (take bs (drop curr buf)) v f vb seen
              (omega (arith, length-take bs (drop curr buf)))),
        Grown-append w.heap b,
        (refl, refl),
        λ j.
            ground (arith, find-insert idx j p w.inode.blocks, find-insert_ordered idx j p w.dirty),
      )

pub Marked-trans : (w w' w'' : Writing) → Marked w w' → Marked w' w'' → Marked w w''
Marked-trans w w' w'' a b j = ground (arith, a j, b j)
