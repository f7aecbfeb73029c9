-- ===== src/Cache/Flush/Written/Found.antt =====
-- `flush_to_disk` and the loader: what a flush writes is found again, and read again.
use zippy_fs.Index.Memory.{Mem, hash_size, inode_size, block_data_size, max_keys}
use zippy_fs.Common.{
  Option, some, ℕ, zero, suc, ◌+◌, ◌*◌, ◌%◌, ◌^◌, ◌≤◌, ◌<◌, ◌≡◌, ◌≢◌, refl, ◌∙◌, sym, ap, ap₂,
  subst, true, List, [], ◌∷◌, ◌++◌, ok, Str, str, length, arith, get_elem?,
}
use zippy_fs.Cache.Flush.Written.{
  AllBlocks, write_tree, AllFiled, additions_for, additions_of-Filed, items_of-Filed,
  AllFiled-AllItems, AllFiled-Distinct, AllFiled-ends,
}
use zippy_fs.Common.Map.{str_key, nat_key}
use zippy_fs.Util.Names.{crypto_hash}
use zippy_fs.Cache.State.{Cache}
use zippy_fs.Cache.Flush.{Flush, flush_to_disk}
use zippy_fs.Cache.Flush.Sizes.{
  AllInHeap, entries, all_bytes, path_bytes, handed, emptied, flush_to_disk-ran, dirty_sum-ok,
  paths_sum-ok,
}
use zippy_fs.Cache.Flush.Room.{DistinctIds, weigh-entries, weigh-all_bytes}
use zippy_fs.Index.Add.{BplusIndex, make, mem_of}
use zippy_fs.Index.Build.{Item, cursors, add_inodes}
use zippy_fs.Index.Build.All.{Room}
use zippy_fs.TreeLoader.Files.{TreeFiles, reload_children, reload_children-one}
use zippy_fs.TreeLoader.ListWritten.{children_among, get_children-add_inodes}
use zippy_fs.TreeLoader.ReadBlocks.{DistinctBlocks}
use zippy_fs.TreeLoader.Written.{WrittenAndFound, find_latest_inode-add_inodes}

-- A cache that is fit to be flushed: every path has an inode of its own, no two the same id, there
-- are at most 23, the dirty blocks are in the heap, and the new file has less than 2 ^ 63 bytes.
pub record IsFlushable (c : Cache) (xs : List Item) : Type 0 where
  pub changed : c.has_changed ≡ true
  pub filed : AllFiled c c.inode_idx xs
  pub distinct : DistinctIds c.inode_idx
  pub in_heap : AllInHeap c.heap c.dirty_block
  pub few : length c.inode_idx ≤ max_keys
  pub small :
      608
        + inode_size * length c.inode_idx
        + all_bytes c.heap c.dirty_block
        + block_data_size * entries c.dirty_block
        + hash_size * length c.inode_idx
        + path_bytes c.inode_idx
      < 2 ^ 63

write_tree-items :
    (maps : ℕ → ℕ) (c : Cache) (bytes count : ℕ) (xs : List Item)
    → AllFiled c c.inode_idx xs
    → write_tree maps c.heap (handed c bytes count (additions_for c c.inode_idx xs))
      ≡ add_inodes maps xs
          (make (length c.inode_idx) bytes count (handed c bytes count []).path_size)
unfolding write_tree
write_tree-items maps c bytes count xs v = rw (items_of-Filed c c.inode_idx xs v) refl

-- What `flush_to_disk` makes of such a cache.
pub record Flushed (maps : ℕ → ℕ) (c : Cache) (xs : List Item) : Type 0 where
  pub flush : Flush
  pub ran : flush_to_disk c ≡ ok (0, flush ∷ [], emptied c)
  pub tree :
      write_tree maps c.heap flush
      ≡ add_inodes maps xs (
          make
            (length c.inode_idx)
            (all_bytes c.heap c.dirty_block)
            (entries c.dirty_block)
            (path_bytes c.inode_idx))
  pub room :
      Room
        (length c.inode_idx)
        (all_bytes c.heap c.dirty_block)
        (entries c.dirty_block)
        (path_bytes c.inode_idx)
        xs

flush_to_disk-Flushed :
    (maps : ℕ → ℕ) (c : Cache) (xs : List Item) → IsFlushable c xs → Flushed maps c xs
unfolding make
flush_to_disk-Flushed maps c xs v =
    let b : ℕ = (0 + all_bytes c.heap c.dirty_block) % 2 ^ 64 in
    let n : ℕ = 0 + entries c.dirty_block in
    let bytes : b ≡ all_bytes c.heap c.dirty_block = omega (arith, v.small) in
    let count : n ≡ entries c.dirty_block = omega arith in
    let paths : (handed c b n []).path_size ≡ path_bytes c.inode_idx =
      paths_sum-ok c.inode_idx 0 (omega arith) ∙ omega (arith, v.small) in
    let (len, ends_bytes, ends_blocks, ends_path) =
      AllFiled-ends c c.inode_idx xs
        (cursors (
          make (length c.inode_idx) (all_bytes c.heap c.dirty_block) (entries c.dirty_block)
            (path_bytes c.inode_idx)))
        v.filed in
    record {
      flush = handed c b n (additions_for c c.inode_idx xs);
      ran =
          flush_to_disk-ran c b n (additions_for c c.inode_idx xs) v.changed
            (dirty_sum-ok c.heap c.dirty_block 0 0 v.in_heap (omega arith) (omega (arith, v.small)))
            (additions_of-Filed c c.inode_idx xs v.filed);
      tree =
          write_tree-items maps c b n xs v.filed
          ∙ ap (λ p. add_inodes maps xs (make (length c.inode_idx) b n p)) paths
          ∙ ap₂ (λ i j. add_inodes maps xs (make (length c.inode_idx) i j (path_bytes c.inode_idx)))
              bytes count;
      room = record {
        inodes = omega (arith, len);
        bytes =
            omega (arith, ends_bytes, weigh-all_bytes c.heap c.inode_idx c.dirty_block v.distinct);
        blocks = omega (arith, ends_blocks, weigh-entries c.inode_idx c.dirty_block v.distinct);
        path = omega (arith, ends_path);
        small = v.small;
      };
    }

AllFiled-length :
    (c : Cache) (idx : List (Str × Str)) (xs : List Item)
    → AllFiled c idx xs
    → length xs ≡ length idx
AllFiled-length c [] [] v = refl
AllFiled-length c [] (a ∷ xs) v = absurd v
AllFiled-length c (e ∷ idx) [] v = absurd v
AllFiled-length c (e ∷ idx) (a ∷ xs) v = ap suc (AllFiled-length c idx xs v.1)

pub find_latest_inode-flush_to_disk :
    (generichash : List ℕ → List ℕ) (maps : ℕ → ℕ) (fuel memory : ℕ) (c : Cache) (xs : List Item)
    (k : ℕ) (a : Item) (path : Str)
    → IsFlushable c xs
    → ((i : ℕ) → maps i ≢ 0)
    → get_elem? xs k ≡ some a
    → a.inode.inode_id ≡ crypto_hash generichash path
    → 1 ≤ length path
    → 1 ≤ a.inode.ul_mtime
    → DistinctBlocks a.dirty_blocks
    → 1 ≤ fuel
    → (f : Flush) × (flush_to_disk c ≡ ok (0, f ∷ [], emptied c))
      × WrittenAndFound generichash fuel memory path (write_tree maps c.heap f) a
find_latest_inode-flush_to_disk g maps fuel memory c xs k a path v mapped h id named late d run =
    let w = flush_to_disk-Flushed maps c xs v in
    let found =
      find_latest_inode-add_inodes g maps fuel memory (length c.inode_idx)
        (all_bytes c.heap c.dirty_block) (entries c.dirty_block) (path_bytes c.inode_idx) xs k a
        path mapped w.room (AllFiled-AllItems c c.inode_idx xs v.filed)
        (AllFiled-Distinct c c.inode_idx xs v.filed v.distinct)
        (omega (arith, v.few, w.room.inodes)) h id named late
        (whole_of c c.inode_idx xs k a v.filed h) d run in
    (w.flush, w.ran, subst (λ r. WrittenAndFound g fuel memory path r a) (sym w.tree) found)
  where
    whole_of :
        (c : Cache) (idx : List (Str × Str)) (xs : List Item) (k : ℕ) (a : Item)
        → AllFiled c idx xs
        → get_elem? xs k ≡ some a
        → AllBlocks a.dirty_blocks
    whole_of c idx [] k a v h = cc
    whole_of c [] (x ∷ xs) k a v h = absurd v
    whole_of c ((path, id) ∷ idx) (x ∷ xs) zero a (f, v) h =
        let same : x ≡ a = cc in subst (λ y. AllBlocks y.dirty_blocks) same f.whole
    whole_of c ((path, id) ∷ idx) (x ∷ xs) (suc k) a (f, v) h = whole_of c idx xs k a v h

-- What is flushed is listed again. Let a cache with at least one path be fit to be flushed, and let
-- the system map the new file somewhere each time. Then `flush_to_disk` hands over one tree, the
-- calls of `add_inode` for it all succeed, and a loader that has nothing mapped, over a directory
-- with this one tree, lists for any path just the inodes of the cache that lie in it, in their order. A
-- path lies in a directory if it is its path, a slash and a name, or has no slash and is its path,
-- and it lies in `/` also if it lies so in the empty path.
pub reload_children-flush_to_disk :
    (maps : ℕ → ℕ) (reused : Str → Option Mem) (c : Cache) (xs : List Item) (path dir name : Str)
    → IsFlushable c xs
    → 1 ≤ length c.inode_idx
    → ((i : ℕ) → maps i ≢ 0)
    → (f : Flush) × (b : BplusIndex) × (flush_to_disk c ≡ ok (0, f ∷ [], emptied c))
      × (write_tree maps c.heap f ≡ ok b)
      × (s : TreeFiles) × (reload_children reused
            ((str "TREE-" ++ name, mem_of b) ∷ [])
            path
            (record { path = dir; file_to_mem = [] })
          ≡ ok (children_among path xs, s))
reload_children-flush_to_disk maps reused c xs path dir name v some_path mapped =
    let w = flush_to_disk-Flushed maps c xs v in
    let len : length xs ≡ length c.inode_idx = AllFiled-length c c.inode_idx xs v.filed in
    let bytes : ℕ = all_bytes c.heap c.dirty_block in
    let (b, ran, found) =
      get_children-add_inodes maps bytes (entries c.dirty_block) (path_bytes c.inode_idx) xs path
        (omega (arith, len)) mapped
        (subst (λ n. Room n bytes (entries c.dirty_block) (path_bytes c.inode_idx) xs) (sym len)
          w.room)
        (AllFiled-AllItems c c.inode_idx xs v.filed) (omega (arith, len, v.few)) in
    let (s, loaded) =
      reload_children-one reused dir path name (mem_of b) (children_among path xs) found in
    (
      w.flush,
      b,
      w.ran,
      w.tree
          ∙ ap
              (λ n.
                add_inodes maps xs (make n bytes (entries c.dirty_block) (path_bytes c.inode_idx)))
              (sym len)
          ∙ ran,
      s,
      loaded,
    )
