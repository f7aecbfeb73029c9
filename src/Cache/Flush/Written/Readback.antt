-- ===== src/Cache/Flush/Written/Readback.antt =====
-- `flush_to_disk` and `read`: the contents of a file that was flushed are read again.
use zippy_fs.Common.{
  some, ℕ, suc, ◌^◌, ◌≤◌, ◌<◌, ◌≡◌, ◌≢◌, ◌∙◌, false, List, [], ◌∷◌, ok, Str, length, arith,
  get_elem?, take, drop, flatten,
}
use zippy_fs.Common.Map.{str_key, nat_key}
use zippy_fs.Block.{Block}
use zippy_fs.Util.Names.{crypto_hash}
use zippy_fs.Util.Numbers.{Clock}
use zippy_fs.Inode.{to_int}
use zippy_fs.Inode.Contents.{Packed}
use zippy_fs.Cache.State.{Cache, in_cache}
use zippy_fs.Cache.Flush.{Flush, flush_to_disk}
use zippy_fs.Cache.Flush.Sizes.{emptied}
use zippy_fs.Cache.Flush.Written.{write_tree}
use zippy_fs.Cache.Files.{read_file}
use zippy_fs.Cache.Files.Loading.{Numbered, read_file-load}
use zippy_fs.Index.Add.{BplusIndex, mem_of}
use zippy_fs.Index.Build.{Item}
use zippy_fs.TreeLoader.ReadBlocks.{Copies, NoBlock, DistinctBlocks}
use zippy_fs.TreeLoader.ReadInode.{read_back}
use zippy_fs.TreeLoader.Reported.{loader_of}
use zippy_fs.Cache.Flush.Written.Found.{IsFlushable, find_latest_inode-flush_to_disk}

-- Copies of numbered blocks are numbered blocks, and no two of these have the same number.
Numbered-Copies :
    (bs cs : List (ℕ × Block)) (k : ℕ) (ds : List (List ℕ))
    → Copies bs cs
    → Numbered k bs ds
    → Numbered k cs ds
Numbered-Copies [] [] k ds c q = q
Numbered-Copies [] (x ∷ cs) k ds c q = absurd c
Numbered-Copies (b ∷ bs) [] k ds c q = absurd c
Numbered-Copies ((i, b) ∷ bs) ((j, x) ∷ cs) k [] c q = absurd q
Numbered-Copies ((i, b) ∷ bs) ((j, x) ∷ cs) k (d ∷ ds) (e, w, same, c) (i_eq, v, data_eq, q) =
    (e ∙ i_eq, w, same ∙ data_eq, Numbered-Copies bs cs (suc k) ds c q)

Numbered-NoBlock :
    (i k : ℕ) (bs : List (ℕ × Block)) (ds : List (List ℕ)) → i < k → Numbered k bs ds → NoBlock i bs
Numbered-NoBlock i k [] ds h q = tt
Numbered-NoBlock i k (b ∷ bs) [] h q = absurd q
Numbered-NoBlock i k ((j, b) ∷ bs) (d ∷ ds) h (e, v, data_eq, q) =
    (λ same. omega (arith, same, e), Numbered-NoBlock i (suc k) bs ds (omega arith) q)

Numbered-DistinctBlocks :
    (k : ℕ) (bs : List (ℕ × Block)) (ds : List (List ℕ)) → Numbered k bs ds → DistinctBlocks bs
Numbered-DistinctBlocks k [] ds q = tt
Numbered-DistinctBlocks k (b ∷ bs) [] q = absurd q
Numbered-DistinctBlocks k ((j, b) ∷ bs) (d ∷ ds) (e, v, data_eq, q) =
    (Numbered-NoBlock j (suc k) bs ds (omega (arith, e)) q, Numbered-DistinctBlocks (suc k) bs ds q)

-- What is flushed is read again. Let a cache be fit to be flushed, let one of its inodes have the
-- hash of a path that is not empty as its id and a modification time after 0, not be deleted, and
-- have dirty blocks that are numbered from 0 in their order, are well formed, less than 2 ^ 32, and
-- full but for the last; and let the system map the new file somewhere each time. Then
-- `flush_to_disk` hands over one tree, the calls of `add_inode` for it all succeed, and in another
-- cache that does not have the path, over a loader with this tree mapped and at least one round for
-- its search, `read` from an offset below 2 ^ 44 returns the size asked for and puts into the buffer
-- what the dirty blocks held from the offset on. The map of the loaded blocks, which has no certain
-- order, is gone through in the order in which it was filled.
pub read_file-flush_to_disk :
    (generichash : List ℕ → List ℕ) (maps : ℕ → ℕ) (fuel memory : ℕ) (clock : Clock) (c c₂ : Cache)
    (xs : List Item) (k : ℕ) (a : Item) (path : Str) (ds : List (List ℕ)) (n at : ℕ)
    → IsFlushable c xs
    → ((i : ℕ) → maps i ≢ 0)
    → get_elem? xs k ≡ some a
    → a.inode.inode_id ≡ crypto_hash generichash path
    → 1 ≤ length path
    → 1 ≤ a.inode.ul_mtime
    → a.inode.deleted ≡ 0
    → Numbered 0 a.dirty_blocks ds
    → Packed ds
    → length ds < 2 ^ 32
    → at < 2 ^ 44
    → 1 ≤ fuel
    → in_cache path c₂ ≡ false
    → (f : Flush) × (flush_to_disk c ≡ ok (0, f ∷ [], emptied c))
      × (b : BplusIndex) × (write_tree maps c.heap f ≡ ok b)
      × (c' : Cache) × (read_file generichash
            (loader_of generichash fuel memory (mem_of b ∷ []))
            clock
            path
            n
            at
            c₂
          ≡ ok (to_int n, take n (drop at (flatten ds)), c'))
unfolding loader_of
read_file-flush_to_disk g maps fuel memory clock c c₂ xs k a path ds n at v mapped h id named late
      alive q p few small run missing =
    let (f, ran, w) =
      find_latest_inode-flush_to_disk g maps fuel memory c xs k a path v mapped h id named late
        (Numbered-DistinctBlocks 0 a.dirty_blocks ds q) run in
    let (c', got, cached) =
      read_file-load g (loader_of g fuel memory (mem_of w.tree ∷ [])) clock path c₂
        (read_back (crypto_hash g path) a w.mode w.copies) w.found (λ e. omega (arith, e)) missing
        ds n at alive (Numbered-Copies a.dirty_blocks w.copies 0 ds w.copied q) p few small in
    (f, ran, w.tree, w.ran, c', got)
