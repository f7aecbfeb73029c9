-- ===== src/Cache/Flush/Written/Blocks.antt =====
-- The blocks that a map of dirty blocks leads to, where the map is the block table of a file.
use zippy_fs.Common.{
  ℕ, suc, ◌*◌, ◌≤◌, ◌<◌, ◌≡◌, refl, ◌∙◌, sym, ap, some, false, List, [], ◌∷◌, length, get_elem?, ok,
  arith, nat_beq, lt-length_of_get,
}
use zippy_fs.Common.Map.{find, nat_key}
use zippy_fs.Block.{Block, physical_size}
use zippy_fs.Inode.{Heap, BlockMap}
use zippy_fs.Inode.Contents.{IsFile, Chunks}
use zippy_fs.Index.Cells.{bytes_of}
use zippy_fs.Cache.Files.Loading.{Numbered}
use zippy_fs.Cache.Flush.Sizes.{InHeap}
use zippy_fs.Cache.Flush.Written.{blocks_at}
use zippy_fs.Cache.Write.Fresh.{Consecutive}
use zippy_fs.TreeLoader.ReadBlocks.{AllBlocks}

-- The blocks of a table, and that they are those of a file with these chunks.
pub record Table (h : Heap) (m : BlockMap) (k : ℕ) (ds : List (List ℕ)) : Type 0 where
  pub blocks : List (ℕ × Block)
  pub read : blocks_at h m ≡ ok blocks
  pub numbered : Numbered k blocks ds
  pub whole : AllBlocks blocks
  pub in_heap : InHeap h m
  pub bounded : bytes_of blocks ≤ physical_size * length m

blocks_at-cons :
    (h : Heap) (m : BlockMap) (j p : ℕ) (b : Block) (bs : List (ℕ × Block))
    → get_elem? h p ≡ some b
    → blocks_at h m ≡ ok bs
    → blocks_at h ((j, p) ∷ m) ≡ ok ((j, b) ∷ bs)
unfolding blocks_at
blocks_at-cons h m j p b bs e e' = rw (blocks_at, e, e') refl

find-later : (j p n : ℕ) (m : BlockMap) → j < n → find n ((j, p) ∷ m) ≡ find n m
unfolding find
find-later j p n m h = let other : nat_beq n j ≡ false = ground arith in rw other refl

found-first :
    (j p k : ℕ) (m : BlockMap) (ptr : ℕ) → j ≡ k → find k ((j, p) ∷ m) ≡ some ptr → ptr ≡ p
unfolding find
found-first j p k m ptr e h = ground (arith, h, e)

Chunks-Table :
    (h : Heap) (all m : BlockMap) (k : ℕ) (ds : List (List ℕ))
    → Chunks h all k ds
    → Consecutive k m
    → length m ≡ length ds
    → ((n : ℕ) → k ≤ n → find n all ≡ find n m)
    → Table h m k ds
unfolding blocks_at find
Chunks-Table h all [] k [] c v e same = record {
  blocks = [];
  read = refl;
  numbered = tt;
  whole = tt;
  in_heap = tt;
  bounded = omega arith;
}
Chunks-Table h all [] k (d ∷ ds) c v e same = absurd (omega (arith, e))
Chunks-Table h all (x ∷ m) k [] c v e same = absurd (omega (arith, e))
Chunks-Table h all ((j, p) ∷ m) k (d ∷ ds) (s, c) v e same =
    let t =
      Chunks-Table h all m (suc k) ds c v.1 (omega (arith, e))
        (λ n above. same n (omega arith) ∙ find-later j p n m (omega (arith, v.0))) in
    let ptr : s.ptr ≡ p = found-first j p k m s.ptr v.0 (sym (same k (omega arith)) ∙ s.found) in
    let stored : get_elem? h p ≡ some s.block = ap (get_elem? h) (sym ptr) ∙ s.stored in
    record {
      blocks = (j, s.block) ∷ t.blocks;
      read = blocks_at-cons h m j p s.block t.blocks stored t.read;
      numbered = (v.0, s.valid, s.seen, t.numbered);
      whole = (s.valid, t.whole);
      in_heap = (lt-length_of_get h p s.block stored, t.in_heap);
      bounded = omega (arith, t.bounded, s.valid.fits);
    }

-- A file whose blocks stand in their order.
pub IsFile-Table :
    (h : Heap) (m : BlockMap) (ds : List (List ℕ))
    → IsFile h m ds
    → Consecutive 0 m
    → Table h m 0 ds
IsFile-Table h m ds f v = Chunks-Table h m m 0 ds f.chunks v f.count (λ n above. refl)
