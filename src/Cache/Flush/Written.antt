-- ===== src/Cache/Flush/Written.antt =====
-- The tree that `flush_to_disk` writes of the cache.
pub mod Found
pub mod Readback
pub mod Blocks
use zippy_fs.Common.{
  ℕ, zero, suc, ◌+◌, ◌*◌, ◌%◌, ◌^◌, ◌≤◌, ◌<◌, ◌≡◌, ◌≢◌, refl, ◌∙◌, sym, ap, ap₂, subst, true, List,
  [], ◌∷◌, Result, err, ok, ◌>>=◌, Str, length, arith, ok-injective,
}
use zippy_fs.Common.Map.{nat_key, str_key}
use zippy_fs.Block.{Block}
use zippy_fs.Util.Names.{c_str}
use zippy_fs.Inode.{Heap, BlockMap, deref, get_mode}
use zippy_fs.Cache.State.{Cache, inner, get_inode_by_path}
use zippy_fs.Cache.Flush.{Addition, Flush, additions_of}
use zippy_fs.Cache.Flush.Sizes.{map_bytes, path_bytes, size_at, size_at-deref}
use zippy_fs.Cache.Flush.Room.{NoId, DistinctIds, weigh}
use zippy_fs.Index.Memory.{hash_size}
use zippy_fs.Index.Add.{BplusIndex, make}
use zippy_fs.Index.Cells.{AllFit, bytes_of}
use zippy_fs.Index.Build.{Item, IsItem, Cursors, advance, add_inodes}
use zippy_fs.Index.Build.All.{AllItems, ends}
use zippy_fs.Index.Build.Ids.{NotAmong, Distinct}
use zippy_fs.TreeLoader.ReadBlocks.{AllBlocks}

-- The blocks that the pointers of a map lead to.
unfoldable pub blocks_at : Heap → BlockMap → Result (List (ℕ × Block))
blocks_at h [] = ok []
blocks_at h ((idx, p) ∷ m) = do b ← deref h p; rest ← blocks_at h m; ok ((idx, b) ∷ rest)

unfoldable pub items_of : Heap → List Addition → Result (List Item)
unfolding blocks_at
items_of h [] = ok []
items_of h (a ∷ rest) = do
  blocks ← blocks_at h a.dirty_blocks
  items ← items_of h rest
  ok (record { inode = a.added; dirty_blocks = blocks; block_mtime = a.block_mtime } ∷ items)

-- The constructor of `BPLUSIndex` and the calls of `add_inode`, on what `flush_to_disk` hands over.
unfoldable pub write_tree : (ℕ → ℕ) → Heap → Flush → Result BplusIndex
unfolding items_of
write_tree maps h f = do
  items ← items_of h f.additions
  add_inodes maps items (make f.num_ents f.block_size f.num_blocks f.path_size)

-- A path of the cache with its inode: the inode carries the path and the id that it is filed under,
-- has a mode, and its dirty blocks are well formed.
pub record Filed (c : Cache) (path id : Str) (a : Item) : Type 0 where
  pub inode : get_inode_by_path path c ≡ ok a.inode
  pub blocks : blocks_at c.heap (inner id c.dirty_block) ≡ ok a.dirty_blocks
  pub mtimes : inner id c.dirty_block_mtime ≡ a.block_mtime
  pub same_path : a.inode.path ≡ path
  pub same_id : a.inode.inode_id ≡ id
  pub mode : ℕ
  pub has_mode : get_mode a.inode ≡ ok mode
  pub named : 1 ≤ length path
  pub short : length id < hash_size
  pub whole : AllBlocks a.dirty_blocks

abbrev pub AllFiled : Cache → List (Str × Str) → List Item → Type 0
AllFiled c [] [] = Unit {0}
AllFiled c [] (a ∷ xs) = ⊥
AllFiled c (e ∷ idx) [] = ⊥
AllFiled c ((path, id) ∷ idx) (a ∷ xs) = Filed c path id a × AllFiled c idx xs

-- What the loop hands to `add_inode`.
abbrev pub additions_for : Cache → List (Str × Str) → List Item → List Addition
additions_for c [] xs = []
additions_for c (e ∷ idx) [] = []
additions_for c ((path, id) ∷ idx) (a ∷ xs) =
    record {
      added = a.inode;
      dirty_blocks = inner id c.dirty_block;
      block_mtime = inner id c.dirty_block_mtime;
    }
    ∷ additions_for c idx xs

pub additions_of-Filed :
    (c : Cache) (idx : List (Str × Str)) (xs : List Item)
    → AllFiled c idx xs
    → additions_of c idx ≡ ok (additions_for c idx xs)
unfolding additions_of
additions_of-Filed c [] [] v = refl
additions_of-Filed c [] (a ∷ xs) v = absurd v
additions_of-Filed c (e ∷ idx) [] v = absurd v
additions_of-Filed c ((path, id) ∷ idx) (a ∷ xs) (f, v) =
    rw (additions_of, f.inode, additions_of-Filed c idx xs v) refl

pub items_of-Filed :
    (c : Cache) (idx : List (Str × Str)) (xs : List Item)
    → AllFiled c idx xs
    → items_of c.heap (additions_for c idx xs) ≡ ok xs
unfolding items_of
items_of-Filed c [] [] v = refl
items_of-Filed c [] (a ∷ xs) v = absurd v
items_of-Filed c (e ∷ idx) [] v = absurd v
items_of-Filed c ((path, id) ∷ idx) (a ∷ xs) (f, v) =
    rw (items_of, f.blocks, f.mtimes, items_of-Filed c idx xs v) refl

AllBlocks-AllFit : (bs : List (ℕ × Block)) → AllBlocks bs → AllFit bs
AllBlocks-AllFit [] v = tt
AllBlocks-AllFit ((i, b) ∷ bs) v = (v.0.fits, AllBlocks-AllFit bs v.1)

Filed-IsItem : (c : Cache) (path id : Str) (a : Item) (f : Filed c path id a) → IsItem a f.mode
Filed-IsItem c path id a f = record {
  moded = f.has_mode;
  named = subst (λ p. 1 ≤ length p) (sym f.same_path) f.named;
  short = subst (λ p. length p < hash_size) (sym f.same_id) f.short;
  fit = AllBlocks-AllFit a.dirty_blocks f.whole;
}

pub AllFiled-AllItems :
    (c : Cache) (idx : List (Str × Str)) (xs : List Item) → AllFiled c idx xs → AllItems xs
AllFiled-AllItems c [] [] v = tt
AllFiled-AllItems c [] (a ∷ xs) v = absurd v
AllFiled-AllItems c (e ∷ idx) [] v = tt
AllFiled-AllItems c ((path, id) ∷ idx) (a ∷ xs) (f, v) =
    ((f.mode, Filed-IsItem c path id a f), AllFiled-AllItems c idx xs v)

NotAmong-Filed :
    (c : Cache) (idx : List (Str × Str)) (xs : List Item) (id : Str)
    → AllFiled c idx xs
    → NoId id idx
    → NotAmong (c_str id) xs
NotAmong-Filed c [] [] id v d = tt
NotAmong-Filed c [] (a ∷ xs) id v d = absurd v
NotAmong-Filed c (e ∷ idx) [] id v d = tt
NotAmong-Filed c ((path, id') ∷ idx) (a ∷ xs) id (f, v) (d, ds) =
    (λ e. d (e ∙ ap c_str f.same_id), NotAmong-Filed c idx xs id v ds)

pub AllFiled-Distinct :
    (c : Cache) (idx : List (Str × Str)) (xs : List Item)
    → AllFiled c idx xs
    → DistinctIds idx
    → Distinct xs
AllFiled-Distinct c [] [] v d = tt
AllFiled-Distinct c [] (a ∷ xs) v d = absurd v
AllFiled-Distinct c (e ∷ idx) [] v d = tt
AllFiled-Distinct c ((path, id) ∷ idx) (a ∷ xs) (f, v) (d, ds) = (
  subst (λ i. NotAmong (c_str i) xs) (sym f.same_id) (NotAmong-Filed c idx xs id v d),
  AllFiled-Distinct c idx xs v ds,
)

abbrev bound_blocks : ℕ → Result Block → Result (List (ℕ × Block)) → Result (List (ℕ × Block))
bound_blocks idx first more = do b ← first; rest ← more; ok ((idx, b) ∷ rest)

pub blocks_at-sizes :
    (h : Heap) (m : BlockMap) (bs : List (ℕ × Block))
    → blocks_at h m ≡ ok bs
    → (map_bytes h m ≡ bytes_of bs) × (length m ≡ length bs)
unfolding blocks_at
blocks_at-sizes h [] bs e =
    subst (λ x. (0 ≡ bytes_of x) × (0 ≡ length x)) (ok-injective e) (refl, refl)
blocks_at-sizes h ((idx, p) ∷ m) bs e =
    go (deref h p) (blocks_at h m) refl (λ rest r. blocks_at-sizes h m rest r) e
  where
    go :
        (first : Result Block) (more : Result (List (ℕ × Block)))
        → deref h p ≡ first
        → ((rest : List (ℕ × Block))
            → more ≡ ok rest
            → (map_bytes h m ≡ bytes_of rest) × (length m ≡ length rest))
        → bound_blocks idx first more ≡ ok bs
        → (size_at h p + map_bytes h m ≡ bytes_of bs) × (suc (length m) ≡ length bs)
    go (err x) more q r e = cc
    go (ok b) (err x) q r e = cc
    go (ok b) (ok rest) q r e =
        let v = r rest refl in
        let here : size_at h p ≡ b.actual_size = size_at-deref h p b q in
        subst (λ x. (size_at h p + map_bytes h m ≡ bytes_of x) × (suc (length m) ≡ length x))
          (ok-injective e) (omega (arith, v, here), omega (arith, v))

-- What the inodes take of each array is what their maps weigh.
pub AllFiled-ends :
    (c : Cache) (idx : List (Str × Str)) (xs : List Item) (at : Cursors)
    → AllFiled c idx xs
    → (length xs ≡ length idx)
      × ((ends xs at).bytes ≡ at.bytes + weigh (map_bytes c.heap) idx c.dirty_block)
      × ((ends xs at).blocks ≡ at.blocks + weigh length idx c.dirty_block)
      × ((ends xs at).path ≡ at.path + path_bytes idx)
AllFiled-ends c [] [] at v = (refl, omega arith, omega arith, omega arith)
AllFiled-ends c [] (a ∷ xs) at v = absurd v
AllFiled-ends c (e ∷ idx) [] at v = absurd v
AllFiled-ends c ((path, id) ∷ idx) (a ∷ xs) at (f, v) =
    let r = AllFiled-ends c idx xs (advance a at) v in
    let s = blocks_at-sizes c.heap (inner id c.dirty_block) a.dirty_blocks f.blocks in
    (
      omega (arith, r),
      omega (arith, r, s),
      omega (arith, r, s),
      omega (arith, r, ap length f.same_path),
    )
