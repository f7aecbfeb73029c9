-- ===== src/Cache/Flush/Sizes.antt =====
-- What `flush_to_disk` hands over to the new tree.
use zippy_fs.Common.{
  Option, none, some, get_elem?, or_fault, null_deref, ok-injective, sym, ap₂, ℕ, zero, suc, ◌+◌,
  ◌%◌, ◌^◌, ◌<◌, ◌≡◌, refl, ◌∙◌, ap, true, List, [], ◌∷◌, length, ok, Str, arith,
}
use zippy_fs.Common.Map.{str_key}
use zippy_fs.Block.{Block}
use zippy_fs.Inode.{Heap, BlockMap, deref}
use zippy_fs.Cache.State.{Cache, inner, get_inode_by_path}
use zippy_fs.Cache.Invariant.{Linked, HasInodes, Linked-HasInodes}
use zippy_fs.Cache.Flush.{
  Addition, Flush, flush_to_disk, additions_of, dirty_sum, blocks_sum, paths_sum,
}

-- The number of dirty blocks of all the maps.
abbrev pub entries : List (Str × BlockMap) → ℕ
entries [] = 0
entries ((id, m) ∷ ms) = length m + entries ms

-- The pointers of the maps point into the heap.
abbrev pub InHeap : Heap → BlockMap → Type 0
InHeap h [] = Unit {0}
InHeap h ((idx, p) ∷ m) = (p < length h) × InHeap h m

abbrev pub AllInHeap : Heap → List (Str × BlockMap) → Type 0
AllInHeap h [] = Unit {0}
AllInHeap h ((id, m) ∷ ms) = InHeap h m × AllInHeap h ms

deref-ok : (h : Heap) (p : ℕ) → p < length h → (b : Block) × (deref h p ≡ ok b)
deref-ok [] p l = absurd (none_below l)
  where
    none_below : {i : ℕ} → i < 0 → ⊥
    none_below k = omega arith
deref-ok (b ∷ h) zero l = (b, refl)
deref-ok (b ∷ h) (suc p) l = deref-ok h p (omega arith)

-- The bytes of the blocks of a map, and of all the maps.
abbrev pub size_at : Heap → ℕ → ℕ
size_at h p = elim (get_elem? h p) [ none ↦ 0 | some b ↦ b.actual_size ]

abbrev pub map_bytes : Heap → BlockMap → ℕ
map_bytes h [] = 0
map_bytes h ((idx, p) ∷ m) = size_at h p + map_bytes h m

abbrev pub all_bytes : Heap → List (Str × BlockMap) → ℕ
all_bytes h [] = 0
all_bytes h ((id, m) ∷ ms) = map_bytes h m + all_bytes h ms

abbrev pub path_bytes : List (Str × Str) → ℕ
path_bytes [] = 0
path_bytes ((path, id) ∷ m) = length path + path_bytes m

pub size_at-deref : (h : Heap) (p : ℕ) (b : Block) → deref h p ≡ ok b → size_at h p ≡ b.actual_size
size_at-deref h p b e = go (get_elem? h p) e
  where
    go :
        (o : Option Block)
        → or_fault o null_deref ≡ ok b
        → elim o [ none ↦ 0 | some c ↦ c.actual_size ] ≡ b.actual_size
    go none e = cc
    go (some c) e = ap (λ x. x.actual_size) (ok-injective e)

blocks_sum-step :
    (h : Heap) (m : BlockMap) (idx p bytes count : ℕ) (b : Block)
    → deref h p ≡ ok b
    → count + suc (length m) < 2 ^ 64
    → blocks_sum h ((idx, p) ∷ m) bytes count
      ≡ blocks_sum h m ((bytes + size_at h p) % 2 ^ 64) (count + 1)
unfolding blocks_sum
blocks_sum-step h m idx p bytes count b e small =
    let next : (count + 1) % 2 ^ 64 ≡ count + 1 = omega arith in
    rw (e, next)
      (ap (λ n. blocks_sum h m ((bytes + n) % 2 ^ 64) (count + 1)) (sym (size_at-deref h p b e)))

blocks_sum-ok :
    (h : Heap) (m : BlockMap) (bytes count : ℕ)
    → InHeap h m
    → bytes < 2 ^ 64
    → count + length m < 2 ^ 64
    → blocks_sum h m bytes count ≡ ok ((bytes + map_bytes h m) % 2 ^ 64, count + length m)
unfolding blocks_sum
blocks_sum-ok h [] bytes count v b small = ap₂ (λ x n. ok (x, n)) (omega arith) (omega arith)
blocks_sum-ok h ((idx, p) ∷ m) bytes count v b small =
    let (block, e) = deref-ok h p v.0 in
    blocks_sum-step h m idx p bytes count block e small
    ∙ blocks_sum-ok h m ((bytes + size_at h p) % 2 ^ 64) (count + 1) v.1 (omega arith) (omega arith)
    ∙ ap₂ (λ x n. ok (x, n)) (omega arith) (omega arith)

pub dirty_sum-ok :
    (h : Heap) (ms : List (Str × BlockMap)) (bytes count : ℕ)
    → AllInHeap h ms
    → bytes < 2 ^ 64
    → count + entries ms < 2 ^ 64
    → dirty_sum h ms bytes count ≡ ok ((bytes + all_bytes h ms) % 2 ^ 64, count + entries ms)
unfolding dirty_sum
dirty_sum-ok h [] bytes count v b small = ap₂ (λ x n. ok (x, n)) (omega arith) (omega arith)
dirty_sum-ok h ((id, m) ∷ ms) bytes count v b small =
    let e = blocks_sum-ok h m bytes count v.0 b (omega arith) in
    let r =
      dirty_sum-ok h ms ((bytes + map_bytes h m) % 2 ^ 64) (count + length m) v.1 (omega arith)
        (omega arith) in
    rw e (r ∙ ap₂ (λ x n. ok (x, n)) (omega arith) (omega arith))

pub paths_sum-ok :
    (m : List (Str × Str)) (n : ℕ) → n < 2 ^ 64 → paths_sum m n ≡ (n + path_bytes m) % 2 ^ 64
unfolding paths_sum
paths_sum-ok [] n b = omega arith
paths_sum-ok ((path, id) ∷ m) n b =
    paths_sum-ok m ((n + length path) % 2 ^ 64) (omega arith) ∙ omega arith

-- What one path gives to the tree.
pub record Added (c : Cache) (path id : Str) (a : Addition) : Type 0 where
  pub inode : get_inode_by_path path c ≡ ok a.added
  pub blocks : a.dirty_blocks ≡ inner id c.dirty_block
  pub mtimes : a.block_mtime ≡ inner id c.dirty_block_mtime

abbrev pub AllAdded : Cache → List (Str × Str) → List Addition → Type 0
AllAdded c [] [] = Unit {0}
AllAdded c [] (a ∷ rest) = ⊥
AllAdded c (e ∷ es) [] = ⊥
AllAdded c ((path, id) ∷ es) (a ∷ rest) = Added c path id a × AllAdded c es rest

additions_of-ok :
    (c : Cache) (m : List (Str × Str))
    → HasInodes c m
    → (additions : List Addition) × (additions_of c m ≡ ok additions) × AllAdded c m additions
unfolding additions_of
additions_of-ok c [] v = ([], refl, tt)
additions_of-ok c ((path, id) ∷ m) v =
    let (i, e) = v.0 in
    let (rest, r, all) = additions_of-ok c m v.1 in
    (
      record {
        added = i;
        dirty_blocks = inner id c.dirty_block;
        block_mtime = inner id c.dirty_block_mtime;
      }
          ∷ rest,
      rw (e, r),
      (record { inode = e; blocks = refl; mtimes = refl }, all),
    )

abbrev pub handed : Cache → ℕ → ℕ → List Addition → Flush
handed c bytes count additions = record {
  num_ents = length c.inode_idx;
  block_size = bytes;
  num_blocks = count;
  path_size = paths_sum c.inode_idx 0;
  additions = additions;
}

abbrev pub emptied : Cache → Cache
emptied c = record c { inode_idx = []; inode_ptrs = []; dirty_block = []; size = 0 }

pub flush_to_disk-ran :
    (c : Cache) (bytes count : ℕ) (additions : List Addition)
    → c.has_changed ≡ true
    → dirty_sum c.heap c.dirty_block 0 0 ≡ ok (bytes, count)
    → additions_of c c.inode_idx ≡ ok additions
    → flush_to_disk c ≡ ok (0, handed c bytes count additions ∷ [], emptied c)
unfolding flush_to_disk
flush_to_disk-ran c bytes count additions changed e r = ground (arith, changed, e, r)

-- A cache that has changed, in which every path has an inode and every dirty block, less than
-- 2 ^ 64 of them, is in the heap, is flushed to one new tree. This is told the number of paths and
-- of dirty blocks, and, as numbers of 64 bits, the bytes of these blocks and of the paths, and is
-- given for every path its inode and the dirty blocks and times of its id.
-- The cache has no path, no inode, no dirty block and the size 0 afterwards.
pub flush_to_disk_lem :
    (c : Cache)
    → c.has_changed ≡ true
    → Linked c
    → AllInHeap c.heap c.dirty_block
    → entries c.dirty_block < 2 ^ 64
    → (f : Flush) × (c' : Cache) × (flush_to_disk c ≡ ok (0, f ∷ [], c'))
      × (f.num_ents ≡ length c.inode_idx)
      × (f.num_blocks ≡ entries c.dirty_block)
      × (f.block_size ≡ all_bytes c.heap c.dirty_block % 2 ^ 64)
      × (f.path_size ≡ path_bytes c.inode_idx % 2 ^ 64)
      × AllAdded c c.inode_idx f.additions
      × (c'.inode_idx ≡ [])
      × (c'.inode_ptrs ≡ [])
      × (c'.dirty_block ≡ [])
      × (c'.size ≡ 0)
flush_to_disk_lem c changed linked v small =
    let bytes : ℕ = (0 + all_bytes c.heap c.dirty_block) % 2 ^ 64 in
    let e = dirty_sum-ok c.heap c.dirty_block 0 0 v (omega arith) (omega arith) in
    let (additions, r, all) = additions_of-ok c c.inode_idx (Linked-HasInodes c linked) in
    (
      handed c bytes (0 + entries c.dirty_block) additions,
      emptied c,
      flush_to_disk-ran c bytes (0 + entries c.dirty_block) additions changed e r,
      refl,
      omega arith,
      omega arith,
      paths_sum-ok c.inode_idx 0 (omega arith) ∙ omega arith,
      all,
      refl,
      refl,
      refl,
      refl,
    )
