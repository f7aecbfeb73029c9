-- ===== src/Cache/Write.antt =====
-- `BlockCache::write`.
pub mod Append
pub mod Rounds
pub mod End
pub mod Readback
pub mod Overwrite
pub mod Fresh
pub mod FreshEnd
use zippy_fs.Common.{
  ℕ, zero, suc, ◌+◌, ◌-◌, ◌*◌, ◌/◌, ◌%◌, ◌^◌, Bool, true, false, List, [], ◌∷◌, ◌++◌, ltb, nat_beq,
  if◌then◌else◌, length, set, drop, Result, ok, err, no_fuel, assert_failed, check, ◌>>=◌, Str,
}
use zippy_fs.Common.Map.{insert_ordered, nat_key, str_key}
use zippy_fs.Block.{physical_size, insert, from_data}
use zippy_fs.Util.Numbers.{Clock, later, get_time, ulong_ceil}
use zippy_fs.Inode.{
  Inode, Heap, BlockMap, has_block, get_block, add_block, set_size, set_dirty_inode, remake_inode,
  deref, to_int, minus,
}
use zippy_fs.Cache.State.{
  Cache, Loader, in_cache, id_of, get_inode_by_path, inode_at, put_inode, update_inode, inner,
}
use zippy_fs.Cache.Load.{load_from_shdw}

-- What the loop of `write` works on: the inode, the heap, and the entries of `dirty_block_` and
-- `dirty_block_mtime_` for the inode.
pub record Writing : Type 0 where
  pub heap : Heap
  pub inode : Inode
  pub dirty : BlockMap
  pub dirty_mtime : List (ℕ × ℕ)

-- The part of the caller's buffer from `curr` on.
abbrev pub source : List ℕ → ℕ → List ℕ
source buf curr = drop curr buf

-- The body of the loop where the inode has the block: the bytes come from `buf`, not from where
-- the loop has got to.
unfoldable pub overwrite_block : Clock → List ℕ → ℕ → ℕ → ℕ → Writing → Result Writing
overwrite_block clock buf idx block_size amt w = do
  (p, i') ← get_block (clock 0) idx w.inode
  b ← deref w.heap p
  (res, b') ← insert buf block_size amt b
  ok (record {
    heap = set w.heap p b';
    inode = i';
    dirty = insert_ordered idx p w.dirty;
    dirty_mtime = insert_ordered idx (get_time (clock 1)) w.dirty_mtime;
  })

-- The body where it has not: a new block starts at its first byte, whatever the offset.
unfoldable pub append_block : Clock → List ℕ → ℕ → ℕ → ℕ → Writing → Result Writing
append_block clock buf curr idx block_size w = do
  b ← from_data (source buf curr) block_size
  let p = length w.heap
  (h', i') ← add_block (clock 0) idx p (w.heap ++ (b ∷ [])) w.inode
  ok (record {
    heap = h';
    inode = i';
    dirty = insert_ordered idx p w.dirty;
    dirty_mtime = insert_ordered idx i'.ul_mtime w.dirty_mtime;
  })

unfoldable pub write_block : Clock → List ℕ → ℕ → ℕ → ℕ → ℕ → Writing → Result Writing
unfolding overwrite_block append_block
write_block clock buf curr idx block_size amt w =
    if has_block idx w.inode
    then overwrite_block clock buf idx block_size amt w
    else append_block clock buf curr idx block_size w

-- `block_size` of a round that starts at `curr`.
abbrev pub round_size : ℕ → ℕ → ℕ
round_size size curr =
    if ltb size ((curr + physical_size) % 2 ^ 64)
    then (size + 2 ^ 64 - curr) % 2 ^ 64
    else physical_size

-- `offset_amt` of a round; only the first is offset.
abbrev pub round_offset : Bool → ℕ → ℕ
round_offset offsetted offset =
    if offsetted then 0 else if ltb offset physical_size then offset else offset % physical_size

-- The loop over `unsigned int block_idx`; it returns `curr_idx` and `block_size` as well.
unfoldable pub write_loop :
    ℕ
    → Clock
    → List ℕ
    → (size offset num_blocks idx curr block_size : ℕ) → Bool
    → Writing
    → Result (ℕ × ℕ × Writing)
write_loop zero clock buf size offset num_blocks idx curr block_size offsetted w = err no_fuel
write_loop (suc fuel) clock buf size offset num_blocks idx curr block_size offsetted w =
    elim (ltb idx num_blocks) [
      | false ↦ ok (curr, block_size, w)
      | true ↦ (do
        let curr' = (curr + block_size) % 2 ^ 64
        let block_size' = round_size size curr'
        w' ← write_block clock buf curr' idx block_size' (round_offset offsetted offset) w
        write_loop fuel (later 2 clock) buf size offset num_blocks ((idx + 1) % 2 ^ 32) curr'
            block_size' true w')
    ]

-- `write` behind the loading of the file. While the file ends below 2 ^ 44 the index does not wrap,
-- and a round for each block is enough.
unfoldable pub write_cached : Clock → Str → List ℕ → ℕ → ℕ → Cache → Result (ℕ × Cache)
write_cached clock path buf size offset c = do
  id ← id_of path c
  i ← inode_at id c
  let end = (size + offset) % 2 ^ 64
  let num_blocks = ulong_ceil end physical_size
  let i₁ = if ltb i.size end then set_size (clock 0) end i else i
  (curr, block_size, w) ←
      write_loop (num_blocks + 1) (later 1 clock) buf size offset num_blocks
        (offset / physical_size % 2 ^ 32) 0 0 false
        (record {
          heap = c.heap;
          inode = i₁;
          dirty = inner id c.dirty_block;
          dirty_mtime = inner id c.dirty_block_mtime;
        })
  u ← check (nat_beq ((curr + block_size) % 2 ^ 64) size) assert_failed
  ok (
    to_int size,
    record (put_inode id w.inode c) {
      heap = w.heap;
      dirty_block = insert_ordered id w.dirty c.dirty_block;
      dirty_block_mtime = insert_ordered id w.dirty_mtime c.dirty_block_mtime;
      has_changed = true;
    },
  )

module _ (generichash : List ℕ → List ℕ) (loader : Loader) where
  -- `write(path, buf, size, offset)`.
  unfoldable pub write : Clock × Clock → Str → List ℕ → ℕ → ℕ → Cache → Result (ℕ × Cache)
  unfolding write_cached
  write (loading, clock) path buf size offset c = elim (in_cache path c) [
    | false ↦ (do
      (res, c') ← load_from_shdw generichash loader loading path c
      elim (nat_beq res (minus 1)) [
        | true ↦ ok (minus 1, c')
        | false ↦ write_cached clock path buf size offset c'
      ])
    | true ↦ (do
      c' ← update_inode path (λ i. remake_inode (set_dirty_inode i)) c
      write_cached clock path buf size offset c')
  ]
