-- ===== src/Cache/Flush.antt =====
-- `BlockCache::flush_to_disk`: what is handed to a new tree, and the emptied cache.
pub mod Sizes
pub mod Room
pub mod Written
use zippy_fs.Common.{
  ℕ, suc, ◌+◌, ◌%◌, ◌^◌, Bool, true, false, ◌&&◌, not, List, [], ◌∷◌, ltb, nat_beq, if◌then◌else◌,
  length, Result, ok, ◌>>=◌, Str,
}
use zippy_fs.Block.{Block, get_actual_size}
use zippy_fs.Inode.{Inode, Heap, BlockMap, minus, deref}
use zippy_fs.Cache.State.{Cache, max_size, get_inode_by_path, inner}

-- The arguments of one `add_inode`.
pub record Addition : Type 0 where
  pub added : Inode
  pub dirty_blocks : BlockMap
  pub block_mtime : List (ℕ × ℕ)

-- The arguments of the constructor of `BPLUSIndex`, and the calls of `add_inode` that follow it.
pub record Flush : Type 0 where
  pub num_ents : ℕ
  pub block_size : ℕ
  pub num_blocks : ℕ
  pub path_size : ℕ
  pub additions : List Addition

-- The sums over one map of dirty blocks, and over all of them: bytes and blocks.
unfoldable pub blocks_sum : Heap → BlockMap → ℕ → ℕ → Result (ℕ × ℕ)
blocks_sum h [] bytes count = ok (bytes, count)
blocks_sum h ((idx, p) ∷ m) bytes count = do
  b ← deref h p
  blocks_sum h m ((bytes + get_actual_size b) % 2 ^ 64) ((count + 1) % 2 ^ 64)

unfoldable pub dirty_sum : Heap → List (Str × BlockMap) → ℕ → ℕ → Result (ℕ × ℕ)
unfolding blocks_sum
dirty_sum h [] bytes count = ok (bytes, count)
dirty_sum h ((id, m) ∷ ms) bytes count = do
  (bytes', count') ← blocks_sum h m bytes count
  dirty_sum h ms bytes' count'

unfoldable pub paths_sum : List (Str × Str) → ℕ → ℕ
paths_sum [] n = n
paths_sum ((path, id) ∷ m) n = paths_sum m ((n + length path) % 2 ^ 64)

-- The loop over `inode_idx_` that adds the inodes.
unfoldable pub additions_of : Cache → List (Str × Str) → Result (List Addition)
additions_of c [] = ok []
additions_of c ((path, id) ∷ m) = do
  i ← get_inode_by_path path c
  rest ← additions_of c m
  ok (
      record {
        added = i;
        dirty_blocks = inner id c.dirty_block;
        block_mtime = inner id c.dirty_block_mtime;
      }
      ∷ rest)

-- `flush_to_disk()`: its result, what goes into the new tree if there is one, and the cache. The
-- modification times and `has_changed_` are not reset.
unfoldable pub flush_to_disk : Cache → Result (ℕ × List Flush × Cache)
unfolding dirty_sum paths_sum additions_of
flush_to_disk c = elim c.has_changed [
  | false ↦ ok (minus 1, [], c)
  | true ↦ (do
    (bytes, count) ← dirty_sum c.heap c.dirty_block 0 0
    additions ← additions_of c c.inode_idx
    ok (
      0,
      record {
        num_ents = length c.inode_idx;
        block_size = bytes;
        num_blocks = count;
        path_size = paths_sum c.inode_idx 0;
        additions = additions;
      }
          ∷ [],
      record c { inode_idx = []; inode_ptrs = []; dirty_block = []; size = 0 },
    ))
]

-- `flush_to_shdw(on_close)`.
unfoldable pub flush_to_shdw : ℕ → Cache → Result (ℕ × List Flush × Cache)
flush_to_shdw on_close c =
    if ltb c.size max_size && nat_beq on_close 0 then ok (minus 1, [], c) else flush_to_disk c
