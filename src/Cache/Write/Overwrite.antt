-- ===== src/Cache/Write/Overwrite.antt =====
-- `BlockCache::write` inside a block that the file already has.
use zippy_fs.Common.{
  ℕ, suc, Bool, ◌+◌, ◌/◌, ◌%◌, ◌^◌, ◌≤◌, ◌<◌, max, ◌≡◌, ap, ◌∙◌, true, false, List, [], ◌++◌, arith,
  length, take, drop, set, get_elem?, ok, some, none, Str, get_elem?-set_self, lt-length_of_get,
}
use zippy_fs.Common.Map.{find, insert_ordered, nat_key, str_key, find-insert_ordered_self}
use zippy_fs.Block.{Block, physical_size, insert, get_data}
use zippy_fs.Block.Data.{IsBlock, insert_lem}
use zippy_fs.Util.Numbers.{Clock, later, get_time, ulong_ceil}
use zippy_fs.Inode.{Inode, Ptr, has_block, get_block, to_int, set_dirty_inode, remake_inode}
use zippy_fs.Cache.State.{Cache, Loader, id_of, inode_at, put_inode, inner}
use zippy_fs.Cache.State.Lookup.{inode_at-put_inode_self}
use zippy_fs.Cache.Write.{
  Writing, write_block, overwrite_block, write_loop, round_size, round_offset, write,
}
use zippy_fs.Cache.Write.Rounds.{write_loop-go}
use zippy_fs.Cache.Write.End.{
  resized_lem, started, loop_from, committed, write_cached-committed, write-cached,
  inode_at-committed, ulong_ceil_lem, revived,
}

-- What one round does to a block that is there.
abbrev overwritten : Clock → ℕ → Ptr → Block → Writing → Writing
overwritten clock k p b w = record {
  heap = set w.heap p b;
  inode = record w.inode { ul_mtime = get_time (clock 0) };
  dirty = insert_ordered k p w.dirty;
  dirty_mtime = insert_ordered k (get_time (clock 1)) w.dirty_mtime;
}

write_loop-stop :
    (fuel : ℕ) (clock : Clock) (buf : List ℕ) (size offset n curr bs : ℕ) (o : Bool) (w : Writing)
    → write_loop (suc fuel) clock buf size offset n n curr bs o w ≡ ok (curr, bs, w)
unfolding write_loop
write_loop-stop fuel clock buf size offset n curr bs o w = ground arith

module _ (clock : Clock) (buf : List ℕ) (k : ℕ) (p : Ptr) (b b' : Block) (w : Writing)
    (there : find k w.inode.blocks ≡ some p) (stored : get_elem? w.heap p ≡ some b) where
  write_block-overwritten :
      (curr s amt : ℕ)
      → insert buf s amt b ≡ ok (0, b')
      → write_block clock buf curr k s amt w ≡ ok (overwritten clock k p b' w)
  unfolding write_block overwrite_block has_block get_block
  write_block-overwritten curr s amt ran = ground (arith, there, stored, ran)

  write_loop-overwritten :
      (size offset : ℕ)
      → 0 < size
      → size + offset % physical_size ≤ physical_size
      → suc k < 2 ^ 32
      → insert buf size (offset % physical_size) b ≡ ok (0, b')
      → write_loop (suc (suc k)) clock buf size offset (suc k) k 0 0 false w
        ≡ ok (0, size, overwritten clock k p b' w)
  write_loop-overwritten size offset some_bytes inside few ran =
      let one : round_size size 0 ≡ size = ground arith in
      let at : round_offset false offset ≡ offset % physical_size = ground arith in
      let block : write_block clock buf 0 k (round_size size 0) (round_offset false offset) w
          ≡ ok (overwritten clock k p b' w) =
        ap (λ s. write_block clock buf 0 k s (round_offset false offset) w) one
        ∙ ap (λ a. write_block clock buf 0 k size a w) at
        ∙ write_block-overwritten 0 size (offset % physical_size) ran in
      write_loop-go (suc k) clock buf size offset (suc k) k 0 0 false w (overwritten clock k p b' w)
        (omega arith) (omega arith) (omega arith) block
      ∙ write_loop-stop k (later 2 clock) buf size offset (suc k) 0 (round_size size 0) true
          (overwritten clock k p b' w)
      ∙ ap (λ s. ok (0, s, overwritten clock k p b' w)) one

-- Writing at least one byte, all of them in the buffer, inside one block that a cached file has, 4096 bytes below 2 ^ 44 and with no gap
-- behind what the block holds, returns the size and replaces the bytes of this block from the
-- offset in it on, in the block that the inode points to. The inode keeps its block table, its
-- size is raised to the end of the write, and the block is among the dirty ones of the file.
pub write-overwritten :
    (generichash : List ℕ → List ℕ) (loader : Loader) (clocks : Clock × Clock) (path : Str)
    (buf : List ℕ) (size offset : ℕ) (c : Cache) (id : Str) (i : Inode) (p : Ptr) (b : Block)
    (d : List ℕ)
    → id_of path c ≡ ok id
    → inode_at id c ≡ ok i
    → find (offset / physical_size) i.blocks ≡ some p
    → get_elem? c.heap p ≡ some b
    → IsBlock b
    → get_data b ≡ ok d
    → 0 < size
    → size ≤ length buf
    → size + offset % physical_size ≤ physical_size
    → offset % physical_size ≤ b.actual_size
    → size + offset + physical_size ≤ 2 ^ 44
    → let amt = offset % physical_size in
      (c' : Cache) × (b' : Block) × (j : Inode) × (write generichash loader clocks path buf size
          offset c
        ≡ ok (to_int size, c'))
      × (inode_at id c' ≡ ok j)
      × (j.blocks ≡ i.blocks)
      × (j.size ≡ max i.size (size + offset))
      × (get_elem? c'.heap p ≡ some b')
      × (get_data b' ≡ ok (take amt d ++ (take size buf ++ drop (amt + size) d)))
      × (find (offset / physical_size) (inner id c'.dirty_block) ≡ some p)
unfolding put_inode remake_inode set_dirty_inode id_of
write-overwritten g loader clocks path buf size offset c id i p b d hid hi there stored vb hd
      some_bytes enough inside gap small =
    let k : ℕ = offset / physical_size in
    let c₁ : Cache = put_inode id (revived i) c in
    let (b', inserted, vb', grown, seen) =
      insert_lem buf size (offset % physical_size) b d vb hd enough gap inside in
    let w : Writing = started clocks.1 path buf size offset c₁ id (revived i) in
    let w' : Writing = overwritten (later 1 clocks.1) k p b' w in
    let (blocks_eq, size_eq, deleted_eq) = resized_lem clocks.1 (size + offset) (revived i) in
    let there' : find k w.inode.blocks ≡ some p = ap (λ m. find k m) blocks_eq ∙ there in
    let ceil : ulong_ceil (size + offset) physical_size ≡ suc k =
      omega (arith, ulong_ceil_lem (size + offset) small) in
    let rounds : suc k + 1 ≡ suc (suc k) = omega arith in
    let looped =
      write_loop-overwritten (later 1 clocks.1) buf k p b b' w there' stored size offset some_bytes
        inside (omega arith) inserted in
    let from_k : loop_from clocks.1 path buf size offset c₁ id (revived i) k ≡ ok (0, size, w') =
      ap (λ n. write_loop (n + 1) (later 1 clocks.1) buf size offset n k 0 0 false w) ceil
      ∙ ap (λ f. write_loop f (later 1 clocks.1) buf size offset (suc k) k 0 0 false w) rounds
      ∙ looped in
    (
      committed id w' c₁,
      b',
      w'.inode,
      write-cached g loader clocks path buf size offset c id i hid hi
          ∙ write_cached-committed clocks.1 path buf size offset c₁ id (revived i) k 0 size w' hid
              (inode_at-put_inode_self id (revived i) c) (omega arith) (omega arith) from_k
              (omega arith),
      (inode_at-committed id w' c₁).0,
      blocks_eq,
      size_eq,
      get_elem?-set_self c.heap p b' (lt-length_of_get c.heap p b stored),
      seen,
      ap (λ o. find k (elim o [ none ↦ [] | some m ↦ m ]))
            (find-insert_ordered_self id w'.dirty c₁.dirty_block)
          ∙ find-insert_ordered_self k p w.dirty,
    )
