-- ===== src/Cache/Write/End.antt =====
-- `BlockCache::write` at the end of a file in the cache, and `BlockCache::read` after it.
use zippy_fs.Common.{
  ℕ, ◌+◌, ◌-◌, ◌*◌, ◌/◌, ◌%◌, ◌^◌, ◌≤◌, ◌<◌, max, ◌≡◌, ◌≢◌, refl, ap, ◌∙◌, true, false, List, ◌++◌,
  arith, length, flatten, take, drop, ok, length-take, nat_beq, if◌then◌else◌, ltb, Str,
}
use zippy_fs.Common.Map.{insert_ordered, nat_key, str_key, find-insert_ordered}
use zippy_fs.Block.{physical_size}
use zippy_fs.Util.Numbers.{Clock, later, ulong_ceil}
use zippy_fs.Inode.{Inode, set_size, to_int, set_dirty_inode, remake_inode, update_mtime}
use zippy_fs.Inode.Contents.{IsFile}
use zippy_fs.Inode.Contents.Grow.{Full, Grown}
use zippy_fs.Cache.State.{Cache, Loader, id_of, inode_at, put_inode, in_cache, update_inode, inner}
use zippy_fs.Cache.State.Lookup.{inode_at-put_inode, inode_at-put_inode_self}
use zippy_fs.Cache.Write.{Writing, write_loop, write_cached, write, Result}
use zippy_fs.Cache.Write.Append.{Appended}
use zippy_fs.Cache.Write.Rounds.{write_loop-Looped}

-- `ulong_ceil` of a file's end counts the blocks up to it.
pub ulong_ceil_lem :
    (end : ℕ)
    → end + physical_size ≤ 2 ^ 44
    → (end ≤ ulong_ceil end physical_size * physical_size)
      × (ulong_ceil end physical_size * physical_size < end + physical_size)
unfolding ulong_ceil
ulong_ceil_lem end h = ground arith

-- What a write of `bytes` behind the chunks `ds` of the file under `id` leaves.
pub record WroteEnd (c : Cache) (id : Str) (i : Inode) (ds : List (List ℕ)) (offset : ℕ)
    (bytes : List ℕ) (c' : Cache) : Type 0 where
  pub inode : Inode
  pub stored : inode_at id c' ≡ ok inode
  pub added : List (List ℕ)
  pub file : IsFile c'.heap inode.blocks (ds ++ added)
  pub contents : flatten added ≡ bytes
  pub size : inode.size ≡ max i.size (length bytes + offset)
  pub deleted : inode.deleted ≡ i.deleted
  pub grown : Grown c.heap c'.heap
  pub paths : c'.inode_idx ≡ c.inode_idx
  pub others : (other : Str) → other ≢ id → inode_at other c' ≡ inode_at other c
  pub changed : c'.has_changed ≡ true
  pub held : c'.size ≡ c.size

-- The inode with the size that `write` gives it.
abbrev pub resized : Clock → ℕ → Inode → Inode
resized clock end i = if ltb i.size end then set_size (clock 0) end i else i

pub resized_lem :
    (clock : Clock) (end : ℕ) (i : Inode)
    → ((resized clock end i).blocks ≡ i.blocks)
      × ((resized clock end i).size ≡ max i.size end)
      × ((resized clock end i).deleted ≡ i.deleted)
unfolding set_size update_mtime
resized_lem clock end i = ground arith

-- The cache behind the loop.
abbrev pub committed : Str → Writing → Cache → Cache
committed id w c = record (put_inode id w.inode c) {
  heap = w.heap;
  dirty_block = insert_ordered id w.dirty c.dirty_block;
  dirty_block_mtime = insert_ordered id w.dirty_mtime c.dirty_block_mtime;
  has_changed = true;
}

pub inode_at-committed :
    (id : Str) (w : Writing) (c : Cache)
    → (inode_at id (committed id w c) ≡ ok w.inode)
      × ((other : Str) → other ≢ id → inode_at other (committed id w c) ≡ inode_at other c)
unfolding inode_at put_inode
inode_at-committed id w c = (
  ground (arith, find-insert_ordered id id w.inode c.inode_ptrs, str_key.beq_iff id id),
  λ other h.
      ground (arith, find-insert_ordered id other w.inode c.inode_ptrs, str_key.beq_iff other id),
)

inode_idx-committed :
    (id : Str) (w : Writing) (c : Cache) → (committed id w c).inode_idx ≡ c.inode_idx
unfolding put_inode
inode_idx-committed id w c = refl

held-committed : (id : Str) (w : Writing) (c : Cache) → (committed id w c).size ≡ c.size
unfolding put_inode
held-committed id w c = refl

module _ (clock : Clock) (path : Str) (buf : List ℕ) (size offset : ℕ) (c : Cache) (id : Str)
    (i : Inode) where
  -- What the loop starts with.
  abbrev pub started : Writing
  started = record {
    heap = c.heap;
    inode = resized clock (size + offset) i;
    dirty = inner id c.dirty_block;
    dirty_mtime = inner id c.dirty_block_mtime;
  }

  abbrev pub loop_from : ℕ → Result (ℕ × ℕ × Writing)
  loop_from k =
      write_loop (ulong_ceil (size + offset) physical_size + 1) (later 1 clock) buf size offset
        (ulong_ceil (size + offset) physical_size) k 0 0 false started

  -- `write` ends well if the loop does and the assertion holds.
  pub write_cached-committed :
      (k curr last : ℕ) (w : Writing)
      → id_of path c ≡ ok id
      → inode_at id c ≡ ok i
      → size + offset < 2 ^ 64
      → offset / physical_size % 2 ^ 32 ≡ k
      → loop_from k ≡ ok (curr, last, w)
      → curr + last ≡ size
      → write_cached clock path buf size offset c ≡ ok (to_int size, committed id w c)
  unfolding write_cached
  write_cached-committed k curr last w hid hi hb hk ran total =
      let e1 : (size + offset) % 2 ^ 64 ≡ size + offset = omega arith in
      let e3 : nat_beq ((curr + last) % 2 ^ 64) size ≡ true = ground arith in
      rw (hid, hi, e1, hk, ran, e3)

  committed-WroteEnd :
      (ds : List (List ℕ)) (w : Writing)
      → size ≤ length buf
      → Appended started w ds (take (size - (0 + 0)) (drop (0 + 0) buf))
      → WroteEnd c id i ds offset (take size buf) (committed id w c)
  committed-WroteEnd ds w hs a =
      let e : size - (0 + 0) ≡ size = omega arith in
      let (blocks_eq, size_eq, deleted_eq) = resized_lem clock (size + offset) i in
      record {
        inode = w.inode;
        stored = (inode_at-committed id w c).0;
        added = a.added;
        file = a.file;
        contents = a.contents ∙ ap (λ k. take k buf) e;
        size = omega (arith, a.same.0, size_eq, length-take size buf);
        deleted = a.same.1 ∙ deleted_eq;
        grown = a.grown;
        paths = inode_idx-committed id w c;
        others = (inode_at-committed id w c).1;
        changed = refl;
        held = held-committed id w c;
      }

  pub write_cached-WroteEnd :
      (ds : List (List ℕ))
      → id_of path c ≡ ok id
      → inode_at id c ≡ ok i
      → IsFile c.heap i.blocks ds
      → Full ds
      → offset ≡ length ds * physical_size
      → size ≤ length buf
      → size + offset + physical_size ≤ 2 ^ 44
      → (c' : Cache) × (write_cached clock path buf size offset c ≡ ok (to_int size, c'))
        × WroteEnd c id i ds offset (take size buf) c'
  write_cached-WroteEnd ds hid hi v f ho hs hb =
      let (blocks_eq, size_eq, deleted_eq) = resized_lem clock (size + offset) i in
      let ceil = ulong_ceil_lem (size + offset) hb in
      let out =
        write_loop-Looped (ulong_ceil (size + offset) physical_size + 1) (later 1 clock) buf size
          offset (ulong_ceil (size + offset) physical_size) (length ds) 0 0 false started ds
          (record {
            file = rw blocks_eq v;
            full = λ h. f;
            here = refl;
            enough = hs;
            small = hb;
            blocks = ceil;
            behind = omega arith;
            at = omega arith;
          })
          (omega (arith, ceil)) (omega arith) in
      (
        committed id out.final c,
        write_cached-committed (length ds) out.curr out.last out.final hid hi (omega arith)
            (omega arith) out.ran out.total,
        committed-WroteEnd ds out.final hs out.result,
      )

-- The inode with which `write` goes on where the file is in the cache.
abbrev pub revived : Inode → Inode
revived i = remake_inode (set_dirty_inode i)

module _ (generichash : List ℕ → List ℕ) (loader : Loader) (clocks : Clock × Clock) (path : Str)
    (buf : List ℕ) (size offset : ℕ) (c : Cache) where
  pub write-cached :
      (id : Str) (i : Inode)
      → id_of path c ≡ ok id
      → inode_at id c ≡ ok i
      → write generichash loader clocks path buf size offset c
        ≡ write_cached clocks.1 path buf size offset (put_inode id (revived i) c)
  unfolding write in_cache update_inode id_of
  write-cached id i hid hi = ground arith

  -- Writing `size` bytes at the end of a file in the cache, where the buffer has the bytes, the
  -- file has no gaps, all its blocks are full and it ends a block below 2 ^ 44, returns `size` and leaves a file without gaps
  -- that holds its old chunks and behind them the bytes written. The inode's size is raised to the
  -- new end, it is not deleted, the other inodes are as before, and so are the blocks that were
  -- there and the paths.
  pub write_lem :
      (id : Str) (i : Inode) (ds : List (List ℕ))
      → id_of path c ≡ ok id
      → inode_at id c ≡ ok i
      → IsFile c.heap i.blocks ds
      → Full ds
      → offset ≡ length ds * physical_size
      → size ≤ length buf
      → size + offset + physical_size ≤ 2 ^ 44
      → (c' : Cache) × (write generichash loader clocks path buf size offset c
          ≡ ok (to_int size, c'))
        × WroteEnd c id (record i { deleted = 0 }) ds offset (take size buf) c'
  unfolding id_of put_inode remake_inode set_dirty_inode
  write_lem id i ds hid hi v f ho hs hb =
      let c₁ : Cache = put_inode id (revived i) c in
      let (c', ran, o) =
        write_cached-WroteEnd clocks.1 path buf size offset c₁ id (revived i) ds hid
          (inode_at-put_inode_self id (revived i) c) v f ho hs hb in
      (
        c',
        write-cached id i hid hi ∙ ran,
        record {
          inode = o.inode;
          stored = o.stored;
          added = o.added;
          file = o.file;
          contents = o.contents;
          size = o.size;
          deleted = o.deleted;
          grown = o.grown;
          paths = o.paths;
          others = λ other h. o.others other h ∙ inode_at-put_inode id other (revived i) c h;
          changed = o.changed;
          held = o.held;
        },
      )
