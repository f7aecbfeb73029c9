-- ===== src/Fuse/Persistence.antt =====
-- What is written through FUSE is there after the file system was left and started again.
use zippy_fs.Common.{
  ℕ, ◌+◌, ◌^◌, ◌≤◌, ◌<◌, ◌≡◌, ◌≢◌, refl, sym, ◌∙◌, ap, subst, true, false, List, [], ◌∷◌, length,
  take, drop, flatten, ok-injective, ok, Str, arith,
}
use zippy_fs.Common.Map.{nat_key, str_key}
use zippy_fs.Block.{physical_size}
use zippy_fs.Util.Numbers.{Clock}
use zippy_fs.Util.Names.{crypto_hash}
use zippy_fs.Inode.{Inode, to_int}
use zippy_fs.Inode.Contents.{IsFile, IsFile-nil}
use zippy_fs.Cache.State
use zippy_fs.Cache.State.{Cache, Loader, id_of, inode_at, put_inode, inner, in_cache, max_size}
use zippy_fs.Cache.Files.{make_file, more, read_file}
use zippy_fs.Cache.Files.Attributes.{make_file-stored, new_inode}
use zippy_fs.Cache.Write.{Writing, write}
use zippy_fs.Cache.Write.End.{WroteEnd, write_lem, revived, inode_at-committed}
use zippy_fs.Cache.Write.Fresh.{Ticking, Linear}
use zippy_fs.Cache.Write.FreshEnd.{write-Committed}
use zippy_fs.Cache.Flush.{Flush, flush_to_disk, flush_to_shdw}
use zippy_fs.Cache.Flush.Sizes.{emptied}
use zippy_fs.Cache.Flush.Written.{write_tree}
use zippy_fs.Cache.Flush.Written.Blocks.{IsFile-Table}
use zippy_fs.Cache.Flush.Written.Readback.{read_file-flush_to_disk}
use zippy_fs.Index.Memory.{hash_size}
use zippy_fs.Index.Add.{BplusIndex, mem_of}
use zippy_fs.Index.Build.{Item}
use zippy_fs.TreeLoader.Reported.{loader_of}
use zippy_fs.Fuse.{zippyfs_mknod, zippyfs_write, zippyfs_read, zippyfs_destroy}
use zippy_fs.Fuse.Handlers.{make_file-result, make_file-size, zippyfs_write-small}
use zippy_fs.Fuse.NewFile.{new_inode-fields, i, made, written, item, no_dirty, written-IsFlushable}

-- Leaving the file system flushes.
zippyfs_destroy-flush :
    (c c' : Cache) (f : Flush)
    → flush_to_disk c ≡ ok (0, f ∷ [], c')
    → zippyfs_destroy c ≡ ok (f ∷ [], c')
unfolding zippyfs_destroy flush_to_shdw
zippyfs_destroy-flush c c' f h = ground (arith, h)

zippyfs_read-read_file :
    (generichash : List ℕ → List ℕ) (loader : Loader) (reading : Clock) (path : Str) (n at : ℕ)
    (c c' : Cache) (out : List ℕ)
    → read_file generichash loader reading path n at c ≡ ok (to_int n, out, c')
    → zippyfs_read generichash loader reading path n at c ≡ ok (to_int n, out, c')
unfolding zippyfs_read
zippyfs_read-read_file generichash loader reading path n at c c' out h = ground (arith, h)

-- A write into the new file of a cache that was empty, with what the loop has left.
record Wrote (generichash : List ℕ → List ℕ) (loader : Loader) (clock : Clock)
    (clocks : Clock × Clock) (path : Str) (mode : ℕ) (buf : List ℕ) (size memory : ℕ) : Type 0 where
  last : Writing
  count : ℕ
  few : count < 2 ^ 32
  linear : Linear (revived (i generichash clock path mode memory last)) count last
  added : List (List ℕ)
  file : IsFile last.heap last.dirty added
  contents : flatten added ≡ take size buf
  alive : last.inode.deleted ≡ 0
  held :
      (written generichash clock path mode memory last).size
      ≡ (made generichash clock path mode memory last).size
  ran :
      write generichash loader clocks path buf size 0 (made generichash clock path mode memory last)
      ≡ ok (to_int size, written generichash clock path mode memory last)

write-Wrote :
    (generichash : List ℕ → List ℕ) (loader : Loader) (clock : Clock) (clocks : Clock × Clock)
    (path : Str) (mode : ℕ) (buf : List ℕ) (size memory : ℕ)
    → Ticking clock
    → Ticking clocks.1
    → size ≤ length buf
    → size + physical_size < 2 ^ 44
    → Wrote generichash loader clock clocks path mode buf size memory
write-Wrote g loader clock clocks path mode buf size memory tick tick' enough small =
    let id : Str = crypto_hash g path in
    let i : Inode = new_inode g clock path mode true in
    let c₁ : Cache = (make_file g clock path mode true (State.make memory)).1 in
    let (hid, hi, hh, hb) = make_file-stored g clock path mode true (State.make memory) in
    let (path_eq, id_eq, mode_eq, late) = new_inode-fields g clock path mode in
    let (c', ran, o) =
      write_lem g loader clocks path buf size 0 c₁ id i [] hid hi
        (subst (λ m. IsFile c₁.heap m []) (sym hb) (IsFile-nil c₁.heap)) tt refl enough
        (omega arith) in
    let k =
      write-Committed g loader clocks path buf size (to_int size) c₁ c' id i tick' hid hi hb
        (no_dirty g clock path mode memory
          (record { heap = []; inode = i; dirty = []; dirty_mtime = [] }))
        (subst (λ x. 1 ≤ x) (sym late) (tick 5)) (omega arith) ran in
    let w : Writing = k.last in
    let o' : WroteEnd c₁ id (record i { deleted = 0 }) [] 0 (take size buf)
        (written g clock path mode memory w) =
      subst (WroteEnd c₁ id (record i { deleted = 0 }) [] 0 (take size buf)) k.cache o in
    let same : o'.inode ≡ w.inode =
      ok-injective (sym o'.stored ∙ (inode_at-committed id w (put_inode id (revived i) c₁)).0) in
    record {
      last = w;
      count = k.blocks;
      few = k.few;
      linear = k.linear;
      added = o'.added;
      file =
          subst (λ m. IsFile w.heap m o'.added) (ap (λ x. x.blocks) same ∙ sym k.linear.same)
            o'.file;
      contents = o'.contents;
      alive = ap (λ x. x.deleted) (sym same) ∙ o'.deleted;
      held = o'.held;
      ran = ran ∙ ap (λ x. ok (to_int size, x)) k.cache;
    }

-- What is written is there when the file system is started again. In an empty cache whose size,
-- which is not initialised, is found below the limit, let a file be made by `zippyfs_mknod` and
-- written from its start by `zippyfs_write`, which has the bytes in its buffer and ends 4096 bytes
-- below 2 ^ 44. The path is not empty and has less than 2 ^ 62 bytes, its hash has less than 128, no
-- reading of the clocks is 0, and the system maps the new tree somewhere each time. Then both calls
-- return what FUSE expects, nothing is flushed until `zippyfs_destroy` hands over one tree, and the
-- calls of `add_inode` for it succeed. In another cache that does not have the path, over a loader
-- with this tree mapped and at least one round for its search, `zippyfs_read` at any place below
-- 2 ^ 44 and for any size finds the bytes that were written. The map of the loaded blocks, which has
-- no certain order, is gone through in the order in which it was filled.
pub zippyfs_read-zippyfs_destroy :
    (generichash : List ℕ → List ℕ) (loader : Loader) (maps : ℕ → ℕ) (fuel memory memory' : ℕ)
    (clock reading : Clock) (clocks : Clock × Clock) (path : Str) (mode : ℕ) (buf : List ℕ)
    (size n at : ℕ) (c₂ : Cache)
    → ((i : ℕ) → maps i ≢ 0)
    → 1 ≤ fuel
    → Ticking clock
    → Ticking clocks.1
    → more memory < max_size
    → 1 ≤ length path
    → length path < 2 ^ 62
    → length (crypto_hash generichash path) < hash_size
    → size ≤ length buf
    → size + physical_size < 2 ^ 44
    → at < 2 ^ 44
    → in_cache path c₂ ≡ false
    → (c₁ : Cache) × (c : Cache) × (c' : Cache) × (c₃ : Cache) × (f : Flush) × (b : BplusIndex)
      × (zippyfs_mknod generichash clock path mode (State.make memory) ≡ (0, c₁))
      × (zippyfs_write generichash loader clocks path buf size 0 c₁ ≡ ok (to_int size, [], c))
      × (zippyfs_destroy c ≡ ok (f ∷ [], c'))
      × (write_tree maps c.heap f ≡ ok b)
      × (zippyfs_read generichash
            (loader_of generichash fuel memory' (mem_of b ∷ []))
            reading
            path
            n
            at
            c₂
          ≡ ok (to_int n, take n (drop at (take size buf)), c₃))
unfolding zippyfs_mknod State.make
zippyfs_read-zippyfs_destroy g loader maps fuel memory memory' clock reading clocks path mode buf
      size n at c₂ mapped run tick tick' room named long short enough small far missing =
    let (path_eq, id_eq, mode_eq, late) = new_inode-fields g clock path mode in
    let o = write-Wrote g loader clock clocks path mode buf size memory tick tick' enough small in
    let w : Writing = o.last in
    let c₁ : Cache = made g clock path mode memory w in
    let c : Cache = written g clock path mode memory w in
    let t = IsFile-Table w.heap w.dirty o.added o.file o.linear.keys in
    let a : Item = item g clock path mode memory w o.count o.few o.linear o.added t in
    let (f, flushed, b, tree, c₃, got) =
      read_file-flush_to_disk g maps fuel memory' reading c c₂ (a ∷ []) 0 a path o.added n at
        (written-IsFlushable g clock path mode memory w o.count o.few o.linear o.added t named short
          long)
        mapped refl (o.linear.id ∙ id_eq) named o.linear.late o.alive t.numbered o.file.packed
        (omega (arith, o.file.count, o.linear.count, o.few)) far run missing in
    (
      c₁,
      c,
      emptied c,
      c₃,
      f,
      b,
      make_file-result g loader clock path mode true (State.make memory),
      zippyfs_write-small g loader clocks path buf size 0 (to_int size) c₁ c o.ran
          (omega (arith, o.held, make_file-size g loader clock path mode true (State.make memory))),
      zippyfs_destroy-flush c (emptied c) f flushed,
      tree,
      zippyfs_read-read_file g (loader_of g fuel memory' (mem_of b ∷ [])) reading path n at c₂ c₃
          (take n (drop at (take size buf)))
          (got ∙ ap (λ x. ok (to_int n, take n (drop at x), c₃)) o.contents),
    )
