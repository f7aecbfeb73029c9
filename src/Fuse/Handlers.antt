-- ===== src/Fuse/Handlers.antt =====
-- What the callbacks of fuse_ops.cpp do one after the other.
use zippy_fs.Common.{
  ℕ, ◌+◌, ◌%◌, ◌^◌, ◌≤◌, ◌<◌, ◌≡◌, refl, sym, ◌∙◌, ap, subst, Bool, true, some, List, [], length,
  take, drop, ok, Str, arith,
}
use zippy_fs.Common.Map.{str_key}
use zippy_fs.Block.{physical_size}
use zippy_fs.Util.Numbers.{Clock}
use zippy_fs.Util.Names.{crypto_hash}
use zippy_fs.Inode.{Stat, to_int, s_isdir, Inode}
use zippy_fs.Inode.Contents.{IsFile, IsFile-nil}
use zippy_fs.Cache.State.{Cache, Loader, max_size, put_inode}
use zippy_fs.Cache.Files.{more, make_file}
use zippy_fs.Cache.Files.Attributes.{getattr-make_file, make_file-stored, new_inode}
use zippy_fs.Cache.Write.{write}
use zippy_fs.Cache.Write.End.{write_lem}
use zippy_fs.Cache.Write.Readback.{WroteEnd-read_file}
use zippy_fs.Cache.Flush.{flush_to_shdw}
use zippy_fs.Fuse.{
  zippyfs_mknod, zippyfs_mkdir, zippyfs_write, zippyfs_read, zippyfs_getattr, or_ifdir, zero_stat,
}

module _ (generichash : List ℕ → List ℕ) (loader : Loader) where
  -- A path of more than one byte that `zippyfs_mkdir` makes with a mode without type bits is a
  -- directory for `zippyfs_getattr`: that returns 0, with the permissions asked for, a link count
  -- of 2 and no bytes.
  pub zippyfs_getattr-zippyfs_mkdir :
      (clock : Clock) (path : Str) (mode : ℕ) (c : Cache)
      → 1 < length path
      → mode < 4096
      → (filled : Stat) × (given : ℕ) × (zippyfs_getattr generichash loader path
            (zippyfs_mkdir generichash clock path mode c).1
          ≡ ok (0, filled))
        × (filled.st_mode ≡ some given)
        × (s_isdir given ≡ true)
        × (given % 4096 ≡ mode)
        × (filled.st_nlink ≡ 2)
        × (filled.st_size ≡ 0)
  unfolding zippyfs_getattr zippyfs_mkdir
  zippyfs_getattr-zippyfs_mkdir clock path mode c long plain =
      let (filled, ran, moded, linked, sized, blocked) =
        getattr-make_file generichash loader clock path (or_ifdir mode) true c zero_stat in
      let given : or_ifdir mode ≡ mode + 16384 = ground arith in
      let dir : s_isdir (or_ifdir mode) ≡ true = ap s_isdir given ∙ ground arith in
      (filled, or_ifdir mode, ground arith, moded, dir, omega (arith, given), ground arith, sized)

  pub make_file-result :
      (clock : Clock) (path : Str) (mode : ℕ) (dirty : Bool) (c : Cache)
      → let r = make_file generichash clock path mode dirty c in r ≡ (0, r.1)
  unfolding make_file
  make_file-result clock path mode dirty c = refl

  pub make_file-size :
      (clock : Clock) (path : Str) (mode : ℕ) (dirty : Bool) (c : Cache)
      → (make_file generichash clock path mode dirty c).1.size ≡ more c.size
  unfolding make_file put_inode
  make_file-size clock path mode dirty c = refl

  -- A write through FUSE where the cache stays below its limit flushes nothing.
  pub zippyfs_write-small :
      (clocks : Clock × Clock) (path : Str) (buf : List ℕ) (size offset res : ℕ) (c c' : Cache)
      → write generichash loader clocks path buf size offset c ≡ ok (res, c')
      → c'.size < max_size
      → zippyfs_write generichash loader clocks path buf size offset c ≡ ok (to_int size, [], c')
  unfolding zippyfs_write flush_to_shdw
  zippyfs_write-small clocks path buf size offset res c c' ran small = ground arith

  -- A file that is made by `zippyfs_mknod` while the cache is below its limit, and written from its
  -- start by `zippyfs_write`, is read back: both return what FUSE expects, nothing is flushed, and
  -- `zippyfs_read` at any place below 2 ^ 44 and for any size finds the bytes that were written.
  -- The buffer has the bytes, and the write ends 4096 bytes below 2 ^ 44.
  pub zippyfs_read-zippyfs_write-zippyfs_mknod :
      (clock : Clock) (clocks : Clock × Clock) (path : Str) (mode : ℕ) (buf : List ℕ) (size : ℕ)
      (c : Cache) (reading : Clock) (n at : ℕ)
      → more c.size < max_size
      → size ≤ length buf
      → size + physical_size < 2 ^ 44
      → at < 2 ^ 44
      → (c₁ : Cache) × (c₂ : Cache) × (zippyfs_mknod generichash clock path mode c ≡ (0, c₁))
        × (zippyfs_write generichash loader clocks path buf size 0 c₁ ≡ ok (to_int size, [], c₂))
        × (zippyfs_read generichash loader reading path n at c₂
            ≡ ok (to_int n, take n (drop at (take size buf)), c₂))
  unfolding zippyfs_mknod zippyfs_read
  zippyfs_read-zippyfs_write-zippyfs_mknod clock clocks path mode buf size c reading n at room
        enough small ha =
      let id : Str = crypto_hash generichash path in
      let c₁ : Cache = (make_file generichash clock path mode true c).1 in
      let i : Inode = new_inode generichash clock path mode true in
      let (hid, hi, hh, hb) = make_file-stored generichash clock path mode true c in
      let (c₂, ran, o) =
        write_lem generichash loader clocks path buf size 0 c₁ id i [] hid hi
          (subst (λ m. IsFile c₁.heap m []) (sym hb) (IsFile-nil c₁.heap)) tt refl enough
          (omega arith) in
      let read_back =
        WroteEnd-read_file generichash loader path buf size c₁ c₂ id (record i { deleted = 0 }) []
          hid tt (omega arith) o in
      (
        c₁,
        c₂,
        make_file-result clock path mode true c,
        zippyfs_write-small clocks path buf size 0 (to_int size) c₁ c₂ ran
            (omega (arith, o.held, make_file-size clock path mode true c)),
        ground (arith, read_back reading n at ha),
      )
