-- ===== src/Fuse.antt =====
-- fuse_ops.h and fuse_ops.cpp: the callbacks that FUSE is given, over the one `BlockCache`.
pub mod Handlers
pub mod NewFile
pub mod Persistence
use zippy_fs.Common.{
  ℕ, ◌+◌, ◌*◌, ◌/◌, ◌%◌, ◌^◌, Bool, true, false, Option, none, some, List, [], ◌∷◌, ◌++◌, nat_beq,
  if◌then◌else◌, length, Result, ok, ◌>>=◌, Str, str,
}
use zippy_fs.Common.Map.{insert_ordered, str_key}
use zippy_fs.Util.Numbers.{Clock, Timespec}
use zippy_fs.Inode.{Stat, to_int}
use zippy_fs.Cache.State.{Cache, Loader, IndexEntry, make}
use zippy_fs.Cache.Files.{
  remove, rmdir, truncate, readlink, make_file, symlink, rename, read_file, open_file, getattr,
  readdir,
}
use zippy_fs.Cache.Write.{write}
use zippy_fs.Cache.Flush.{Flush, flush_to_shdw}

-- `zippyfs_init(zip_dir)`; `memory` is what the cache finds in its uninitialised `size_`.
unfoldable pub zippyfs_init : ℕ → Cache
zippyfs_init memory = make memory

-- The `struct stat` after `memset`.
abbrev pub zero_stat : Stat
zero_stat = record {
  st_mode = some 0;
  st_nlink = 0;
  st_blocks = 0;
  st_size = 0;
  st_ctim = record { tv_sec = 0; tv_nsec = 0 };
  st_mtim = record { tv_sec = 0; tv_nsec = 0 };
  st_atim = record { tv_sec = 0; tv_nsec = 0 };
}

-- `mode | S_IFDIR`: sets bit 14.
abbrev pub or_ifdir : ℕ → ℕ
or_ifdir mode = if nat_beq (mode / 16384 % 2) 1 then mode else mode + 16384

-- The two loops of `zippyfs_readdir`.
unfoldable pub add_names : List IndexEntry → List (Str × IndexEntry) → List (Str × IndexEntry)
add_names [] added = added
add_names (e ∷ es) added = add_names es (insert_ordered e.path e added)

unfoldable pub fill_names : (Str → Str) → List (Str × IndexEntry) → List Str
fill_names basename [] = []
fill_names basename ((path, e) ∷ m) =
    if nat_beq e.deleted 0 then basename path ∷ fill_names basename m else fill_names basename m

unfoldable pub zippyfs_unlink : Clock → Str → Cache → Result (ℕ × Cache)
zippyfs_unlink clock path c = remove clock path c

unfoldable pub zippyfs_rmdir : Clock → Str → Cache → Result (ℕ × Cache)
zippyfs_rmdir clock path c = rmdir clock path c

-- Neither the result of `truncate` nor that of the flush is looked at.
unfoldable pub zippyfs_truncate : Clock → Str → ℕ → Cache → Result (ℕ × List Flush × Cache)
zippyfs_truncate clock path size c = do
  (res, c') ← truncate clock path size c
  (res', flushed, c'') ← flush_to_shdw 0 c'
  ok (0, flushed, c'')

unfoldable pub zippyfs_readlink : Str → ℕ → Cache → Result (ℕ × List ℕ)
zippyfs_readlink path size c = readlink path size c

unfoldable pub zippyfs_destroy : Cache → Result (List Flush × Cache)
zippyfs_destroy c = do (res, flushed, c') ← flush_to_shdw 1 c; ok (flushed, c')

-- `zippyfs_access`, `zippyfs_chmod` and `zippyfs_utimens` do nothing.
unfoldable pub zippyfs_stub : Cache → ℕ × Cache
zippyfs_stub c = (0, c)

module _ (generichash : List ℕ → List ℕ) where
  unfoldable pub zippyfs_mknod : Clock → Str → ℕ → Cache → ℕ × Cache
  zippyfs_mknod clock path mode c = make_file generichash clock path mode true c

  unfoldable pub zippyfs_mkdir : Clock → Str → ℕ → Cache → ℕ × Cache
  zippyfs_mkdir clock path mode c = make_file generichash clock path (or_ifdir mode) true c

  unfoldable pub zippyfs_symlink : Clock → Str → Str → Cache → ℕ × Cache
  zippyfs_symlink clock from to c = symlink generichash clock from to c

module _ (generichash : List ℕ → List ℕ) (loader : Loader) where
  -- Only the root has a path of one byte.
  unfoldable pub zippyfs_getattr : Str → Cache → Result (ℕ × Stat)
  zippyfs_getattr path c =
      if nat_beq (length path) 1
      then ok (0, record zero_stat { st_mode = some 0o40755; st_nlink = 2 })
      else getattr generichash loader path zero_stat c

  -- The names given to `filler`; `basename` is the one of libgen.h.
  unfoldable pub zippyfs_readdir : (Str → Str) → Str → Result (ℕ × List Str)
  unfolding add_names fill_names
  zippyfs_readdir basename path = do
    vec ← readdir generichash loader path
    ok (0, fill_names basename (add_names vec []) ++ (str "." ∷ str ".." ∷ []))

  -- The result of `BlockCache::read` is not looked at.
  unfoldable pub zippyfs_read : Clock → Str → ℕ → ℕ → Cache → Result (ℕ × List ℕ × Cache)
  zippyfs_read clock path size offset c = do
    (res, bytes, c') ← read_file generichash loader clock path size offset c
    ok (to_int size, bytes, c')

  unfoldable pub zippyfs_open : Clock → Str → Cache → Result (ℕ × Cache)
  zippyfs_open clock path c = open_file generichash loader clock path c

  -- Neither the result of `BlockCache::write` nor that of the flush is looked at.
  unfoldable pub zippyfs_write :
      Clock × Clock → Str → List ℕ → ℕ → ℕ → Cache → Result (ℕ × List Flush × Cache)
  zippyfs_write clocks path buf size offset c = do
    (res, c') ← write generichash loader clocks path buf size offset c
    (res', flushed, c'') ← flush_to_shdw 0 c'
    ok (to_int size, flushed, c'')

  unfoldable pub zippyfs_rename :
      (Clock × Clock × Clock × Clock) → Str → Str → Cache → Result (ℕ × Cache)
  zippyfs_rename clocks from to c = rename generichash loader clocks from to c
