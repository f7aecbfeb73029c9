-- ===== src/TreeLoader/Reported.antt =====
-- The cache over the trees: `BlockCache::getattr` of a path that is only on disk.
use zippy_fs.Common.{
  ◌<◌, ℕ, ◌≡◌, ◌≢◌, ◌≤◌, ap, subst, false, some, List, [], ◌∷◌, Str, ◌⊎◌, inl, inr, length, ok,
  nat_beq, arith,
}
use zippy_fs.Util.Numbers.{get_time_ts}
use zippy_fs.Util.Names.{crypto_hash}
use zippy_fs.Inode.{Stat}
use zippy_fs.Cache.State.{Cache, Loader, DiskInode, in_cache}
use zippy_fs.Cache.Files.{getattr, disk_blocks}
use zippy_fs.Index.Memory.{Mem, InodeCell, hash_size}
use zippy_fs.TreeLoader.Latest.{find_latest_inode, get_children}
use zippy_fs.TreeLoader.Taken.{Hold, Shows, OneShows, NoneNewer}
use zippy_fs.TreeLoader.Newest.{find_latest_inode-newest}

-- The loader of the cache, over the trees that are mapped.
unfoldable pub loader_of : (List ℕ → List ℕ) → ℕ → ℕ → List Mem → Loader
loader_of generichash fuel memory trees = record {
  find_latest_inode = find_latest_inode generichash fuel memory trees;
  get_children = get_children trees;
}

-- What `getattr` reports is the inode `c`.
unfoldable pub Reports : Stat → InodeCell → Type 0
Reports st c =
    (st.st_mode ≡ some c.mode)
    × (st.st_nlink ≡ c.nlink)
    × (st.st_size ≡ c.size)
    × (st.st_blocks ≡ disk_blocks c.size)
    × (st.st_ctim ≡ get_time_ts c.ctime)
    × (st.st_mtim ≡ get_time_ts c.mtime)

-- It is one of the inodes, and none of `all` is newer.
unfoldable pub ReportsNewest : List InodeCell → Stat → List InodeCell → Type 0
unfolding Reports
ReportsNewest all st [] = ⊥
ReportsNewest all st (c ∷ cells) =
    (Reports st c × NoneNewer c.mtime all) ⊎ ReportsNewest all st cells

-- What `getattr` fills in.
abbrev reported : DiskInode → Stat → Stat
reported di st = record st {
  st_mode = some di.i_mode;
  st_nlink = di.i_nlink;
  st_blocks = disk_blocks di.i_size;
  st_size = di.i_size;
  st_ctim = get_time_ts di.i_ctime;
  st_mtim = get_time_ts di.i_mtime;
}

reported-ReportsNewest :
    (all cells : List InodeCell) (di : DiskInode) (st : Stat)
    → NoneNewer di.i_mtime all
    → OneShows cells di
    → ReportsNewest all (reported di st) cells
unfolding ReportsNewest OneShows Shows
reported-ReportsNewest all [] di st n shown = absurd shown
reported-ReportsNewest all (c ∷ cells) di st n (inl (t, mode, size, nlink, ctime, deleted)) = inl (
  (ap some mode, nlink, size, ap disk_blocks size, ap get_time_ts ctime, ap get_time_ts t),
  subst (λ x. NoneNewer x all) t n,
)
reported-ReportsNewest all (c ∷ cells) di st n (inr rest) =
    inr (reported-ReportsNewest all cells di st n rest)

getattr-missing :
    (generichash : List ℕ → List ℕ) (loader : Loader) (path : Str) (st : Stat) (c : Cache)
    (di : DiskInode)
    → in_cache path c ≡ false
    → loader.find_latest_inode path false ≡ ok di
    → di.i_mtime ≢ 0
    → getattr generichash loader path st c ≡ ok (0, reported di st)
unfolding getattr
getattr-missing generichash loader path st c di missing found there =
    let real : nat_beq di.i_mtime 0 ≡ false = ground arith in ground (arith, missing, found, real)

-- For a path that is not cached and not empty and whose hash has less than 128 bytes, where every
-- mapped tree holds the hash, none is as high as the fuel, and the inode of the first tree has a
-- time after 0: `getattr` of the cache over these trees returns 0, and reports an inode of the path
-- in one of the trees than which none of these inodes is newer.
pub getattr-newest :
    (generichash : List ℕ → List ℕ) (fuel memory : ℕ) (trees : List Mem) (path : Str) (st : Stat)
    (c : Cache) (cell : InodeCell) (cells : List InodeCell)
    → in_cache path c ≡ false
    → 1 ≤ length path
    → length (crypto_hash generichash path) < hash_size
    → Hold fuel (crypto_hash generichash path) trees (cell ∷ cells)
    → 1 ≤ cell.mtime
    → (st' : Stat) × (getattr generichash (loader_of generichash fuel memory trees) path st c
        ≡ ok (0, st'))
      × ReportsNewest (cell ∷ cells) st' (cell ∷ cells)
unfolding loader_of NoneNewer
getattr-newest generichash fuel memory trees path st c cell cells missing h h' hold late =
    let (di, found, newest, shown) =
      find_latest_inode-newest generichash fuel memory trees path cell cells h h' hold late in
    (
      reported di st,
      getattr-missing generichash (loader_of generichash fuel memory trees) path st c di missing
          found (λ e. omega (arith, e, newest.0)),
      reported-ReportsNewest (cell ∷ cells) (cell ∷ cells) di st newest shown,
    )
