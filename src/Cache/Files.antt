-- ===== src/Cache/Files.antt =====
-- The methods of `BlockCache` on files and directories, but `write`.
pub mod Attributes
pub mod Links
pub mod Removal
pub mod Listing
pub mod Loading
use zippy_fs.Common.{
  ℕ, zero, suc, ◌+◌, ◌-◌, ◌*◌, ◌/◌, ◌%◌, ◌^◌, Bool, true, false, ◌&&◌, ◌||◌, not, Option, none,
  some, List, [], ◌∷◌, ◌++◌, ltb, leb, nat_beq, if◌then◌else◌, length, map, Result, ok, err,
  uncaught, null_deref, ◌>>=◌, or_fault, Str,
}
use zippy_fs.Common.Map.{find, insert_ordered, str_key}
use zippy_fs.Block.{Block, physical_size, get_actual_size}
use zippy_fs.Util.Numbers.{Clock, later, get_time_ts}
use zippy_fs.Util.Names.{crypto_hash}
use zippy_fs.Inode.{
  Inode, Heap, BlockMap, Stat, make, copy, minus, s_islnk, set_mode, get_mode, set_dirty_inode,
  set_size, delete_inode, dec_link, is_link, get_refs, stat, read, deref,
}
use zippy_fs.Cache.State.{
  Cache, Loader, DiskInode, IndexEntry, max_size, in_cache, id_of, inode_at, get_inode_by_path,
  put_inode, update_inode, inner,
}
use zippy_fs.Cache.Load.{load_from_disk, load_from_shdw}

-- `size_ + 1` and `size_ - 1` wrap.
abbrev pub more : ℕ → ℕ
more n = (n + 1) % 2 ^ 64

abbrev pub less : ℕ → ℕ
less n = (n + 2 ^ 64 - 1) % 2 ^ 64

-- The loop of `remove`: every inode that `path` links to loses a link.
unfoldable pub drop_links : Str → List (Str × Inode) → List (Str × Inode)
drop_links path [] = []
drop_links path ((id, i) ∷ m) =
    (id, if is_link path i then dec_link path i else i) ∷ drop_links path m

-- `remove(path)`.
unfoldable pub remove : Clock → Str → Cache → Result (ℕ × Cache)
remove clock path c = elim (in_cache path c) [
  | false ↦ ok (minus 1, c)
  | true ↦ (do
    c' ←
        update_inode path (delete_inode (clock 0))
          (record c { inode_ptrs = drop_links path c.inode_ptrs })
    ok (0, record c' { has_changed = true; size = less c'.size }))
]

-- `rmdir(path)`.
unfoldable pub rmdir : Clock → Str → Cache → Result (ℕ × Cache)
rmdir clock path c = elim (in_cache path c) [
  | false ↦ ok (minus 1, c)
  | true ↦ (do
    c' ← update_inode path (delete_inode (clock 0)) c
    ok (0, record c' { has_changed = true }))
]

-- `truncate(path, size)`.
unfoldable pub truncate : Clock → Str → ℕ → Cache → Result (ℕ × Cache)
truncate clock path size c = elim (in_cache path c) [
  | false ↦ ok (minus 1, c)
  | true ↦ (do
    c' ← update_inode path (set_size (clock 0) size) c
    ok (0, record c' { has_changed = true }))
]

-- `readlink(path, buf, size)`; ENOENT is 2.
unfoldable pub readlink : Str → ℕ → Cache → Result (ℕ × List ℕ)
readlink path size c = elim (in_cache path c) [
  | false ↦ ok (minus 2, [])
  | true ↦ (do
    i ← get_inode_by_path path c
    mode ← get_mode i
    elim (s_islnk mode) [ false ↦ ok (minus 2, []) | true ↦ read size 0 c.heap i ])
]

-- `get_refs(path)`.
unfoldable pub refs : Str → Cache → Result (List Str)
refs path c = elim (in_cache path c) [
  | false ↦ err uncaught
  | true ↦ (do i ← get_inode_by_path path c; ok (get_refs i))
]

-- What `readdir` keeps of the entries on disk: for each path the latest of them.
unfoldable pub merge_entries : List IndexEntry → List (Str × IndexEntry) → List (Str × IndexEntry)
merge_entries [] added = added
merge_entries (e ∷ es) added = merge_entries es (elim (find e.path added) [
  | none ↦ insert_ordered e.path e added
  | some old ↦ if ltb e.mtime old.mtime then added else insert_ordered e.path e added
])

-- The `st_blocks` that `getattr` computes for an inode on disk.
abbrev pub disk_blocks : ℕ → ℕ
disk_blocks size = size / physical_size + (if nat_beq (size % physical_size) 0 then 1 else 0)

module _ (generichash : List ℕ → List ℕ) where
  -- `make_file(path, mode, dirty)`.
  unfoldable pub make_file : Clock → Str → ℕ → Bool → Cache → ℕ × Cache
  make_file clock path mode dirty c =
      let fresh = set_mode (clock 5) mode (make clock path (crypto_hash generichash path)) in
      let i = if dirty then set_dirty_inode fresh else fresh in
      (
        0,
        record (put_inode i.inode_id i c) {
          size = more c.size;
          inode_idx = insert_ordered path i.inode_id c.inode_idx;
          has_changed = true;
        },
      )

  -- `symlink(from, to)`; S_IFLNK | S_IRUSR | S_IWUSR is 0120600.
  unfoldable pub symlink : Clock → Str → Str → Cache → ℕ × Cache
  symlink clock from to c =
      let ll = set_mode (clock 5) 0o120600 (make clock from (crypto_hash generichash from)) in
      (
        0,
        record (put_inode ll.inode_id ll c) {
          inode_idx = insert_ordered to ll.inode_id c.inode_idx;
          has_changed = true;
        },
      )

  -- The end of `rename`, where both paths are in the cache.
  unfoldable pub move_inode : Clock → Str → Str → Cache → Result (ℕ × Cache)
  move_inode clock from to c = do
    i ← get_inode_by_path from c
    nto ← copy clock to (crypto_hash generichash to) i
    c' ← update_inode from (delete_inode (clock 6)) c
    ok (
      0,
      record (put_inode nto.inode_id nto c') {
        inode_idx = insert_ordered to nto.inode_id c'.inode_idx;
        has_changed = true;
      },
    )

module _ (generichash : List ℕ → List ℕ) (loader : Loader) where
  -- Loads `path` where it is not in the cache, as `rename` and `read` do. The clocks of the parts of
  -- a method tell its readings apart.
  unfoldable pub ensure : Clock → Str → Cache → Result (ℕ × Cache)
  ensure clock path c = elim (in_cache path c) [
    | true ↦ ok (0, c)
    | false ↦ load_from_shdw generichash loader clock path c
  ]

  -- `rename(from, to)`. `res` keeps its value from the first load where `to` is in the cache.
  unfoldable pub rename : (Clock × Clock × Clock × Clock) → Str → Str → Cache → Result (ℕ × Cache)
  rename (t₁, t₂, t₃, t₄) from to c = do
    (res, c₁) ← ensure t₁ from c
    elim (nat_beq res (minus 1)) [
      | true ↦ ok (minus 1, c₁)
      | false ↦ (do
        (res', c₂) ← ensure t₂ to c₁
        elim (nat_beq res' (minus 1)) [
          | false ↦ move_inode generichash t₄ from to c₂
          | true ↦ (do
            i ← get_inode_by_path from c₂
            mode ← get_mode i
            move_inode generichash t₄ from to (make_file generichash t₃ to mode true c₂).1)
        ])
    ]

  -- `read(path, buf, size, offset)`: the result, the bytes put into `buf`, and the cache.
  unfoldable pub read_file : Clock → Str → ℕ → ℕ → Cache → Result (ℕ × List ℕ × Cache)
  read_file clock path size offset c = do
    (res, c') ← ensure clock path c
    i ← get_inode_by_path path c'
    (n, bytes) ← read size offset c'.heap i
    ok (n, bytes, c')

  -- `open(path)`.
  unfoldable pub open_file : Clock → Str → Cache → Result (ℕ × Cache)
  open_file clock path c = elim (in_cache path c) [
    | true ↦ ok (0, c)
    | false ↦ (do (res, c') ← load_from_disk generichash loader clock path c; ok (0, c'))
  ]

  -- `getattr(path, st)`; what is not assigned stays as it was in `st`.
  unfoldable pub getattr : Str → Stat → Cache → Result (ℕ × Stat)
  getattr path st c = elim (in_cache path c) [
    | true ↦ (do i ← get_inode_by_path path c; ok (stat i))
    | false ↦ (do
      di ← loader.find_latest_inode path false
      if nat_beq di.i_mtime 0
          then ok (minus 2, st)
          else ok (
            0,
            record st {
              st_mode = some di.i_mode;
              st_nlink = di.i_nlink;
              st_blocks = disk_blocks di.i_size;
              st_size = di.i_size;
              st_ctim = get_time_ts di.i_ctime;
              st_mtim = get_time_ts di.i_mtime;
            },
          ))
  ]

  -- `readdir(path)`.
  unfoldable pub readdir : Str → Result (List IndexEntry)
  unfolding merge_entries
  readdir path = do
    disk_ents ← loader.get_children path
    ok (map (λ ent. ent.1) (merge_entries disk_ents []))
