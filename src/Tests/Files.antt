-- ===== src/Tests/Files.antt =====
-- The theorems on the cache and the callbacks, applied.
use zippy_fs.Cache.State.{id_of, Cache, IndexEntry, make, inode_at, in_cache, get_inode_by_path}
use zippy_fs.Common.{
  none, ℕ, ◌%◌, ◌^◌, ◌≤◌, ◌≡◌, ◌≢◌, ◌⊎◌, refl, ap, replicate, true, false, List, [], ◌∷◌, arith, ok,
  Str, str, str_beq, length, some, if◌then◌else◌, inr, inl, Bool-cases,
}
use mathlib.Core.List.{Memᴰ}
use zippy_fs.Common.Map.{find, str_key, nat_key}
use zippy_fs.Util.Names.{crypto_hash, binary_to_hex, hex_loop, copied, c_str, byte_hex}
use zippy_fs.Inode.{Inode, Stat, get_refs, s_isdir}
use zippy_fs.Cache.State.Lookup.{in_cache_of_id}
use zippy_fs.Cache.Files.{
  remove, truncate, rename, read_file, readlink, symlink, make_file, getattr, merge_entries, less,
}
use zippy_fs.Cache.Files.Attributes.{getattr-make_file, read_file-truncate, make_file-stored}
use zippy_fs.Cache.Files.Loading.{read_file-load}
use zippy_fs.Cache.Files.Links.{readlink-symlink, symlink_replaces_target, read_file-rename}
use zippy_fs.Cache.Files.Listing.{merge_entries_lem}
use zippy_fs.Cache.Files.Removal.{
  remove_lem, remove_others, LostLink, Refused, Faults, remove_uncached,
}
use zippy_fs.Cache.Flush.{Flush, flush_to_disk}
use zippy_fs.Cache.Flush.Sizes.{AllAdded, entries, all_bytes, path_bytes, flush_to_disk_lem}
use zippy_fs.Cache.Invariant.{Linked}
use zippy_fs.Cache.Invariant.Reachable.{Reachable, Step, get_inode_by_path-Reachable}
use zippy_fs.Fuse.{zippyfs_mkdir, zippyfs_getattr, zero_stat}
use zippy_fs.Fuse.Handlers.{zippyfs_getattr-zippyfs_mkdir}
use zippy_fs.Tests.{
  plain_hash, ticks, empty_disk, two_files, no_files, full_inode, empty_inode, one_block,
  one_block-IsFile, a_id, a_inode, b_id, ids_apart, one_file_disk, on_disk, abc-IsBlock,
  abc-get_data,
}

abbrev made_dir : Cache
made_dir = (make_file plain_hash ticks (str "/d") 0o40755 true (make 0)).1

made_dir-Reachable : Reachable plain_hash empty_disk made_dir
made_dir-Reachable =
    Reachable.then_step (Reachable.fresh 0) (Step.made ticks (str "/d") 0o40755 true)

made_dir_cached : in_cache (str "/d") made_dir ≡ true
made_dir_cached =
    in_cache_of_id (str "/d") (crypto_hash plain_hash (str "/d")) made_dir
      (make_file-stored plain_hash ticks (str "/d") 0o40755 true (make 0)).0

get_inode_by_path-Reachable_example :
    (str "/d" ≡ str "/") ⊎ ((i : Inode) × (get_inode_by_path (str "/d") made_dir ≡ ok i))
get_inode_by_path-Reachable_example =
    get_inode_by_path-Reachable plain_hash empty_disk made_dir (str "/d") made_dir-Reachable
      made_dir_cached

rename_id : crypto_hash plain_hash (str "/b") ≢ str "A"
unfolding crypto_hash binary_to_hex hex_loop copied c_str byte_hex replicate
rename_id h = let e : ◌≡◌ {A = ℕ} 4 1 = ap length h in omega arith

read_file-rename_example :
    (c' : Cache) × (rename plain_hash empty_disk
        (ticks, ticks, ticks, ticks)
        (str "/a")
        (str "/b")
        two_files
      ≡ ok (0, c'))
    × (read_file plain_hash empty_disk ticks (str "/b") 10 1 c' ≡ ok (10, 98 ∷ 99 ∷ [], c'))
    × ((j : Inode) × (get_inode_by_path (str "/b") c' ≡ ok j) × (j.size ≡ 3) × (j.deleted ≡ 0))
    × ((j : Inode) × (inode_at (str "A") c' ≡ ok j) × (j.deleted ≡ 1) × (j.blocks ≡ []))
    × (c'.dirty_block ≡ (str "A", one_block) ∷ [])
read_file-rename_example =
    read_file-rename plain_hash empty_disk ticks (str "/a") (str "/b") (str "A") two_files
      full_inode a_id a_inode rename_id ticks ticks ticks ticks 10 1 {ds = (97 ∷ 98 ∷ 99 ∷ []) ∷ []}
      (in_cache_of_id (str "/b") (str "B") two_files b_id) one_block-IsFile (omega arith)
      (omega arith)

-- The entries of the directory of a test: two of one path, and another.
abbrev entry : Str → ℕ → IndexEntry
entry path mtime = record { path = path; mtime = mtime; deleted = 0 }

abbrev listed : List IndexEntry
listed = entry (str "/x") 3 ∷ entry (str "/y") 4 ∷ entry (str "/x") 9 ∷ []

merge_entries_lem_example :
    (e : IndexEntry) × (find (str "/x") (merge_entries listed []) ≡ some e)
    × Memᴰ e listed
    × (e.path ≡ str "/x")
    × (3 ≤ e.mtime)
merge_entries_lem_example =
    merge_entries_lem (str "/x") listed (entry (str "/x") 3) (Memᴰ.head refl) refl

zippyfs_getattr-zippyfs_mkdir_example :
    (filled : Stat) × (given : ℕ) × (zippyfs_getattr plain_hash empty_disk
        (str "/d")
        (zippyfs_mkdir plain_hash ticks (str "/d") 0o755 no_files).1
      ≡ ok (0, filled))
    × (filled.st_mode ≡ some given)
    × (s_isdir given ≡ true)
    × (given % 4096 ≡ 0o755)
    × (filled.st_nlink ≡ 2)
    × (filled.st_size ≡ 0)
zippyfs_getattr-zippyfs_mkdir_example =
    zippyfs_getattr-zippyfs_mkdir plain_hash empty_disk ticks (str "/d") 0o755 no_files
      (omega arith) (omega arith)

getattr-make_file_example :
    (filled : Stat) × (getattr plain_hash empty_disk
        (str "/n")
        zero_stat
        (make_file plain_hash ticks (str "/n") 0o100644 true two_files).1
      ≡ ok (0, filled))
    × (filled.st_mode ≡ some 0o100644)
    × (filled.st_nlink ≡ (if s_isdir 0o100644 then 2 else 1))
    × (filled.st_size ≡ 0)
    × (filled.st_blocks ≡ 0)
getattr-make_file_example =
    getattr-make_file plain_hash empty_disk ticks (str "/n") 0o100644 true two_files zero_stat

remove_lem_example :
    (c' : Cache) × (remove ticks (str "/a") two_files ≡ ok (0, c'))
    × (c'.size ≡ less 2)
    × ((j : Inode) × (get_inode_by_path (str "/a") c' ≡ ok j)
        × (j.deleted ≡ 1)
        × (j.nlink ≡ 0)
        × (get_refs j ≡ [])
        × (j.blocks ≡ []))
remove_lem_example = remove_lem ticks (str "/a") (str "A") two_files full_inode a_id a_inode

-- A file of two paths, one of which has an entry of its own.
abbrev shared_inode : Inode
shared_inode = record full_inode { nlink = 2; links = (str "/a", tt) ∷ (str "/b", tt) ∷ [] }

abbrev shared_files : Cache
shared_files = record two_files {
  inode_ptrs = (str "A", shared_inode) ∷ (str "B", empty_inode) ∷ [];
}

shared_inode_at : inode_at (str "B") shared_files ≡ ok empty_inode
unfolding inode_at find str_beq
shared_inode_at = refl

remove_others_example :
    (c' : Cache) × (k' : Inode) × (remove ticks (str "/b") shared_files ≡ ok (0, c'))
    × (inode_at (str "A") c' ≡ ok k')
    × (((find (str "/b") shared_inode.links ≡ none) × (k' ≡ shared_inode))
        ⊎ ((find (str "/b") shared_inode.links ≡ some tt) × LostLink (str "/b") shared_inode k'))
unfolding id_of find str_beq
remove_others_example =
    remove_others ticks (str "/b") (str "B") (str "A") shared_files empty_inode shared_inode b_id
      shared_inode_at ids_apart refl (omega arith) (omega arith)

remove_uncached_example :
    ((str "/a" ≢ str "/") × Refused ticks (str "/a") 5 no_files)
    ⊎ ((str "/a" ≡ str "/") × Faults ticks (str "/a") 5 no_files)
unfolding find str_beq
remove_uncached_example = remove_uncached ticks (str "/a") 5 no_files refl

read_file-truncate_example :
    (c' : Cache) × (truncate ticks (str "/a") 1 two_files ≡ ok (0, c'))
    × (i' : Inode) × (inode_at (str "A") c' ≡ ok i')
    × (i'.size ≡ 1)
    × (read_file plain_hash empty_disk ticks (str "/a") 10 0 c' ≡ ok (10, 97 ∷ 98 ∷ 99 ∷ [], c'))
read_file-truncate_example =
    read_file-truncate plain_hash empty_disk ticks ticks (str "/a") (str "A") 1 10 0 two_files
      full_inode {ds = (97 ∷ 98 ∷ 99 ∷ []) ∷ []} a_id a_inode one_block-IsFile (omega arith)
      (omega arith)

readlink-symlink_example :
    readlink (str "/l") 20 (symlink plain_hash ticks (str "/a") (str "/l") two_files).1
    ≡ ok (20, [])
readlink-symlink_example = readlink-symlink plain_hash ticks (str "/a") (str "/l") two_files 20

-- A cache whose file has the hash of its path as its id.
abbrev made_file : Cache
made_file = (make_file plain_hash ticks (str "/t") 0o100644 true no_files).1

symlink_replaces_target_example :
    (i : Inode) × (get_inode_by_path
        (str "/t")
        (symlink plain_hash ticks (str "/t") (str "/l") made_file).1
      ≡ ok i)
    × (i.mode ≡ some 0o120600)
    × (i.size ≡ 0)
    × (i.blocks ≡ [])
symlink_replaces_target_example =
    symlink_replaces_target plain_hash ticks (str "/t") (str "/l") made_file
      (make_file-stored plain_hash ticks (str "/t") 0o100644 true no_files).0

a_or_b : (path id : Str) → find path two_files.inode_idx ≡ some id → (id ≡ str "A") ⊎ (id ≡ str "B")
unfolding find
a_or_b path id h = elim (Bool-cases (str_beq path (str "/a"))) [
  | inl k ↦ inl (ground arith)
  | inr k ↦ elim (Bool-cases (str_beq path (str "/b"))) [
    | inl l ↦ inr (ground arith)
    | inr l ↦ ground arith
  ]
]

two_files-Linked : Linked two_files
unfolding find str_beq
two_files-Linked path id h = elim (a_or_b path id h) [
  | inl e ↦ (full_inode, ap (λ k. find k two_files.inode_ptrs) e)
  | inr e ↦ (empty_inode, ap (λ k. find k two_files.inode_ptrs) e)
]

flush_to_disk_lem_example :
    (f : Flush) × (c' : Cache) × (flush_to_disk two_files ≡ ok (0, f ∷ [], c'))
    × (f.num_ents ≡ 2)
    × (f.num_blocks ≡ entries ((str "A", one_block) ∷ []))
    × (f.block_size ≡ all_bytes two_files.heap two_files.dirty_block % 2 ^ 64)
    × (f.path_size ≡ path_bytes two_files.inode_idx % 2 ^ 64)
    × AllAdded two_files two_files.inode_idx f.additions
    × (c'.inode_idx ≡ [])
    × (c'.inode_ptrs ≡ [])
    × (c'.dirty_block ≡ [])
    × (c'.size ≡ 0)
flush_to_disk_lem_example =
    flush_to_disk_lem two_files refl two_files-Linked ((omega arith, tt), tt) (omega arith)

nothing_cached : in_cache (str "/a") no_files ≡ false
unfolding in_cache find str_beq
nothing_cached = refl

read_file-load_example :
    (c' : Cache) × (read_file plain_hash one_file_disk ticks (str "/a") 10 1 no_files
      ≡ ok (10, 98 ∷ 99 ∷ [], c'))
    × (in_cache (str "/a") c' ≡ true)
read_file-load_example =
    read_file-load plain_hash one_file_disk ticks (str "/a") no_files on_disk refl (λ h. cc)
      nothing_cached ((97 ∷ 98 ∷ 99 ∷ []) ∷ []) 10 1 refl (refl, abc-IsBlock, abc-get_data, tt)
      (omega arith) (omega arith) (omega arith)
