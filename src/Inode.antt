-- ===== src/Inode.antt =====
-- inode.h and inode.cpp: the record of a file and the pointers to its blocks.
pub mod Contents
pub mod Read
use zippy_fs.Common.{
  ℕ, zero, suc, ◌+◌, ◌-◌, ◌*◌, ◌/◌, ◌%◌, ◌^◌, Bool, true, false, ◌&&◌, Option, none, some, List, [],
  ◌∷◌, ◌++◌, ltb, leb, nat_beq, if◌then◌else◌, length, set, get_elem?, take, drop, map, Result, ok,
  err, out_of_bounds, null_deref, no_fuel, ◌>>=◌, or_fault, Str,
}
use zippy_fs.Common.Map.{find, insert, erase, nat_key, str_key}
use zippy_fs.Block.{Block, physical_size, set_dirty, get_data, get_actual_size}
use zippy_fs.Util.Numbers.{Moment, Timespec, Clock, get_time}

-- Blocks are shared through `shared_ptr`: a pointer is a position in the heap of all blocks.
abbrev pub Ptr : Type 0
Ptr = ℕ

abbrev pub Heap : Type 0
Heap = List Block

abbrev pub BlockMap : Type 0
BlockMap = List (ℕ × Ptr)

abbrev pub deref : Heap → Ptr → Result Block
deref h p = or_fault (get_elem? h p) null_deref

-- An `int` as its 32 bits.
abbrev pub to_int : ℕ → ℕ
to_int n = n % 2 ^ 32

abbrev pub minus : ℕ → ℕ
minus n = 2 ^ 32 - n

-- `S_ISDIR` and `S_ISLNK` read the four type bits of the mode.
abbrev pub file_type : ℕ → ℕ
file_type mode = mode / 4096 % 16

abbrev pub s_isdir : ℕ → Bool
s_isdir mode = nat_beq (file_type mode) 4

abbrev pub s_islnk : ℕ → Bool
s_islnk mode = nat_beq (file_type mode) 10

-- The constructor from a path leaves `mode_` uninitialised, which is `none`.
pub record Inode : Type 0 where
  pub path : Str
  pub mode : Option ℕ
  pub nlink : ℕ
  pub ul_mtime : ℕ
  pub ul_ctime : ℕ
  pub ts_mtime : Timespec
  pub ts_ctime : Timespec
  pub ts_atime : Timespec
  pub size : ℕ
  pub deleted : ℕ
  pub dirty : ℕ
  pub inode_id : Str
  pub links : List (Str × Unit {0})
  pub blocks : BlockMap

-- `Inode(path)`; `id` is `Util::crypto_hash(path)`.
unfoldable pub make : Clock → Str → Str → Inode
make clock path id = record {
  path = path;
  mode = none;
  nlink = 1;
  ul_ctime = get_time (clock 0);
  ul_mtime = get_time (clock 1);
  ts_mtime = (clock 2).real;
  ts_ctime = (clock 3).real;
  ts_atime = (clock 4).real;
  size = 0;
  deleted = 0;
  dirty = 0;
  links = insert path tt [];
  inode_id = id;
  blocks = [];
}

unfoldable pub get_refs : Inode → List Str
get_refs i = map (λ ent. ent.0) i.links

unfoldable pub get_block_indx : Inode → List ℕ
get_block_indx i = map (λ ent. ent.0) i.blocks

-- `get_block(block_index)`; for a missing block it dereferences `end()`.
unfoldable pub get_block : Moment → ℕ → Inode → Result (Ptr × Inode)
get_block now idx i = do
  p ← or_fault (find idx i.blocks) out_of_bounds
  ok (p, record i { ul_mtime = get_time now })

-- The two loops of the copy constructor.
unfoldable pub copy_refs : List Str → List (Str × Unit {0}) → List (Str × Unit {0})
copy_refs [] links = links
copy_refs (r ∷ rs) links = copy_refs rs (insert r tt links)

unfoldable pub copy_blocks : Moment → List ℕ → Inode → BlockMap → Result BlockMap
copy_blocks now [] that m = ok m
copy_blocks now (idx ∷ is) that m = do
  (p, that') ← get_block now idx that
  copy_blocks now is that' (insert idx p m)

-- The members that the copy constructor assigns.
unfoldable pub copy_of : Clock → Str → Str → Inode → BlockMap → Inode
unfolding copy_refs
copy_of clock path id that m = record {
  path = path;
  mode = that.mode;
  nlink = that.nlink;
  ul_ctime = get_time (clock 0);
  ul_mtime = get_time (clock 1);
  ts_mtime = (clock 2).real;
  ts_ctime = (clock 3).real;
  ts_atime = (clock 4).real;
  size = that.size;
  deleted = 0;
  dirty = 0;
  links = copy_refs (get_refs that) [];
  inode_id = id;
  blocks = m;
}

-- `Inode(path, that)`: `that` is a copy, so what `get_block` does to it is not seen.
unfoldable pub copy : Clock → Str → Str → Inode → Result Inode
unfolding copy_of copy_blocks
copy clock path id that = do
  m ← copy_blocks (clock 5) (get_block_indx that) that []
  ok (copy_of clock path id that m)

unfoldable pub set_mode : Moment → ℕ → Inode → Inode
set_mode now mode i = record i {
  nlink = if s_isdir mode then (if ltb i.nlink 2 then 2 else i.nlink) else i.nlink;
  mode = some mode;
  ul_mtime = get_time now;
}

-- `get_mode()`; reading an uninitialised `mode_` is undefined.
unfoldable pub get_mode : Inode → Result ℕ
get_mode i = or_fault i.mode out_of_bounds

unfoldable pub inc_link : Str → Inode → Inode
inc_link ref i = record i { links = insert ref tt i.links; nlink = (i.nlink + 1) % 2 ^ 32 }

-- `nlink_--` wraps at zero.
unfoldable pub dec_link : Str → Inode → Inode
dec_link path i =
    let left = (i.nlink + 2 ^ 32 - 1) % 2 ^ 32 in
    record i {
      nlink = left;
      links = erase path i.links;
      blocks = if nat_beq left 0 then [] else i.blocks;
    }

unfoldable pub is_link : Str → Inode → Bool
is_link path i = elim (find path i.links) [ none ↦ false | some u ↦ true ]

unfoldable pub has_block : ℕ → Inode → Bool
has_block idx i = elim (find idx i.blocks) [ none ↦ false | some p ↦ true ]

unfoldable pub update_mtime : Moment → Inode → Inode
update_mtime now i = record i { ul_mtime = get_time now; ts_mtime = now.real; dirty = 1 }

unfoldable pub update_atime : Moment → Inode → Inode
update_atime now i = record i { ts_atime = now.real }

unfoldable pub set_size : Moment → ℕ → Inode → Inode
unfolding update_mtime
set_size now size i = record (update_mtime now i) { size = size; dirty = 1 }

unfoldable pub delete_inode : Moment → Inode → Inode
unfolding update_mtime
delete_inode now i = record (update_mtime now (record i { links = []; nlink = 0 })) {
  blocks = [];
  deleted = 1;
}

unfoldable pub set_dirty_inode : Inode → Inode
set_dirty_inode i = record i { dirty = 1 }

unfoldable pub undo_dirty : Inode → Inode
undo_dirty i = record i { dirty = if nat_beq i.dirty 1 then 0 else i.dirty }

unfoldable pub set_id : Str → Inode → Inode
set_id id i = record i { inode_id = id }

unfoldable pub set_nlink : ℕ → Inode → Inode
set_nlink n i = record i { nlink = n }

unfoldable pub set_mtime : ℕ → Inode → Inode
set_mtime t i = record i {
  ul_mtime = t;
  ts_mtime = record { tv_sec = t / 1000; tv_nsec = t % 1000 * 1000000 };
}

unfoldable pub set_ctime : ℕ → Inode → Inode
set_ctime t i = record i {
  ul_ctime = t;
  ts_ctime = record { tv_sec = t / 1000; tv_nsec = t % 1000 * 1000000 };
}

unfoldable pub set_st_time : Timespec → Timespec → Inode → Inode
set_st_time mtim ctim i = record i { ts_mtime = mtim; ts_ctime = ctim }

unfoldable pub remake_inode : Inode → Inode
remake_inode i = record i { deleted = 0 }

-- `add_block(block_index, block)`: the block that it replaces is marked dirty in the heap.
unfoldable pub add_block : Moment → ℕ → Ptr → Heap → Inode → Result (Heap × Inode)
add_block now idx p h i = do
  h' ← elim (find idx i.blocks) [
    | none ↦ ok h
    | some old ↦ (do b ← deref h old; ok (set h old (set_dirty b)))
  ]
  ok (h', record (update_mtime now i) { blocks = insert idx p i.blocks })

unfoldable pub remove_block : Moment → ℕ → Inode → Inode
remove_block now idx i = record (update_mtime now i) { blocks = erase idx i.blocks }

-- What `stat` fills in of `struct stat`.
pub record Stat : Type 0 where
  pub st_mode : Option ℕ
  pub st_nlink : ℕ
  pub st_blocks : ℕ
  pub st_size : ℕ
  pub st_ctim : Timespec
  pub st_mtim : Timespec
  pub st_atim : Timespec

-- `stat(stbuf)`, which returns 0.
unfoldable pub stat : Inode → ℕ × Stat
stat i = (
  0,
  record {
    st_mode = i.mode;
    st_nlink = i.nlink;
    st_blocks = length i.blocks;
    st_size = i.size;
    st_ctim = i.ts_ctime;
    st_mtim = i.ts_mtime;
    st_atim = i.ts_atime;
  },
)

unfoldable pub is_dir : Inode → Result ℕ
unfolding get_mode
is_dir i = do mode ← get_mode i; ok (if s_isdir mode then 1 else 0)

-- The inner loop of `read`: `bytes` runs from `byte` to `block_data.end()`, and `out` is the
-- part of the caller's buffer that is written, `read_bytes` long.
unfoldable pub copy_out : List ℕ → ℕ → ℕ → ℕ → List ℕ → List ℕ
copy_out [] ii blksz size out = out
copy_out (byte ∷ bytes) ii blksz size out =
    if ltb ii blksz && ltb (length out) size
    then copy_out bytes (ii + 1) blksz size (out ++ byte ∷ [])
    else out

-- The outer loop of `read`, over `unsigned int block_idx`. A missing block is a dereference of
-- `end()`. An iterator past the end of the data is never read, since `ii < blksz` fails.
unfoldable pub read_loop : ℕ → Heap → BlockMap → ℕ → ℕ → Bool → ℕ → List ℕ → Result (List ℕ)
read_loop zero h m size offset offsetted idx out = err no_fuel
read_loop (suc fuel) h m size offset offsetted idx out =
    elim (ltb idx (length m) && ltb (length out) size) [
      | false ↦ ok out
      | true ↦ (do
        p ← or_fault (find idx m) out_of_bounds
        b ← deref h p
        bytes ← get_data b
        let amt : ℕ =
            if offsetted
            then 0
            else if ltb offset physical_size
            then offset
            else offset % physical_size
        read_loop fuel h m size offset true ((idx + 1) % 2 ^ 32)
            (copy_out (drop amt bytes) amt (get_actual_size b) size out))
    ]

-- `read(buf, size, offset)`: the value returned, and the bytes put into `buf`. While there are fewer
-- than 2 ^ 32 blocks the index does not wrap, and a round for each block is enough.
unfoldable pub read : ℕ → ℕ → Heap → Inode → Result (ℕ × List ℕ)
read size offset h i = do
  out ←
      read_loop (length i.blocks + 1) h i.blocks size offset false (offset / physical_size % 2 ^ 32)
        []
  ok (to_int size, out)

-- `flush_to_fd(fd)`: the data and the file position of each `pwrite` that it makes.
unfoldable pub flush_writes : Heap → BlockMap → Result (List (List ℕ × ℕ))
flush_writes h [] = ok []
flush_writes h ((idx, p) ∷ m) = do
  b ← deref h p
  bytes ← get_data b
  rest ← flush_writes h m
  ok ((bytes, idx * physical_size % 2 ^ 64) ∷ rest)

unfoldable pub flush_to_fd : Heap → Inode → Result (List (List ℕ × ℕ))
unfolding flush_writes
flush_to_fd h i = flush_writes h i.blocks
