-- ===== src/Tests.antt =====
-- Small inputs on which the theorems of the components are applied.
pub mod Files
pub mod Blocks
pub mod Writes
pub mod Forest
pub mod Trees
pub mod Splits
pub mod Disk
use zippy_fs.Common.{
  ℕ, ◌+◌, ◌≤◌, ◌<◌, ◌≡◌, refl, Bool, true, false, List, [], ◌∷◌, ◌++◌, arith, length, replicate,
  length-replicate, ok, some, none, Str, str, get_elem?, length-append, nat_beq, nat_beq_iff, ◌≢◌,
  ap, str_beq,
}
use zippy_fs.Common.Map.{find, nat_key, str_key}
use zippy_fs.Block.{Block, get_data}
use zippy_fs.Block.Data.{IsBlock}
use zippy_fs.Util.Numbers.{Clock}
use zippy_fs.Inode.{Inode, Heap, BlockMap, Stat}
use zippy_fs.Inode.Contents.{Holds, IsFile}
use zippy_fs.Cache.State.{Cache, Loader, DiskInode, IndexEntry, id_of, inode_at}

-- A hash that keeps short texts apart.
abbrev pub plain_hash : List ℕ → List ℕ
plain_hash content = content

abbrev pub ticks : Clock
ticks n = record {
  day = record { tv_sec = 100 + n; tv_usec = 5000 };
  real = record { tv_sec = 100 + n; tv_nsec = 5000000 };
}

-- A loader that finds nothing on disk.
abbrev pub empty_disk : Loader
empty_disk = record {
  find_latest_inode = λ path blocks. ok (record {
    i_inode_id = [];
    i_mode = 0;
    i_nlink = 0;
    i_mtime = 0;
    i_ctime = 0;
    i_size = 0;
    i_deleted = 0;
    i_block_data = [];
  });
  get_children = λ path. ok [];
}

-- A block of three bytes.
abbrev pub abc : Block
abc = record {
  actual_size = 3;
  bytes = (97 ∷ 98 ∷ 99 ∷ []) ++ replicate 4093 0;
  dirty = some false;
}

pub abc-IsBlock : IsBlock abc
abc-IsBlock = record { whole = omega (arith, length-replicate {A = ℕ} 4093 0); fits = omega arith }

pub abc-get_data : get_data abc ≡ ok (97 ∷ 98 ∷ 99 ∷ [])
unfolding get_data
abc-get_data = refl

abbrev pub inode_of : Str → Str → ℕ → BlockMap → Inode
inode_of path id size blocks = record {
  path = path;
  mode = some 0o100644;
  nlink = 1;
  ul_mtime = 7;
  ul_ctime = 7;
  ts_mtime = record { tv_sec = 0; tv_nsec = 7000000 };
  ts_ctime = record { tv_sec = 0; tv_nsec = 7000000 };
  ts_atime = record { tv_sec = 0; tv_nsec = 7000000 };
  size = size;
  deleted = 0;
  dirty = 1;
  inode_id = id;
  links = (path, tt) ∷ [];
  blocks = blocks;
}

abbrev pub one_block : BlockMap
one_block = (0, 0) ∷ []

abbrev pub full_inode : Inode
full_inode = inode_of (str "/a") (str "A") 3 one_block

abbrev pub empty_inode : Inode
empty_inode = inode_of (str "/b") (str "B") 0 []

-- The file /a holds the block, /b is empty.
abbrev pub two_files : Cache
two_files = record {
  heap = abc ∷ [];
  inode_idx = (str "/a", str "A") ∷ (str "/b", str "B") ∷ [];
  inode_ptrs = (str "A", full_inode) ∷ (str "B", empty_inode) ∷ [];
  dirty_block = (str "A", one_block) ∷ [];
  dirty_block_mtime = (str "A", (0, 7) ∷ []) ∷ [];
  size = 2;
  has_changed = true;
}

abbrev pub no_files : Cache
no_files = record {
  heap = [];
  inode_idx = [];
  inode_ptrs = [];
  dirty_block = [];
  dirty_block_mtime = [];
  size = 0;
  has_changed = false;
}

pub one_block-IsFile : IsFile (abc ∷ []) one_block ((97 ∷ 98 ∷ 99 ∷ []) ∷ [])
unfolding find
one_block-IsFile = record {
  chunks = (
    record {
      ptr = 0;
      block = abc;
      found = refl;
      stored = refl;
      valid = abc-IsBlock;
      seen = abc-get_data;
    },
    tt,
  );
  count = refl;
  packed = omega arith;
  distinct = (refl, tt);
  fresh = λ j h. ground arith;
}

-- A loader that finds one file, with the one block.
abbrev pub on_disk : DiskInode
on_disk = record {
  i_inode_id = str "A";
  i_mode = 0o100644;
  i_nlink = 1;
  i_mtime = 9;
  i_ctime = 8;
  i_size = 3;
  i_deleted = 0;
  i_block_data = (0, abc) ∷ [];
}

abbrev pub one_file_disk : Loader
one_file_disk = record {
  find_latest_inode = λ path blocks. ok on_disk;
  get_children = λ path. ok [];
}

-- What is stored in the caches of the tests.
pub a_id : id_of (str "/a") two_files ≡ ok (str "A")
unfolding id_of find str_beq
a_id = refl

pub a_inode : inode_at (str "A") two_files ≡ ok full_inode
unfolding inode_at find str_beq
a_inode = refl

pub b_id : id_of (str "/b") two_files ≡ ok (str "B")
unfolding id_of find str_beq
b_id = refl

pub b_inode : inode_at (str "B") two_files ≡ ok empty_inode
unfolding inode_at find str_beq
b_inode = refl

first_byte : Str → ℕ
first_byte [] = 0
first_byte (x ∷ xs) = x

pub ids_apart : str "A" ≢ str "B"
unfolding first_byte
ids_apart h = let e : ◌≡◌ {A = ℕ} 65 66 = ap first_byte h in omega arith
