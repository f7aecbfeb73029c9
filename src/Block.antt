-- ===== src/Block.antt =====
-- block.h and block.cpp: a block of at most 4096 bytes of a file.
pub mod Data
pub mod Splice
use zippy_fs.Common.{
  ℕ, zero, suc, ◌+◌, ◌%◌, ◌^◌, Bool, true, false, ◌&&◌, Option, none, some, List, [], ◌∷◌, ltb, leb,
  if◌then◌else◌, length, set, get_elem?, take, replicate, Result, ok, err, out_of_bounds, Fault,
  ◌>>=◌, or_fault,
}

-- `SIZE_`.
abbrev pub physical_size : ℕ
physical_size = 4096

-- A byte that `std::array` holds is a number; the code only moves it. The constructor that takes
-- data leaves `dirty_` uninitialised, which is `none`.
pub record Block : Type 0 where
  pub actual_size : ℕ
  pub bytes : List ℕ
  pub dirty : Option Bool

-- `Block()`.
unfoldable pub empty : Block
empty = record { actual_size = 0; bytes = replicate physical_size 0; dirty = some false }

-- The loop of `insert_data`: `ii` and `jj` are `unsigned int`, and `src` is `data + jj`. Reading
-- past the end of `src` is a fault of the caller.
unfoldable pub copy_in : ℕ → ℕ → ℕ → ℕ → List ℕ → List ℕ → Result (List ℕ)
copy_in zero ii jj size src dst = ok dst
copy_in (suc rounds) ii jj size src dst = elim (ltb jj size && ltb ii physical_size) [
  | false ↦ ok dst
  | true ↦ elim src [
    | [] ↦ err out_of_bounds
    | b ∷ rest ↦ copy_in rounds ((ii + 1) % 2 ^ 32) ((jj + 1) % 2 ^ 32) size rest (set dst ii b)
  ]
]

-- `insert_data(data, size, offset)`. The loop leaves when `ii` reaches 4096, so 4096 rounds do.
unfoldable pub insert_data : List ℕ → ℕ → ℕ → Block → Result Block
insert_data src size offset b = do
  written ← copy_in physical_size (offset % 2 ^ 32) 0 size src b.bytes
  let total = (size + offset) % 2 ^ 64
  ok (record b {
    bytes = written;
    actual_size = if ltb b.actual_size total then total else b.actual_size;
  })

-- `insert(data, size, offset)`, which returns 0.
unfoldable pub insert : List ℕ → ℕ → ℕ → Block → Result (ℕ × Block)
unfolding insert_data
insert src size offset b = do b' ← insert_data src size offset b; ok (0, b')

-- `Block(data, size)`.
unfoldable pub from_data : List ℕ → ℕ → Result Block
unfolding insert_data
from_data src size =
    insert_data src size 0
      (record { actual_size = 0; bytes = replicate physical_size 0; dirty = none })

-- `get_data()`: a vector of the first `actual_size_` bytes. Past the array it is undefined.
unfoldable pub get_data : Block → Result (List ℕ)
get_data b =
    if leb b.actual_size physical_size then ok (take b.actual_size b.bytes) else err out_of_bounds

-- `get_data_ar()`.
unfoldable pub get_data_ar : Block → List ℕ
get_data_ar b = b.bytes

abbrev pub set_dirty : Block → Block
set_dirty b = record b { dirty = some true }

-- `is_dirty()`; reading an uninitialised `dirty_` is undefined.
unfoldable pub is_dirty : Block → Result Bool
is_dirty b = or_fault b.dirty out_of_bounds

abbrev pub get_actual_size : Block → ℕ
get_actual_size b = b.actual_size
