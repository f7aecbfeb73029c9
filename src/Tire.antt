-- ===== src/Tire.antt =====
-- tire_fire.h and tire_fire.cpp: the bump allocator over a file that is mapped into memory.
pub mod Regions
pub mod Requests
use zippy_fs.Common.{
  ℕ, ◌+◌, ◌%◌, ◌^◌, Bool, true, false, Option, none, some, List, [], ◌∷◌, nat_beq, if◌then◌else◌,
  Result, ok, uncaught, or_fault,
}
use zippy_fs.Common.Map.{find, insert, nat_key}

-- The members of `TireFire`, and the length of its file. Pointers are addresses, 0 is `nullptr`.
pub record TireFire : Type 0 where
  pub file_length : ℕ
  pub cur_size : ℕ
  pub cur_ptr : ℕ
  pub latest_index : ℕ
  pub index_to_offset : List (ℕ × ℕ)
  pub index_to_ptr : List (ℕ × ℕ)

-- The constructor from a path, whose file is empty.
unfoldable pub make : TireFire
make = record {
  file_length = 0;
  cur_size = 0;
  cur_ptr = 0;
  latest_index = 0;
  index_to_offset = [];
  index_to_ptr = [];
}

-- `index_to_offset[index]`, 0 where there is none.
abbrev pub offset_at : ℕ → List (ℕ × ℕ) → ℕ
offset_at index offsets = elim (find index offsets) [ none ↦ 0 | some offset ↦ offset ]

-- The loop that moves the old entries to where the file is mapped now.
unfoldable pub rebase : ℕ → List (ℕ × ℕ) → List (ℕ × ℕ) → List (ℕ × ℕ)
rebase base offsets [] = []
rebase base offsets ((index, ptr) ∷ m) =
    (index, (base + offset_at index offsets) % 2 ^ 64) ∷ rebase base offsets m

-- `addtomap`.
unfoldable pub add_to_map : ℕ → TireFire → ℕ × TireFire
add_to_map old_size t = (
  t.latest_index,
  record t {
    index_to_offset = insert t.latest_index old_size t.index_to_offset;
    index_to_ptr = insert t.latest_index ((t.cur_ptr + old_size) % 2 ^ 64) t.index_to_ptr;
    latest_index = (t.latest_index + 1) % 2 ^ 64;
  },
)

-- `get_tire(size)`; `mapped` is the address that its `mmap` or `mremap` returns.
unfoldable pub get_tire : ℕ → ℕ → TireFire → ℕ × TireFire
unfolding rebase add_to_map
get_tire mapped size t =
    if nat_beq t.cur_ptr 0
    then add_to_map t.cur_size (record t { file_length = size; cur_ptr = mapped; cur_size = size })
    else add_to_map t.cur_size (record t {
      cur_size = (t.cur_size + size) % 2 ^ 64;
      file_length = (t.cur_size + size) % 2 ^ 64;
      cur_ptr = mapped;
      index_to_ptr = rebase mapped t.index_to_offset t.index_to_ptr;
    })

-- `get_memory(index)`.
unfoldable pub get_memory : ℕ → TireFire → ℕ
get_memory index t = elim (find index t.index_to_ptr) [ none ↦ 0 | some ptr ↦ ptr ]

-- `get_offset(index)`.
unfoldable pub get_offset : ℕ → TireFire → Result ℕ
get_offset index t = or_fault (find index t.index_to_offset) uncaught

-- `get_root()`.
unfoldable pub get_root : TireFire → ℕ
get_root t = t.cur_ptr
