-- ===== src/Tests/Blocks.antt =====
-- The theorems on blocks, inodes and the allocator, applied.
use zippy_fs.Common.{
  ℕ, ◌+◌, ◌%◌, ◌^◌, ◌≤◌, ◌≡◌, ◌≢◌, refl, List, [], ◌∷◌, arith, max, ok, err, out_of_bounds,
}
use zippy_fs.Block.{Block, insert, get_data, physical_size}
use zippy_fs.Block.Data.{IsBlock, insert_lem, insert_overruns}
use zippy_fs.Util.Numbers.{ulong_ceil}
use zippy_fs.Inode.{read}
use zippy_fs.Inode.Read.{read-take-drop}
use zippy_fs.Cache.Files.{disk_blocks}
use zippy_fs.Cache.Files.Attributes.{disk_blocks-ne-ulong_ceil}
use zippy_fs.Tire.{make, get_offset, get_memory, get_root}
use zippy_fs.Tire.Requests.{Mapped, requests, sizes, requests_lem, requests_apart}
use zippy_fs.Tire.Regions.{start}
use zippy_fs.Util.Names.{binary_to_hex, byte_hex}
use zippy_fs.Util.Names.Hex.{pairs, binary_to_hex-pairs}
use zippy_fs.Tests.{abc, abc-IsBlock, abc-get_data, full_inode, one_block-IsFile}

insert_lem_example :
    (b' : Block) × (insert (120 ∷ 121 ∷ []) 2 2 abc ≡ ok (0, b'))
    × IsBlock b'
    × (b'.actual_size ≡ max 3 (2 + 2))
    × (get_data b' ≡ ok (97 ∷ 98 ∷ 120 ∷ 121 ∷ []))
insert_lem_example =
    insert_lem (120 ∷ 121 ∷ []) 2 2 abc (97 ∷ 98 ∷ 99 ∷ []) abc-IsBlock abc-get_data (omega arith)
      (omega arith) (omega arith)

insert_overruns_example :
    (b' : Block) × (insert (1 ∷ 2 ∷ []) 2 4095 abc ≡ ok (0, b')) × (get_data b' ≡ err out_of_bounds)
insert_overruns_example =
    insert_overruns (1 ∷ 2 ∷ []) 2 4095 abc abc-IsBlock (omega arith) (omega arith) (omega arith)
      (omega arith)

read-take-drop_example : read 10 1 (abc ∷ []) full_inode ≡ ok (10, 98 ∷ 99 ∷ [])
read-take-drop_example =
    read-take-drop {h = abc ∷ []} full_inode {ds = (97 ∷ 98 ∷ 99 ∷ []) ∷ []} 10 1 one_block-IsFile
      (omega arith) (omega arith)

disk_blocks-ne-ulong_ceil_example : disk_blocks 5000 ≢ ulong_ceil 5000 physical_size
disk_blocks-ne-ulong_ceil_example = disk_blocks-ne-ulong_ceil 5000 (omega arith)

-- Three requests, after each of which the file is mapped somewhere else.
abbrev three_requests : List (ℕ × ℕ)
three_requests = (8192, 100) ∷ (65536, 50) ∷ (4096, 7) ∷ []

three_requests-Mapped : Mapped three_requests
three_requests-Mapped = ((λ h. cc), ((λ h. cc), ((λ h. cc), tt)))

requests_lem_example :
    (get_offset 1 (requests three_requests make) ≡ ok 100)
    × (get_memory 1 (requests three_requests make)
        ≡ (get_root (requests three_requests make) + start (sizes three_requests) 1) % 2 ^ 64)
    × (start (sizes three_requests) 1 + 50 ≤ (requests three_requests make).file_length)
requests_lem_example =
    requests_lem three_requests 1 50 three_requests-Mapped (omega arith) (omega arith) refl

requests_apart_example :
    (a : ℕ) × (b : ℕ) × (get_offset 0 (requests three_requests make) ≡ ok a)
    × (get_offset 2 (requests three_requests make) ≡ ok b)
    × (a + 100 ≤ b)
requests_apart_example =
    requests_apart three_requests 0 2 100 7 three_requests-Mapped (omega arith) (omega arith) refl
      refl (omega arith)

binary_to_hex-pairs_example :
    binary_to_hex (200 ∷ 10 ∷ 11 ∷ 12 ∷ []) ≡ pairs (200 ∷ 10 ∷ 11 ∷ 12 ∷ [])
unfolding byte_hex
binary_to_hex-pairs_example =
    binary_to_hex-pairs (200 ∷ 10 ∷ 11 ∷ 12 ∷ [])
      (omega arith, (omega arith, (omega arith, (omega arith, tt))))
