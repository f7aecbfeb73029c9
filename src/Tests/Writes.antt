-- ===== src/Tests/Writes.antt =====
-- The theorems on writes, applied.
use zippy_fs.Common.{◌≡◌, refl, [], ◌∷◌, arith, ok, str, some, ◌+◌, max, ◌/◌, get_elem?}
use zippy_fs.Common.Map.{find, str_key, nat_key}
use zippy_fs.Inode.{Inode}
use zippy_fs.Inode.Contents.{IsFile-nil}
use zippy_fs.Cache.State.{Cache, inode_at, inner}
use zippy_fs.Cache.Files.{read_file}
use zippy_fs.Cache.Write.Overwrite.{write-overwritten}
use zippy_fs.Block.{Block, get_data, physical_size}
use zippy_fs.Cache.Write.{write}
use zippy_fs.Cache.Write.End.{WroteEnd, write_lem}
use zippy_fs.Cache.Write.Readback.{read_file-write, read_file-write_other}
use zippy_fs.Fuse.{zippyfs_mknod, zippyfs_write, zippyfs_read}
use zippy_fs.Fuse.Handlers.{zippyfs_read-zippyfs_write-zippyfs_mknod}
use zippy_fs.Tests.{
  abc, plain_hash, ticks, empty_disk, two_files, no_files, full_inode, empty_inode, one_block,
  one_block-IsFile, a_id, a_inode, b_id, b_inode, ids_apart, abc-IsBlock, abc-get_data,
}

zippyfs_read-zippyfs_write-zippyfs_mknod_example :
    (c₁ : Cache) × (c₂ : Cache) × (zippyfs_mknod plain_hash ticks (str "/n") 0o100644 no_files
      ≡ (0, c₁))
    × (zippyfs_write plain_hash empty_disk (ticks, ticks) (str "/n") (5 ∷ 6 ∷ 7 ∷ []) 3 0 c₁
        ≡ ok (3, [], c₂))
    × (zippyfs_read plain_hash empty_disk ticks (str "/n") 10 1 c₂ ≡ ok (10, 6 ∷ 7 ∷ [], c₂))
zippyfs_read-zippyfs_write-zippyfs_mknod_example =
    zippyfs_read-zippyfs_write-zippyfs_mknod plain_hash empty_disk ticks (ticks, ticks) (str "/n")
      0o100644 (5 ∷ 6 ∷ 7 ∷ []) 3 no_files ticks 10 1 (omega arith) (omega arith) (omega arith)
      (omega arith)

read_file-write_example :
    (c' : Cache) × (write plain_hash empty_disk
        (ticks, ticks)
        (str "/b")
        (5 ∷ 6 ∷ 7 ∷ [])
        2
        0
        two_files
      ≡ ok (2, c'))
    × (read_file plain_hash empty_disk ticks (str "/b") 10 1 c' ≡ ok (10, 6 ∷ [], c'))
read_file-write_example =
    read_file-write plain_hash empty_disk (ticks, ticks) (str "/b") (5 ∷ 6 ∷ 7 ∷ []) 2 two_files
      (str "B") empty_inode [] b_id b_inode (IsFile-nil (abc ∷ [])) tt (omega arith) (omega arith)
      ticks 10 1 (omega arith)

write_lem_example :
    (c' : Cache) × (write plain_hash empty_disk
        (ticks, ticks)
        (str "/b")
        (5 ∷ 6 ∷ 7 ∷ [])
        2
        0
        two_files
      ≡ ok (2, c'))
    × WroteEnd two_files (str "B") empty_inode [] 0 (5 ∷ 6 ∷ []) c'
write_lem_example =
    write_lem plain_hash empty_disk (ticks, ticks) (str "/b") (5 ∷ 6 ∷ 7 ∷ []) 2 0 two_files
      (str "B") empty_inode [] b_id b_inode (IsFile-nil (abc ∷ [])) tt refl (omega arith)
      (omega arith)

read_file-write_other_example :
    (c' : Cache) × (write plain_hash empty_disk
        (ticks, ticks)
        (str "/b")
        (5 ∷ 6 ∷ 7 ∷ [])
        2
        0
        two_files
      ≡ ok (2, c'))
    × (read_file plain_hash empty_disk ticks (str "/a") 2 0 c' ≡ ok (2, 97 ∷ 98 ∷ [], c'))
    × (read_file plain_hash empty_disk ticks (str "/a") 2 0 two_files
        ≡ ok (2, 97 ∷ 98 ∷ [], two_files))
read_file-write_other_example =
    read_file-write_other plain_hash empty_disk (ticks, ticks) (str "/b") (5 ∷ 6 ∷ 7 ∷ []) 2
      two_files (str "B") empty_inode [] b_id b_inode (IsFile-nil (abc ∷ [])) tt (omega arith)
      (omega arith) (str "/a") (str "A") full_inode {es = (97 ∷ 98 ∷ 99 ∷ []) ∷ []} ticks 2 0 a_id
      ids_apart a_inode one_block-IsFile (omega arith) (omega arith)

a_block : find (2 / physical_size) full_inode.blocks ≡ some 0
unfolding find
a_block = refl

write-overwritten_example :
    (c' : Cache) × (b' : Block) × (j : Inode) × (write plain_hash empty_disk
        (ticks, ticks)
        (str "/a")
        (5 ∷ 6 ∷ 7 ∷ [])
        2
        2
        two_files
      ≡ ok (2, c'))
    × (inode_at (str "A") c' ≡ ok j)
    × (j.blocks ≡ one_block)
    × (j.size ≡ max 3 (2 + 2))
    × (get_elem? c'.heap 0 ≡ some b')
    × (get_data b' ≡ ok (97 ∷ 98 ∷ 5 ∷ 6 ∷ []))
    × (find (2 / physical_size) (inner (str "A") c'.dirty_block) ≡ some 0)
write-overwritten_example =
    write-overwritten plain_hash empty_disk (ticks, ticks) (str "/a") (5 ∷ 6 ∷ 7 ∷ []) 2 2 two_files
      (str "A") full_inode 0 abc (97 ∷ 98 ∷ 99 ∷ []) a_id a_inode a_block refl abc-IsBlock
      abc-get_data (omega arith) (omega arith) (omega arith) (omega arith) (omega arith)
