-- ===== src/Cache/Invariant/Loading.antt =====
-- The operations of `BlockCache` that may load an inode keep `Linked`.
use zippy_fs.Inode.{get_mode, read, minus}
use zippy_fs.Util.Numbers.{later, Clock}
use zippy_fs.Common.{
  ℕ, ◌+◌, ◌/◌, ◌%◌, ◌^◌, true, false, Bool, List, Str, Result, if◌then◌else◌, AllOk, holds,
  AllOk-bind, AllOk-after, AllOk-branch, nat_beq, ltb, assert_failed, check, ◌&&◌,
}
use zippy_fs.Common.Map.{find, str_key}
use zippy_fs.Block.{physical_size}
use zippy_fs.Util.Names.{crypto_hash}
use zippy_fs.Cache.State.{
  Cache, Loader, id_of, inode_at, put_inode, in_cache, get_inode_by_path, max_size,
}
use zippy_fs.Cache.Load.{add_blocks, described, load_from_disk, load_from_shdw}
use zippy_fs.Cache.Files.{ensure, rename, read_file, open_file}
use zippy_fs.Cache.Write.{write_cached, write, write_loop}
use zippy_fs.Cache.Flush.{flush_to_disk, flush_to_shdw, additions_of, dirty_sum}
use zippy_fs.Cache.Invariant.{Linked}
use zippy_fs.Cache.Invariant.Steps.{
  put_inode-Linked, update_inode-Linked, move_inode-Linked, keep_loaded-Linked, Keeps, blocks_of,
  started, make_file-Linked,
}

module _ (g : List ℕ → List ℕ) (loader : Loader) where
  load_from_disk-Linked :
      (clock : Clock) (path : Str) (c : Cache)
      → Linked c
      → Keeps (load_from_disk g loader clock path c)
  unfolding load_from_disk
  load_from_disk-Linked clock path c linked = AllOk-after (loader.find_latest_inode path true) λ di.
      AllOk-branch (nat_beq di.i_mtime 0)
        (AllOk-after
          (add_blocks (later 8 clock) di.i_block_data c.heap
            (described clock path (crypto_hash g path) di))
          λ loaded.
            keep_loaded-Linked path di.i_mtime loaded.1 (record c { heap = loaded.0 }) linked)
        (holds linked)

  ensure-Linked :
      (clock : Clock) (path : Str) (c : Cache) → Linked c → Keeps (ensure g loader clock path c)
  unfolding ensure load_from_shdw
  ensure-Linked clock path c linked =
      AllOk-branch (in_cache path c) (load_from_disk-Linked clock path c linked) (holds linked)

  pub rename-Linked :
      (clocks : Clock × Clock × Clock × Clock) (from to : Str) (c : Cache)
      → Linked c
      → Keeps (rename g loader clocks from to c)
  unfolding rename
  rename-Linked (t₁, t₂, t₃, t₄) from to c linked =
      AllOk-bind (ensure-Linked t₁ from c linked) λ r₁ v₁.
        AllOk-branch (nat_beq r₁.0 (minus 1))
          (AllOk-bind (ensure-Linked t₂ to r₁.1 v₁) λ r₂ v₂.
            AllOk-branch (nat_beq r₂.0 (minus 1)) (move_inode-Linked g t₄ from to r₂.1 v₂) (
              AllOk-after (get_inode_by_path from r₂.1) λ i. AllOk-after (get_mode i) λ mode.
                move_inode-Linked g t₄ from to _ (make_file-Linked g t₃ to mode true r₂.1 v₂)))
          (holds v₁)

  pub read_file-Linked :
      (clock : Clock) (path : Str) (size offset : ℕ) (c : Cache)
      → Linked c
      → AllOk (λ out. Linked out.2) (read_file g loader clock path size offset c)
  unfolding read_file
  read_file-Linked clock path size offset c linked =
      AllOk-bind (ensure-Linked clock path c linked) λ r v.
        AllOk-after (get_inode_by_path path r.1)
          λ i. AllOk-after (read size offset r.1.heap i) λ out. holds v

  pub open_file-Linked :
      (clock : Clock) (path : Str) (c : Cache) → Linked c → Keeps (open_file g loader clock path c)
  unfolding open_file
  open_file-Linked clock path c linked =
      AllOk-branch (in_cache path c)
        (AllOk-bind (load_from_disk-Linked clock path c linked) λ r v. holds v) (holds linked)

  write_cached-Linked :
      (clock : Clock) (path : Str) (buf : List ℕ) (size offset : ℕ) (c : Cache)
      → Linked c
      → Keeps (write_cached clock path buf size offset c)
  unfolding write_cached put_inode
  write_cached-Linked clock path buf size offset c linked = AllOk-after (id_of path c) λ id.
      AllOk-after (inode_at id c) λ i.
        AllOk-after
          (write_loop (blocks_of size offset + 1) (later 1 clock) buf size offset
            (blocks_of size offset) (offset / physical_size % 2 ^ 32) 0 0 false
            (started c id clock size offset i))
          λ out.
            AllOk-after (check (nat_beq ((out.0 + out.1) % 2 ^ 64) size) assert_failed)
              λ u. holds (put_inode-Linked id out.2.inode c linked)

  pub write-Linked :
      (clocks : Clock × Clock) (path : Str) (buf : List ℕ) (size offset : ℕ) (c : Cache)
      → Linked c
      → Keeps (write g loader clocks path buf size offset c)
  unfolding write load_from_shdw
  write-Linked (loading, clock) path buf size offset c linked =
      AllOk-branch (in_cache path c)
        (AllOk-bind (load_from_disk-Linked loading path c linked) λ r v.
          AllOk-branch (nat_beq r.0 (minus 1))
            (write_cached-Linked clock path buf size offset r.1 v) (holds v))
        (AllOk-bind (update_inode-Linked path _ c linked)
          λ c' v. write_cached-Linked clock path buf size offset c' v)

AllOk-if :
    {A : Type 0} {P : A → Type 0} (b : Bool) {x y : Result A}
    → AllOk P x
    → AllOk P y
    → AllOk P (if b then x else y)
AllOk-if true u v = u
AllOk-if false u v = v

pub flush_to_shdw-Linked :
    (on_close : ℕ) (c : Cache) → Linked c → AllOk (λ out. Linked out.2) (flush_to_shdw on_close c)
unfolding flush_to_shdw flush_to_disk find
flush_to_shdw-Linked on_close c linked =
    AllOk-if (ltb c.size max_size && nat_beq on_close 0) (holds linked) (
      AllOk-branch c.has_changed (holds linked) (
        AllOk-after (dirty_sum c.heap c.dirty_block 0 0)
          λ sums. AllOk-after (additions_of c c.inode_idx) λ additions. holds (λ path id h. cc)))
