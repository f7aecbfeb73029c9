-- ===== src/TreeLoader/Newest.antt =====
-- `find_latest_inode` over trees that hold the path: the attributes of the newest inode. A tree that
-- does not hold it hides those behind it.
use zippy_fs.Common.{
  ltb, ℕ, ◌≤◌, ◌<◌, ◌≡◌, refl, ap, sym, ◌∙◌, Bool, true, false, none, List, ◌∷◌, ◌++◌, Str, ok,
  length, nat_beq, arith,
}
use zippy_fs.Util.Names.{crypto_hash}
use zippy_fs.Cache.State.{DiskInode}
use zippy_fs.Index.Memory.{Mem, InodeCell, hash_size}
use zippy_fs.Index.Entries.{IsTree, lookup}
use zippy_fs.TreeLoader.Search.{inode_offset}
use zippy_fs.TreeLoader.Descent.{inode_offset-lookup}
use zippy_fs.TreeLoader.Latest.{Latest, search_trees, nothing_found, find_latest_inode}
-- Trees that all hold a key, with the inodes that they have for it. None is higher than the fuel.
use zippy_fs.TreeLoader.Taken.{
  Hold, OneShows, NoneNewer, take_inodes, search_trees-Hold, search_trees-Hold_all,
  take_inodes-Newest, Newest-shown,
}

module _ (generichash : List ℕ → List ℕ) where
  -- The whole call, for a path that is not empty.
  find_latest_inode-search_trees :
      (fuel memory : ℕ) (trees : List Mem) (path : Str) (get_data : Bool) (l : Latest)
      → 1 ≤ length path
      → length (crypto_hash generichash path) < hash_size
      → search_trees fuel (crypto_hash generichash path) get_data trees (nothing_found memory)
        ≡ ok l
      → find_latest_inode generichash fuel memory trees path get_data ≡ ok l.info
  unfolding find_latest_inode
  find_latest_inode-search_trees fuel memory trees path get_data l h h' e =
      let nonempty : nat_beq (length path) 0 ≡ false = ground arith in
      let short : ltb (length (crypto_hash generichash path)) hash_size ≡ true = ground arith in
      rw (find_latest_inode, nonempty, short, e) refl

  search_trees-stops :
      (fuel : ℕ) (p : Str) (get_data : Bool) (m : Mem) (after : List Mem) (l : Latest)
      → inode_offset fuel m p ≡ ok none
      → search_trees fuel p get_data (m ∷ after) l ≡ ok l
  unfolding search_trees
  search_trees-stops fuel p get_data m after l h = rw (search_trees, h) refl

  -- For a path that is not empty and whose hash has less than 128 bytes, where every tree holds the
  -- hash, none is as high as the fuel, and the inode of the first tree has a time after 0:
  -- `find_latest_inode` without data succeeds, no tree has an inode of the path with a later time
  -- than the answer's, and the answer has the attributes of one of these inodes.
  pub find_latest_inode-newest :
      (fuel memory : ℕ) (trees : List Mem) (path : Str) (c : InodeCell) (cells : List InodeCell)
      → 1 ≤ length path
      → length (crypto_hash generichash path) < hash_size
      → Hold fuel (crypto_hash generichash path) trees (c ∷ cells)
      → 1 ≤ c.mtime
      → (info : DiskInode) × (find_latest_inode generichash fuel memory trees path false ≡ ok info)
        × NoneNewer info.i_mtime (c ∷ cells)
        × OneShows (c ∷ cells) info
  find_latest_inode-newest fuel memory trees path c cells h h' hold late =
      let p = crypto_hash generichash path in
      let l = take_inodes p (c ∷ cells) (nothing_found memory) in
      let n = take_inodes-Newest p (c ∷ cells) (nothing_found memory) in
      let whole : search_trees fuel p false trees (nothing_found memory) ≡ ok l =
        search_trees-Hold_all (nothing_found memory) hold in
      let (newest, shown) = Newest-shown p c cells (nothing_found memory) l (omega arith) n in
      (
        l.info,
        find_latest_inode-search_trees fuel memory trees path false l h h' whole,
        newest,
        shown,
      )

  -- For a path that is not empty and whose hash has less than 128 bytes, where the trees before one
  -- hold the hash, that one does not, and none of these is as high as the fuel:
  -- `find_latest_inode` without data answers as if the tree and all that come after it, whatever
  -- they hold, were not there.
  pub find_latest_inode-stops :
      (fuel memory height : ℕ) (before after : List Mem) (m : Mem) (path : Str)
      (cells : List InodeCell) (es : List (Str × ℕ))
      → 1 ≤ length path
      → length (crypto_hash generichash path) < hash_size
      → Hold fuel (crypto_hash generichash path) before cells
      → IsTree m height m.header.root es
      → height < fuel
      → lookup (crypto_hash generichash path) es ≡ none
      → find_latest_inode generichash fuel memory (before ++ (m ∷ after)) path false
        ≡ find_latest_inode generichash fuel memory before path false
  find_latest_inode-stops fuel memory height before after m path cells es h h' hold t l e =
      let p = crypto_hash generichash path in
      let start = nothing_found memory in
      let stop : search_trees fuel p false (m ∷ after) (take_inodes p cells start)
          ≡ ok (take_inodes p cells start) =
        search_trees-stops fuel p false m after (take_inodes p cells start)
          (inode_offset-lookup fuel height m p es t l ∙ ap ok e) in
      let alone : search_trees fuel p false before start ≡ ok (take_inodes p cells start) =
        search_trees-Hold_all start hold in
      find_latest_inode-search_trees fuel memory (before ++ (m ∷ after)) path false
        (take_inodes p cells start) h h' (search_trees-Hold (m ∷ after) start hold ∙ stop)
      ∙ sym (
          find_latest_inode-search_trees fuel memory before path false (take_inodes p cells start) h
            h' alone)
