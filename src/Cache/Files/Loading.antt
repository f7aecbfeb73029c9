-- ===== src/Cache/Files/Loading.antt =====
-- Reading a file that is only on disk: load_from_disk of block_cache.cpp, and `read` behind it.
use zippy_fs.Common.{
  ℕ, suc, ◌^◌, ◌≤◌, ◌<◌, ◌≡◌, ◌≢◌, refl, sym, ap, subst, true, false, List, [], ◌∷◌, ◌++◌, arith,
  ok, none, Str, length, flatten, take, drop, or_fault, null_deref, append-nil, append_assoc,
  nat_beq, length-append,
}
use zippy_fs.Common.Map.{find, insert, insert_ordered, nat_key, str_key, find-insert_ordered_self}
use zippy_fs.Block.{Block, get_data, physical_size}
use zippy_fs.Block.Data.{IsBlock}
use zippy_fs.Util.Numbers.{Clock, later}
use zippy_fs.Util.Names.{crypto_hash}
use zippy_fs.Inode.{
  Inode, Heap, make, add_block, update_mtime, set_id, set_size, set_mode, set_mtime, set_ctime,
  set_nlink, undo_dirty, read, to_int,
}
use zippy_fs.Inode.Contents.{IsFile, IsFile-nil, Packed}
use zippy_fs.Inode.Contents.Grow.{Full, Full-snoc, IsFile-snoc}
use zippy_fs.Inode.Read.{read-take-drop}
use zippy_fs.Cache.State.{
  Cache, Loader, DiskInode, id_of, inode_at, put_inode, in_cache, get_inode_by_path,
}
use zippy_fs.Cache.State.Lookup.{in_cache_of_id, get_inode_by_path-ok}
use zippy_fs.Cache.Load.{add_blocks, described, keep_loaded, load_from_disk, load_from_shdw}
use zippy_fs.Cache.Files.{ensure, read_file}

-- Blocks numbered from `k` on, well formed, with the data `ds`.
abbrev pub Numbered : ℕ → List (ℕ × Block) → List (List ℕ) → Type 0
Numbered k [] [] = Unit {0}
Numbered k [] (d ∷ ds) = ⊥
Numbered k (b ∷ bs) [] = ⊥
Numbered k ((idx, b) ∷ bs) (d ∷ ds) =
    (idx ≡ k) × IsBlock b × (get_data b ≡ ok d) × Numbered (suc k) bs ds

-- What the inode is after a block was added behind its others.
abbrev extended : Clock → ℕ → ℕ → Inode → Inode
extended clock idx p i = record (update_mtime (clock 0) i) { blocks = insert idx p i.blocks }

add_block-extended :
    (clock : Clock) (idx p : ℕ) (h : Heap) (i : Inode)
    → find idx i.blocks ≡ none
    → add_block (clock 0) idx p h i ≡ ok (h, extended clock idx p i)
unfolding add_block
add_block-extended clock idx p h i e = ground (arith, e)

-- The loaded inode, its heap, and what it holds.
pub record LoadedAs (bs : List (ℕ × Block)) (clock : Clock) (h : Heap) (i : Inode)
    (ds : List (List ℕ)) : Type 0 where
  pub heap : Heap
  pub inode : Inode
  pub ran : add_blocks clock bs h i ≡ ok (heap, inode)
  pub file : IsFile heap inode.blocks ds
  pub same_id : inode.inode_id ≡ i.inode_id

LoadedAs-cons :
    (idx : ℕ) (b : Block) (bs : List (ℕ × Block)) (clock : Clock) (h : Heap) (i : Inode)
    (ds : List (List ℕ))
    → find idx i.blocks ≡ none
    → LoadedAs bs (later 1 clock) (h ++ (b ∷ [])) (extended clock idx (length h) i) ds
    → LoadedAs ((idx, b) ∷ bs) clock h i ds
unfolding add_blocks update_mtime
LoadedAs-cons idx b bs clock h i ds new v = record {
  heap = v.heap;
  inode = v.inode;
  ran = rw (add_block-extended clock idx (length h) (h ++ (b ∷ [])) i new) v.ran;
  file = v.file;
  same_id = v.same_id;
}

-- A block behind the last full one extends the file.
extended-IsFile :
    (clock : Clock) (h : Heap) (i : Inode) (b : Block) (ds : List (List ℕ)) (d : List ℕ)
    → IsFile h i.blocks ds
    → Full ds
    → IsBlock b
    → get_data b ≡ ok d
    → length d ≤ physical_size
    → IsFile (h ++ (b ∷ [])) (extended clock (length ds) (length h) i).blocks (ds ++ d ∷ [])
unfolding update_mtime
extended-IsFile clock h i b ds d v f vb hd small = IsFile-snoc h i.blocks ds b d v f vb hd small

LoadedAs-done :
    (clock : Clock) (h : Heap) (i : Inode) (ds : List (List ℕ))
    → IsFile h i.blocks ds
    → LoadedAs [] clock h i ds
unfolding add_blocks
LoadedAs-done clock h i ds v = record { heap = h; inode = i; ran = refl; file = v; same_id = refl }

add_blocks-LoadedAs :
    (bs : List (ℕ × Block)) (clock : Clock) (h : Heap) (i : Inode) (ds es : List (List ℕ))
    → IsFile h i.blocks ds
    → Numbered (length ds) bs es
    → Packed es
    → Full ds
    → LoadedAs bs clock h i (ds ++ es)
add_blocks-LoadedAs [] clock h i ds [] v q p f =
    LoadedAs-done clock h i (ds ++ []) (subst (λ xs. IsFile h i.blocks xs) (sym (append-nil ds)) v)
add_blocks-LoadedAs [] clock h i ds (e ∷ es) v q p f = absurd q
add_blocks-LoadedAs (b ∷ bs) clock h i ds [] v q p f = absurd q
add_blocks-LoadedAs ((idx, b) ∷ []) clock h i ds (d ∷ []) v (hk, vb, hd, q) p f =
    subst (λ k. LoadedAs ((k, b) ∷ []) clock h i (ds ++ d ∷ [])) (sym hk)
      (LoadedAs-cons (length ds) b [] clock h i (ds ++ d ∷ []) (v.fresh (length ds) (omega arith)) (
        LoadedAs-done (later 1 clock) (h ++ (b ∷ [])) (extended clock (length ds) (length h) i)
          (ds ++ d ∷ []) (extended-IsFile clock h i b ds d v f vb hd p)))
add_blocks-LoadedAs (x ∷ y ∷ bs) clock h i ds (d ∷ []) v (hk, vb, hd, q) p f = absurd q
add_blocks-LoadedAs ((idx, b) ∷ bs) clock h i ds (d ∷ e ∷ es) v (hk, vb, hd, q) p f =
    let at : length (ds ++ d ∷ []) ≡ suc (length ds) = omega (arith, length-append ds (d ∷ [])) in
    let rest =
      add_blocks-LoadedAs bs (later 1 clock) (h ++ (b ∷ []))
        (extended clock (length ds) (length h) i) (ds ++ d ∷ []) (e ∷ es)
        (extended-IsFile clock h i b ds d v f vb hd (omega (arith, p.0)))
        (subst (λ k. Numbered k bs (e ∷ es)) (sym at) q) p.1 (Full-snoc ds d f p.0) in
    subst (λ k. LoadedAs ((k, b) ∷ bs) clock h i (ds ++ d ∷ e ∷ es)) (sym hk)
      (LoadedAs-cons (length ds) b bs clock h i (ds ++ d ∷ e ∷ es)
        (v.fresh (length ds) (omega arith))
        (subst
          (λ xs.
            LoadedAs bs (later 1 clock) (h ++ (b ∷ [])) (extended clock (length ds) (length h) i)
              xs)
          (append_assoc ds (d ∷ []) (e ∷ es)) rest))

-- The inode before its blocks are added has none, and the id from the disk.
described-fields :
    (clock : Clock) (path id : Str) (di : DiskInode)
    → di.i_deleted ≡ 0
    → ((described clock path id di).blocks ≡ [])
      × ((described clock path id di).inode_id ≡ di.i_inode_id)
unfolding described set_id set_size set_mode set_mtime set_ctime set_nlink make update_mtime
described-fields clock path id di alive = ground arith

-- The cache with the loaded inode.
abbrev with_inode : Str → Inode → Cache → Cache
with_inode path latest c = record (put_inode latest.inode_id (undo_dirty latest) c) {
  inode_idx = insert_ordered path latest.inode_id c.inode_idx;
}

keep_loaded-missing :
    (path : Str) (mtime : ℕ) (latest : Inode) (c : Cache)
    → in_cache path c ≡ false
    → keep_loaded path mtime latest c ≡ ok (0, with_inode path latest c)
unfolding keep_loaded
keep_loaded-missing path mtime latest c e = ground (arith, e)

with_inode-stored :
    (path : Str) (latest : Inode) (c : Cache)
    → (id_of path (with_inode path latest c) ≡ ok latest.inode_id)
      × (inode_at latest.inode_id (with_inode path latest c) ≡ ok (undo_dirty latest))
      × ((with_inode path latest c).heap ≡ c.heap)
unfolding id_of inode_at put_inode
with_inode-stored path latest c = (
  ap (λ o. or_fault o null_deref) (find-insert_ordered_self path latest.inode_id c.inode_idx),
  ap (λ o. or_fault o null_deref)
      (find-insert_ordered_self latest.inode_id (undo_dirty latest) c.inode_ptrs),
  refl,
)

undo_dirty-blocks : (i : Inode) → (undo_dirty i).blocks ≡ i.blocks
unfolding undo_dirty
undo_dirty-blocks i = refl

module _ (generichash : List ℕ → List ℕ) (loader : Loader) (clock : Clock) (path : Str) (c : Cache)
    (di : DiskInode) (found : loader.find_latest_inode path true ≡ ok di) (there : di.i_mtime ≢ 0)
    (missing : in_cache path c ≡ false) where
  load_from_disk-kept :
      (h : Heap) (latest : Inode)
      → add_blocks
          (later 8 clock)
          di.i_block_data
          c.heap
          (described clock path (crypto_hash generichash path) di)
        ≡ ok (h, latest)
      → load_from_disk generichash loader clock path c
        ≡ ok (0, with_inode path latest (record c { heap = h }))
  unfolding load_from_disk in_cache
  load_from_disk-kept h latest ran =
      let kept = keep_loaded-missing path di.i_mtime latest (record c { heap = h }) missing in
      let real : nat_beq di.i_mtime 0 ≡ false = ground arith in
      ground (arith, found, real, ran, kept)

  -- Reading a file that is not in the cache loads it: where the loader finds an inode with a modification time that is not
  -- deleted and whose blocks are numbered from 0 in their order, are well formed, and are full but
  -- for the last, `read` returns the size asked for and puts into the buffer what these blocks hold
  -- from the offset on, if there are less than 2 ^ 32 blocks and the offset is below 2 ^ 44. The path is in the cache afterwards.
  pub read_file-load :
      (ds : List (List ℕ)) (n at : ℕ)
      → di.i_deleted ≡ 0
      → Numbered 0 di.i_block_data ds
      → Packed ds
      → length ds < 2 ^ 32
      → at < 2 ^ 44
      → (c' : Cache) × (read_file generichash loader clock path n at c
          ≡ ok (to_int n, take n (drop at (flatten ds)), c'))
        × (in_cache path c' ≡ true)
  unfolding read_file ensure load_from_shdw
  read_file-load ds n at alive q p few small =
      let hash : Str = crypto_hash generichash path in
      let (no_blocks, same) = described-fields clock path hash di alive in
      let v =
        add_blocks-LoadedAs di.i_block_data (later 8 clock) c.heap (described clock path hash di) []
          ds (subst (λ m. IsFile c.heap m []) (sym no_blocks) (IsFile-nil c.heap)) q p tt in
      let c₁ : Cache = record c { heap = v.heap } in
      let c' : Cache = with_inode path v.inode c₁ in
      let (hid, hi, hh) = with_inode-stored path v.inode c₁ in
      let loaded = load_from_disk-kept v.heap v.inode v.ran in
      let seen = get_inode_by_path-ok path v.inode.inode_id (undo_dirty v.inode) c' hid hi in
      let file : IsFile c'.heap (undo_dirty v.inode).blocks ds =
        subst (λ m. IsFile c'.heap m ds) (sym (undo_dirty-blocks v.inode))
          (subst (λ h. IsFile h v.inode.blocks ds) (sym hh) v.file) in
      let got = read-take-drop (undo_dirty v.inode) n at file (omega (arith, file.count)) small in
      (
        c',
        read_loaded c' (undo_dirty v.inode) n at _ loaded seen got,
        in_cache_of_id path v.inode.inode_id c' hid,
      )
    where
      read_loaded :
          (c' : Cache) (i : Inode) (n at : ℕ) (out : ℕ × List ℕ)
          → load_from_disk generichash loader clock path c ≡ ok (0, c')
          → get_inode_by_path path c' ≡ ok i
          → read n at c'.heap i ≡ ok out
          → read_file generichash loader clock path n at c ≡ ok (out.0, out.1, c')
      read_loaded c' i n at out loaded seen got = ground (arith, missing, loaded, seen, got)
