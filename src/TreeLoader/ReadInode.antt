-- ===== src/TreeLoader/ReadInode.antt =====
-- The body of the loop of `find_latest_inode` on an inode that `add_inode` has written.
use zippy_fs.Common.{
  ℕ, ◌+◌, ◌*◌, ◌≤◌, ◌<◌, ◌≡◌, refl, ◌∙◌, sym, ap, subst, Bool, true, false, some, List, [], ◌∷◌,
  ◌++◌, ◌⊎◌, inl, inr, ap₂, ok, Str, length, arith, nat_beq, ltb, lt→ltb,
}
use zippy_fs.Common.Map.{find, nat_key}
use zippy_fs.Block.{Block}
use zippy_fs.Util.Names.{crypto_hash}
use zippy_fs.Cache.State.{DiskInode}
use zippy_fs.Index.Memory.{Mem, InodeCell, hash_size, inode_size, block_data_size, no_offset}
use zippy_fs.Index.Cells.{LaidBlocks}
use zippy_fs.Index.Started.{Layout}
use zippy_fs.Index.Build.{Item, Cursors, cell_of}
use zippy_fs.TreeLoader.Search.{inode_offset}
use zippy_fs.TreeLoader.Latest.{
  Latest, inode_at, take_inode, take_tree, take_blocks, search_trees, rounds_of, nothing_found,
  find_latest_inode,
}
use zippy_fs.TreeLoader.ReadBlocks.{Copies, AllBlocks, DistinctBlocks, Unread, take_blocks-Read}

-- The answer for an inode, with these blocks.
abbrev pub read_back : Str → Item → ℕ → List (ℕ × Block) → DiskInode
read_back phash a mode bs = record {
  i_inode_id = phash;
  i_mode = mode;
  i_nlink = a.inode.nlink;
  i_mtime = a.inode.ul_mtime;
  i_ctime = a.inode.ul_ctime;
  i_size = a.inode.size;
  i_deleted = a.inode.deleted;
  i_block_data = bs;
}

pub inode_at-found :
    (offset : ℕ) (m : Mem) (cell : InodeCell)
    → find offset m.inodes ≡ some cell
    → inode_at offset m ≡ cell
unfolding inode_at
inode_at-found offset m cell h = rw (inode_at, h) refl

-- A search of one tree.
pub search_trees-one :
    (fuel offset : ℕ) (p : Str) (get_data goes_on : Bool) (m : Mem) (l l' : Latest)
    → inode_offset fuel m p ≡ ok (some offset)
    → take_tree p get_data m (some offset) l ≡ ok (l', goes_on)
    → search_trees fuel p get_data (m ∷ []) l ≡ ok l'
unfolding search_trees
search_trees-one fuel offset p get_data true m l l' h e = rw (h, search_trees, e) refl
search_trees-one fuel offset p get_data false m l l' h e = rw (h, search_trees, e) refl

pub find_latest_inode-found :
    (generichash : List ℕ → List ℕ) (fuel memory : ℕ) (trees : List Mem) (path : Str)
    (get_data : Bool) (l : Latest)
    → 1 ≤ length path
    → length (crypto_hash generichash path) < hash_size
    → search_trees fuel (crypto_hash generichash path) get_data trees (nothing_found memory) ≡ ok l
    → find_latest_inode generichash fuel memory trees path get_data ≡ ok l.info
unfolding find_latest_inode
find_latest_inode-found generichash fuel memory trees path get_data l named short h =
    let some_path : nat_beq (length path) 0 ≡ false = ground arith in
    rw
      (
        find_latest_inode,
        some_path,
        lt→ltb (length (crypto_hash generichash path)) hash_size short,
        h,
      )
      refl

take_inode-first :
    (p : Str) (cell : InodeCell) (memory : ℕ)
    → 1 ≤ cell.mtime
    → ((take_inode p cell (nothing_found memory)).block_time ≡ [])
      × ((take_inode p cell (nothing_found memory)).info ≡ record {
        i_inode_id = p;
        i_mode = cell.mode;
        i_nlink = cell.nlink;
        i_mtime = cell.mtime;
        i_ctime = cell.ctime;
        i_size = cell.size;
        i_deleted = cell.deleted;
        i_block_data = [];
      })
unfolding take_inode
take_inode-first p cell memory late = rw (lt→ltb 0 cell.mtime late) (refl, refl)

-- The body of the loop where the inode has no blocks, and where it has some.
take_tree-stops :
    (p : Str) (m : Mem) (offset : ℕ) (l : Latest)
    → (inode_at offset m).block_data ≡ no_offset
    → take_tree p true m (some offset) l ≡ ok (take_inode p (inode_at offset m) l, false)
unfolding take_tree
take_tree-stops p m offset l e =
    let same : nat_beq (inode_at offset m).block_data no_offset ≡ true = ground arith in
    rw (take_tree, same) refl

take_tree-goes_on :
    (p : Str) (m : Mem) (offset : ℕ) (l l' : Latest)
    → (inode_at offset m).block_data < no_offset
    → take_blocks
        (rounds_of (inode_at offset m))
        (inode_at offset m).block_data
        m
        (take_inode p (inode_at offset m) l)
      ≡ ok l'
    → take_tree p true m (some offset) l ≡ ok (l', true)
unfolding take_tree
take_tree-goes_on p m offset l l' e r =
    let other : nat_beq (inode_at offset m).block_data no_offset ≡ false = ground arith in
    rw (take_tree, other, r) refl

take_tree-no_blocks :
    (p : Str) (m : Mem) (offset : ℕ) (cell : InodeCell) (l : Latest)
    → inode_at offset m ≡ cell
    → cell.block_data ≡ no_offset
    → take_tree p true m (some offset) l ≡ ok (take_inode p cell l, false)
take_tree-no_blocks p m offset cell l h e =
    subst (λ x. take_tree p true m (some offset) l ≡ ok (take_inode p x l, false)) h
      (take_tree-stops p m offset l (ap InodeCell.block_data h ∙ e))

take_tree-blocks :
    (p : Str) (m : Mem) (offset : ℕ) (cell : InodeCell) (l l' : Latest)
    → inode_at offset m ≡ cell
    → cell.block_data < no_offset
    → take_blocks (rounds_of cell) cell.block_data m (take_inode p cell l) ≡ ok l'
    → take_tree p true m (some offset) l ≡ ok (l', true)
take_tree-blocks p m offset cell l l' h e r =
    take_tree-goes_on p m offset l l' (omega (arith, ap InodeCell.block_data h))
      (subst (λ x. take_blocks (rounds_of x) x.block_data m (take_inode p x l) ≡ ok l') (sym h) r)

-- What the body of the loop makes of an inode that was added.
pub record Took (p : Str) (a : Item) (mode memory : ℕ) (m : Mem) (offset : ℕ) : Type 0 where
  pub after : Latest
  pub goes_on : Bool
  pub copies : List (ℕ × Block)
  pub ran : take_tree p true m (some offset) (nothing_found memory) ≡ ok (after, goes_on)
  pub info : after.info ≡ read_back p a mode copies
  pub copied : Copies a.dirty_blocks copies

blocks-cases : (bs : List (ℕ × Block)) → (bs ≡ []) ⊎ (1 ≤ length bs)
blocks-cases [] = inl refl
blocks-cases (b ∷ bs) = inr (omega arith)

-- The cell of an inode with no blocks, and of one that has some.
cell_of-empty :
    (l : Layout) (c : Cursors) (a : Item) (mode : ℕ)
    → a.dirty_blocks ≡ []
    → (cell_of l c a mode).block_data ≡ no_offset
cell_of-empty l c a mode h = rw h refl

cell_of-some :
    (l : Layout) (c : Cursors) (a : Item) (mode : ℕ)
    → 1 ≤ length a.dirty_blocks
    → ((cell_of l c a mode).block_data ≡ l.cells + block_data_size * c.blocks)
      × (rounds_of (cell_of l c a mode) ≡ length a.dirty_blocks)
cell_of-some l c a mode h =
    let some_blocks : ltb 0 (length a.dirty_blocks) ≡ true = ground arith in
    rw some_blocks (refl, omega arith)

Unread-none :
    (bs : List (ℕ × Block)) (l : Latest)
    → l.block_time ≡ []
    → l.info.i_block_data ≡ []
    → Unread bs l
unfolding Unread find
Unread-none [] l h h' = tt
Unread-none ((i, b) ∷ bs) l h h' = (rw h refl, rw h' refl, Unread-none bs l h h')

pub take_tree-Took :
    (p : Str) (l : Layout) (c : Cursors) (a : Item) (mode memory : ℕ) (m : Mem)
    → find (l.inodes + inode_size * c.inodes) m.inodes ≡ some (cell_of l c a mode)
    → LaidBlocks m.blocks m.bytes
        (l.cells + block_data_size * c.blocks)
        (l.bytes + c.bytes)
        a.block_mtime
        a.dirty_blocks
    → l.cells + block_data_size * c.blocks < no_offset
    → 1 ≤ a.inode.ul_mtime
    → AllBlocks a.dirty_blocks
    → DistinctBlocks a.dirty_blocks
    → Took p a mode memory m (l.inodes + inode_size * c.inodes)
take_tree-Took p l c a mode memory m at laid below late v d =
    let offset : ℕ = l.inodes + inode_size * c.inodes in
    let cell : InodeCell = cell_of l c a mode in
    let l₀ : Latest = take_inode p cell (nothing_found memory) in
    let (no_times, info) = take_inode-first p cell memory late in
    let here : inode_at offset m ≡ cell = inode_at-found offset m cell at in
    elim (blocks-cases a.dirty_blocks) [
      | inl empty ↦ record {
        after = l₀;
        goes_on = false;
        copies = [];
        ran =
            take_tree-no_blocks p m offset cell (nothing_found memory) here
              (cell_of-empty l c a mode empty);
        info = info;
        copied = subst (λ bs. Copies bs []) (sym empty) tt;
      }
      | inr some_blocks ↦
          let (from, rounds) = cell_of-some l c a mode some_blocks in
          let r =
            take_blocks-Read m a.block_mtime a.dirty_blocks (l.cells + block_data_size * c.blocks)
              (l.bytes + c.bytes) l₀ v d
              (Unread-none a.dirty_blocks l₀ no_times (ap DiskInode.i_block_data info)) laid in
          record {
            after = r.after;
            goes_on = true;
            copies = r.copies;
            ran =
                take_tree-blocks p m offset cell (nothing_found memory) r.after here
                  (omega (arith, from)) (ap₂ (λ n o. take_blocks n o m l₀) rounds from ∙ r.ran);
            info =
                r.same
                ∙ ap {A = DiskInode} {B = DiskInode}
                    (λ di. record di { i_block_data = di.i_block_data ++ r.copies }) info;
            copied = r.copied;
          }
    ]
