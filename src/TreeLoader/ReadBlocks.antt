-- ===== src/TreeLoader/ReadBlocks.antt =====
-- The loop of `find_latest_inode` over the blocks of an inode that `add_inode` has written.
use zippy_fs.Common.{
  ℕ, suc, ◌+◌, ◌≤◌, ◌≡◌, ◌≢◌, refl, ◌∙◌, sym, ap, none, some, List, [], ◌∷◌, ◌++◌, ok, take, length,
  arith, append_assoc, append-nil, length-take,
}
use zippy_fs.Common.Map.{find, insert, nat_key, find-insert}
use zippy_fs.Block.{Block, from_data, get_data}
use zippy_fs.Block.Data.{IsBlock, get_data-take, get_data-from_data}
use zippy_fs.Cache.State.{DiskInode}
use zippy_fs.Index.Memory.{Mem, BlockData, block_data_size}
use zippy_fs.Index.Cells.{stored, LaidBlocks, description}
use zippy_fs.TreeLoader.Latest.{Latest, block_at, bytes_at, take_block, take_blocks}

-- Blocks with the same numbers and the same data, each well formed.
abbrev pub Copies : List (ℕ × Block) → List (ℕ × Block) → Type 0
Copies [] [] = Unit {0}
Copies [] (c ∷ cs) = ⊥
Copies (b ∷ bs) [] = ⊥
Copies ((i, b) ∷ bs) ((j, c) ∷ cs) = (j ≡ i) × IsBlock c × (get_data c ≡ get_data b) × Copies bs cs

abbrev pub AllBlocks : List (ℕ × Block) → Type 0
AllBlocks [] = Unit {0}
AllBlocks ((i, b) ∷ bs) = IsBlock b × AllBlocks bs

-- No block has this number, and no two have the same.
abbrev pub NoBlock : ℕ → List (ℕ × Block) → Type 0
NoBlock i [] = Unit {0}
NoBlock i ((j, b) ∷ bs) = (i ≢ j) × NoBlock i bs

abbrev pub DistinctBlocks : List (ℕ × Block) → Type 0
DistinctBlocks [] = Unit {0}
DistinctBlocks ((i, b) ∷ bs) = NoBlock i bs × DistinctBlocks bs

-- The answer so far has none of these blocks.
unfoldable pub Unread : List (ℕ × Block) → Latest → Type 0
Unread [] l = Unit {0}
Unread ((i, b) ∷ bs) l =
    (find i l.block_time ≡ none) × (find i l.info.i_block_data ≡ none) × Unread bs l

-- The answer with one more block.
abbrev taken : ℕ → ℕ → Block → Latest → Latest
taken i t b l = record l {
  block_time = insert i t l.block_time;
  info = record l.info { i_block_data = insert i b l.info.i_block_data };
}

abbrev with_blocks : DiskInode → List (ℕ × Block) → DiskInode
with_blocks info bs = record info { i_block_data = bs }

Unread-taken :
    (i t : ℕ) (b : Block) (bs : List (ℕ × Block)) (l : Latest)
    → NoBlock i bs
    → Unread bs l
    → Unread bs (taken i t b l)
unfolding Unread
Unread-taken i t b [] l d u = tt
Unread-taken i t b ((j, c) ∷ bs) l d u = (
  ground (arith, find-insert i j t l.block_time, u.0, d.0),
  ground (arith, find-insert i j b l.info.i_block_data, u.1, d.0),
  Unread-taken i t b bs l d.1 u.2,
)

insert-new :
    {V : Type 0} (k : ℕ) (v : V) (m : List (ℕ × V))
    → find k m ≡ none
    → insert k v m ≡ m ++ (k, v) ∷ []
unfolding find insert
insert-new k v [] h = refl
insert-new k v ((j, w) ∷ m) h = ground (arith, insert-new k v m)

-- One round on a block that was not read yet.
take_block-new :
    (m : Mem) (cell : BlockData) (b : Block) (l : Latest)
    → find cell.block_id l.block_time ≡ none
    → from_data (bytes_at cell.data_offset m) cell.size ≡ ok b
    → take_block m cell l ≡ ok (taken cell.block_id cell.mtime b l)
unfolding take_block
take_block-new m cell b l new e = rw (take_block, new, e) refl

take_blocks-step :
    (rounds offset : ℕ) (m : Mem) (cell : BlockData) (l l' : Latest)
    → block_at offset m ≡ cell
    → take_block m cell l ≡ ok l'
    → take_blocks (suc rounds) offset m l ≡ take_blocks rounds (offset + block_data_size) m l'
unfolding take_blocks
take_blocks-step rounds offset m cell l l' h e = rw (h, e) refl

block_at-found :
    (offset : ℕ) (m : Mem) (cell : BlockData)
    → find offset m.blocks ≡ some cell
    → block_at offset m ≡ cell
unfolding block_at
block_at-found offset m cell h =
    ap
      (λ o. elim o [
        | none ↦ record { block_id = 0; mtime = 0; size = 0; data_offset = 0 }
        | some c ↦ c
      ])
      h

-- The bytes in the file make the block anew.
copied_block :
    (b : Block) (bytes : List ℕ)
    → IsBlock b
    → take b.actual_size bytes ≡ take b.actual_size b.bytes
    → (c : Block) × (from_data bytes b.actual_size ≡ ok c) × IsBlock c × (get_data c ≡ get_data b)
copied_block b bytes v e =
    let enough : b.actual_size ≤ length bytes = omega (
      arith,
      ap length e,
      length-take b.actual_size bytes,
      length-take b.actual_size b.bytes,
      v.whole,
      v.fits,
    ) in
    let (c, made, w, size, same) = get_data-from_data bytes b.actual_size enough v.fits in
    (c, made, w, same ∙ ap ok e ∙ sym (get_data-take b v))

-- What the loop makes of the answer.
pub record Read (bs : List (ℕ × Block)) (rounds offset : ℕ) (m : Mem) (l : Latest) : Type 0 where
  pub after : Latest
  pub copies : List (ℕ × Block)
  pub ran : take_blocks rounds offset m l ≡ ok after
  pub same : after.info ≡ record l.info { i_block_data = l.info.i_block_data ++ copies }
  pub copied : Copies bs copies

pub take_blocks-Read :
    (m : Mem) (mtimes : List (ℕ × ℕ)) (bs : List (ℕ × Block)) (offset data_at : ℕ) (l : Latest)
    → AllBlocks bs
    → DistinctBlocks bs
    → Unread bs l
    → LaidBlocks m.blocks m.bytes offset data_at mtimes bs
    → Read bs (length bs) offset m l
unfolding take_blocks LaidBlocks Unread stored
take_blocks-Read m mtimes [] offset data_at l v d u laid = record {
  after = l;
  copies = [];
  ran = refl;
  same = ap (with_blocks l.info) (sym (append-nil l.info.i_block_data));
  copied = tt;
}
take_blocks-Read m mtimes ((i, b) ∷ bs) offset data_at l (v, vs) (d, ds) (u, u', us) (h, e, laid) =
    let cell : BlockData = description i data_at mtimes b in
    let (c, made, w, same) = copied_block b (stored data_at m.bytes) v e in
    let l₁ : Latest = taken i cell.mtime c l in
    let r =
      take_blocks-Read m mtimes bs (offset + block_data_size) (data_at + b.actual_size) l₁ vs ds
        (Unread-taken i cell.mtime c bs l d us) laid in
    record {
      after = r.after;
      copies = (i, c) ∷ r.copies;
      ran =
          take_blocks-step (length bs) offset m cell l l₁ (block_at-found offset m cell h)
            (take_block-new m cell c l u made)
          ∙ r.ran;
      same =
          r.same
          ∙ ap (with_blocks l.info) (
              ap (λ x. x ++ r.copies) (insert-new i c l.info.i_block_data u')
              ∙ append_assoc l.info.i_block_data ((i, c) ∷ []) r.copies);
      copied = (refl, w, same, r.copied);
    }
