-- ===== src/Index/Cells.antt =====
-- What the loop of `add_inode` over the dirty blocks writes.
use zippy_fs.Common.{
  take-take, subst, ap₂, ℕ, zero, suc, ◌+◌, ◌*◌, ◌%◌, ◌^◌, ◌≤◌, ◌<◌, ◌≡◌, refl, ◌∙◌, ap, none, some,
  List, [], ◌∷◌, take, length, ok, arith, true, leb,
}
use zippy_fs.Common.Map.{find-insert_self, find, insert, nat_key, find-insert}
use zippy_fs.Block.{Block, get_data_ar, physical_size}
use zippy_fs.Index.Memory.{BlockData, block_data_size}
use zippy_fs.Index.Add.{BplusIndex, mem_of, set_mem, add_blocks_of}

-- A table that has what another has below a bound.
unfoldable pub Keeps : {V : Type 0} → ℕ → List (ℕ × V) → List (ℕ × V) → Type 0
Keeps bound m m' = (o : ℕ) → o < bound → find o m' ≡ find o m

pub Keeps-refl : {V : Type 0} (bound : ℕ) (m : List (ℕ × V)) → Keeps bound m m
unfolding Keeps
Keeps-refl bound m o h = refl

pub Keeps-trans :
    {V : Type 0} (bound bound' : ℕ) (m m' m'' : List (ℕ × V))
    → bound ≤ bound'
    → Keeps bound m m'
    → Keeps bound' m' m''
    → Keeps bound m m''
unfolding Keeps
Keeps-trans bound bound' m m' m'' l h h' o small = h' o (omega arith) ∙ h o small

pub Keeps-insert :
    {V : Type 0} (bound k : ℕ) (v : V) (m : List (ℕ × V)) → bound ≤ k → Keeps bound m (insert k v m)
unfolding Keeps
Keeps-insert bound k v m l o h = ground (arith, find-insert k o v m)

-- The bytes of all the blocks.
abbrev pub bytes_of : List (ℕ × Block) → ℕ
bytes_of [] = 0
bytes_of ((idx, b) ∷ bs) = b.actual_size + bytes_of bs

-- No block is larger than its array.
abbrev pub AllFit : List (ℕ × Block) → Type 0
AllFit [] = Unit {0}
AllFit ((idx, b) ∷ bs) = (b.actual_size ≤ physical_size) × AllFit bs

-- The bytes that stand at an offset.
unfoldable pub stored : ℕ → List (ℕ × List ℕ) → List ℕ
stored o bytes = elim (find o bytes) [ none ↦ [] | some xs ↦ xs ]

-- The description of a block.
abbrev pub description : ℕ → ℕ → List (ℕ × ℕ) → Block → BlockData
description id data_at mtimes b = record {
  block_id = id;
  size = b.actual_size;
  data_offset = data_at;
  mtime = elim (find id mtimes) [ none ↦ 0 | some t ↦ t ];
}

-- Descriptions of blocks one behind the other from an offset on, and their bytes likewise.
unfoldable pub LaidBlocks :
    List (ℕ × BlockData) → List (ℕ × List ℕ) → ℕ → ℕ → List (ℕ × ℕ) → List (ℕ × Block) → Type 0
unfolding stored
LaidBlocks cells bytes o data_at mtimes [] = Unit
LaidBlocks cells bytes o data_at mtimes ((id, b) ∷ bs) =
    (find o cells ≡ some (description id data_at mtimes b))
    × (take b.actual_size (stored data_at bytes) ≡ take b.actual_size b.bytes)
    × LaidBlocks cells bytes (o + block_data_size) (data_at + b.actual_size) mtimes bs

take-stored :
    (n data_at bd : ℕ) (bytes bytes' : List (ℕ × List ℕ)) (xs : List ℕ)
    → Keeps bd bytes bytes'
    → data_at + n ≤ bd
    → take n (stored data_at bytes) ≡ take n xs
    → take n (stored data_at bytes') ≡ take n xs
unfolding stored Keeps
take-stored zero data_at bd bytes bytes' xs k h e = refl
take-stored (suc n) data_at bd bytes bytes' xs k h e =
    ap (λ x. take (suc n) (elim x [ none ↦ [] | some ys ↦ ys ])) (k data_at (omega arith)) ∙ e

take-stored_self :
    (n o : ℕ) (xs : List ℕ) (bytes : List (ℕ × List ℕ))
    → take n (stored o (insert o (take n xs) bytes)) ≡ take n xs
unfolding stored
take-stored_self n o xs bytes =
    ap (λ x. take n (elim x [ none ↦ [] | some ys ↦ ys ])) (find-insert_self o (take n xs) bytes)
    ∙ take-take n n xs
    ∙ ap (λ k. take k xs) (omega arith)

-- Blocks that lie below bounds stay when nothing is written below them.
pub LaidBlocks-Keeps :
    (cells cells' : List (ℕ × BlockData)) (bytes bytes' : List (ℕ × List ℕ)) (o data_at bo bd : ℕ)
    (mtimes : List (ℕ × ℕ)) (bs : List (ℕ × Block))
    → Keeps bo cells cells'
    → Keeps bd bytes bytes'
    → o + block_data_size * length bs ≤ bo
    → data_at + bytes_of bs ≤ bd
    → LaidBlocks cells bytes o data_at mtimes bs
    → LaidBlocks cells' bytes' o data_at mtimes bs
unfolding LaidBlocks Keeps
LaidBlocks-Keeps cells cells' bytes bytes' o data_at bo bd mtimes [] k k' h h' l = tt
LaidBlocks-Keeps cells cells' bytes bytes' o data_at bo bd mtimes ((id, b) ∷ bs) k k' h h'
      (c, s, l) =
    (
      k o (omega arith) ∙ c,
      take-stored b.actual_size data_at bd bytes bytes' b.bytes k' (omega arith) s,
      LaidBlocks-Keeps cells cells' bytes bytes' (o + block_data_size) (data_at + b.actual_size) bo
          bd mtimes bs k k' (omega arith) (omega arith) l,
    )

-- The tree with other descriptions and bytes, and its positions in them.
abbrev pub with_blocks : List (ℕ × BlockData) → List (ℕ × List ℕ) → ℕ → ℕ → BplusIndex → BplusIndex
with_blocks cells bytes data_at bds b =
    record (set_mem (record (mem_of b) { blocks = cells; bytes = bytes }) b) {
      cur_block_arr_idx = data_at;
      cur_bd_arr_idx = bds;
    }

-- What the loop leaves.
pub record Wrote (bd_off data_off : ℕ) (mtimes : List (ℕ × ℕ)) (bs : List (ℕ × Block))
    (b : BplusIndex) : Type 0 where
  pub cells : List (ℕ × BlockData)
  pub bytes : List (ℕ × List ℕ)
  pub ran :
      add_blocks_of bd_off data_off mtimes bs b
      ≡ ok (
          with_blocks cells bytes
            (b.cur_block_arr_idx + bytes_of bs)
            (b.cur_bd_arr_idx + length bs)
            b)
  pub laid :
      LaidBlocks cells bytes
        (bd_off + block_data_size * b.cur_bd_arr_idx)
        (data_off + b.cur_block_arr_idx)
        mtimes
        bs
  pub keeps_cells : Keeps (bd_off + block_data_size * b.cur_bd_arr_idx) (mem_of b).blocks cells
  pub keeps_bytes : Keeps (data_off + b.cur_block_arr_idx) (mem_of b).bytes bytes

-- One round.
abbrev round : ℕ → ℕ → List (ℕ × ℕ) → ℕ → Block → BplusIndex → BplusIndex
round bd_off data_off mtimes id block b =
    let data_at : ℕ = data_off + b.cur_block_arr_idx in
    with_blocks
      (insert (bd_off + block_data_size * b.cur_bd_arr_idx) (description id data_at mtimes block)
        (mem_of b).blocks)
      (insert data_at (take block.actual_size block.bytes) (mem_of b).bytes)
      (b.cur_block_arr_idx + block.actual_size) (b.cur_bd_arr_idx + 1) b

add_blocks_of-round :
    (bd_off data_off : ℕ) (mtimes : List (ℕ × ℕ)) (id : ℕ) (block : Block) (rest : List (ℕ × Block))
    (b : BplusIndex)
    → block.actual_size ≤ physical_size
    → bd_off + block_data_size * b.cur_bd_arr_idx < 2 ^ 64
    → data_off + b.cur_block_arr_idx + block.actual_size < 2 ^ 64
    → add_blocks_of bd_off data_off mtimes ((id, block) ∷ rest) b
      ≡ add_blocks_of bd_off data_off mtimes rest (round bd_off data_off mtimes id block b)
unfolding add_blocks_of get_data_ar
add_blocks_of-round bd_off data_off mtimes id block rest b fit h h' =
    let small : leb block.actual_size physical_size ≡ true = ground arith in
    let e : (data_off + b.cur_block_arr_idx) % 2 ^ 64 ≡ data_off + b.cur_block_arr_idx =
      omega arith in
    let e' : (bd_off + b.cur_bd_arr_idx * block_data_size) % 2 ^ 64
        ≡ bd_off + block_data_size * b.cur_bd_arr_idx =
      omega arith in
    let e'' : (b.cur_block_arr_idx + block.actual_size) % 2 ^ 64
        ≡ b.cur_block_arr_idx + block.actual_size =
      omega arith in
    rw (add_blocks_of, small, e, e', e'') refl

-- The descriptions and the bytes have room, and no block is larger than its array: the loop ends,
-- with all blocks laid out and everything before them as it was.
pub add_blocks_of-Wrote :
    (bd_off data_off : ℕ) (mtimes : List (ℕ × ℕ)) (bs : List (ℕ × Block)) (b : BplusIndex)
    → AllFit bs
    → bd_off + block_data_size * (b.cur_bd_arr_idx + length bs) < 2 ^ 64
    → data_off + b.cur_block_arr_idx + bytes_of bs < 2 ^ 64
    → Wrote bd_off data_off mtimes bs b
unfolding add_blocks_of LaidBlocks Keeps
add_blocks_of-Wrote bd_off data_off mtimes [] b fit h h' =
    let e : b.cur_block_arr_idx + 0 ≡ b.cur_block_arr_idx = omega arith in
    let e' : b.cur_bd_arr_idx + 0 ≡ b.cur_bd_arr_idx = omega arith in
    record {
      cells = (mem_of b).blocks;
      bytes = (mem_of b).bytes;
      ran = rw (e, e') refl;
      laid = tt;
      keeps_cells = Keeps-refl _ (mem_of b).blocks;
      keeps_bytes = Keeps-refl _ (mem_of b).bytes;
    }
add_blocks_of-Wrote bd_off data_off mtimes ((id, block) ∷ bs) b fit h h' =
    let x : ℕ = data_off + b.cur_block_arr_idx in
    let y : ℕ = bd_off + block_data_size * b.cur_bd_arr_idx in
    let b₁ : BplusIndex = round bd_off data_off mtimes id block b in
    let w = add_blocks_of-Wrote bd_off data_off mtimes bs b₁ fit.1 (omega arith) (omega arith) in
    let next_cell : bd_off + block_data_size * (b.cur_bd_arr_idx + 1) ≡ y + block_data_size =
      omega arith in
    let next_data : data_off + (b.cur_block_arr_idx + block.actual_size) ≡ x + block.actual_size =
      omega arith in
    let total : b.cur_block_arr_idx + block.actual_size + bytes_of bs
        ≡ b.cur_block_arr_idx + (block.actual_size + bytes_of bs) =
      omega arith in
    let count : b.cur_bd_arr_idx + 1 + length bs ≡ b.cur_bd_arr_idx + suc (length bs) =
      omega arith in
    record {
      cells = w.cells;
      bytes = w.bytes;
      ran =
          add_blocks_of-round bd_off data_off mtimes id block bs b fit.0 (omega arith) (omega arith)
          ∙ w.ran
          ∙ ap₂ (λ i j. ok (with_blocks w.cells w.bytes i j b)) total count;
      laid = (
        w.keeps_cells y (omega arith)
            ∙ find-insert_self y (description id x mtimes block) (mem_of b).blocks,
        take-stored block.actual_size x (data_off + (b.cur_block_arr_idx + block.actual_size)) _
            w.bytes block.bytes w.keeps_bytes (omega arith)
            (take-stored_self block.actual_size x block.bytes (mem_of b).bytes),
        subst (λ i. LaidBlocks w.cells w.bytes i (x + block.actual_size) mtimes bs) next_cell
            (subst
              (λ i.
                LaidBlocks w.cells w.bytes (bd_off + block_data_size * (b.cur_bd_arr_idx + 1)) i
                  mtimes bs)
              next_data w.laid),
      );
      keeps_cells =
          Keeps-trans y (bd_off + block_data_size * (b.cur_bd_arr_idx + 1)) _ _ _ (omega arith)
            (Keeps-insert y y (description id x mtimes block) (mem_of b).blocks (omega arith))
            w.keeps_cells;
      keeps_bytes =
          Keeps-trans x (data_off + (b.cur_block_arr_idx + block.actual_size)) _ _ _ (omega arith)
            (Keeps-insert x x (take block.actual_size block.bytes) (mem_of b).bytes (omega arith))
            w.keeps_bytes;
    }
