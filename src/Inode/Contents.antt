-- ===== src/Inode/Contents.antt =====
-- What a file holds: the data of its blocks, chunk by chunk.
pub mod Grow
pub mod Copy
use zippy_fs.Common.{
  ℕ, zero, suc, ◌+◌, ◌-◌, ◌*◌, ◌≤◌, ◌<◌, min, ◌≡◌, refl, sym, ap, ◌∙◌, List, [], ◌∷◌, ◌++◌, arith,
  length, take, drop, flatten, get_elem?, ok, some, none, length-append, length-take, ok-injective,
  drop-nil, drop-all, append-nil, drop-append_right,
}
use zippy_fs.Common.Map.{find, nat_key}
use zippy_fs.Block.{Block, physical_size, get_data}
use zippy_fs.Block.Data.{IsBlock, get_data-take}
use zippy_fs.Inode.{Heap, BlockMap, Ptr, Inode}

-- Block `i` of the table points to a well formed block with the data `d`.
pub record Holds (h : Heap) (m : BlockMap) (i : ℕ) (d : List ℕ) : Type 0 where
  pub ptr : Ptr
  pub block : Block
  pub found : find i m ≡ some ptr
  pub stored : get_elem? h ptr ≡ some block
  pub valid : IsBlock block
  pub seen : get_data block ≡ ok d

-- The blocks from `i` on hold the chunks, in order.
abbrev pub Chunks : Heap → BlockMap → ℕ → List (List ℕ) → Type 0
Chunks h m i [] = Unit {0}
Chunks h m i (d ∷ ds) = Holds h m i d × Chunks h m (suc i) ds

-- Every chunk but the last is a full block, and the last is no longer than one.
abbrev pub Packed : List (List ℕ) → Type 0
Packed [] = Unit {0}
Packed (d ∷ []) = length d ≤ physical_size
Packed (d ∷ e ∷ ds) = (length d ≡ physical_size) × Packed (e ∷ ds)

-- No block number stands twice in the table.
abbrev pub Distinct : BlockMap → Type 0
Distinct [] = Unit {0}
Distinct ((k, p) ∷ m) = (find k m ≡ none) × Distinct m

-- A file without gaps: its blocks are numbered from 0, there is no other, and they hold the chunks.
pub record IsFile (h : Heap) (m : BlockMap) (ds : List (List ℕ)) : Type 0 where
  pub chunks : Chunks h m 0 ds
  pub count : length m ≡ length ds
  pub packed : Packed ds
  pub distinct : Distinct m
  pub fresh : (j : ℕ) → length ds ≤ j → find j m ≡ none

module _ {h : Heap} {m : BlockMap} {i : ℕ} {d : List ℕ} (s : Holds h m i d) where
  pub data_eq : d ≡ take s.block.actual_size s.block.bytes
  data_eq = ok-injective (sym s.seen ∙ get_data-take s.block s.valid)

  pub actual_size-length : s.block.actual_size ≡ length d
  actual_size-length = omega (
    arith,
    ap length data_eq,
    length-take s.block.actual_size s.block.bytes,
    s.valid.whole,
    s.valid.fits,
  )

  pub length-le : length d ≤ physical_size
  length-le = omega (arith, actual_size-length, s.valid.fits)

pub Chunks-drop :
    (h : Heap) (m : BlockMap) (i k : ℕ) (ds : List (List ℕ))
    → Chunks h m i ds
    → Chunks h m (i + k) (drop k ds)
Chunks-drop h m i zero ds c = let e : i + 0 ≡ i = omega arith in rw e c
Chunks-drop h m i (suc k) [] c = tt
Chunks-drop h m i (suc k) (d ∷ ds) c =
    let e : i + suc k ≡ suc i + k = omega arith in rw e (Chunks-drop h m (suc i) k ds c.1)

pub Packed-tail : (d : List ℕ) (ds : List (List ℕ)) → Packed (d ∷ ds) → Packed ds
Packed-tail d [] p = tt
Packed-tail d (e ∷ ds) p = p.1

pub Packed-drop : (k : ℕ) (ds : List (List ℕ)) → Packed ds → Packed (drop k ds)
Packed-drop zero ds p = p
Packed-drop (suc k) [] p = tt
Packed-drop (suc k) (d ∷ ds) p = Packed-drop k ds (Packed-tail d ds p)

-- In a packed file the byte at `k` blocks and `r` is the byte at `r` of the chunks from `k` on.
pub drop-flatten :
    (k r : ℕ) (ds : List (List ℕ))
    → Packed ds
    → drop (k * physical_size + r) (flatten ds) ≡ drop r (flatten (drop k ds))
drop-flatten zero r ds p = let e : 0 * physical_size + r ≡ r = omega arith in rw e
drop-flatten (suc k) r [] p = drop-nil (suc k * physical_size + r) ∙ sym (drop-nil r)
drop-flatten (suc k) r (d ∷ []) p =
    rw append-nil (drop-all (suc k * physical_size + r) d (omega arith) ∙ none_left k)
  where
    none_left : (j : ℕ) → ◌≡◌ {A = List ℕ} [] (drop r (flatten (drop j [])))
    none_left zero = sym (drop-nil r)
    none_left (suc j) = sym (drop-nil r)
drop-flatten (suc k) r (d ∷ e ∷ ds) p =
    let cut : suc k * physical_size + r - length d ≡ k * physical_size + r = omega arith in
    drop-append_right (suc k * physical_size + r) d (flatten (e ∷ ds)) (omega arith)
    ∙ rw cut (drop-flatten k r (e ∷ ds) (Packed-tail d (e ∷ ds) p))

-- The empty table is the empty file.
pub IsFile-nil : (h : Heap) → IsFile h [] []
unfolding find
IsFile-nil h = record { chunks = tt; count = refl; packed = tt; distinct = tt; fresh = λ j l. refl }
