-- ===== src/Block/Data.antt =====
-- What `insert` and the constructors of block.cpp put into a block, and what `get_data` gets out.
use zippy_fs.Common.{
  ℕ, ◌+◌, ◌-◌, ◌%◌, ◌^◌, ◌≤◌, ◌<◌, min, max, ◌≡◌, refl, sym, ap, ◌∙◌, List, ◌++◌, arith, length,
  take, drop, replicate, ok, err, length-take, length-replicate, take-all, out_of_bounds,
  take-append_left, ok-injective, drop-take, take-take, take-append_right,
}
use zippy_fs.Block.{Block, physical_size, insert_data, insert, from_data, get_data, none}
use zippy_fs.Block.Splice.{splice, length-splice, splice-append, copy_in-splice}

-- A block whose array is whole and whose data lie inside it.
pub record IsBlock (b : Block) : Type 0 where
  pub whole : length b.bytes ≡ physical_size
  pub fits : b.actual_size ≤ physical_size

-- The block that `insert_data` leaves.
abbrev pub inserted : List ℕ → ℕ → ℕ → Block → Block
inserted src size offset b = record b {
  bytes = splice offset (take size src) b.bytes;
  actual_size = max b.actual_size (size + offset);
}

module _ (src : List ℕ) (size offset : ℕ) (b : Block) (whole : length b.bytes ≡ physical_size)
    (enough : size ≤ length src) (small : offset < 2 ^ 32) (no_wrap : size + offset < 2 ^ 64) where
  pub insert_data-inserted : insert_data src size offset b ≡ ok (inserted src size offset b)
  unfolding insert_data
  insert_data-inserted =
      let eo : offset % 2 ^ 32 ≡ offset = omega arith in
      let et : (size + offset) % 2 ^ 64 ≡ size + offset = omega arith in
      let es : size - 0 ≡ size = omega arith in
      rw
        (
          eo,
          copy_in-splice physical_size offset 0 size src b.bytes whole (omega arith) (omega arith)
              (omega arith),
          et,
          es,
        )
        (ground arith)

  pub insert-inserted : insert src size offset b ≡ ok (0, inserted src size offset b)
  unfolding insert
  insert-inserted = rw insert_data-inserted

pub get_data-take : (b : Block) → IsBlock b → get_data b ≡ ok (take b.actual_size b.bytes)
unfolding get_data
get_data-take b v = ground (arith, v.fits)

take-splice :
    (a i n : ℕ) (src xs : List ℕ)
    → length src ≡ n
    → i ≤ a
    → i + n ≤ length xs
    → take (max a (n + i)) (splice i src xs)
      ≡ take i (take a xs) ++ (src ++ drop (i + n) (take a xs))
take-splice a i n src xs hs ha hn =
    let m : ℕ = max a (n + i) in
    let e1 : min i a ≡ i = omega arith in
    let e2 : m - length (take i xs) ≡ m - i = omega (arith, length-take i xs) in
    let e3 : m - i - length src ≡ a - (i + n) = omega arith in
    let e4 : i + length src ≡ i + n = omega arith in
    rw (
      splice-append i src xs (omega arith),
      take-append_right m (take i xs) (src ++ drop (i + length src) xs)
          (omega (arith, length-take i xs)),
      e2,
      take-append_right (m - i) src (drop (i + length src) xs) (omega arith),
      e3,
      e4,
      take-take i a xs,
      e1,
      drop-take (i + n) a xs,
    )

-- Inserting `size` bytes inside the block, with no gap behind its data, writes them over the data
-- at `offset`: the block stays well formed, `get_data` returns the old bytes before `offset`, the
-- new bytes, and the old ones behind them, and the call returns 0.
pub insert_lem :
    (src : List ℕ) (size offset : ℕ) (b : Block) (d : List ℕ)
    → IsBlock b
    → get_data b ≡ ok d
    → size ≤ length src
    → offset ≤ b.actual_size
    → size + offset ≤ physical_size
    → (b' : Block) × (insert src size offset b ≡ ok (0, b'))
      × IsBlock b'
      × (b'.actual_size ≡ max b.actual_size (size + offset))
      × (get_data b' ≡ ok (take offset d ++ (take size src ++ drop (offset + size) d)))
insert_lem src size offset b d v hd hs ho hf = (
  inserted src size offset b,
  insert-inserted src size offset b v.whole hs (omega arith) (omega arith),
  v',
  refl,
  get_data-take (inserted src size offset b) v' ∙ ap ok (spliced ∙ seen),
)
  where
    n_eq : length (take size src) ≡ size
    n_eq = omega (arith, length-take size src)

    v' : IsBlock (inserted src size offset b)
    v' = record {
      whole = length-splice offset (take size src) b.bytes ∙ v.whole;
      fits = omega (arith, v.fits);
    }

    old : d ≡ take b.actual_size b.bytes
    old = ok-injective (sym hd ∙ get_data-take b v)

    spliced :
        take (max b.actual_size (size + offset)) (splice offset (take size src) b.bytes)
        ≡ take offset (take b.actual_size b.bytes)
          ++ (take size src ++ drop (offset + size) (take b.actual_size b.bytes))
    spliced =
        take-splice b.actual_size offset size (take size src) b.bytes n_eq ho
          (omega (arith, v.whole))

    seen :
        take offset (take b.actual_size b.bytes)
          ++ (take size src ++ drop (offset + size) (take b.actual_size b.bytes))
        ≡ take offset d ++ (take size src ++ drop (offset + size) d)
    seen = rw old

-- A block made from `size` bytes, at most 4096 of them, is well formed and holds just these bytes.
pub get_data-from_data :
    (src : List ℕ) (size : ℕ)
    → size ≤ length src
    → size ≤ physical_size
    → (b : Block) × (from_data src size ≡ ok b)
      × IsBlock b
      × (b.actual_size ≡ size)
      × (get_data b ≡ ok (take size src))
unfolding from_data
get_data-from_data src size hs hf = (
  made,
  insert_data-inserted src size 0 blank whole hs (omega arith) (omega arith),
  v,
  n_eq,
  get_data-take made v ∙ ap ok (rw n_eq all),
)
  where
    blank : Block
    blank = record { actual_size = 0; bytes = replicate physical_size 0; dirty = none }

    whole : length blank.bytes ≡ physical_size
    whole = length-replicate physical_size 0

    made : Block
    made = inserted src size 0 blank

    v : IsBlock made
    v = record { whole = length-splice 0 (take size src) blank.bytes ∙ whole; fits = omega arith }

    n_eq : max 0 (size + 0) ≡ size
    n_eq = omega arith

    all : take size (splice 0 (take size src) blank.bytes) ≡ take size src
    all =
        rw
          (splice-append 0 (take size src) blank.bytes (omega (arith, length-take size src, whole)))
          (take-append_left size (take size src) _ (omega (arith, length-take size src))
            ∙ take-all size (take size src) (omega (arith, length-take size src)))

-- An insert that reaches past the 4096 bytes is not refused: it returns 0, and leaves a block whose
-- `get_data` reads outside the array.
pub insert_overruns :
    (src : List ℕ) (size offset : ℕ) (b : Block)
    → IsBlock b
    → size ≤ length src
    → offset < 2 ^ 32
    → size + offset < 2 ^ 64
    → physical_size < size + offset
    → (b' : Block) × (insert src size offset b ≡ ok (0, b')) × (get_data b' ≡ err out_of_bounds)
unfolding get_data
insert_overruns src size offset b v hs ho hw hf =
    (inserted src size offset b, insert-inserted src size offset b v.whole hs ho hw, ground arith)
