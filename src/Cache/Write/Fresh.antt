-- ===== src/Cache/Write/Fresh.antt =====
-- `BlockCache::write` of a file that has no blocks: the dirty blocks are all its blocks, in order.
use zippy_fs.Common.{
  inr, inl, Bool-cases, Fault, ℕ, zero, suc, ◌+◌, ◌%◌, ◌^◌, ◌≤◌, ◌<◌, ◌≡◌, refl, sym, ◌∙◌, ap,
  subst, true, false, none, some, List, [], ◌∷◌, ◌++◌, length, arith, ok, nat_beq, length-append,
  ltb, AllOk, holds, faults, AllOk-bind, Result, err,
}
use zippy_fs.Cache.Write.{
  Bool, Writing, source, append_block, write_block, write_loop, round_size, round_offset,
}
use zippy_fs.Common.Map.{find, insert, insert_ordered, nat_key}
use zippy_fs.Block.{Block, from_data}
use zippy_fs.Util.Numbers.{Clock, later, get_time}
use zippy_fs.Inode.{Inode, Heap, add_block, has_block, update_mtime}

-- Every reading of the clock is after 1970.
abbrev pub Ticking : Clock → Type 0
Ticking clock = (n : ℕ) → 1 ≤ get_time (clock n)

-- The numbers of the blocks follow one another.
abbrev pub Consecutive : ℕ → List (ℕ × ℕ) → Type 0
Consecutive k [] = Unit {0}
Consecutive k ((j, p) ∷ m) = (j ≡ k) × Consecutive (suc k) m

-- Behind `k` rounds: `k` blocks, all of them dirty, and what the inode keeps.
pub record Linear (i : Inode) (k : ℕ) (w : Writing) : Type 0 where
  pub same : w.dirty ≡ w.inode.blocks
  pub keys : Consecutive 0 w.dirty
  pub count : length w.dirty ≡ k
  pub path : w.inode.path ≡ i.path
  pub id : w.inode.inode_id ≡ i.inode_id
  pub mode : w.inode.mode ≡ i.mode
  pub late : 1 ≤ w.inode.ul_mtime

find-Consecutive :
    (k n : ℕ) (m : List (ℕ × ℕ)) → Consecutive k m → k + length m ≤ n → find n m ≡ none
unfolding find
find-Consecutive k n [] v h = refl
find-Consecutive k n ((j, p) ∷ m) v h =
    let other : nat_beq n j ≡ false = ground (arith, v.0) in
    rw other (find-Consecutive (suc k) n m v.1 (omega arith))

insert-Consecutive :
    (k n p : ℕ) (m : List (ℕ × ℕ))
    → Consecutive k m
    → k + length m ≡ n
    → (insert n p m ≡ m ++ (n, p) ∷ []) × (insert_ordered n p m ≡ m ++ (n, p) ∷ [])
unfolding insert insert_ordered
insert-Consecutive k n p [] v h = (refl, refl)
insert-Consecutive k n p ((j, q) ∷ m) v h =
    let other : nat_beq n j ≡ false = ground (arith, v.0) in
    let behind : ltb n j ≡ false = ground (arith, v.0) in
    let (e, e') = insert-Consecutive (suc k) n p m v.1 (omega arith) in
    (rw other (ap (λ x. (j, q) ∷ x) e), rw (other, behind) (ap (λ x. (j, q) ∷ x) e'))

Consecutive-snoc :
    (k n p : ℕ) (m : List (ℕ × ℕ))
    → Consecutive k m
    → k + length m ≡ n
    → Consecutive k (m ++ (n, p) ∷ [])
Consecutive-snoc k n p [] v h = (omega arith, tt)
Consecutive-snoc k n p ((j, q) ∷ m) v h = (v.0, Consecutive-snoc (suc k) n p m v.1 (omega arith))

-- A round that adds a block keeps this.
append_block-fails :
    (clock : Clock) (buf : List ℕ) (curr k bs : ℕ) (w : Writing) (e : Fault)
    → from_data (source buf curr) bs ≡ err e
    → append_block clock buf curr k bs w ≡ err e
unfolding append_block
append_block-fails clock buf curr k bs w e h = rw (append_block, h) refl

write_block-absent :
    (clock : Clock) (buf : List ℕ) (curr k bs amt : ℕ) (w : Writing)
    → has_block k w.inode ≡ false
    → write_block clock buf curr k bs amt w ≡ append_block clock buf curr k bs w
unfolding write_block
write_block-absent clock buf curr k bs amt w h = rw (write_block, h) refl

append_block-added :
    (clock : Clock) (buf : List ℕ) (curr k bs : ℕ) (w : Writing) (b : Block)
    → from_data (source buf curr) bs ≡ ok b
    → find k w.inode.blocks ≡ none
    → append_block clock buf curr k bs w
      ≡ ok (record {
        heap = w.heap ++ (b ∷ []);
        inode = record (update_mtime (clock 0) w.inode) {
          blocks = insert k (length w.heap) w.inode.blocks;
        };
        dirty = insert_ordered k (length w.heap) w.dirty;
        dirty_mtime = insert_ordered k (update_mtime (clock 0) w.inode).ul_mtime w.dirty_mtime;
      })
unfolding append_block add_block
append_block-added clock buf curr k bs w b made new = rw (append_block, made, new) refl

added-Linear :
    (clock : Clock) (i : Inode) (k p : ℕ) (h : Heap) (mtimes : List (ℕ × ℕ)) (w : Writing)
    → Ticking clock
    → Linear i k w
    → Linear i (suc k) (record {
      heap = h;
      inode = record (update_mtime (clock 0) w.inode) { blocks = insert k p w.inode.blocks };
      dirty = insert_ordered k p w.dirty;
      dirty_mtime = mtimes;
    })
unfolding update_mtime
added-Linear clock i k p h mtimes w tick v =
    let (e, e') = insert-Consecutive 0 k p w.dirty v.keys (omega (arith, v.count)) in
    record {
      same = e' ∙ sym e ∙ ap (insert k p) v.same;
      keys =
          subst (Consecutive 0) (sym e')
            (Consecutive-snoc 0 k p w.dirty v.keys (omega (arith, v.count)));
      count = ap length e' ∙ omega (arith, length-append w.dirty ((k, p) ∷ []), v.count);
      path = v.path;
      id = v.id;
      mode = v.mode;
      late = tick 0;
    }

append_block-Linear :
    (clock : Clock) (buf : List ℕ) (curr k bs : ℕ) (i : Inode) (w : Writing)
    → Ticking clock
    → Linear i k w
    → AllOk (Linear i (suc k)) (append_block clock buf curr k bs w)
append_block-Linear clock buf curr k bs i w tick v = go (from_data (source buf curr) bs) refl
  where
    new : find k w.inode.blocks ≡ none
    new = ap (find k) (sym v.same) ∙ find-Consecutive 0 k w.dirty v.keys (omega (arith, v.count))

    go :
        (made : Result Block)
        → from_data (source buf curr) bs ≡ made
        → AllOk (Linear i (suc k)) (append_block clock buf curr k bs w)
    go (err e) h =
        subst (AllOk (Linear i (suc k))) (sym (append_block-fails clock buf curr k bs w e h)) faults
    go (ok b) h =
        subst (AllOk (Linear i (suc k))) (sym (append_block-added clock buf curr k bs w b h new))
          (holds (added-Linear clock i k (length w.heap) (w.heap ++ (b ∷ [])) _ w tick v))

write_block-Linear :
    (clock : Clock) (buf : List ℕ) (curr k bs amt : ℕ) (i : Inode) (w : Writing)
    → Ticking clock
    → Linear i k w
    → AllOk (Linear i (suc k)) (write_block clock buf curr k bs amt w)
unfolding write_block has_block
write_block-Linear clock buf curr k bs amt i w tick v =
    let new : find k w.inode.blocks ≡ none =
      ap (find k) (sym v.same) ∙ find-Consecutive 0 k w.dirty v.keys (omega (arith, v.count)) in
    let absent : has_block k w.inode ≡ false =
      ap (λ o. elim o [ none ↦ false | some p ↦ true ]) new in
    subst (AllOk (Linear i (suc k))) (sym (write_block-absent clock buf curr k bs amt w absent))
      (append_block-Linear clock buf curr k bs i w tick v)

-- What is known of the end of the loop.
abbrev pub Ended : Inode → ℕ × ℕ × Writing → Type 0
Ended i out = (n : ℕ) × (n < 2 ^ 32) × Linear i n out.2

pub write_loop-Linear :
    (fuel : ℕ) (clock : Clock) (buf : List ℕ) (size offset num_blocks idx curr bs : ℕ)
    (offsetted : Bool) (i : Inode) (w : Writing)
    → Ticking clock
    → num_blocks < 2 ^ 32
    → idx < 2 ^ 32
    → Linear i idx w
    → AllOk (Ended i) (write_loop fuel clock buf size offset num_blocks idx curr bs offsetted w)
unfolding write_loop
write_loop-Linear zero clock buf size offset num_blocks idx curr bs offsetted i w tick few small v =
    faults
write_loop-Linear (suc fuel) clock buf size offset num_blocks idx curr bs offsetted i w tick few
      small v =
    elim (Bool-cases (ltb idx num_blocks)) [
      | inl more ↦
          let next : (idx + 1) % 2 ^ 32 ≡ suc idx = ground arith in
          let curr' : ℕ = (curr + bs) % 2 ^ 64 in
          rw (write_loop, more)
            (AllOk-bind
              (write_block-Linear clock buf curr' idx (round_size size curr')
                (round_offset offsetted offset) i w tick v)
              (λ w' v'.
                subst
                  (λ j. AllOk (Ended i) (
                    write_loop fuel (later 2 clock) buf size offset num_blocks j curr'
                      (round_size size curr') true w'))
                  (sym next)
                  (write_loop-Linear fuel (later 2 clock) buf size offset num_blocks (suc idx) curr'
                    (round_size size curr') true i w' (λ n. tick (2 + n)) few (ground arith) v')))
      | inr past ↦ rw (write_loop, past) (holds (idx, small, v))
    ]
