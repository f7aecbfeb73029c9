-- ===== src/TreeLoader/Times.antt =====
-- The blocks that `find_latest_inode` gathers: their times only rise, and each has its data.
use zippy_fs.Common.{
  ℕ, zero, suc, ◌+◌, ◌≤◌, ◌≡◌, sym, Bool, true, false, Option, none, some, List, [], ◌∷◌, Str, inl,
  inr, Result, ok, err, AllOk, AllOk-bind, AllOk-after, AllOk-branch, holds, faults, nat_beq,
  AllOk-weaken, ltb, nat_beq_iff, subst, arith, Bool-cases,
}
use zippy_fs.Common.Map.{find, insert, nat_key, find-insert}
use zippy_fs.Block.{Block, from_data}
use zippy_fs.Index.Memory.{Mem, BlockData, InodeCell, no_offset, block_data_size}
use zippy_fs.TreeLoader.Search.{inode_offset}
use zippy_fs.TreeLoader.Latest.{
  Latest, inode_at, block_at, is_later, take_inode, take_block, take_blocks, search_trees,
  rounds_of, take_tree, bytes_at,
}

-- A time that is there stays, or a later one takes its place.
abbrev NotEarlier : Option ℕ → Option ℕ → Type 0
NotEarlier none t = Unit
NotEarlier (some old) none = ⊥
NotEarlier (some old) (some new) = old ≤ new

unfoldable pub Rises : List (ℕ × ℕ) → List (ℕ × ℕ) → Type 0
Rises times times' = (id : ℕ) → NotEarlier (find id times) (find id times')

-- The blocks with a time are the blocks with data.
abbrev SameBlocks : Option ℕ → Option Block → Type 0
SameBlocks none none = Unit
SameBlocks none (some b) = ⊥
SameBlocks (some t) none = ⊥
SameBlocks (some t) (some b) = Unit

unfoldable pub Dated : Latest → Type 0
Dated l = (id : ℕ) → SameBlocks (find id l.block_time) (find id l.info.i_block_data)

NotEarlier-refl : (t : Option ℕ) → NotEarlier t t
NotEarlier-refl none = tt
NotEarlier-refl (some t) = omega arith

NotEarlier-trans : (s t u : Option ℕ) → NotEarlier s t → NotEarlier t u → NotEarlier s u
NotEarlier-trans none t u h h' = tt
NotEarlier-trans (some s) none u h h' = absurd h
NotEarlier-trans (some s) (some t) none h h' = absurd h'
NotEarlier-trans (some s) (some t) (some u) h h' = omega arith

-- What one step keeps, from `l` on.
unfoldable pub Step : Latest → Latest → Type 0
Step l l' = Rises l.block_time l'.block_time × (Dated l → Dated l')

Step-refl : (l : Latest) → Step l l
unfolding Step Rises
Step-refl l = (λ id. NotEarlier-refl (find id l.block_time), λ d. d)

Step-trans : (l l' l'' : Latest) → Step l l' → Step l' l'' → Step l l''
unfolding Step Rises
Step-trans l l' l'' (r, d) (r', d') = (
  λ id.
      NotEarlier-trans (find id l.block_time) (find id l'.block_time) (find id l''.block_time)
        (r id) (r' id),
  λ x. d' (d x),
)

is_later-NotEarlier : (t : ℕ) (old : Option ℕ) → is_later t old ≡ true → NotEarlier old (some t)
is_later-NotEarlier t none h = tt
is_later-NotEarlier t (some old) h = ground arith

Rises-insert :
    (id t : ℕ) (times : List (ℕ × ℕ))
    → is_later t (find id times) ≡ true
    → Rises times (insert id t times)
unfolding Rises
Rises-insert id t times h j = elim (Bool-cases (nat_beq j id)) [
  | inl same ↦
      rw (find-insert id j t times, same)
        (subst (λ i. NotEarlier (find i times) (some t)) (sym ((nat_beq_iff j id).0 same))
          (is_later-NotEarlier t (find id times) h))
  | inr other ↦ rw (find-insert id j t times, other) (NotEarlier-refl (find j times))
]

SameBlocks-insert :
    (id t j : ℕ) (b : Block) (times : List (ℕ × ℕ)) (blocks : List (ℕ × Block))
    → SameBlocks (find j times) (find j blocks)
    → SameBlocks (find j (insert id t times)) (find j (insert id b blocks))
SameBlocks-insert id t j b times blocks h = elim (Bool-cases (nat_beq j id)) [
  | inl same ↦ rw (find-insert id j t times, find-insert id j b blocks, same) tt
  | inr other ↦ rw (find-insert id j t times, find-insert id j b blocks, other) h
]

take_block-Step : (m : Mem) (b : BlockData) (l : Latest) → AllOk (Step l) (take_block m b l)
unfolding take_block Step Dated
take_block-Step m b l = elim (Bool-cases (is_later b.mtime (find b.block_id l.block_time))) [
  | inl h ↦
      rw (take_block, h)
        (AllOk-after (from_data (bytes_at b.data_offset m) b.size) (λ bp. holds (
          Rises-insert b.block_id b.mtime l.block_time h,
          λ d id.
              SameBlocks-insert b.block_id b.mtime id bp l.block_time l.info.i_block_data (d id),
        )))
  | inr h ↦ rw (take_block, h) (holds (Step-refl l))
]

AllOk-Step : (l l' : Latest) (r : Result Latest) → Step l l' → AllOk (Step l') r → AllOk (Step l) r
AllOk-Step l l' (ok x) s (holds t) = holds (Step-trans l l' x s t)
AllOk-Step l l' (err e) s faults = faults

take_blocks-Step :
    (rounds offset : ℕ) (m : Mem) (l : Latest) → AllOk (Step l) (take_blocks rounds offset m l)
unfolding take_blocks
take_blocks-Step zero offset m l = holds (Step-refl l)
take_blocks-Step (suc rounds) offset m l =
    AllOk-bind (take_block-Step m (block_at offset m) l)
      (λ l' s. AllOk-Step l l' _ s (take_blocks-Step rounds (offset + block_data_size) m l'))

take_inode-Step : (p : Str) (c : InodeCell) (l : Latest) → Step l (take_inode p c l)
unfolding take_inode Step Dated
take_inode-Step p c l = elim (Bool-cases (ltb l.latest_time c.mtime)) [
  | inl h ↦ rw h (Step-refl l)
  | inr h ↦ rw h (Step-refl l)
]

take_tree-Step :
    (p : Str) (get_data : Bool) (m : Mem) (found : Option ℕ) (l : Latest)
    → AllOk (λ r. Step l r.0) (take_tree p get_data m found l)
unfolding take_tree
take_tree-Step p get_data m none l = holds (Step-refl l)
take_tree-Step p false m (some offset) l = holds (take_inode-Step p (inode_at offset m) l)
take_tree-Step p true m (some offset) l =
    let cell = inode_at offset m in
    let l' = take_inode p cell l in
    AllOk-branch (nat_beq cell.block_data no_offset)
      (AllOk-bind (take_blocks-Step (rounds_of cell) cell.block_data m l')
        (λ l'' s. holds (Step-trans l l' l'' (take_inode-Step p cell l) s)))
      (holds (take_inode-Step p cell l))

search_trees-Step :
    (fuel : ℕ) (p : Str) (get_data : Bool) (trees : List Mem) (l : Latest)
    → AllOk (Step l) (search_trees fuel p get_data trees l)
unfolding search_trees
search_trees-Step fuel p get_data [] l = holds (Step-refl l)
search_trees-Step fuel p get_data (m ∷ trees) l = AllOk-after (inode_offset fuel m p) (λ found.
    AllOk-bind (take_tree-Step p get_data m found l) (λ (l', goes_on) s.
      AllOk-branch goes_on (holds s)
        (AllOk-Step l l' _ s (search_trees-Step fuel p get_data trees l'))))

-- Let the blocks that have a time be the blocks that have data. Whatever the trees hold and wherever
-- the loop over them ends, this is so as well of what it returns, and the time of a block that was
-- gathered before is there still or a time not before it is in its place. A call that faults has no
-- result, and nothing is said of it.
pub search_trees-Rises :
    (fuel : ℕ) (p : Str) (get_data : Bool) (trees : List Mem) (l : Latest)
    → Dated l
    → AllOk
        (λ l'. Dated l' × Rises l.block_time l'.block_time)
        (search_trees fuel p get_data trees l)
unfolding Step
search_trees-Rises fuel p get_data trees l d =
    AllOk-weaken (λ l' s. (s.1 d, s.0)) (search_trees-Step fuel p get_data trees l)
