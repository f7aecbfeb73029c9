-- ===== src/Index/Halves.antt =====
-- The split of a full leaf in `split_insert_node`: what its two halves hold.
use zippy_fs.Common.{
  ℕ, zero, suc, ◌+◌, ◌-◌, ◌≡◌, refl, ap, sym, ◌∙◌, List, [], ◌∷◌, Str, take, drop, set, length,
  drop-take, take-take, min, length-set, arith,
}
use zippy_fs.Common.Splice.{
  copies, copy_elem, copies-set_below, take-all_copied, take-set_above, length-copies,
}
use zippy_fs.Index.Memory.{Mem, Node, text_at, max_keys, no_offset, live_keys}
use zippy_fs.Index.Entries.{entries_of, leaf_entries, IsLeaf}
use zippy_fs.Index.Split.{med_idx, move_entries, split_leaf}

-- The loop moves the entries from `ii` on to the right node and touches nothing of the left one below.
Moved : ℕ → ℕ → ℕ → Node × Node → Node × Node → Type 0
Moved rounds ii cur (l, r) (l', r') =
    (l'.is_leaf ≡ l.is_leaf)
    × (r'.is_leaf ≡ r.is_leaf)
    × (r'.num_keys ≡ r.num_keys + rounds)
    × (l'.values ≡ l.values)
    × (length l'.keys ≡ length l.keys)
    × (take ii l'.keys ≡ take ii l.keys)
    × (r'.keys ≡ copies rounds ii cur l.keys r.keys)
    × (r'.values ≡ copies rounds ii cur l.values r.values)
    × (l'.parent ≡ l.parent)

take-shorter :
    (ii : ℕ) (xs ys : List ℕ) → take (suc ii) xs ≡ take (suc ii) ys → take ii xs ≡ take ii ys
take-shorter ii xs ys h =
    let e : min ii (suc ii) ≡ ii = omega arith in
    ap (λ n. take n xs) (sym e)
    ∙ sym (take-take ii (suc ii) xs)
    ∙ ap (take ii) h
    ∙ take-take ii (suc ii) ys
    ∙ ap (λ n. take n ys) e

move_entries-Moved :
    (rounds ii cur : ℕ) (l r : Node)
    → Moved rounds ii cur (l, r) (move_entries rounds ii cur (l, r))
unfolding Moved move_entries copies
move_entries-Moved zero ii cur l r = (refl, refl, omega arith, refl, refl, refl, refl, refl, refl)
move_entries-Moved (suc rounds) ii cur l r =
    let l₁ : Node = record l { keys = set l.keys ii no_offset } in
    let r₁ : Node = record r {
      num_keys = r.num_keys + 1;
      keys = copy_elem l.keys ii cur r.keys;
      children = copy_elem l.children ii cur r.children;
      values = copy_elem l.values ii cur r.values;
    } in
    let rest = move_entries-Moved rounds (suc ii) (suc cur) l₁ r₁ in
    (
      rest.0,
      rest.1,
      rest.2 ∙ omega arith,
      rest.3,
      rest.4 ∙ length-set l.keys ii no_offset,
      take-shorter ii _ _ rest.5 ∙ take-set_above ii ii no_offset l.keys (omega arith),
      rest.6
          ∙ copies-set_below rounds (suc ii) (suc cur) ii no_offset l.keys
              (copy_elem l.keys ii cur r.keys) (omega arith),
      rest.7,
      rest.8,
    )

entries_of-nil : (m : Mem) (ks : List ℕ) → ◌≡◌ {A = List (Str × ℕ)} (entries_of m ks []) []
entries_of-nil m [] = refl
entries_of-nil m (k ∷ ks) = refl

entries_of-cong :
    (m : Mem) {ks ks' vs vs' : List ℕ}
    → ks ≡ ks'
    → vs ≡ vs'
    → entries_of m ks vs ≡ entries_of m ks' vs'
entries_of-cong m e e' = λ i. entries_of m (e i) (e' i)

pub entries_of-drop :
    (m : Mem) (n : ℕ) (ks vs : List ℕ)
    → drop n (entries_of m ks vs) ≡ entries_of m (drop n ks) (drop n vs)
entries_of-drop m zero ks vs = refl
entries_of-drop m (suc n) [] vs = refl
entries_of-drop m (suc n) (k ∷ ks) [] = sym (entries_of-nil m (drop n ks))
entries_of-drop m (suc n) (k ∷ ks) (v ∷ vs) = entries_of-drop m n ks vs

entries_of-take_both :
    (m : Mem) (n : ℕ) (ks vs : List ℕ)
    → take n (entries_of m ks vs) ≡ entries_of m (take n ks) (take n vs)
entries_of-take_both m zero ks vs = refl
entries_of-take_both m (suc n) [] vs = refl
entries_of-take_both m (suc n) (k ∷ ks) [] = refl
entries_of-take_both m (suc n) (k ∷ ks) (v ∷ vs) =
    ap (λ es. (text_at k m, v) ∷ es) (entries_of-take_both m n ks vs)

-- A full leaf, and the two halves of it.
unfoldable pub AreHalves : Mem → List (Str × ℕ) → Node × Node → Type 0
AreHalves m es (l, r) =
    IsLeaf l
    × IsLeaf r
    × (l.num_keys ≡ med_idx)
    × (r.num_keys ≡ max_keys - med_idx)
    × (leaf_entries m l ≡ take med_idx es)
    × (leaf_entries m r ≡ drop med_idx es)

take-low : (num : ℕ) (xs : List ℕ) → num ≡ max_keys → take med_idx xs ≡ take med_idx (take num xs)
take-low num xs full =
    let e : min med_idx num ≡ med_idx = omega arith in
    ap (λ i. take i xs) (sym e) ∙ sym (take-take med_idx num xs)

take-high :
    (num c : ℕ) (xs ys zs : List ℕ)
    → num ≡ max_keys
    → c ≡ 12
    → length xs ≡ max_keys
    → length ys ≡ max_keys
    → zs ≡ copies 12 med_idx 0 xs ys
    → take c zs ≡ drop med_idx (take num xs)
take-high num c xs ys zs full ec lx ly ez =
    let e : num - med_idx ≡ 12 = omega arith in
    rw (ec, ez, drop-take med_idx num xs, e)
      (take-all_copied 12 med_idx xs ys (omega arith) (omega arith))

-- A full leaf that has all its places, split with an empty leaf that has all its places: both stay
-- leaves with all their places, the first eleven entries stay in the left one, and the other twelve
-- stand in the right one.
pub split_leaf-AreHalves :
    (m : Mem) (n r : Node)
    → IsLeaf n
    → n.num_keys ≡ max_keys
    → IsLeaf r
    → r.num_keys ≡ 0
    → AreHalves m (leaf_entries m n) (split_leaf n r)
unfolding AreHalves IsLeaf leaf_entries Moved split_leaf
split_leaf-AreHalves m n r w full w' empty =
    let moved = move_entries-Moved (max_keys - med_idx) med_idx 0 n r in
    (
      (moved.0 ∙ w.0, moved.4 ∙ w.1, ap length moved.3 ∙ w.2, omega arith),
      (
        moved.1 ∙ w'.0,
        ap length moved.6 ∙ length-copies _ _ _ n.keys r.keys ∙ w'.1,
        ap length moved.7 ∙ length-copies _ _ _ n.values r.values ∙ w'.2,
        omega (arith, moved.2),
      ),
      refl,
      moved.2 ∙ omega arith,
      entries_of-cong m (moved.5 ∙ take-low n.num_keys n.keys full)
            (ap (take med_idx) moved.3 ∙ take-low n.num_keys n.values full)
          ∙ sym
              (entries_of-take_both m med_idx (take n.num_keys n.keys) (take n.num_keys n.values)),
      entries_of-cong m
            (take-high n.num_keys _ n.keys r.keys _ full (moved.2 ∙ omega arith) w.1 w'.1 moved.6)
            (take-high n.num_keys _ n.values r.values _ full (moved.2 ∙ omega arith) w.2 w'.2
              moved.7)
          ∙ sym (entries_of-drop m med_idx (take n.num_keys n.keys) (take n.num_keys n.values)),
    )

-- The keys of the halves, and the parent of the left one.
pub split_leaf-live_keys :
    (n r : Node)
    → IsLeaf n
    → n.num_keys ≡ max_keys
    → IsLeaf r
    → r.num_keys ≡ 0
    → (let (l', r') = split_leaf n r in
        (live_keys l' ≡ take med_idx (live_keys n))
        × (live_keys r' ≡ drop med_idx (live_keys n))
        × (l'.parent ≡ n.parent))
unfolding IsLeaf Moved split_leaf
split_leaf-live_keys n r w full w' empty =
    let moved = move_entries-Moved (max_keys - med_idx) med_idx 0 n r in
    (
      moved.5 ∙ take-low n.num_keys n.keys full,
      take-high n.num_keys _ n.keys r.keys _ full (moved.2 ∙ omega arith) w.1 w'.1 moved.6,
      moved.8,
    )
