-- ===== src/Index/NewRoot.antt =====
-- `grow_root` over two leaves.
use zippy_fs.Common.{
  ℕ, zero, suc, ◌-◌, ◌≤◌, ◌≡◌, refl, ap, sym, ◌∙◌, subst, false, some, List, [], ◌∷◌, ◌++◌, Str,
  set, replicate, take, drop, length, get_elem?, nat_beq, arith, length-take,
}
use zippy_fs.Index.Memory.{
  Mem, Node, zero_node, node_at, put_node, text_at, live_keys, max_keys, no_offset, allocate,
}
use zippy_fs.Index.Entries.{
  IsLeaf, IsTree, Ascending, Kids, more_kids, last_kid, AllBelow, AllFrom, entries_of, leaf_entries,
}
use zippy_fs.Index.Split.{set_parent}
use zippy_fs.Index.Frame.{SameTexts, SameTexts-texts, leaf_entries-texts}
use zippy_fs.Index.Order.{Increasing, AllBelow-cut, AllFrom-cut}
use zippy_fs.Index.LeafSplit.{entries_of-first}
use zippy_fs.Index.RootSplit.{node_at-put_node_self, node_at-put_node_ne}

take-first :
    (n : ℕ) (xs : List ℕ) (x : ℕ)
    → 1 ≤ n
    → get_elem? xs 0 ≡ some x
    → take n xs ≡ x ∷ take (n - 1) (drop 1 xs)
take-first zero xs x h e = absurd (omega arith)
take-first (suc n) [] x h e = absurd (cc)
take-first (suc n) (y ∷ xs) x h e = let s : suc n - 1 ≡ n = omega arith in rw s (cc)

-- The entries of a leaf that is not empty start with its first key.
leaf_entries-first :
    (m : Mem) (n : Node) (k : ℕ)
    → IsLeaf n
    → 1 ≤ n.num_keys
    → get_elem? n.keys 0 ≡ some k
    → (w : ℕ) × (rest : List (Str × ℕ)) × (leaf_entries m n ≡ (text_at k m, w) ∷ rest)
unfolding IsLeaf leaf_entries
leaf_entries-first m n k w h e =
    let vs = take n.num_keys n.values in
    let (x, rest, e') =
      entries_of-first m k (take (n.num_keys - 1) (drop 1 n.keys)) vs
        (omega (arith, length-take n.num_keys n.values, w)) in
    (x, rest, ap (λ ks. entries_of m ks vs) (take-first n.num_keys n.keys k h e) ∙ e')

pub node_at-allocate :
    (maps : ℕ → ℕ) (size x : ℕ) (m : Mem) → node_at x (allocate maps size m).1 ≡ node_at x m
unfolding node_at allocate
node_at-allocate maps size x m = refl

pub texts-allocate : (maps : ℕ → ℕ) (size : ℕ) (m : Mem) → (allocate maps size m).1.texts ≡ m.texts
unfolding allocate
texts-allocate maps size m = refl

-- The new root over two nodes.
unfoldable pub root_over : ℕ → ℕ → ℕ → Node → Node
root_over o ro nkey root = record root {
  parent = no_offset;
  num_keys = 1;
  is_leaf = false;
  keys = set root.keys 0 nkey;
  children = set (set root.children 0 o) 1 ro;
}

abbrev with_parent : ℕ → Node → Node
with_parent parent n = record n { parent = parent }

IsTree-leaf :
    (m m' : Mem) (o parent : ℕ) (l : Node)
    → SameTexts m m'
    → node_at o m' ≡ with_parent parent l
    → IsLeaf l
    → IsTree m' 0 o (leaf_entries m l)
unfolding IsTree IsLeaf leaf_entries
IsTree-leaf m m' o parent l s e w =
    (ap (λ n. n.is_leaf) e ∙ w.0, ap (leaf_entries m') e ∙ leaf_entries-texts m m' l s)

IsTree-root_over :
    (m : Mem) (o ro nkey nroot : ℕ) (es fs : List (Str × ℕ))
    → node_at nroot m ≡ root_over o ro nkey zero_node
    → IsTree m 0 o es
    → IsTree m 0 ro fs
    → AllBelow (text_at nkey m) es
    → AllFrom (text_at nkey m) fs
    → IsTree m 1 nroot (es ++ fs)
unfolding IsTree root_over zero_node replicate Ascending
IsTree-root_over m o ro nkey nroot es fs e t t' below from =
    subst
      (λ n.
        (n.is_leaf ≡ false)
        × (1 ≤ n.num_keys)
        × (n.num_keys ≤ length n.keys)
        × (length n.keys ≤ max_keys)
        × Ascending m (live_keys n)
        × Kids m (IsTree m 0) (live_keys n) n.children (es ++ fs))
      (sym e)
      (
        refl,
        omega arith,
        omega arith,
        omega arith,
        tt,
        more_kids {k = nkey} {c = o} {ks = []} {cs = ro ∷ replicate 22 0} {es = es} {fs = fs} t
            below from (last_kid {c = ro} {cs = replicate 22 0} {es = fs} t'),
      )

-- The memory with the root, and the two leaves below it.
unfoldable pub grown : ℕ → ℕ → ℕ → ℕ → Mem → Mem
unfolding root_over
grown o ro nkey nroot m =
    let m' =
      set_parent o nroot
        (set_parent ro nroot (put_node nroot (root_over o ro nkey (node_at nroot m)) m)) in
    record m' { header = record m'.header { root = nroot } }

module _ (m : Mem) (o ro nkey nroot : ℕ) (l r : Node) (apart : nat_beq o ro ≡ false)
    (apart' : nat_beq ro o ≡ false) (new_o : nat_beq o nroot ≡ false)
    (new_o' : nat_beq nroot o ≡ false) (new_ro : nat_beq ro nroot ≡ false)
    (new_ro' : nat_beq nroot ro ≡ false) (at_o : node_at o m ≡ l) (at_ro : node_at ro m ≡ r)
    (at_nroot : node_at nroot m ≡ zero_node) where
  abbrev m₁ : Mem
  m₁ = put_node nroot (root_over o ro nkey (node_at nroot m)) m

  abbrev m₂ : Mem
  m₂ = set_parent ro nroot m₁

  grown-right : node_at ro (grown o ro nkey nroot m) ≡ with_parent nroot r
  unfolding grown node_at
  grown-right =
      node_at-put_node_ne ro o _ m₂ apart'
      ∙ node_at-put_node_self ro _ m₁
      ∙ ap (with_parent nroot) (node_at-put_node_ne ro nroot _ m new_ro ∙ at_ro)

  grown-left : node_at o (grown o ro nkey nroot m) ≡ with_parent nroot l
  unfolding grown node_at
  grown-left =
      node_at-put_node_self o _ m₂
      ∙ ap (with_parent nroot)
          (node_at-put_node_ne o ro _ m₁ apart ∙ node_at-put_node_ne o nroot _ m new_o ∙ at_o)

  grown-root : node_at nroot (grown o ro nkey nroot m) ≡ root_over o ro nkey zero_node
  unfolding grown node_at
  grown-root =
      node_at-put_node_ne nroot o _ m₂ new_o'
      ∙ node_at-put_node_ne nroot ro _ m₁ new_ro'
      ∙ node_at-put_node_self nroot _ m
      ∙ ap (root_over o ro nkey) at_nroot

  grown-texts : SameTexts m (grown o ro nkey nroot m)
  unfolding grown
  grown-texts = SameTexts-texts m (grown o ro nkey nroot m) refl

  -- The two leaves below the root are a tree.
  pub grown-IsTree :
      IsLeaf l
      → IsLeaf r
      → 1 ≤ r.num_keys
      → get_elem? r.keys 0 ≡ some nkey
      → Increasing (leaf_entries m l ++ leaf_entries m r)
      → IsTree (grown o ro nkey nroot m) 1 nroot (leaf_entries m l ++ leaf_entries m r)
  unfolding SameTexts
  grown-IsTree wl wr one first inc =
      let m' = grown o ro nkey nroot m in
      let (x, rest, e) = leaf_entries-first m r nkey wr one first in
      let inc' : Increasing (leaf_entries m l ++ ((text_at nkey m, x) ∷ rest)) =
        subst (λ es. Increasing (leaf_entries m l ++ es)) e inc in
      let below : AllBelow (text_at nkey m) (leaf_entries m l) =
        AllBelow-cut (text_at nkey m) x (leaf_entries m l) rest inc' in
      let from : AllFrom (text_at nkey m) (leaf_entries m r) =
        subst (AllFrom (text_at nkey m)) (sym e)
          (AllFrom-cut (text_at nkey m) x (leaf_entries m l) rest inc') in
      IsTree-root_over m' o ro nkey nroot (leaf_entries m l) (leaf_entries m r) grown-root
        (IsTree-leaf m m' o nroot l grown-texts grown-left wl)
        (IsTree-leaf m m' ro nroot r grown-texts grown-right wr)
        (subst (λ t. AllBelow t (leaf_entries m l)) (sym (grown-texts nkey)) below)
        (subst (λ t. AllFrom t (leaf_entries m r)) (sym (grown-texts nkey)) from)
