-- ===== src/TreeLoader/Descent.antt =====
-- The search of one tree ends at the leaf that has the key, and finds its value there.
use zippy_fs.Common.{
  ℕ, zero, suc, ◌≤◌, ◌<◌, ◌≡◌, refl, ap, true, false, List, [], ◌∷◌, Str, take, length, ok, subst,
  sym, ◌∙◌, length-take, arith,
}
use zippy_fs.Index.Memory.{Mem, Node, node_at, text_at, live_keys, max_keys}
use zippy_fs.Index.Entries.{
  Ascending, IsTree, Kids, last_kid, more_kids, entries_of, leaf_entries, lookup,
}
use zippy_fs.TreeLoader.Search.{next_child, descend, scan, inode_offset}
use zippy_fs.Index.Nodes.{child_to_store}
use zippy_fs.Index.Store.{IsNew, child_to_store-rank}
use zippy_fs.TreeLoader.Pick.{pick-Kids, pick-rank, next_child-pick}

-- The children outnumber the keys.
Kids-lengths :
    (m : Mem) {P : ℕ → List (Str × ℕ) → Type 0} {ks cs : List ℕ} {es : List (Str × ℕ)}
    → Kids m P ks cs es
    → length ks < length cs
Kids-lengths m (last_kid t) = omega arith
Kids-lengths m (more_kids t b f kids) = omega (arith, Kids-lengths m kids)

scan-lookup : (m : Mem) (p : Str) (ks vs : List ℕ) → scan m p ks vs ≡ lookup p (entries_of m ks vs)
unfolding scan lookup
scan-lookup m p [] vs = refl
scan-lookup m p (k ∷ ks) [] = refl
scan-lookup m p (k ∷ ks) (v ∷ vs) = rw (scan-lookup m p ks vs) refl

entries_of-take :
    (m : Mem) (n : ℕ) (ks vs : List ℕ)
    → length ks ≤ n
    → entries_of m ks (take n vs) ≡ entries_of m ks vs
entries_of-take m n [] vs h = refl
entries_of-take m zero (k ∷ ks) vs h = absurd (omega arith)
entries_of-take m (suc n) (k ∷ ks) [] h = refl
entries_of-take m (suc n) (k ∷ ks) (v ∷ vs) h =
    ap (λ es. (text_at k m, v) ∷ es) (entries_of-take m n ks vs (omega arith))

pub scan-leaf_entries :
    (m : Mem) (p : Str) (n : Node) → scan m p (live_keys n) n.values ≡ lookup p (leaf_entries m n)
unfolding leaf_entries
scan-leaf_entries m p n =
    scan-lookup m p (live_keys n) n.values
    ∙ ap (lookup p) (
        sym (
          entries_of-take m n.num_keys (live_keys n) n.values
            (omega (arith, length-take n.num_keys n.keys))))

-- A round of either search ends at one child, which has for the key what the node has.
unfoldable pub RoundEnds :
    Mem → Str → Node → (ℕ → List (Str × ℕ) → Type 0) → List (Str × ℕ) → Type 0
RoundEnds m p n P es =
    (c : ℕ) × (fs : List (Str × ℕ)) × (next_child m p n ≡ ok c)
    × (IsNew m p (live_keys n) → child_to_store m p n ≡ ok c)
    × P c fs
    × (lookup p fs ≡ lookup p es)

pub next_child-Kids :
    (m : Mem) (p : Str) (n : Node) (P : ℕ → List (Str × ℕ) → Type 0) (es : List (Str × ℕ))
    → 1 ≤ n.num_keys
    → n.num_keys ≤ length n.keys
    → length n.keys ≤ max_keys
    → Ascending m (live_keys n)
    → Kids m P (live_keys n) n.children es
    → RoundEnds m p n P es
unfolding RoundEnds
next_child-Kids m p n P es h h' h'' a kids = go (live_keys n) n.children refl refl a kids
  where
    go :
        (ks cs : List ℕ)
        → live_keys n ≡ ks
        → n.children ≡ cs
        → Ascending m ks
        → Kids m P ks cs es
        → RoundEnds m p n P es
    go [] cs e e' a kids = absurd (omega (arith, ap length e, length-take n.num_keys n.keys))
    go (k ∷ ks) [] e e' a kids = absurd (omega (arith, Kids-lengths m kids))
    go (k ∷ ks) (c ∷ cs) e e' a kids =
        let (d, fs, q, t, r) = pick-Kids m p kids in
        let l : length (k ∷ ks) < length (c ∷ cs) = Kids-lengths m kids in
        (
          d,
          fs,
          next_child-pick m p n k ks c cs d h' h'' e e' a (omega arith) q,
          (λ f.
              child_to_store-rank m p n k ks h' h'' e a (subst (IsNew m p) e f)
              ∙ rw (e', sym (pick-rank m p (k ∷ ks) (c ∷ cs) l), q) refl),
          t,
          r,
        )

pub descend-at_leaf :
    (fuel : ℕ) (m : Mem) (p : Str) (offset : ℕ)
    → (node_at offset m).is_leaf ≡ true
    → descend (suc fuel) m p offset ≡ ok (node_at offset m)
unfolding descend
descend-at_leaf fuel m p offset h = ground (arith, h)

pub descend-at_inner :
    (fuel : ℕ) (m : Mem) (p : Str) (offset next : ℕ)
    → (node_at offset m).is_leaf ≡ false
    → next_child m p (node_at offset m) ≡ ok next
    → descend (suc fuel) m p offset ≡ descend fuel m p next
unfolding descend
descend-at_inner fuel m p offset next h q = rw (h, descend, q) refl

-- The loop ends at a leaf of the tree within as many rounds as the tree has levels, and the leaf
-- has for the key what the whole tree has.
pub descend-leaf :
    (fuel height : ℕ) (m : Mem) (p : Str) (offset : ℕ) (es : List (Str × ℕ))
    → IsTree m height offset es
    → height < fuel
    → (n : Node) × (descend fuel m p offset ≡ ok n)
      × (n.is_leaf ≡ true)
      × (lookup p (leaf_entries m n) ≡ lookup p es)
unfolding descend IsTree RoundEnds
descend-leaf zero height m p offset es t h = absurd (omega arith)
descend-leaf (suc fuel) zero m p offset es t h =
    (node_at offset m, descend-at_leaf fuel m p offset t.0, t.0, ap (lookup p) t.1)
descend-leaf (suc fuel) (suc height) m p offset es t h =
    let (c, fs, q, s, t', e) =
      next_child-Kids m p (node_at offset m) (IsTree m height) es t.1 t.2 t.3 t.4 t.5 in
    let (n, q', l, e') = descend-leaf fuel height m p c fs t' (omega arith) in
    (n, descend-at_inner fuel m p offset c t.0 q ∙ q', l, e' ∙ e)

-- In a tree that is lower than the fuel, the search of the loader ends, and gives for any text what
-- the entries of the tree have for it.
pub inode_offset-lookup :
    (fuel height : ℕ) (m : Mem) (p : Str) (es : List (Str × ℕ))
    → IsTree m height m.header.root es
    → height < fuel
    → inode_offset fuel m p ≡ ok (lookup p es)
unfolding inode_offset
inode_offset-lookup fuel height m p es t h =
    let (n, q, l, e) = descend-leaf fuel height m p m.header.root es t h in
    rw q (ap ok (scan-leaf_entries m p n ∙ e))
