-- ===== src/Index/RootSplit.antt =====
-- The split of a full leaf and the insertion into one of its halves, in the memory.
use zippy_fs.Common.{
  ℕ, ◌≤◌, ◌<◌, ◌≡◌, refl, ap, sym, ◌∙◌, subst, false, List, ◌++◌, Str, length, nat_beq, ok, arith,
  suc,
}
use zippy_fs.Index.Memory.{
  Mem, Node, node_at, put_node, text_at, live_keys, max_keys, hash_size, no_offset,
}
use zippy_fs.Index.Entries.{IsLeaf, AllShort, leaf_entries, insert_sorted}
use zippy_fs.Index.Nodes.{insert_into_node}
use zippy_fs.Index.Insert.{insert_entry-insert_sorted}
use zippy_fs.Index.Frame.{
  node_at-put_node, SameTexts, SameTexts-texts, leaf_entries-texts, AllShort-texts,
}

-- The memory after a write to the node at `o`, seen at another place or at the same.
pub node_at-put_node_self : (o : ℕ) (n : Node) (m : Mem) → node_at o (put_node o n m) ≡ n
node_at-put_node_self o n m = ground (arith, node_at-put_node o o n m)

pub node_at-put_node_ne :
    (o t : ℕ) (n : Node) (m : Mem) → nat_beq o t ≡ false → node_at o (put_node t n m) ≡ node_at o m
node_at-put_node_ne o t n m h = node_at-put_node o t n m ∙ rw h refl

-- An insertion into the leaf at `t`, on the whole memory.
insert_into_node-IsLeaf :
    (m : Mem) (t k v : ℕ) (n : Node)
    → node_at t m ≡ n
    → IsLeaf n
    → n.num_keys < max_keys
    → length (text_at k m) ≤ hash_size
    → AllShort m (live_keys n)
    → (i : ℕ) × (n' : Node) × (insert_into_node t k v false no_offset m ≡ ok (i, put_node t n' m))
      × IsLeaf n'
      × (n'.num_keys ≡ suc n.num_keys)
      × (leaf_entries m n' ≡ insert_sorted (text_at k m) v (leaf_entries m n))
      × (n'.parent ≡ n.parent)
unfolding insert_into_node
insert_into_node-IsLeaf m t k v n here w room short a =
    let (i, n', e, w', num, es, par) =
      insert_entry-insert_sorted m k v false no_offset n w room short a in
    (i, n', rw (here, e) refl, w', num, es, par)

-- The two nodes of a leaf that was split, with the key in one of them; nothing else has changed that
-- matters to a tree of them.
unfoldable pub AreFilled : Mem → ℕ → ℕ → ℕ → List (Str × ℕ) → Mem → Type 0
AreFilled m o ro par es m' =
    (l : Node) × (r : Node) × (node_at o m' ≡ l)
    × (node_at ro m' ≡ r)
    × IsLeaf l
    × IsLeaf r
    × (1 ≤ r.num_keys)
    × (leaf_entries m l ++ leaf_entries m r ≡ es)
    × (l.parent ≡ par)
    × (m'.texts ≡ m.texts)
    × (m'.tire ≡ m.tire)
    × ((x : ℕ) → nat_beq x o ≡ false → nat_beq x ro ≡ false → node_at x m' ≡ node_at x m)

pub AreFilled-cong :
    (m m' : Mem) (o ro : ℕ) {par par' : ℕ} {es es' : List (Str × ℕ)}
    → par ≡ par'
    → es ≡ es'
    → AreFilled m o ro par es m'
    → AreFilled m o ro par' es' m'
AreFilled-cong m m' o ro {par} {par'} {es} {es'} h h' f =
    subst (λ x. AreFilled m o ro par' x m') h' (subst (λ x. AreFilled m o ro x es m') h f)

-- The memory with the two halves.
unfoldable pub halved : Mem → ℕ → ℕ → Node → Node → Mem
halved m o ro l r = put_node ro r (put_node o l m)

module _ (m : Mem) (o ro k v : ℕ) (l r : Node) (apart : nat_beq o ro ≡ false)
    (apart' : nat_beq ro o ≡ false) (wl : IsLeaf l) (wr : IsLeaf r)
    (short : length (text_at k m) ≤ hash_size) where
  abbrev both : Mem
  both = halved m o ro l r

  both-others : (x : ℕ) → nat_beq x o ≡ false → nat_beq x ro ≡ false → node_at x both ≡ node_at x m
  unfolding halved
  both-others x h h' =
      node_at-put_node_ne x ro r (put_node o l m) h' ∙ node_at-put_node_ne x o l m h

  same_texts : SameTexts m both
  unfolding halved
  same_texts = SameTexts-texts m both refl

  halved-left : node_at o both ≡ l
  unfolding halved
  halved-left = node_at-put_node_ne o ro r (put_node o l m) apart ∙ node_at-put_node_self o l m

  halved-right : node_at ro both ≡ r
  unfolding halved
  halved-right = node_at-put_node_self ro r (put_node o l m)

  short_halved : length (text_at k both) ≤ hash_size
  unfolding SameTexts
  short_halved = rw (same_texts k) short

  entries_halved :
      (n' n : Node)
      → leaf_entries both n' ≡ insert_sorted (text_at k both) v (leaf_entries both n)
      → leaf_entries m n' ≡ insert_sorted (text_at k m) v (leaf_entries m n)
  unfolding SameTexts
  entries_halved n' n e =
      sym (leaf_entries-texts m both n' same_texts)
      ∙ e
      ∙ (λ i. insert_sorted (same_texts k i) v (leaf_entries-texts m both n same_texts i))

  pub insert_left :
      l.num_keys < max_keys
      → 1 ≤ r.num_keys
      → AllShort m (live_keys l)
      → (i : ℕ) × (m' : Mem) × (insert_into_node o k v false no_offset both ≡ ok (i, m'))
        × AreFilled m o ro l.parent
            (insert_sorted (text_at k m) v (leaf_entries m l) ++ leaf_entries m r)
            m'
  unfolding AreFilled halved
  insert_left room one a =
      let (i, n', e, wn, num, es, par) =
        insert_into_node-IsLeaf both o k v l halved-left wl room short_halved
          (AllShort-texts m both (live_keys l) same_texts a) in
      (
        i,
        put_node o n' both,
        e,
        (
          n',
          r,
          node_at-put_node_self o n' both,
          node_at-put_node_ne ro o n' both apart' ∙ halved-right,
          wn,
          wr,
          one,
          ap (λ x. x ++ leaf_entries m r) (entries_halved n' l es),
          par,
          refl,
          refl,
          λ x h h'. node_at-put_node_ne x o n' both h ∙ both-others x h h',
        ),
      )

  pub insert_right :
      r.num_keys < max_keys
      → AllShort m (live_keys r)
      → (i : ℕ) × (m' : Mem) × (insert_into_node ro k v false no_offset both ≡ ok (i, m'))
        × AreFilled m o ro l.parent
            (leaf_entries m l ++ insert_sorted (text_at k m) v (leaf_entries m r))
            m'
  unfolding AreFilled halved
  insert_right room a =
      let (i, n', e, wn, num, es, par) =
        insert_into_node-IsLeaf both ro k v r halved-right wr room short_halved
          (AllShort-texts m both (live_keys r) same_texts a) in
      (
        i,
        put_node ro n' both,
        e,
        (
          l,
          n',
          node_at-put_node_ne o ro n' both apart ∙ halved-left,
          node_at-put_node_self ro n' both,
          wl,
          wn,
          omega arith,
          ap (λ x. leaf_entries m l ++ x) (entries_halved n' r es),
          refl,
          refl,
          refl,
          λ x h h'. node_at-put_node_ne x ro n' both h' ∙ both-others x h h',
        ),
      )
