-- ===== src/TreeLoader/Added.antt =====
-- `insert_into_node` and the searches: what is put into the leaf where a new key belongs is what the
-- loader finds.
use zippy_fs.Index.Split.{Rooted}
use zippy_fs.Common.{
  ℕ, ◌+◌, ◌≤◌, ◌<◌, ◌≡◌, refl, ap, sym, subst, ◌∙◌, true, false, none, some, List, Str, str_beq,
  take, length, if◌then◌else◌, inl, inr, ok, ok-injective, str_beq_iff, arith, Bool-cases,
}
use zippy_fs.Common.Map.{nat_key}
use zippy_fs.Index.Memory.{
  Mem, Node, node_at, put_node, text_at, live_keys, max_keys, hash_size, no_offset, place_of,
}
use zippy_fs.Index.Entries.{IsTree, IsLeaf, AllShort, leaf_entries, lookup, insert_sorted}
use zippy_fs.Index.Nodes.{descend_to_store, insert_into_node}
use zippy_fs.Index.Add.{insert_key}
use zippy_fs.Index.AddKey.{insert_into_node-put_node, insert_key-leaf}
use zippy_fs.Index.Insert.{insert_entry-insert_sorted}
use zippy_fs.Index.Store.{IsUnused, IsNew-node_at}
use zippy_fs.TreeLoader.Search.{descend, inode_offset}
use zippy_fs.TreeLoader.Descent.{scan-leaf_entries}
use zippy_fs.TreeLoader.Changed.{lookup-IsNew, lookup-insert_sorted, Ends, descend-changed}
use zippy_fs.Index.Frame.{SameTexts, SameTexts-put_node, entries_of-texts}
-- Where the search for the place ends, and the loader's search with it, whatever leaf stands there.
use zippy_fs.TreeLoader.Stored.{StoreEnds, descend_to_store-StoreEnds}

-- What the search of a file finds at the leaf where it ends.
inode_offset-at_leaf :
    (fuel : ℕ) (m : Mem) (q : Str) (n : Node)
    → descend fuel m q m.header.root ≡ ok n
    → inode_offset fuel m q ≡ ok (lookup q (leaf_entries m n))
unfolding inode_offset
inode_offset-at_leaf fuel m q n h = rw h (ap ok (scan-leaf_entries m q n))

-- The leaf where a new key belongs, with the key in it.
inode_offset-changed :
    (fuel height : ℕ) (m : Mem) (p q : Str) (t v : ℕ) (n' : Node) (es : List (Str × ℕ))
    → IsTree m height m.header.root es
    → height < fuel
    → IsUnused m p m.nodes
    → descend_to_store fuel m p m.header.root ≡ ok t
    → n'.is_leaf ≡ true
    → leaf_entries m n' ≡ insert_sorted p v (leaf_entries m (node_at t m))
    → inode_offset fuel (put_node t n' m) q ≡ ok (if str_beq q p then some v else lookup q es)
unfolding StoreEnds Ends leaf_entries
inode_offset-changed fuel height m p q t v n' es tree h u d l' e =
    let m' = put_node t n' m in
    let at_leaf = inode_offset-at_leaf fuel m' q in
    let same : SameTexts m m' = SameTexts-put_node t n' m in
    let texts : (n : Node) → leaf_entries m' n ≡ leaf_entries m n =
      λ n. entries_of-texts m m' (live_keys n) (take n.num_keys n.values) same in
    let new : lookup p (leaf_entries m (node_at t m)) ≡ none =
      lookup-IsNew m p (live_keys (node_at t m)) _ (IsNew-node_at m p t u) in
    let put : lookup q (leaf_entries m' n')
        ≡ (if str_beq q p then some v else lookup q (leaf_entries m (node_at t m))) =
      ap (lookup q) (texts n' ∙ e)
      ∙ lookup-insert_sorted q p v (leaf_entries m (node_at t m)) new in
    let stored = descend_to_store-StoreEnds fuel height m p m.header.root es tree h u in
    let target : stored.0 ≡ t = ok-injective (sym stored.1 ∙ d) in
    let leaf : (node_at t m).is_leaf ≡ true =
      subst (λ i. (node_at i m).is_leaf ≡ true) target stored.2 in
    elim (Bool-cases (str_beq q p)) [
      | inl eq ↦
          let here : descend fuel m' q m.header.root ≡ ok n' =
            subst (λ i. descend fuel (put_node i n' m) q m.header.root ≡ ok n') target
              (subst (λ r. descend fuel (put_node stored.0 n' m) r m.header.root ≡ ok n')
                (sym ((str_beq_iff q p).0 eq)) (stored.4 n' l')) in
          at_leaf n' here ∙ ap ok (put ∙ rw eq refl)
      | inr other ↦
          let (n, r, ends) = descend-changed m t n' fuel height m.header.root q es leaf l' tree h in
          elim ends [
            | inl d' ↦ at_leaf n d' ∙ ap ok (ap (lookup q) (texts n) ∙ r) ∙ rw other refl
            | inr (i, d') ↦
                at_leaf n' d'
                ∙ ap ok (put ∙ rw other (ap (λ n. lookup q (leaf_entries m n)) (sym i) ∙ r))
          ]
    ]

pub insert_into_node-inode_offset :
    (fuel height : ℕ) (m : Mem) (k v t : ℕ) (es : List (Str × ℕ)) (q : Str)
    → IsTree m height m.header.root es
    → height < fuel
    → IsUnused m (text_at k m) m.nodes
    → descend_to_store fuel m (text_at k m) m.header.root ≡ ok t
    → IsLeaf (node_at t m)
    → (node_at t m).num_keys < max_keys
    → length (text_at k m) ≤ hash_size
    → AllShort m (live_keys (node_at t m))
    → (at : ℕ) × (m' : Mem) × (insert_into_node t k v false no_offset m ≡ ok (at, m'))
      × (inode_offset fuel m' q ≡ ok (if str_beq q (text_at k m) then some v else lookup q es))
unfolding IsLeaf
insert_into_node-inode_offset fuel height m k v t es q tree h u d w room short a =
    let (i, n', e, w', num, es', par) =
      insert_entry-insert_sorted m k v false no_offset (node_at t m) w room short a in
    (
      i,
      put_node t n' m,
      insert_into_node-put_node t k v false no_offset i n' m e,
      inode_offset-changed fuel height m (text_at k m) q t v n' es tree h u d w'.0 es',
    )

-- Let the root index lead to the root of a tree that holds the entries `es` and is no higher than
-- there are nodes, let no key of a node have the text of a new key, and let the leaf that the search
-- for its place ends at have all its places, room for one more, and no text longer than 128 bytes,
-- the new one included. Then `insert_key` succeeds, and the loader's search finds the new value for
-- the new text and, for any other text, what the entries have for it.
pub insert_key-inode_offset :
    (maps : ℕ → ℕ) (height : ℕ) (r : Rooted) (k v t : ℕ) (es : List (Str × ℕ)) (q : Str)
    → place_of r.rootidx r.mem ≡ ok r.mem.header.root
    → IsTree r.mem height r.mem.header.root es
    → height ≤ length r.mem.nodes
    → IsUnused r.mem (text_at k r.mem) r.mem.nodes
    → descend_to_store (length r.mem.nodes + 1) r.mem (text_at k r.mem) r.mem.header.root ≡ ok t
    → IsLeaf (node_at t r.mem)
    → (node_at t r.mem).num_keys < max_keys
    → length (text_at k r.mem) ≤ hash_size
    → AllShort r.mem (live_keys (node_at t r.mem))
    → (r' : Rooted) × (insert_key maps (text_at k r.mem) k v r ≡ ok r')
      × (inode_offset (length r.mem.nodes + 1) r'.mem q
          ≡ ok (if str_beq q (text_at k r.mem) then some v else lookup q es))
insert_key-inode_offset maps height r k v t es q h tree l u d w room short a =
    let (at, m', e, found) =
      insert_into_node-inode_offset (length r.mem.nodes + 1) height r.mem k v t es q tree
        (omega arith) u d w room short a in
    (
      record r { mem = m' },
      insert_key-leaf maps (text_at k r.mem) k v r.mem.header.root t at r m' h d room e,
      found,
    )
