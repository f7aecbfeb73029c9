-- ===== src/Index/Build/Keyed.antt =====
-- The key of an inode in the root: the first one, and one more.
use zippy_fs.Common.{
  ◌≢◌, ℕ, ◌+◌, ◌*◌, ◌^◌, ◌≤◌, ◌<◌, ◌≡◌, refl, ap, sym, subst, true, false, not, none, some, List,
  [], ◌∷◌, ok, Str, length, set, arith,
}
use zippy_fs.Common.Map.{find, nat_key, find-insert_self}
use zippy_fs.Util.Names.{c_str}
use zippy_fs.Index.Memory.{
  Mem, BlockData, Node, zero_node, node_at, put_node, text_at, live_keys, hash_size, inode_size,
  place_of, max_keys, block_data_size,
}
use zippy_fs.Index.Entries.{IsLeaf, leaf_entries, insert_sorted}
use zippy_fs.Index.Split.{Rooted}
use zippy_fs.Index.RootSplit.{node_at-put_node_self}
use zippy_fs.Index.Add.{BplusIndex, make, mem_of, first_key, insert_key, add_inode}
use zippy_fs.Index.Cells.{Keeps-insert}
use zippy_fs.Index.AddKey.{RootLeaf, AllKnown, RootLeaf-Keeps, insert_key-RootLeaf}
use zippy_fs.Index.Started.{Layout, layout, Places, bare_root, started, start-Places}
use zippy_fs.Index.Build.{Item, IsItem, Cursors, cursors, advance, Within, Ready, Added}
use zippy_fs.Index.Build.Step.{filled_in, KeyStep, add_inode-keyed}

length-c_str : (xs : Str) → length (c_str xs) ≤ length xs
unfolding c_str
length-c_str [] = omega arith
length-c_str (x ∷ xs) = ground (arith, length-c_str xs)

abbrev first_root : ℕ → ℕ → Node
first_root k v = record bare_root {
  keys = set bare_root.keys 0 k;
  values = set bare_root.values 0 v;
}

first_key-put_node :
    (maps : ℕ → ℕ) (k v root : ℕ) (r : Rooted)
    → place_of r.rootidx r.mem ≡ ok root
    → node_at root r.mem ≡ bare_root
    → first_key maps k v r ≡ ok (record r { mem = put_node root (first_root k v) r.mem })
unfolding first_key
first_key-put_node maps k v root r h e = rw (h, e) refl

first_root-RootLeaf :
    (m : Mem) (k v bound : ℕ)
    → length (text_at k m) ≤ hash_size
    → k < bound
    → RootLeaf (put_node m.header.root (first_root k v) m) bound 1 ((text_at k m, v) ∷ [])
unfolding IsLeaf leaf_entries AllKnown zero_node text_at
first_root-RootLeaf m k v bound short below =
    let n : Node = first_root k v in
    let m' : Mem = put_node m.header.root n m in
    let here : node_at m.header.root m' ≡ n = node_at-put_node_self m.header.root n m in
    let leaf : IsLeaf n = (refl, refl, refl, omega arith) in
    let known : AllKnown m' bound (live_keys n) = (short, below, tt) in
    record {
      leaf = subst IsLeaf (sym here) leaf;
      keys = ap (λ x. x.num_keys) here;
      entries = ap (leaf_entries m') here;
      known = subst (λ x. AllKnown m' bound (live_keys x)) (sym here) known;
    }

text_at-named :
    (l : Layout) (a : Item) (mode : ℕ) (cells : List (ℕ × BlockData)) (bytes : List (ℕ × List ℕ))
    (b : BplusIndex)
    → text_at (l.hashes + b.cur_hash_arr_idx) (filled_in l a mode cells bytes b).mem
      ≡ c_str a.inode.inode_id
unfolding text_at
text_at-named l a mode cells bytes b =
    ap (λ x. elim x [ none ↦ [] | some t ↦ t ])
      (find-insert_self (l.hashes + b.cur_hash_arr_idx) (c_str a.inode.inode_id) (mem_of b).texts)

first-KeyStep :
    (maps : ℕ → ℕ) (a : Item) (mode : ℕ) (l : Layout) (b : BplusIndex)
    → Places l b
    → IsItem a mode
    → b.cur_inode_arr_idx ≡ 0
    → node_at (mem_of b).header.root (mem_of b) ≡ bare_root
    → KeyStep maps true l a mode [] b
unfolding KeyStep insert_sorted node_at
first-KeyStep maps a mode l b p it none_yet bare cells bytes =
    let k : ℕ = l.hashes + b.cur_hash_arr_idx in
    let v : ℕ = l.inodes + inode_size * b.cur_inode_arr_idx in
    let r : Rooted = filled_in l a mode cells bytes b in
    let id : text_at k r.mem ≡ c_str a.inode.inode_id = text_at-named l a mode cells bytes b in
    let one : 1 ≡ b.cur_inode_arr_idx + 1 = omega arith in
    (
      first_root k v,
      first_key-put_node maps k v (mem_of b).header.root r p.root bare,
      subst
          (λ n.
            RootLeaf (put_node r.mem.header.root (first_root k v) r.mem)
              (l.hashes + (b.cur_hash_arr_idx + hash_size)) n ((c_str a.inode.inode_id, v) ∷ []))
          one
          (subst
            (λ t.
              RootLeaf (put_node r.mem.header.root (first_root k v) r.mem)
                (l.hashes + (b.cur_hash_arr_idx + hash_size)) 1 ((t, v) ∷ []))
            id
            (first_root-RootLeaf r.mem k v (l.hashes + (b.cur_hash_arr_idx + hash_size))
              (omega (arith, ap length id, length-c_str a.inode.inode_id, it.short))
              (omega arith))),
    )

next-KeyStep :
    (maps : ℕ → ℕ) (a : Item) (mode : ℕ) (l : Layout) (b : BplusIndex) (es : List (Str × ℕ))
    → IsItem a mode
    → Ready l es b
    → b.cur_inode_arr_idx < max_keys
    → KeyStep maps false l a mode es b
unfolding KeyStep
next-KeyStep maps a mode l b es it ready room cells bytes =
    let c : Cursors = cursors b in
    let k : ℕ = l.hashes + c.hashes in
    let v : ℕ = l.inodes + inode_size * c.inodes in
    let r : Rooted = filled_in l a mode cells bytes b in
    let id : text_at k r.mem ≡ c_str a.inode.inode_id = text_at-named l a mode cells bytes b in
    let leaf : RootLeaf r.mem k c.inodes es =
      RootLeaf-Keeps (mem_of b) r.mem k c.inodes es refl refl
        (Keeps-insert k k (c_str a.inode.inode_id) (mem_of b).texts (omega arith)) ready.leaf in
    let (n', e, leaf') =
      insert_key-RootLeaf maps k v k (l.hashes + (c.hashes + hash_size)) c.inodes r es
        ready.places.root leaf room
        (omega (arith, ap length id, length-c_str a.inode.inode_id, it.short)) (omega arith)
        (omega arith) in
    (
      n',
      subst
          (λ t.
            insert_key maps t k v r ≡ ok (record r { mem = put_node r.mem.header.root n' r.mem }))
          id e,
      subst
          (λ t.
            RootLeaf (put_node r.mem.header.root n' r.mem) (l.hashes + (c.hashes + hash_size))
              (c.inodes + 1) (insert_sorted t v es))
          id leaf',
    )

-- The first inode of a tree.
pub add_inode-first :
    (maps : ℕ → ℕ) (n bs nb ps : ℕ) (a : Item) (mode : ℕ)
    → ((i : ℕ) → maps i ≢ 0)
    → 608 + inode_size * n + bs + block_data_size * nb + hash_size * n + ps < 2 ^ 63
    → IsItem a mode
    → Within (layout n bs nb ps) (advance a (cursors (make n bs nb ps)))
    → (m : Mem) × (b : BplusIndex) × (add_inode maps a.inode a.dirty_blocks a.block_mtime
          (make n bs nb ps)
        ≡ ok b)
      × Added (layout n bs nb ps) a [] (cursors (make n bs nb ps)) m b
unfolding make node_at find
add_inode-first maps n bs nb ps a mode mapped small it w =
    let (t, e, p) = start-Places maps n bs nb ps mapped small in
    let b₀ : BplusIndex = started n bs nb ps t in
    let step = first-KeyStep maps a mode (layout n bs nb ps) b₀ p it refl refl in
    let (b, ran, added) =
      add_inode-keyed maps true a (layout n bs nb ps) (make n bs nb ps) b₀ mode [] refl e refl p it
        w step in
    (mem_of b₀, b, ran, added)

-- One more inode, when there is room for its key in the root.
pub add_inode-next :
    (maps : ℕ → ℕ) (l : Layout) (es : List (Str × ℕ)) (b : BplusIndex) (a : Item) (mode : ℕ)
    → Ready l es b
    → IsItem a mode
    → Within l (advance a (cursors b))
    → b.cur_inode_arr_idx < max_keys
    → (b' : BplusIndex) × (add_inode maps a.inode a.dirty_blocks a.block_mtime b ≡ ok b')
      × Added l a es (cursors b) (mem_of b) b'
add_inode-next maps l es b a mode ready it w room =
    add_inode-keyed maps false a l b b mode es (ap not ready.has_root) refl ready.has_root
      ready.places it w (next-KeyStep maps a mode l b es it ready room)
