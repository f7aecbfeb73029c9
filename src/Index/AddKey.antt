-- ===== src/Index/AddKey.antt =====
-- `insert_key` where the leaf that the search ends at has room, and in a tree that is one leaf.
use zippy_fs.Index.Memory.{
  zero_node, Header, Mem, Node, node_at, put_node, text_at, live_keys, max_keys, hash_size,
  no_offset, place_of,
}
use zippy_fs.Common.{
  ap₂, ℕ, zero, suc, ◌+◌, ◌≤◌, ◌<◌, ◌≡◌, refl, ◌∙◌, ap, sym, subst, Bool, true, false, none, some,
  List, [], ◌∷◌, Str, take, length, if◌then◌else◌, ok, ◌>>=◌, arith, nat_beq,
}
use zippy_fs.Common.Map.{find, nat_key}
use zippy_fs.Common.Splice.{insert_at}
use zippy_fs.Index.Entries.{IsLeaf, AllShort, leaf_entries, entries_of, insert_sorted}
use zippy_fs.Index.Rank.{rank}
use zippy_fs.Index.RootSplit.{node_at-put_node_self}
use zippy_fs.Index.Frame.{leaf_entries-texts, SameTexts-put_node}
use zippy_fs.Index.Nodes.{descend_to_store, insert_entry, insert_into_node}
use zippy_fs.Index.Split.{Rooted, split_insert_node}
use zippy_fs.Index.Add.{insert_key}
use zippy_fs.Index.Insert.{IsFilled, IsFilled-insert_sorted, insert_entry-IsFilled}
use zippy_fs.Index.Cells.{Keeps, Keeps-refl}

pub insert_into_node-put_node :
    (t k v : ℕ) (left : Bool) (child i : ℕ) (n' : Node) (m : Mem)
    → insert_entry m k v left child (node_at t m) ≡ ok (i, n')
    → insert_into_node t k v left child m ≡ ok (i, put_node t n' m)
unfolding insert_into_node
insert_into_node-put_node t k v left child i n' m h = rw h refl

insert_key-at :
    (maps : ℕ → ℕ) (id : Str) (k v root t : ℕ) (r : Rooted)
    → place_of r.rootidx r.mem ≡ ok root
    → descend_to_store (length r.mem.nodes + 1) r.mem id root ≡ ok t
    → insert_key maps id k v r ≡ (
        if nat_beq (node_at t r.mem).num_keys max_keys
        then split_insert_node maps (length r.mem.nodes + 1) t k v false no_offset r
        else (do (at, m) ← insert_into_node t k v false no_offset r.mem; ok (record r { mem = m })))
unfolding insert_key
insert_key-at maps id k v root t r h d = rw (h, d) refl

pub insert_key-leaf :
    (maps : ℕ → ℕ) (id : Str) (k v root t at : ℕ) (r : Rooted) (m' : Mem)
    → place_of r.rootidx r.mem ≡ ok root
    → descend_to_store (length r.mem.nodes + 1) r.mem id root ≡ ok t
    → (node_at t r.mem).num_keys < max_keys
    → insert_into_node t k v false no_offset r.mem ≡ ok (at, m')
    → insert_key maps id k v r ≡ ok (record r { mem = m' })
insert_key-leaf maps id k v root t at r m' h d room e =
    let full : nat_beq (node_at t r.mem).num_keys max_keys ≡ false = ground arith in
    insert_key-at maps id k v root t r h d ∙ rw (full, e) refl

-- Keys below a bound, with texts that fit.
unfoldable pub AllKnown : Mem → ℕ → List ℕ → Type 0
AllKnown m bound [] = Unit
AllKnown m bound (k ∷ ks) = (length (text_at k m) ≤ hash_size) × (k < bound) × AllKnown m bound ks

AllKnown-AllShort : (m : Mem) (bound : ℕ) (ks : List ℕ) → AllKnown m bound ks → AllShort m ks
unfolding AllKnown AllShort
AllKnown-AllShort m bound [] a = tt
AllKnown-AllShort m bound (k ∷ ks) a = (a.0, AllKnown-AllShort m bound ks a.2)

AllKnown-wider :
    (m : Mem) (bound bound' : ℕ) (ks : List ℕ)
    → bound ≤ bound'
    → AllKnown m bound ks
    → AllKnown m bound' ks
unfolding AllKnown
AllKnown-wider m bound bound' [] h a = tt
AllKnown-wider m bound bound' (k ∷ ks) h a =
    (a.0, omega (arith, a.1), AllKnown-wider m bound bound' ks h a.2)

AllKnown-insert_at :
    (m : Mem) (bound i k : ℕ) (ks : List ℕ)
    → length (text_at k m) ≤ hash_size
    → k < bound
    → AllKnown m bound ks
    → AllKnown m bound (insert_at i k ks)
unfolding AllKnown insert_at
AllKnown-insert_at m bound zero k ks h h' a = (h, h', a)
AllKnown-insert_at m bound (suc i) k [] h h' a = (h, h', tt)
AllKnown-insert_at m bound (suc i) k (k' ∷ ks) h h' a =
    (a.0, a.1, AllKnown-insert_at m bound i k ks h h' a.2)

-- Texts below a bound that are kept.
text_at-Keeps :
    (m m' : Mem) (bound k : ℕ)
    → Keeps bound m.texts m'.texts
    → k < bound
    → text_at k m' ≡ text_at k m
unfolding text_at Keeps
text_at-Keeps m m' bound k s h = ap (λ x. elim x [ none ↦ [] | some t ↦ t ]) (s k h)

AllKnown-Keeps :
    (m m' : Mem) (bound : ℕ) (ks : List ℕ)
    → Keeps bound m.texts m'.texts
    → AllKnown m bound ks
    → AllKnown m' bound ks
unfolding AllKnown
AllKnown-Keeps m m' bound [] s a = tt
AllKnown-Keeps m m' bound (k ∷ ks) s a = (
  subst (λ t. length t ≤ hash_size) (sym (text_at-Keeps m m' bound k s a.1)) a.0,
  a.1,
  AllKnown-Keeps m m' bound ks s a.2,
)

entries_of-Keeps :
    (m m' : Mem) (bound : ℕ) (ks vs : List ℕ)
    → Keeps bound m.texts m'.texts
    → AllKnown m bound ks
    → entries_of m' ks vs ≡ entries_of m ks vs
unfolding AllKnown
entries_of-Keeps m m' bound [] vs s a = refl
entries_of-Keeps m m' bound (k ∷ ks) [] s a = refl
entries_of-Keeps m m' bound (k ∷ ks) (v ∷ vs) s a =
    rw (text_at-Keeps m m' bound k s a.1)
      (ap (λ es. (text_at k m, v) ∷ es) (entries_of-Keeps m m' bound ks vs s a.2))

-- The tree is one leaf, the root, with this many keys, all below a bound, and these entries.
pub record RootLeaf (m : Mem) (bound count : ℕ) (es : List (Str × ℕ)) : Type 0 where
  pub leaf : IsLeaf (node_at m.header.root m)
  pub keys : (node_at m.header.root m).num_keys ≡ count
  pub entries : leaf_entries m (node_at m.header.root m) ≡ es
  pub known : AllKnown m bound (live_keys (node_at m.header.root m))

abbrev root_of : Header → ℕ
root_of h = h.root

node_at-same :
    (m m' : Mem)
    → m'.nodes ≡ m.nodes
    → m'.header ≡ m.header
    → node_at m'.header.root m' ≡ node_at m.header.root m
unfolding node_at
node_at-same m m' nodes header =
    ap₂ (λ ns h. elim (find {V = Node} (root_of h) ns) [ none ↦ zero_node | some n ↦ n ]) nodes
      header

-- Only the texts behind the bound have changed.
pub RootLeaf-Keeps :
    (m m' : Mem) (bound count : ℕ) (es : List (Str × ℕ))
    → m'.nodes ≡ m.nodes
    → m'.header ≡ m.header
    → Keeps bound m.texts m'.texts
    → RootLeaf m bound count es
    → RootLeaf m' bound count es
unfolding leaf_entries
RootLeaf-Keeps m m' bound count es nodes header s r =
    let root : ℕ = m.header.root in
    let same : node_at m'.header.root m' ≡ node_at root m = node_at-same m m' nodes header in
    record {
      leaf = subst IsLeaf (sym same) r.leaf;
      keys = ap (λ n. n.num_keys) same ∙ r.keys;
      entries =
          ap (leaf_entries m') same
          ∙ entries_of-Keeps m m' bound (live_keys (node_at root m)) _ s r.known
          ∙ r.entries;
      known =
          subst (λ n. AllKnown m' bound (live_keys n)) (sym same)
            (AllKnown-Keeps m m' bound (live_keys (node_at root m)) s r.known);
    }

descend_to_store-at_leaf :
    (fuel : ℕ) (m : Mem) (p : Str) (offset : ℕ)
    → (node_at offset m).is_leaf ≡ true
    → descend_to_store (fuel + 1) m p offset ≡ ok offset
unfolding descend_to_store
descend_to_store-at_leaf fuel m p offset h =
    ap (λ n. descend_to_store n m p offset) one_more ∙ ground (arith, h)
  where
    one_more : fuel + 1 ≡ suc fuel
    one_more = omega arith

-- The root with one more key in it.
filled-RootLeaf :
    (m : Mem) (bound bound' count k v : ℕ) (n' : Node) (es : List (Str × ℕ))
    → RootLeaf m bound count es
    → count < max_keys
    → length (text_at k m) ≤ hash_size
    → bound ≤ bound'
    → k < bound'
    → IsFilled
        (rank m (text_at k m) (live_keys (node_at m.header.root m)))
        k
        v
        (node_at m.header.root m)
        n'
    → RootLeaf (put_node m.header.root n' m) bound' (count + 1) (insert_sorted (text_at k m) v es)
unfolding IsFilled
filled-RootLeaf m bound bound' count k v n' es r room short wider below f =
    let root : ℕ = m.header.root in
    let n : Node = node_at root m in
    let m' : Mem = put_node root n' m in
    let here : node_at root m' ≡ n' = node_at-put_node_self root n' m in
    let (leaf, num, entries, par) =
      IsFilled-insert_sorted m k v n n' r.leaf (omega (arith, r.keys)) f in
    let keys : live_keys n' ≡ insert_at (rank m (text_at k m) (live_keys n)) k (live_keys n) =
      ap (λ j. take j n'.keys) num ∙ f.4 in
    let known : AllKnown m bound' (live_keys n') = subst (AllKnown m bound') (sym keys) (
      AllKnown-insert_at m bound' (rank m (text_at k m) (live_keys n)) k (live_keys n) short below
        (AllKnown-wider m bound bound' (live_keys n) wider r.known)) in
    record {
      leaf = subst IsLeaf (sym here) leaf;
      keys = ap (λ x. x.num_keys) here ∙ num ∙ omega (arith, r.keys);
      entries =
          ap (leaf_entries m') here
          ∙ leaf_entries-texts m m' n' (SameTexts-put_node root n' m)
          ∙ entries
          ∙ ap (insert_sorted (text_at k m) v) r.entries;
      known =
          subst (λ x. AllKnown m' bound' (live_keys x)) (sym here)
            (AllKnown-Keeps m m' bound' (live_keys n') (Keeps-refl bound' m.texts) known);
    }

-- A tree that is one leaf with room for one more key has the key afterwards.
pub insert_key-RootLeaf :
    (maps : ℕ → ℕ) (k v bound bound' count : ℕ) (r : Rooted) (es : List (Str × ℕ))
    → place_of r.rootidx r.mem ≡ ok r.mem.header.root
    → RootLeaf r.mem bound count es
    → count < max_keys
    → length (text_at k r.mem) ≤ hash_size
    → bound ≤ bound'
    → k < bound'
    → (n' : Node) × (insert_key maps (text_at k r.mem) k v r
        ≡ ok (record r { mem = put_node r.mem.header.root n' r.mem }))
      × RootLeaf
          (put_node r.mem.header.root n' r.mem)
          bound'
          (count + 1)
          (insert_sorted (text_at k r.mem) v es)
unfolding IsLeaf
insert_key-RootLeaf maps k v bound bound' count r es h l room short wider below =
    let m : Mem = r.mem in
    let root : ℕ = m.header.root in
    let full : (node_at root m).num_keys < max_keys = omega (arith, l.keys) in
    let (i, n', e, f) =
      insert_entry-IsFilled m k v false no_offset (node_at root m) l.leaf full short
        (AllKnown-AllShort m bound _ l.known) in
    (
      n',
      insert_key-leaf maps (text_at k m) k v root root i r (put_node root n' m) h
          (descend_to_store-at_leaf (length m.nodes) m (text_at k m) root l.leaf.0) full
          (insert_into_node-put_node root k v false no_offset i n' m e),
      filled-RootLeaf m bound bound' count k v n' es l room short wider below f,
    )
