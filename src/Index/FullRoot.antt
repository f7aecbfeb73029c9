-- ===== src/Index/FullRoot.antt =====
-- `split_insert_node` on a root that is a full leaf.
use zippy_fs.Common.{
  ℕ, suc, ◌≤◌, ◌<◌, ◌≡◌, ◌≢◌, refl, ap, sym, ◌∙◌, subst, Bool, true, false, none, some, List, ◌++◌,
  Str, str_lt, length, get_elem?, nat_beq, ok, arith, ok-injective, out_of_bounds, null_deref,
  or_fault, Option, replicate,
}
use zippy_fs.Common.Splice.{get_elem?-in}
use zippy_fs.Common.Map.{find, nat_key}
use zippy_fs.Tire.{get_tire}
use zippy_fs.Index.Memory.{
  Mem, Node, zero_node, node_at, put_node, text_at, live_keys, at_index, max_keys, hash_size,
  node_size, no_offset, allocate, place_of,
}
use zippy_fs.Index.Entries.{IsLeaf, IsTree, AllShort, leaf_entries, lookup, insert_sorted}
use zippy_fs.Index.Split.{Rooted, med_idx, split_halves, grow_root, split_insert_node}
use zippy_fs.Index.Frame.{SameTexts, SameTexts-texts, leaf_entries-texts, AllShort-texts}
use zippy_fs.Index.Order.{Increasing, Increasing-insert_sorted}
use zippy_fs.Index.RootSplit.{node_at-put_node_self, node_at-put_node_ne, AreFilled, AreFilled-cong}
use zippy_fs.Index.LeafSplit.{split_halves-AreFilled}
use zippy_fs.Index.NewRoot.{grown, grown-IsTree, node_at-allocate, texts-allocate, root_over}

grow_root-grown :
    (maps : ℕ → ℕ) (o ro nkey nroot : ℕ) (m : Mem)
    → place_of (allocate maps node_size m).0 (allocate maps node_size m).1 ≡ ok nroot
    → grow_root maps o ro nkey m
      ≡ ok (record {
        mem = grown o ro nkey nroot (allocate maps node_size m).1;
        rootidx = (allocate maps node_size m).0;
      })
unfolding grow_root grown root_over
grow_root-grown maps o ro nkey nroot m e = rw e refl

-- The memory with the new node as a leaf.
unfoldable with_leaf : (ℕ → ℕ) → ℕ → Mem → Mem
with_leaf maps ro m =
    let m₀ = (allocate maps node_size m).1 in
    put_node ro (record (node_at ro m₀) { is_leaf = true }) m₀

split_insert_node-steps :
    (maps : ℕ → ℕ) (fuel o ro k v targ med first : ℕ) (b : Bool) (r : Rooted) (m₂ : Mem)
    → (node_at o r.mem).num_keys ≡ max_keys
    → place_of (allocate maps node_size r.mem).0 (allocate maps node_size r.mem).1 ≡ ok ro
    → at_index (node_at o (with_leaf maps ro r.mem)).keys med_idx ≡ ok med
    → str_lt (text_at k (with_leaf maps ro r.mem)) (text_at med (with_leaf maps ro r.mem)) ≡ b
    → split_halves false o ro k v b targ (with_leaf maps ro r.mem) ≡ ok m₂
    → (node_at o m₂).parent ≡ no_offset
    → at_index (node_at ro m₂).keys 0 ≡ ok first
    → split_insert_node maps (suc fuel) o k v false targ r ≡ grow_root maps o ro first m₂
unfolding split_insert_node with_leaf
split_insert_node-steps maps fuel o ro k v targ med first b r m₂ full place at_med side halves
      parent at_first =
    rw (split_insert_node, full, place, at_med, side, halves, at_first, parent) refl

-- Where an allocation lands hangs on the allocator alone.
place_of-tire :
    (maps : ℕ → ℕ) (size : ℕ) (m m' : Mem)
    → m'.tire ≡ m.tire
    → place_of (allocate maps size m').0 (allocate maps size m').1
      ≡ place_of (allocate maps size m).0 (allocate maps size m).1
unfolding allocate
place_of-tire maps size m m' h =
    ap
      (λ t.
        let (i, t') = get_tire (maps t.latest_index) size t in
        or_fault (find i t'.index_to_offset) null_deref)
      h

other_place : (a b : ℕ) → a ≢ b → (nat_beq a b ≡ false) × (nat_beq b a ≡ false)
other_place a b h = (ground arith, ground arith)

zero_node-IsLeaf : IsLeaf (record zero_node { is_leaf = true })
unfolding IsLeaf zero_node replicate
zero_node-IsLeaf = (refl, refl, refl, omega arith)

num_keys-zero_node : zero_node.num_keys ≡ 0
unfolding zero_node
num_keys-zero_node = refl

with_leaf-tire :
    (maps : ℕ → ℕ) (m : Mem) (ro : ℕ)
    → (with_leaf maps ro m).tire ≡ (allocate maps node_size m).1.tire
unfolding with_leaf
with_leaf-tire maps m ro = refl

-- The two places of a split, in the memory with the new node.
module _ (maps : ℕ → ℕ) (m : Mem) (o ro : ℕ) (apart : nat_beq o ro ≡ false) where
  with_leaf-old : node_at o (with_leaf maps ro m) ≡ node_at o m
  unfolding with_leaf
  with_leaf-old =
      node_at-put_node_ne o ro _ (allocate maps node_size m).1 apart
      ∙ node_at-allocate maps node_size o m

  with_leaf-new :
      node_at ro m ≡ zero_node
      → node_at ro (with_leaf maps ro m) ≡ record zero_node { is_leaf = true }
  unfolding with_leaf
  with_leaf-new h =
      node_at-put_node_self ro _ (allocate maps node_size m).1
      ∙ ap {A = Node} {B = Node} (λ n. record n { is_leaf = true })
          (node_at-allocate maps node_size ro m ∙ h)

  with_leaf-texts : SameTexts m (with_leaf maps ro m)
  unfolding with_leaf
  with_leaf-texts = SameTexts-texts m (with_leaf maps ro m) (texts-allocate maps node_size m)

or_fault-some : (x : Option ℕ) (y : ℕ) → or_fault x out_of_bounds ≡ ok y → x ≡ some y
or_fault-some none y h = absurd (cc)
or_fault-some (some x) y h = ap some (ok-injective h)

or_fault-in :
    (xs : List ℕ) (i : ℕ)
    → i < length xs
    → (x : ℕ) × (get_elem? xs i ≡ some x) × (at_index xs i ≡ ok x)
or_fault-in xs i h =
    let (x, e) = get_elem?-in xs i h in (x, e, ap (λ r. or_fault r out_of_bounds) e)

-- The new root over the leaves that `split_halves` left.
grow_root-IsTree :
    (maps : ℕ → ℕ) (m m₂ : Mem) (o ro nroot nkey par : ℕ) (es : List (Str × ℕ))
    → nat_beq o ro ≡ false
    → nat_beq ro o ≡ false
    → o ≢ nroot
    → ro ≢ nroot
    → node_at nroot m ≡ zero_node
    → place_of (allocate maps node_size m).0 (allocate maps node_size m).1 ≡ ok nroot
    → AreFilled m o ro par es m₂
    → at_index (node_at ro m₂).keys 0 ≡ ok nkey
    → Increasing es
    → (r' : Rooted) × (grow_root maps o ro nkey m₂ ≡ ok r') × IsTree r'.mem 1 r'.mem.header.root es
unfolding AreFilled grown
grow_root-IsTree maps m m₂ o ro nroot nkey par es apart apart' new_o new_ro zeros place f at_first
      inc =
    let (l, r, at_l, at_r, wl, wr, one, sum, parent, texts, tire, others) = f in
    let m₃ = (allocate maps node_size m₂).1 in
    let place' = place_of-tire maps node_size m m₂ tire ∙ place in
    let same : SameTexts m m₃ = SameTexts-texts m m₃ (texts-allocate maps node_size m₂ ∙ texts) in
    let sum' : leaf_entries m₃ l ++ leaf_entries m₃ r ≡ es =
      (λ i. leaf_entries-texts m m₃ l same i ++ leaf_entries-texts m m₃ r same i) ∙ sum in
    let (ne_o, ne_o') = other_place o nroot new_o in
    let (ne_ro, ne_ro') = other_place ro nroot new_ro in
    (
      record { mem = grown o ro nkey nroot m₃; rootidx = (allocate maps node_size m₂).0 },
      grow_root-grown maps o ro nkey nroot m₂ place',
      subst (IsTree (grown o ro nkey nroot m₃) 1 nroot) sum' (
          grown-IsTree m₃ o ro nkey nroot l r apart apart' ne_o ne_o' ne_ro ne_ro'
            (node_at-allocate maps node_size o m₂ ∙ at_l)
            (node_at-allocate maps node_size ro m₂ ∙ at_r)
            (node_at-allocate maps node_size nroot m₂ ∙ others nroot ne_o' ne_ro' ∙ zeros) wl wr one
            (or_fault-some (get_elem? r.keys 0) nkey
              (subst (λ n. at_index n.keys 0 ≡ ok nkey) at_r at_first))
            (subst Increasing (sym sum') inc)),
    )

-- Let the root be a full leaf with all its places, no parent, keys that grow strictly and texts of at
-- most 128 bytes, and let the text of the new key be no longer and not among them. Let the next two
-- allocations of a node succeed, at places that hold only zeros and are not the root's or the same.
-- Then `split_insert_node` succeeds in one round, and the root of the header is that of a tree of
-- height 1 that holds the old entries with the new one before the first larger.
pub split_insert_node-IsTree :
    (maps : ℕ → ℕ) (fuel o ro nroot k v targ : ℕ) (r : Rooted)
    → IsLeaf (node_at o r.mem)
    → (node_at o r.mem).num_keys ≡ max_keys
    → (node_at o r.mem).parent ≡ no_offset
    → length (text_at k r.mem) ≤ hash_size
    → AllShort r.mem (live_keys (node_at o r.mem))
    → Increasing (leaf_entries r.mem (node_at o r.mem))
    → lookup (text_at k r.mem) (leaf_entries r.mem (node_at o r.mem)) ≡ none
    → place_of (allocate maps node_size r.mem).0 (allocate maps node_size r.mem).1 ≡ ok ro
    → place_of
        (allocate maps node_size (allocate maps node_size r.mem).1).0
        (allocate maps node_size (allocate maps node_size r.mem).1).1
      ≡ ok nroot
    → node_at ro r.mem ≡ zero_node
    → node_at nroot r.mem ≡ zero_node
    → o ≢ ro
    → o ≢ nroot
    → ro ≢ nroot
    → (r' : Rooted) × (split_insert_node maps (suc fuel) o k v false targ r ≡ ok r')
      × IsTree r'.mem 1 r'.mem.header.root
          (insert_sorted (text_at k r.mem) v (leaf_entries r.mem (node_at o r.mem)))
unfolding IsLeaf AreFilled SameTexts
split_insert_node-IsTree maps fuel o ro nroot k v targ r w full root short all inc new place place'
      zeros zeros' ne ne' ne'' =
    let m = r.mem in
    let m₁ = with_leaf maps ro m in
    let (apart, apart') = other_place o ro ne in
    let same = with_leaf-texts maps m o ro apart in
    let old = with_leaf-old maps m o ro apart in
    let fresh = with_leaf-new maps m o ro apart zeros in
    let len : length (node_at o m₁).keys ≡ max_keys = ap (λ n. length n.keys) old ∙ w.1 in
    let (med, at_med, at_med') = or_fault-in (node_at o m₁).keys med_idx (omega (arith, len)) in
    let es₁ : leaf_entries m₁ (node_at o m₁) ≡ leaf_entries m (node_at o m) =
      ap (leaf_entries m₁) old ∙ leaf_entries-texts m m₁ (node_at o m) same in
    let (m₂, halves, f) =
      split_halves-AreFilled m₁ o ro k v targ med apart apart' (subst IsLeaf (sym old) w)
        (ap (λ n. n.num_keys) old ∙ full) (subst IsLeaf (sym fresh) zero_node-IsLeaf)
        (ap (λ n. n.num_keys) fresh ∙ num_keys-zero_node) at_med
        (subst (λ t. length t ≤ hash_size) (sym (same k)) short)
        (AllShort-texts m m₁ _ same (subst (λ n. AllShort m (live_keys n)) (sym old) all))
        (subst Increasing (sym es₁) inc) (str_lt (text_at k m₁) (text_at med m₁)) refl in
    let len' : length (node_at ro m₂).keys ≡ max_keys = ap (λ n. length n.keys) f.3 ∙ f.5.1 in
    let (first, at_first, at_first') = or_fault-in (node_at ro m₂).keys 0 (omega (arith, len')) in
    let parent = ap (λ n. n.parent) f.2 ∙ f.8 ∙ ap (λ n. n.parent) old ∙ root in
    let steps =
      split_insert_node-steps maps fuel o ro k v targ med first _ r m₂ full place at_med' refl
        halves parent at_first' in
    let (r', e, tree) =
      grow_root-IsTree maps m₁ m₂ o ro nroot first _ _ apart apart' ne' ne''
        (with_leaf-old maps m nroot ro (other_place ro nroot ne'').1 ∙ zeros')
        (place_of-tire maps node_size (allocate maps node_size m).1 m₁ (with_leaf-tire maps m ro)
          ∙ place')
        (AreFilled-cong m₁ m₂ o ro refl (λ i. insert_sorted (same k i) v (es₁ i)) f) at_first'
        (Increasing-insert_sorted (text_at k m) v (leaf_entries m (node_at o m)) inc new) in
    (r', steps ∙ e, tree)
