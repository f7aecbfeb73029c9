-- ===== src/Index/LeafSplit.antt =====
-- `split_halves` on a full leaf: together the two leaves hold what an insertion into the old one
-- would hold.
use zippy_fs.Common.{
  ℕ, zero, suc, ◌≤◌, ◌<◌, ◌≡◌, refl, ap, sym, ◌∙◌, subst, Bool, true, false, some, List, [], ◌∷◌,
  ◌++◌, Str, str_lt, take, drop, length, get_elem?, if◌then◌else◌, nat_beq, ok, arith,
  take-append-drop, length-take, length-drop, take-all,
}
use zippy_fs.Index.Memory.{Mem, Node, node_at, text_at, live_keys, max_keys, hash_size, no_offset}
use zippy_fs.Index.Entries.{IsLeaf, AllShort, entries_of, leaf_entries, insert_sorted}
use zippy_fs.Index.Nodes.{insert_into_node}
use zippy_fs.Index.Split.{med_idx, split_leaf, split_halves}
use zippy_fs.Index.Halves.{AreHalves, split_leaf-AreHalves, split_leaf-live_keys, entries_of-drop}
use zippy_fs.Index.Frame.{AllShort-take, AllShort-drop}
use zippy_fs.Index.Order.{Increasing, AllBelow-cut, insert_sorted-left, insert_sorted-right}
use zippy_fs.Index.RootSplit.{AreFilled, AreFilled-cong, halved, insert_left, insert_right}

drop-get_elem? :
    (i : ℕ) (xs : List ℕ) (x : ℕ) → get_elem? xs i ≡ some x → drop i xs ≡ x ∷ drop (suc i) xs
drop-get_elem? i [] x h = absurd (cc)
drop-get_elem? zero (y ∷ xs) x h = cc
drop-get_elem? (suc i) (y ∷ xs) x h = drop-get_elem? i xs x h

pub entries_of-first :
    (m : Mem) (k : ℕ) (ks vs : List ℕ)
    → 1 ≤ length vs
    → (w : ℕ) × (rest : List (Str × ℕ)) × (entries_of m (k ∷ ks) vs ≡ (text_at k m, w) ∷ rest)
entries_of-first m k ks [] h = absurd (omega arith)
entries_of-first m k ks (v ∷ vs) h = (v, entries_of m ks vs, refl)

-- The second half of a full leaf starts with the key in the middle.
second-half :
    (m : Mem) (n : Node) (med : ℕ)
    → IsLeaf n
    → n.num_keys ≡ max_keys
    → get_elem? n.keys med_idx ≡ some med
    → (w : ℕ) × (rest : List (Str × ℕ)) × (drop med_idx (leaf_entries m n)
        ≡ (text_at med m, w) ∷ rest)
unfolding IsLeaf leaf_entries
second-half m n med w full h =
    let keys : take n.num_keys n.keys ≡ n.keys = take-all n.num_keys n.keys (omega (arith, w)) in
    let vs = drop med_idx (take n.num_keys n.values) in
    let long : 1 ≤ length vs =
      omega (
        arith,
        length-drop med_idx (take n.num_keys n.values),
        length-take n.num_keys n.values,
        w,
      ) in
    let (x, rest, e) = entries_of-first m med (drop 12 n.keys) vs long in
    (
      x,
      rest,
      entries_of-drop m med_idx (take n.num_keys n.keys) (take n.num_keys n.values)
          ∙ ap (λ ks. entries_of m ks vs)
              (ap (drop med_idx) keys ∙ drop-get_elem? med_idx n.keys med h)
          ∙ e,
    )

-- The half that the key goes to is the right one.
insert_sorted-half :
    (p k : Str) (v w : ℕ) (es rest : List (Str × ℕ)) (b : Bool)
    → drop med_idx es ≡ (k, w) ∷ rest
    → Increasing es
    → str_lt p k ≡ b
    → (if b
        then insert_sorted p v (take med_idx es) ++ drop med_idx es
        else take med_idx es ++ insert_sorted p v (drop med_idx es))
      ≡ insert_sorted p v es
insert_sorted-half p k v w es rest b h inc e =
    let whole : take med_idx es ++ ((k, w) ∷ rest) ≡ es =
      ap (λ r. take med_idx es ++ r) (sym h) ∙ take-append-drop med_idx es in
    go b e whole
  where
    go :
        (b : Bool)
        → str_lt p k ≡ b
        → take med_idx es ++ ((k, w) ∷ rest) ≡ es
        → (if b
            then insert_sorted p v (take med_idx es) ++ drop med_idx es
            else take med_idx es ++ insert_sorted p v (drop med_idx es))
          ≡ insert_sorted p v es
    go true e whole =
        ap (λ r. insert_sorted p v (take med_idx es) ++ r) h
        ∙ sym (insert_sorted-left p k v w (take med_idx es) rest e)
        ∙ ap (insert_sorted p v) whole
    go false e whole =
        ap (λ r. take med_idx es ++ insert_sorted p v r) h
        ∙ sym (
            insert_sorted-right p k v (take med_idx es) ((k, w) ∷ rest) e
              (AllBelow-cut k w (take med_idx es) rest (subst Increasing (sym whole) inc)))
        ∙ ap (insert_sorted p v) whole

module _ (m : Mem) (o ro k v targ med : ℕ) (apart : nat_beq o ro ≡ false)
    (apart' : nat_beq ro o ≡ false) (w : IsLeaf (node_at o m))
    (full : (node_at o m).num_keys ≡ max_keys) (w' : IsLeaf (node_at ro m))
    (empty : (node_at ro m).num_keys ≡ 0) (at_med : get_elem? (node_at o m).keys med_idx ≡ some med)
    (short : length (text_at k m) ≤ hash_size) (all_short : AllShort m (live_keys (node_at o m)))
    (inc : Increasing (leaf_entries m (node_at o m))) where
  abbrev old : Node
  old = node_at o m

  abbrev lhalf : Node
  lhalf = (split_leaf (node_at o m) (node_at ro m)).0

  abbrev rhalf : Node
  rhalf = (split_leaf (node_at o m) (node_at ro m)).1

  split_halves-insert :
      (b : Bool) (i : ℕ) (m' : Mem)
      → insert_into_node (if b then o else ro) k v false no_offset (halved m o ro lhalf rhalf)
        ≡ ok (i, m')
      → split_halves false o ro k v b targ m ≡ ok m'
  unfolding split_halves halved
  split_halves-insert b i m' e = rw e refl

  halves-whole :
      (b : Bool) (l r : Node)
      → leaf_entries m l ≡ take med_idx (leaf_entries m old)
      → leaf_entries m r ≡ drop med_idx (leaf_entries m old)
      → (if b
          then insert_sorted (text_at k m) v (take med_idx (leaf_entries m old))
            ++ drop med_idx (leaf_entries m old)
          else take med_idx (leaf_entries m old)
            ++ insert_sorted (text_at k m) v (drop med_idx (leaf_entries m old)))
        ≡ insert_sorted (text_at k m) v (leaf_entries m old)
      → (if b
          then insert_sorted (text_at k m) v (leaf_entries m l) ++ leaf_entries m r
          else leaf_entries m l ++ insert_sorted (text_at k m) v (leaf_entries m r))
        ≡ insert_sorted (text_at k m) v (leaf_entries m old)
  halves-whole b l r el er h = rw (el, er) h

  split_halves-AreFilled_at :
      (b : Bool)
      → IsLeaf lhalf
      → IsLeaf rhalf
      → lhalf.num_keys < max_keys
      → rhalf.num_keys < max_keys
      → 1 ≤ rhalf.num_keys
      → AllShort m (live_keys lhalf)
      → AllShort m (live_keys rhalf)
      → lhalf.parent ≡ old.parent
      → (if b
          then insert_sorted (text_at k m) v (leaf_entries m lhalf) ++ leaf_entries m rhalf
          else leaf_entries m lhalf ++ insert_sorted (text_at k m) v (leaf_entries m rhalf))
        ≡ insert_sorted (text_at k m) v (leaf_entries m old)
      → (m' : Mem) × (split_halves false o ro k v b targ m ≡ ok m')
        × AreFilled m o ro old.parent (insert_sorted (text_at k m) v (leaf_entries m old)) m'
  split_halves-AreFilled_at true wl wr rl rr one al ar pl whole =
      let (i, m', e, f) = insert_left m o ro k v lhalf rhalf apart apart' wl wr short rl one al in
      (m', split_halves-insert true i m' e, AreFilled-cong m m' o ro pl whole f)
  split_halves-AreFilled_at false wl wr rl rr one al ar pl whole =
      let (i, m', e, f) = insert_right m o ro k v lhalf rhalf apart apart' wl wr short rr ar in
      (m', split_halves-insert false i m' e, AreFilled-cong m m' o ro pl whole f)

  pub split_halves-AreFilled :
      (b : Bool)
      → str_lt (text_at k m) (text_at med m) ≡ b
      → (m' : Mem) × (split_halves false o ro k v b targ m ≡ ok m')
        × AreFilled m o ro
            (node_at o m).parent
            (insert_sorted (text_at k m) v (leaf_entries m (node_at o m)))
            m'
  unfolding AreHalves
  split_halves-AreFilled b e =
      let n = node_at o m in
      let es = leaf_entries m n in
      let p = text_at k m in
      let (wl, wr, nl, nr, el, er) = split_leaf-AreHalves m n (node_at ro m) w full w' empty in
      let (kl, kr, pl) = split_leaf-live_keys n (node_at ro m) w full w' empty in
      let (x, rest, cut) = second-half m n med w full at_med in
      let whole = insert_sorted-half p (text_at med m) v x es rest b cut inc e in
      split_halves-AreFilled_at b wl wr (omega (arith, nl)) (omega (arith, nr)) (omega (arith, nr))
        (subst (AllShort m) (sym kl) (AllShort-take m med_idx (live_keys n) all_short))
        (subst (AllShort m) (sym kr) (AllShort-drop m med_idx (live_keys n) all_short)) pl
        (halves-whole b (split_leaf n (node_at ro m)).0 (split_leaf n (node_at ro m)).1 el er whole)
