-- ===== src/Index/Insert.antt =====
-- `insert_into_node` on a leaf that has room, against the insertion into a list.
use zippy_fs.Common.{
  ℕ, zero, suc, ◌+◌, ◌-◌, ◌≤◌, ◌<◌, ◌≡◌, refl, ap, Bool, true, Option, none, some, List, take, set,
  length, inl, inr, ok, lt→ltb, sym, length-take, ◌∙◌, length-set, arith,
}
use zippy_fs.Common.Splice.{
  insert_at, copies, copy_elem, take-set-copies, take-set_end, length-copies,
}
use zippy_fs.Index.Memory.{Mem, Node, text_at, hash_size, max_keys, live_keys}
use zippy_fs.Index.Entries.{insert_sorted, AllShort, IsLeaf, leaf_entries}
use zippy_fs.Index.Nodes.{position, shift_up, open_gap, spot, opened, filled, insert_entry}
use zippy_fs.Index.Rank.{
  rank, rank-le_length, position-rank, insert_sorted-rank, entries_of-insert_at,
}

shift_up-copies :
    (temp : List ℕ) (rounds ii : ℕ) (xs : List ℕ)
    → shift_up temp rounds ii xs ≡ copies rounds ii (suc ii) temp xs
unfolding shift_up copies
shift_up-copies temp zero ii xs = refl
shift_up-copies temp (suc rounds) ii xs =
    shift_up-copies temp rounds (suc ii) (copy_elem temp ii (suc ii) xs)

-- An array with a gap at `i` that is written to.
take-set-shift_up :
    (i n x : ℕ) (xs : List ℕ)
    → i ≤ n
    → n < length xs
    → take (suc n) (set (shift_up xs (n - i) i xs) i x) ≡ insert_at i x (take n xs)
take-set-shift_up i n x xs h h' =
    ap (λ zs. take (suc n) (set zs i x)) (shift_up-copies xs (n - i) i xs)
    ∙ take-set-copies i n x xs h h'

length-set-shift_up :
    (i r j x : ℕ) (xs : List ℕ) → length (set (shift_up xs r j xs) i x) ≡ length xs
length-set-shift_up i r j x xs =
    length-set (shift_up xs r j xs) i x
    ∙ ap length (shift_up-copies xs r j xs)
    ∙ length-copies r j (suc j) xs xs

-- A leaf as it is after an insertion at `i`.
unfoldable pub IsFilled : ℕ → ℕ → ℕ → Node → Node → Type 0
IsFilled i k v n n' =
    (n'.is_leaf ≡ true)
    × (n'.num_keys ≡ suc n.num_keys)
    × (length n'.keys ≡ length n.keys)
    × (length n'.values ≡ length n.values)
    × (take (suc n.num_keys) n'.keys ≡ insert_at i k (take n.num_keys n.keys))
    × (take (suc n.num_keys) n'.values ≡ insert_at i v (take n.num_keys n.values))
    × (n'.parent ≡ n.parent)

unfoldable written : ℕ → ℕ → ℕ → Node → Node
written i k v n = record n {
  keys = set n.keys i k;
  num_keys = n.num_keys + 1;
  values = set n.values i v;
}

filled-written :
    (i k v : ℕ) (left : Bool) (child : ℕ) (n : Node)
    → n.is_leaf ≡ true
    → filled i k v left child n ≡ (i, written i k v n)
unfolding written
filled-written i k v left child n h = rw h refl

written-IsFilled_end :
    (k v : ℕ) (n : Node)
    → IsLeaf n
    → n.num_keys < max_keys
    → IsFilled n.num_keys k v n (written n.num_keys k v n)
unfolding IsLeaf IsFilled written
written-IsFilled_end k v n w room = (
  w.0,
  omega arith,
  length-set n.keys n.num_keys k,
  length-set n.values n.num_keys v,
  take-set_end n.num_keys k n.keys (omega (arith, w)),
  take-set_end n.num_keys v n.values (omega (arith, w)),
  refl,
)

written-IsFilled_gap :
    (i k v : ℕ) (n : Node)
    → IsLeaf n
    → n.num_keys < max_keys
    → i < n.num_keys
    → IsFilled i k v n (written i k v (open_gap i n))
unfolding IsLeaf IsFilled written open_gap
written-IsFilled_gap i k v n w room h = (
  w.0,
  omega arith,
  length-set-shift_up i (n.num_keys - i) i k n.keys,
  length-set-shift_up i (n.num_keys - i) i v n.values,
  take-set-shift_up i n.num_keys k n.keys (omega arith) (omega (arith, w)),
  take-set-shift_up i n.num_keys v n.values (omega arith) (omega (arith, w)),
  refl,
)

insert_entry-written :
    (m : Mem) (k v : ℕ) (left : Bool) (child : ℕ) (n : Node) (found : Option ℕ)
    → n.num_keys < max_keys
    → position m (text_at k m) (live_keys n) 0 ≡ found
    → (opened found n).is_leaf ≡ true
    → insert_entry m k v left child n
      ≡ ok (spot found n, written (spot found n) k v (opened found n))
unfolding insert_entry
insert_entry-written m k v left child n found room q h =
    rw (insert_entry, lt→ltb n.num_keys max_keys room, q)
      (ap ok (filled-written (spot found n) k v left child (opened found n) h))

pub insert_entry-IsFilled :
    (m : Mem) (k v : ℕ) (left : Bool) (child : ℕ) (n : Node)
    → IsLeaf n
    → n.num_keys < max_keys
    → length (text_at k m) ≤ hash_size
    → AllShort m (live_keys n)
    → (i : ℕ) × (n' : Node) × (insert_entry m k v left child n ≡ ok (i, n'))
      × IsFilled (rank m (text_at k m) (live_keys n)) k v n n'
unfolding IsLeaf open_gap
insert_entry-IsFilled m k v left child n w room h a =
    let p = text_at k m in
    let len : length (live_keys n) ≡ n.num_keys = omega (arith, length-take n.num_keys n.keys, w) in
    elim (position-rank m p (live_keys n) 0 h a) [
      | inl (q, e) ↦ (
        n.num_keys,
        written n.num_keys k v n,
        insert_entry-written m k v left child n none room q w.0,
        rw (e, len) (written-IsFilled_end k v n w room),
      )
      | inr (q, l) ↦
          let i = rank m p (live_keys n) in
          (
            i,
            written i k v (open_gap i n),
            insert_entry-written m k v left child n (some i) room (q ∙ ap some (omega arith)) w.0,
            written-IsFilled_gap i k v n w room (omega arith),
          )
    ]

-- What it is then as a leaf with entries.
pub IsFilled-insert_sorted :
    (m : Mem) (k v : ℕ) (n n' : Node)
    → IsLeaf n
    → n.num_keys < max_keys
    → IsFilled (rank m (text_at k m) (live_keys n)) k v n n'
    → IsLeaf n'
      × (n'.num_keys ≡ suc n.num_keys)
      × (leaf_entries m n' ≡ insert_sorted (text_at k m) v (leaf_entries m n))
      × (n'.parent ≡ n.parent)
unfolding IsLeaf IsFilled leaf_entries
IsFilled-insert_sorted m k v n n' w room f =
    let p = text_at k m in
    let vs = take n.num_keys n.values in
    let lk : length (live_keys n) ≤ length vs =
      omega (arith, length-take n.num_keys n.keys, length-take n.num_keys n.values, w) in
    (
      (f.0, f.2 ∙ w.1, f.3 ∙ w.2, omega (arith, f)),
      f.1,
      rw (f.1, f.4, f.5)
          (entries_of-insert_at m (rank m p (live_keys n)) k v (live_keys n) vs
              (rank-le_length m p (live_keys n)) lk
            ∙ sym (insert_sorted-rank m p v (live_keys n) vs lk)),
      f.6,
    )

-- For a leaf that has all its places and room for one more key, and with no text longer than 128
-- bytes, the new key's included, `insert_into_node` makes a leaf with all its places, one key more
-- and the same parent, whose entries are the old ones with the new one before the first larger.
pub insert_entry-insert_sorted :
    (m : Mem) (k v : ℕ) (left : Bool) (child : ℕ) (n : Node)
    → IsLeaf n
    → n.num_keys < max_keys
    → length (text_at k m) ≤ hash_size
    → AllShort m (live_keys n)
    → (i : ℕ) × (n' : Node) × (insert_entry m k v left child n ≡ ok (i, n'))
      × IsLeaf n'
      × (n'.num_keys ≡ suc n.num_keys)
      × (leaf_entries m n' ≡ insert_sorted (text_at k m) v (leaf_entries m n))
      × (n'.parent ≡ n.parent)
insert_entry-insert_sorted m k v left child n w room h a =
    let (i, n', q, f) = insert_entry-IsFilled m k v left child n w room h a in
    let (w', num, es, par) = IsFilled-insert_sorted m k v n n' w room f in
    (i, n', q, w', num, es, par)
