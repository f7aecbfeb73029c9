-- ===== src/Index/Entries.antt =====
-- What a tree of bplus_index.cpp holds: the entries of a leaf, the order of its keys, and the shape
-- that the nodes have.
use zippy_fs.Common.{
  ℕ, zero, suc, ◌≤◌, ◌≡◌, true, false, Option, none, some, List, [], ◌∷◌, ◌++◌, Str, str_beq,
  str_lt, take, length, if◌then◌else◌,
}
use zippy_fs.Index.Memory.{Mem, Node, node_at, text_at, live_keys, max_keys, hash_size}

-- Keys with their values.
abbrev pub entries_of : Mem → List ℕ → List ℕ → List (Str × ℕ)
entries_of m [] vs = []
entries_of m (k ∷ ks) [] = []
entries_of m (k ∷ ks) (v ∷ vs) = (text_at k m, v) ∷ entries_of m ks vs

unfoldable pub leaf_entries : Mem → Node → List (Str × ℕ)
leaf_entries m n = entries_of m (live_keys n) (take n.num_keys n.values)

-- The value that the entries have for a key: the first one.
unfoldable pub lookup : Str → List (Str × ℕ) → Option ℕ
lookup p [] = none
lookup p ((q, v) ∷ es) = if str_beq q p then some v else lookup p es

-- The entries with a new one, before the first with a larger key.
unfoldable pub insert_sorted : Str → ℕ → List (Str × ℕ) → List (Str × ℕ)
insert_sorted p v [] = (p, v) ∷ []
insert_sorted p v ((q, w) ∷ es) =
    if str_lt p q then (p, v) ∷ (q, w) ∷ es else (q, w) ∷ insert_sorted p v es

-- Every key is below, or is not below, a bound.
unfoldable pub AllBelow : Str → List (Str × ℕ) → Type 0
AllBelow k [] = Unit
AllBelow k ((q, v) ∷ es) = (str_lt q k ≡ true) × AllBelow k es

unfoldable pub AllFrom : Str → List (Str × ℕ) → Type 0
AllFrom k [] = Unit
AllFrom k ((q, v) ∷ es) = (str_lt q k ≡ false) × AllFrom k es

-- No key is below one that stands before it.
unfoldable pub Sorted : List (Str × ℕ) → Type 0
unfolding AllFrom
Sorted [] = Unit
Sorted ((q, v) ∷ es) = AllFrom q es × Sorted es

-- The keys of an inner node grow strictly.
unfoldable pub Ascending : Mem → List ℕ → Type 0
Ascending m [] = Unit
Ascending m (k ∷ []) = Unit
Ascending m (k ∷ k' ∷ ks) = (str_lt (text_at k m) (text_at k' m) ≡ true) × Ascending m (k' ∷ ks)

-- The subtrees of an inner node: each key parts what is before it from what is after it.
pub data Kids (m : Mem) (P : ℕ → List (Str × ℕ) → Type 0)
    : List ℕ → List ℕ → List (Str × ℕ) → Type 0 where
  last_kid : {c : ℕ} {cs : List ℕ} {es : List (Str × ℕ)} → P c es → Kids m P [] (c ∷ cs) es
  more_kids :
      {k c : ℕ} {ks cs : List ℕ} {es fs : List (Str × ℕ)}
      → P c es
      → AllBelow (text_at k m) es
      → AllFrom (text_at k m) fs
      → Kids m P ks cs fs
      → Kids m P (k ∷ ks) (c ∷ cs) (es ++ fs)

-- A tree of a height whose root has an offset, and all its entries in order.
unfoldable pub IsTree : Mem → ℕ → ℕ → List (Str × ℕ) → Type 0
unfolding leaf_entries Ascending
IsTree m zero offset es =
    ((node_at offset m).is_leaf ≡ true) × (leaf_entries m (node_at offset m) ≡ es)
IsTree m (suc height) offset es =
    let n = node_at offset m in
    (n.is_leaf ≡ false)
    × (1 ≤ n.num_keys)
    × (n.num_keys ≤ length n.keys)
    × (length n.keys ≤ max_keys)
    × Ascending m (live_keys n)
    × Kids m (IsTree m height) (live_keys n) n.children es

-- A leaf whose arrays have all their places.
unfoldable pub IsLeaf : Node → Type 0
IsLeaf n =
    (n.is_leaf ≡ true)
    × (length n.keys ≡ max_keys)
    × (length n.values ≡ max_keys)
    × (n.num_keys ≤ max_keys)

-- No text is longer than the hash that is kept of a path.
unfoldable pub AllShort : Mem → List ℕ → Type 0
AllShort m [] = Unit
AllShort m (k ∷ ks) = (length (text_at k m) ≤ hash_size) × AllShort m ks
