-- ===== src/Tests/Splits.antt =====
-- The theorem on the split of a full root, applied.
use zippy_fs.Common.{
  ℕ, zero, suc, ◌+◌, ◌≤◌, ◌≡◌, refl, Bool, true, false, ◌&&◌, List, [], ◌∷◌, arith, replicate, Str,
  str_lt, none, length, ok, leb, str_beq,
}
use zippy_fs.Common.Map.{find, insert, nat_key}
use zippy_fs.Tire
use zippy_fs.Tire.{get_tire, rebase, add_to_map}
use zippy_fs.Index.Memory.{
  Mem, zero_node, node_at, text_at, no_offset, live_keys, max_keys, hash_size, node_size,
  header_size, allocate, place_of,
}
use zippy_fs.Index.Entries.{IsTree, IsLeaf, AllShort, leaf_entries, lookup, insert_sorted}
use zippy_fs.Index.Split.{Rooted, split_insert_node}
use zippy_fs.Index.Add.{empty_mem}
use zippy_fs.Index.Order.{Increasing, AllAbove, AllAbove-trans}
use zippy_fs.Index.FullRoot.{split_insert_node-IsTree}
use zippy_fs.Tests.Forest.{node_of}

-- Every text is below the next one.
unfoldable grows : List (Str × ℕ) → Bool
grows [] = true
grows ((q, v) ∷ []) = true
grows ((q, v) ∷ (r, w) ∷ es) = str_lt q r && grows ((r, w) ∷ es)

both-left : (a b : Bool) → (a && b) ≡ true → a ≡ true
both-left true b h = refl
both-left false b h = h

both-right : (a b : Bool) → (a && b) ≡ true → b ≡ true
both-right true b h = h
both-right false b h = absurd (cc)

grows-Increasing : (es : List (Str × ℕ)) → grows es ≡ true → Increasing es
unfolding grows Increasing AllAbove
grows-Increasing [] h = tt
grows-Increasing ((q, v) ∷ []) h = (tt, tt)
grows-Increasing ((q, v) ∷ (r, w) ∷ es) h =
    let less = both-left (str_lt q r) (grows ((r, w) ∷ es)) h in
    let rest = grows-Increasing ((r, w) ∷ es) (both-right (str_lt q r) (grows ((r, w) ∷ es)) h) in
    ((less, AllAbove-trans q r es less rest.0), rest)

unfoldable all_short : Mem → List ℕ → Bool
all_short m [] = true
all_short m (k ∷ ks) = leb (length (text_at k m)) hash_size && all_short m ks

all_short-AllShort : (m : Mem) (ks : List ℕ) → all_short m ks ≡ true → AllShort m ks
unfolding all_short AllShort
all_short-AllShort m [] h = tt
all_short-AllShort m (k ∷ ks) h =
    let here = both-left (leb (length (text_at k m)) hash_size) (all_short m ks) h in
    (
      ground arith,
      all_short-AllShort m ks
          (both-right (leb (length (text_at k m)) hash_size) (all_short m ks) h),
    )

unfoldable count_up : ℕ → ℕ → List ℕ
count_up zero a = []
count_up (suc n) a = a ∷ count_up n (a + 1)

-- The text at an offset is one letter.
unfoldable letters : ℕ → ℕ → List (ℕ × Str)
letters zero a = []
letters (suc n) a = (a, a ∷ []) ∷ letters n (a + 1)

abbrev one_page : ℕ → ℕ
one_page n = 4096

-- A full root with the letters from 100 to 122, and a text between the first two.
abbrev full_root : Mem
full_root = record (allocate one_page node_size (allocate one_page header_size empty_mem).1).1 {
  nodes = (24, node_of true (count_up 23 100) [] (count_up 23 5000)) ∷ [];
  texts = (200, 100 ∷ 1 ∷ []) ∷ letters 23 100;
}

abbrev full_rooted : Rooted
full_rooted = record { mem = full_root; rootidx = 2 }

root-IsLeaf : IsLeaf (node_at 24 full_root)
unfolding IsLeaf node_at find replicate count_up
root-IsLeaf = (refl, refl, refl, omega arith)

root-num_keys : (node_at 24 full_root).num_keys ≡ max_keys
unfolding node_at find count_up
root-num_keys = refl

root-parent : (node_at 24 full_root).parent ≡ no_offset
unfolding node_at find
root-parent = refl

root-AllShort : AllShort full_root (live_keys (node_at 24 full_root))
unfolding all_short node_at text_at find count_up letters replicate
root-AllShort = all_short-AllShort full_root (live_keys (node_at 24 full_root)) refl

root-Increasing : Increasing (leaf_entries full_root (node_at 24 full_root))
unfolding grows leaf_entries node_at text_at find count_up letters replicate str_lt
root-Increasing = grows-Increasing (leaf_entries full_root (node_at 24 full_root)) refl

root-lookup : lookup (text_at 200 full_root) (leaf_entries full_root (node_at 24 full_root)) ≡ none
unfolding lookup leaf_entries node_at text_at find count_up letters replicate str_beq
root-lookup = refl

new_short : length (text_at 200 full_root) ≤ hash_size
unfolding text_at find
new_short = omega arith

right_place :
    place_of (allocate one_page node_size full_root).0 (allocate one_page node_size full_root).1
    ≡ ok 608
unfolding allocate get_tire rebase add_to_map find insert Tire.make
right_place = refl

root_place :
    place_of
      (allocate one_page node_size (allocate one_page node_size full_root).1).0
      (allocate one_page node_size (allocate one_page node_size full_root).1).1
    ≡ ok 1192
unfolding allocate get_tire rebase add_to_map find insert Tire.make
root_place = refl

right_zero : node_at 608 full_root ≡ zero_node
unfolding node_at find
right_zero = refl

root_zero : node_at 1192 full_root ≡ zero_node
unfolding node_at find
root_zero = refl

split_insert_node-IsTree_example :
    (r' : Rooted) × (split_insert_node one_page 1 24 200 6000 false no_offset full_rooted ≡ ok r')
    × IsTree r'.mem 1 r'.mem.header.root
        (insert_sorted (text_at 200 full_root) 6000 (leaf_entries full_root (node_at 24 full_root)))
split_insert_node-IsTree_example =
    split_insert_node-IsTree one_page 0 24 608 1192 200 6000 no_offset full_rooted root-IsLeaf
      root-num_keys root-parent new_short root-AllShort root-Increasing root-lookup right_place
      root_place right_zero root_zero (λ h. omega arith) (λ h. omega arith) (λ h. omega arith)
