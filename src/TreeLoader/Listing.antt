-- ===== src/TreeLoader/Listing.antt =====
-- `get_children` against a description of what it lists.
use zippy_fs.Common.{
  ℕ, zero, suc, ◌+◌, ◌*◌, ◌%◌, ◌^◌, ◌<◌, ◌≡◌, refl, ◌∙◌, ap, ap₂, true, List, [], ◌∷◌, ◌++◌, Str,
  inr, inl, sym, if◌then◌else◌, Bool-cases, ok, arith, ltb,
}
use zippy_fs.Cache.State.{IndexEntry}
use zippy_fs.Index.Memory.{Mem, inode_size}
use zippy_fs.TreeLoader.Latest.{inode_at, path_at, entry_at, children_of, get_children}
use zippy_fs.TreeLoader.Children.{lies_in, is_child-lies_in}

-- `n` inodes of a tree from the one of number `i` on, as entries of a listing.
unfoldable pub entries_from : ℕ → ℕ → Mem → List IndexEntry
entries_from zero i m = []
entries_from (suc n) i m =
    entry_at (m.header.inode_list + inode_size * i) m ∷ entries_from n (i + 1) m

unfoldable pub all_entries : List Mem → List IndexEntry
unfolding entries_from
all_entries [] = []
all_entries (m ∷ trees) = entries_from m.header.num_inodes 0 m ++ all_entries trees

-- The lists of inodes end where 32 bits reach.
abbrev pub AllShort : List Mem → Type 0
AllShort [] = Unit {0}
AllShort (m ∷ trees) =
    (m.header.inode_list + inode_size * m.header.num_inodes < 2 ^ 32) × AllShort trees

-- The entries that stand directly in a directory.
unfoldable pub in_directory : Str → List IndexEntry → List IndexEntry
unfolding lies_in
in_directory path [] = []
in_directory path (e ∷ es) =
    let rest = in_directory path es in if lies_in path e.path then e ∷ rest else rest

in_directory-append :
    (path : Str) (es fs : List IndexEntry)
    → in_directory path (es ++ fs) ≡ in_directory path es ++ in_directory path fs
unfolding in_directory
in_directory-append path [] fs = refl
in_directory-append path (e ∷ es) fs = elim (Bool-cases (lies_in path e.path)) [
  | inl h ↦ rw h (ap (λ r. e ∷ r) (in_directory-append path es fs))
  | inr h ↦ rw h (in_directory-append path es fs)
]

children_of-end : (fuel ii : ℕ) (path : Str) (m : Mem) → children_of (suc fuel) ii ii path m ≡ ok []
unfolding children_of
children_of-end fuel ii path m = ground arith

children_of-round :
    (fuel ii last : ℕ) (path : Str) (m : Mem) (rest : List IndexEntry)
    → ii < last
    → children_of fuel ((ii + inode_size) % 2 ^ 32) last path m ≡ ok rest
    → children_of (suc fuel) ii last path m
      ≡ ok (if lies_in path (path_at (inode_at ii m) m) then entry_at ii m ∷ rest else rest)
unfolding children_of
children_of-round fuel ii last path m rest h r =
    let more : ltb ii last ≡ true = ground arith in
    rw (children_of, more, r, is_child-lies_in path (path_at (inode_at ii m) m)) refl

children_of-in_directory :
    (n i last : ℕ) (path : Str) (m : Mem)
    → last ≡ m.header.inode_list + inode_size * (i + n)
    → last < 2 ^ 32
    → children_of (suc n) (m.header.inode_list + inode_size * i) last path m
      ≡ ok (in_directory path (entries_from n i m))
unfolding in_directory entries_from
children_of-in_directory zero i last path m e h =
    let here : m.header.inode_list + inode_size * i ≡ last = omega (arith, e) in
    ap (λ ii. children_of (suc 0) ii last path m) here ∙ children_of-end 0 last path m
children_of-in_directory (suc n) i last path m e h =
    let ii : ℕ = m.header.inode_list + inode_size * i in
    let next : (ii + inode_size) % 2 ^ 32 ≡ m.header.inode_list + inode_size * (i + 1) =
      omega (arith, e) in
    children_of-round (suc n) ii last path m (in_directory path (entries_from n (i + 1) m))
      (omega (arith, e))
      (ap (λ k. children_of (suc n) k last path m) next
        ∙ children_of-in_directory n (i + 1) last path m (omega (arith, e)) h)

-- For trees whose lists of inodes end below 2 ^ 32 `get_children` ends, and lists, in the order of the
-- trees and of their inodes, exactly the entries of all trees whose path lies in the directory: it
-- is the path of the directory, a slash and a name, or has no slash and is that path, or the
-- directory is `/` and it is so for the empty path.
pub get_children-in_directory :
    (trees : List Mem) (path : Str)
    → AllShort trees
    → get_children trees path ≡ ok (in_directory path (all_entries trees))
unfolding get_children all_entries in_directory
get_children-in_directory [] path v = refl
get_children-in_directory (m ∷ trees) path (v, vs) =
    let n : ℕ = m.header.num_inodes in
    let start : ℕ = m.header.inode_list in
    let from : start % 2 ^ 32 ≡ start + inode_size * 0 = omega (arith, v) in
    let last : (start + n * inode_size) % 2 ^ 64 ≡ start + inode_size * (0 + n) =
      omega (arith, v) in
    let here =
      ap₂ (λ i j. children_of (suc n) i j path m) from last
      ∙ children_of-in_directory n 0 (start + inode_size * (0 + n)) path m refl
          (omega (arith, v)) in
    rw (here, get_children-in_directory trees path vs)
      (ap ok (sym (in_directory-append path (entries_from n 0 m) (all_entries trees))))
