-- ===== src/TreeLoader/ListWritten.antt =====
-- `get_children` on the tree of one flush.
use zippy_fs.TreeLoader.Latest.{entry_at, inode_at, path_at, get_children}
use zippy_fs.Common.{
  ◌^◌, ◌<◌, ℕ, ◌+◌, ◌*◌, ◌≤◌, ◌≡◌, ◌≢◌, refl, ◌∙◌, ap, ap₂, some, List, [], ◌∷◌, ok, Str, length,
  take-all, arith, if◌then◌else◌, append-nil,
}
use zippy_fs.Common.Map.{find, nat_key}
use zippy_fs.Util.Names.{c_str}
use zippy_fs.Cache.State.{IndexEntry}
use zippy_fs.Index.Memory.{Mem, InodeCell, inode_size, max_keys}
use zippy_fs.Index.Add.{BplusIndex, make, mem_of}
use zippy_fs.Index.Started.{Layout, layout}
use zippy_fs.Index.Build.{Item, Cursors, cursors, advance, cell_of, add_inodes}
use zippy_fs.Index.Build.All.{AllItems, Room, AllLaid, add_inodes-Built}
use zippy_fs.TreeLoader.Children.{lies_in}
use zippy_fs.TreeLoader.Listing.{in_directory, entries_from, all_entries, get_children-in_directory}
use zippy_fs.TreeLoader.ReadInode.{inode_at-found}

abbrev entry_of : InodeCell → Str → IndexEntry
entry_of cell path = record { path = path; mtime = cell.mtime; deleted = cell.deleted }

-- What is listed of an inode that was written.
abbrev pub child_of : Item → IndexEntry
child_of a = record {
  path = c_str a.inode.path;
  mtime = a.inode.ul_mtime;
  deleted = a.inode.deleted;
}

-- The inodes that lie in a directory, in their order.
unfoldable pub children_among : Str → List Item → List IndexEntry
unfolding lies_in
children_among dir [] = []
children_among dir (a ∷ xs) =
    let rest = children_among dir xs in
    if lies_in dir (c_str a.inode.path) then child_of a ∷ rest else rest

path_at-Laid :
    (l : Layout) (c : Cursors) (a : Item) (mode : ℕ) (m : Mem)
    → find (l.paths + c.path) m.paths ≡ some a.inode.path
    → path_at (cell_of l c a mode) m ≡ c_str a.inode.path
unfolding path_at
path_at-Laid l c a mode m h =
    rw (path_at, h) (ap c_str (take-all (length a.inode.path) a.inode.path (omega arith)))

-- The cells of the inodes, as entries of a listing.
in_directory-AllLaid :
    (l : Layout) (c : Cursors) (xs : List Item) (path : Str) (m : Mem)
    → m.header.inode_list ≡ l.inodes
    → AllLaid l c xs m
    → in_directory path (entries_from (length xs) c.inodes m) ≡ children_among path xs
unfolding in_directory entries_from children_among AllLaid
in_directory-AllLaid l c [] path m start laid = refl
in_directory-AllLaid l c (a ∷ xs) path m start (v, laid) =
    let cell : InodeCell = cell_of l c a v.mode in
    let at : inode_at (m.header.inode_list + inode_size * c.inodes) m ≡ cell =
      ap (λ i. inode_at (i + inode_size * c.inodes) m) start ∙ inode_at-found _ m cell v.cell in
    let entry : entry_at (m.header.inode_list + inode_size * c.inodes) m ≡ child_of a =
      ap (λ x. entry_of x (path_at x m)) at
      ∙ ap (entry_of cell) (path_at-Laid l c a v.mode m v.path) in
    ap₂ (λ e rest. if lies_in path e.path then e ∷ rest else rest) entry
      (in_directory-AllLaid l (advance a c) xs path m start laid)

-- Up to 23 inodes in a new file with room for just them are listed again.
pub get_children-add_inodes :
    (maps : ℕ → ℕ) (bs nb ps : ℕ) (xs : List Item) (path : Str)
    → 1 ≤ length xs
    → ((i : ℕ) → maps i ≢ 0)
    → Room (length xs) bs nb ps xs
    → AllItems xs
    → length xs ≤ max_keys
    → (b : BplusIndex) × (add_inodes maps xs (make (length xs) bs nb ps) ≡ ok b)
      × (get_children (mem_of b ∷ []) path ≡ ok (children_among path xs))
unfolding layout make all_entries
get_children-add_inodes maps bs nb ps [] path some_inode mapped r it few = absurd (omega arith)
get_children-add_inodes maps bs nb ps (x ∷ xs) path some_inode mapped r it few =
    let n : ℕ = length (x ∷ xs) in
    let l : Layout = layout n bs nb ps in
    let (m₀, b, ran, built) = add_inodes-Built maps n bs nb ps x xs mapped r it few in
    let m : Mem = mem_of b in
    let places = built.ready.places in
    let short : m.header.inode_list + inode_size * m.header.num_inodes < 2 ^ 32 =
      omega (arith, places.listed, places.counted, few) in
    (
      b,
      ran,
      get_children-in_directory (m ∷ []) path (short, tt)
          ∙ ap (λ es. ok (in_directory path es))
              (append-nil (entries_from m.header.num_inodes 0 m)
                ∙ ap (λ k. entries_from k 0 m) places.counted)
          ∙ ap ok (
              in_directory-AllLaid l (cursors (make n bs nb ps)) (x ∷ xs) path m places.listed
                built.laid),
    )
