-- ===== src/Index/Build/All.antt =====
-- All inodes of a flush in one tree.
use zippy_fs.Common.{
  ap, ℕ, ◌+◌, ◌*◌, ◌^◌, ◌≤◌, ◌<◌, ◌≡◌, ◌≢◌, refl, ◌∙◌, sym, subst, List, [], ◌∷◌, ok, Str, length,
  arith,
}
use zippy_fs.Common.Map.{nat_key}
use zippy_fs.Util.Names.{c_str}
use zippy_fs.Index.Memory.{Mem, hash_size, inode_size, block_data_size, max_keys}
use zippy_fs.Index.Entries.{insert_sorted}
use zippy_fs.Index.Add.{BplusIndex, make, mem_of, add_inode}
use zippy_fs.Index.Cells.{Keeps, Keeps-refl, Keeps-trans, LaidBlocks-Keeps}
use zippy_fs.Index.Started.{Layout, layout}
use zippy_fs.Index.Build.{
  Item, IsItem, Cursors, cursors, advance, Within, Laid, KeepsBefore, Ready, Added, add_inodes,
}
use zippy_fs.Index.Build.Keyed.{add_inode-first, add_inode-next}

abbrev pub AllItems : List Item → Type 0
AllItems [] = Unit {0}
AllItems (a ∷ xs) = ((mode : ℕ) × IsItem a mode) × AllItems xs

-- The positions behind all inodes.
abbrev pub ends : List Item → Cursors → Cursors
ends [] c = c
ends (a ∷ xs) c = ends xs (advance a c)

-- The inodes one behind the other.
unfoldable pub AllLaid : Layout → Cursors → List Item → Mem → Type 0
AllLaid l c [] m = Unit
AllLaid l c (a ∷ xs) m = Laid l c a m × AllLaid l (advance a c) xs m

-- The entries that the inodes add.
unfoldable pub entries_with : Layout → Cursors → List Item → List (Str × ℕ) → List (Str × ℕ)
entries_with l c [] es = es
entries_with l c (a ∷ xs) es =
    entries_with l (advance a c) xs
      (insert_sorted (c_str a.inode.inode_id) (l.inodes + inode_size * c.inodes) es)

Within-ends : (l : Layout) (xs : List Item) (c : Cursors) → Within l (ends xs c) → Within l c
Within-ends l [] c w = w
Within-ends l (a ∷ xs) c w =
    let v = Within-ends l xs (advance a c) w in
    record {
      inodes = omega (arith, v.inodes);
      hashes = omega (arith, v.hashes);
      cells = omega (arith, v.cells);
      bytes = omega (arith, v.bytes);
      paths = omega (arith, v.paths);
    }

KeepsBefore-refl : (l : Layout) (c : Cursors) (m : Mem) → KeepsBefore l c m m
KeepsBefore-refl l c m = record {
  inodes = Keeps-refl _ m.inodes;
  cells = Keeps-refl _ m.blocks;
  bytes = Keeps-refl _ m.bytes;
  paths = Keeps-refl _ m.paths;
}

KeepsBefore-trans :
    (l : Layout) (a : Item) (c : Cursors) (m m' m'' : Mem)
    → KeepsBefore l c m m'
    → KeepsBefore l (advance a c) m' m''
    → KeepsBefore l c m m''
KeepsBefore-trans l a c m m' m'' k k' = record {
  inodes = Keeps-trans _ _ _ _ _ (omega arith) k.inodes k'.inodes;
  cells = Keeps-trans _ _ _ _ _ (omega arith) k.cells k'.cells;
  bytes = Keeps-trans _ _ _ _ _ (omega arith) k.bytes k'.bytes;
  paths = Keeps-trans _ _ _ _ _ (omega arith) k.paths k'.paths;
}

-- An inode stays as it is while more are added.
Laid-KeepsBefore :
    (l : Layout) (c : Cursors) (a : Item) (m m' : Mem)
    → 1 ≤ length a.inode.path
    → KeepsBefore l (advance a c) m m'
    → Laid l c a m
    → Laid l c a m'
unfolding Keeps
Laid-KeepsBefore l c a m m' named k h = record {
  mode = h.mode;
  has_mode = h.has_mode;
  cell = k.inodes (l.inodes + inode_size * c.inodes) (omega arith) ∙ h.cell;
  path = k.paths (l.paths + c.path) (omega arith) ∙ h.path;
  blocks =
      LaidBlocks-Keeps m.blocks m'.blocks m.bytes m'.bytes _ _ _ _ a.block_mtime a.dirty_blocks
        k.cells k.bytes (omega arith) (omega arith) h.blocks;
}

-- What the calls of `add_inode` leave.
pub record Built (l : Layout) (c : Cursors) (xs : List Item) (es : List (Str × ℕ)) (m : Mem)
    (b : BplusIndex) : Type 0 where
  pub ready : Ready l (entries_with l c xs es) b
  pub moved : cursors b ≡ ends xs c
  pub laid : AllLaid l c xs (mem_of b)
  pub keeps : KeepsBefore l c m (mem_of b)

Built-cons :
    (l : Layout) (c : Cursors) (a : Item) (xs : List Item) (es : List (Str × ℕ)) (m : Mem)
    (b b' : BplusIndex)
    → 1 ≤ length a.inode.path
    → Added l a es c m b
    → Built l
        (cursors b)
        xs
        (insert_sorted (c_str a.inode.inode_id) (l.inodes + inode_size * c.inodes) es)
        (mem_of b)
        b'
    → Built l c (a ∷ xs) es m b'
unfolding entries_with AllLaid
Built-cons l c a xs es m b b' named added built =
    let es' : List (Str × ℕ) =
      insert_sorted (c_str a.inode.inode_id) (l.inodes + inode_size * c.inodes) es in
    let v : Built l (advance a c) xs es' (mem_of b) b' =
      subst (λ x. Built l x xs es' (mem_of b) b') added.moved built in
    record {
      ready = v.ready;
      moved = v.moved;
      laid = (Laid-KeepsBefore l c a (mem_of b) (mem_of b') named v.keeps added.laid, v.laid);
      keeps = KeepsBefore-trans l a c m (mem_of b) (mem_of b') added.keeps v.keeps;
    }

add_inodes-cons :
    (maps : ℕ → ℕ) (a : Item) (xs : List Item) (b b' b'' : BplusIndex)
    → add_inode maps a.inode a.dirty_blocks a.block_mtime b ≡ ok b'
    → add_inodes maps xs b' ≡ ok b''
    → add_inodes maps (a ∷ xs) b ≡ ok b''
unfolding add_inodes
add_inodes-cons maps a xs b b' b'' h h' = rw h h'

add_inodes-next :
    (maps : ℕ → ℕ) (l : Layout) (xs : List Item) (es : List (Str × ℕ)) (b : BplusIndex)
    → Ready l es b
    → AllItems xs
    → Within l (ends xs (cursors b))
    → b.cur_inode_arr_idx + length xs ≤ max_keys
    → (b' : BplusIndex) × (add_inodes maps xs b ≡ ok b') × Built l (cursors b) xs es (mem_of b) b'
unfolding add_inodes entries_with AllLaid
add_inodes-next maps l [] es b ready items w room = (
  b,
  refl,
  record {
    ready = ready;
    moved = refl;
    laid = tt;
    keeps = KeepsBefore-refl l (cursors b) (mem_of b);
  },
)
add_inodes-next maps l (a ∷ xs) es b ready ((mode, it), items) w room =
    let w' = Within-ends l xs (advance a (cursors b)) w in
    let (b₁, ran, added) = add_inode-next maps l es b a mode ready it w' (omega arith) in
    let (b', rans, built) =
      add_inodes-next maps l xs _ b₁ added.ready items
        (subst (λ x. Within l (ends xs x)) (sym added.moved) w)
        (omega (arith, ap Cursors.inodes added.moved)) in
    (
      b',
      add_inodes-cons maps a xs b b₁ b' ran rans,
      Built-cons l (cursors b) a xs es (mem_of b) b₁ b' it.named added built,
    )

-- The arrays of a new file have room for these inodes, and its size is below 2 ^ 63.
pub record Room (n bs nb ps : ℕ) (xs : List Item) : Type 0 where
  pub inodes : length xs ≤ n
  pub bytes : (ends xs (cursors (make n bs nb ps))).bytes ≤ bs
  pub blocks : (ends xs (cursors (make n bs nb ps))).blocks ≤ nb
  pub path : (ends xs (cursors (make n bs nb ps))).path ≤ ps
  pub small : 608 + inode_size * n + bs + block_data_size * nb + hash_size * n + ps < 2 ^ 63

ends-counts :
    (xs : List Item) (c : Cursors)
    → ((ends xs c).inodes ≡ c.inodes + length xs)
      × ((ends xs c).hashes ≡ c.hashes + hash_size * length xs)
ends-counts [] c = (omega arith, omega arith)
ends-counts (a ∷ xs) c =
    let v = ends-counts xs (advance a c) in (omega (arith, v), omega (arith, v))

Room-Within :
    (n bs nb ps : ℕ) (xs : List Item)
    → Room n bs nb ps xs
    → Within (layout n bs nb ps) (ends xs (cursors (make n bs nb ps)))
unfolding layout make
Room-Within n bs nb ps xs r =
    let v = ends-counts xs (cursors (make n bs nb ps)) in
    record {
      inodes = omega (arith, r, v);
      hashes = omega (arith, r, v);
      cells = omega (arith, r, v);
      bytes = omega (arith, r, v);
      paths = omega (arith, r, v);
    }

-- A new file with room for up to 23 inodes, at least one, gets them all.
pub add_inodes-Built :
    (maps : ℕ → ℕ) (n bs nb ps : ℕ) (a : Item) (xs : List Item)
    → ((i : ℕ) → maps i ≢ 0)
    → Room n bs nb ps (a ∷ xs)
    → AllItems (a ∷ xs)
    → length (a ∷ xs) ≤ max_keys
    → (m : Mem) × (b : BplusIndex) × (add_inodes maps (a ∷ xs) (make n bs nb ps) ≡ ok b)
      × Built (layout n bs nb ps) (cursors (make n bs nb ps)) (a ∷ xs) [] m b
unfolding make
add_inodes-Built maps n bs nb ps a xs mapped r ((mode, it), items) few =
    let l : Layout = layout n bs nb ps in
    let c : Cursors = cursors (make n bs nb ps) in
    let w = Room-Within n bs nb ps (a ∷ xs) r in
    let (m, b₁, ran, added) =
      add_inode-first maps n bs nb ps a mode mapped r.small it (Within-ends l xs (advance a c) w) in
    let (b, rans, built) =
      add_inodes-next maps l xs _ b₁ added.ready items
        (subst (λ x. Within l (ends xs x)) (sym added.moved) w)
        (omega (arith, ap Cursors.inodes added.moved)) in
    (
      m,
      b,
      add_inodes-cons maps a xs (make n bs nb ps) b₁ b ran rans,
      Built-cons l c a xs [] m b₁ b it.named added built,
    )
