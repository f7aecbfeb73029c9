-- ===== src/TreeLoader/Files.antt =====
-- `load_trees` of bplus_index_loader.cpp: which files are mapped.
use zippy_fs.Common.{
  ◌≡◌, refl, ◌∙◌, ap, Bool, true, false, ◌&&◌, Option, none, some, List, [], ◌∷◌, ◌++◌, Result, ok,
  null_deref, or_fault, ◌>>=◌, Str, str, str_beq, take, if◌then◌else◌, Bool-cases, inl, inr,
}
use zippy_fs.Common.Map.{find, insert, str_key, find-insert}
use zippy_fs.Cache.State.{IndexEntry}
use zippy_fs.Index.Memory.{Mem}
use zippy_fs.TreeLoader.Latest.{get_children}

-- `path_` and `file_to_mem_`; `none` is a pointer to memory that was unmapped. The maps to the
-- descriptors and the sizes have the same keys.
pub record TreeFiles : Type 0 where
  pub path : Str
  pub file_to_mem : List (Str × Option Mem)

-- `munmap` of every entry. The entries stay.
unfoldable pub unmap_all : List (Str × Option Mem) → List (Str × Option Mem)
unmap_all [] = []
unmap_all ((file, mem) ∷ files) = (file, none) ∷ unmap_all files

-- A name that begins with `TREE-`.
unfoldable pub is_tree : Str → Bool
is_tree name = str_beq (take 5 name) (str "TREE-")

-- The loop over the directory: its entries in the order of `readdir`, with what the files hold.
unfoldable pub map_trees :
    Str → List (Str × Mem) → List (Str × Option Mem) → List (Str × Option Mem)
map_trees path [] files = files
map_trees path ((name, mem) ∷ dir) files =
    map_trees path dir (if is_tree name then insert (path ++ name) (some mem) files else files)

unfoldable pub load_trees : List (Str × Mem) → TreeFiles → TreeFiles
unfolding map_trees unmap_all
load_trees dir s = record s { file_to_mem = map_trees s.path dir (unmap_all s.file_to_mem) }

-- The trees that the loops over `file_to_mem_` read. `reused` says what the system has mapped since at
-- the address that an unmapped file had; where nothing is there, reading it is a fault.
unfoldable pub mapped : (Str → Option Mem) → List (Str × Option Mem) → Result (List Mem)
mapped reused [] = ok []
mapped reused ((file, some mem) ∷ files) = do trees ← mapped reused files; ok (mem ∷ trees)
mapped reused ((file, none) ∷ files) = do
  mem ← or_fault (reused file) null_deref
  trees ← mapped reused files
  ok (mem ∷ trees)

-- `get_children(path)` with its call of `load_trees`.
unfoldable pub reload_children :
    (Str → Option Mem) → List (Str × Mem) → Str → TreeFiles → Result (List IndexEntry × TreeFiles)
unfolding load_trees mapped
reload_children reused dir path s = do
  trees ← mapped reused (load_trees dir s).file_to_mem
  children ← get_children trees path
  ok (children, load_trees dir s)

-- The tree in the directory under a name; where there are two it is the last.
unfoldable pub tree_in : Str → Str → List (Str × Mem) → Option Mem
tree_in path file [] = none
tree_in path file ((name, mem) ∷ dir) = elim (tree_in path file dir) [
  | some later ↦ some later
  | none ↦ (if is_tree name && str_beq file (path ++ name) then some mem else none)
]

-- What the map has for a file: the tree of the directory, or else what was there.
abbrev or_else : Option Mem → Option (Option Mem) → Option (Option Mem)
or_else none before = before
or_else (some mem) before = some (some mem)

abbrev pub unmapped : Option (Option Mem) → Option (Option Mem)
unmapped none = none
unmapped (some mem) = some none

find-unmap_all :
    (file : Str) (files : List (Str × Option Mem))
    → find file (unmap_all files) ≡ unmapped (find file files)
unfolding find unmap_all
find-unmap_all file [] = refl
find-unmap_all file ((f, mem) ∷ files) = elim (Bool-cases (str_beq file f)) [
  | inl h ↦ rw h refl
  | inr h ↦ rw h (find-unmap_all file files)
]

find-map_trees :
    (path file : Str) (dir : List (Str × Mem)) (files : List (Str × Option Mem))
    → find file (map_trees path dir files) ≡ or_else (tree_in path file dir) (find file files)
unfolding map_trees tree_in
find-map_trees path file [] files = refl
find-map_trees path file ((name, mem) ∷ dir) files =
    find-map_trees path file dir
      (if is_tree name then insert (path ++ name) (some mem) files else files)
    ∙ step (tree_in path file dir) (is_tree name)
  where
    step :
        (later : Option Mem) (is : Bool)
        → or_else later (find file (if is then insert (path ++ name) (some mem) files else files))
          ≡ or_else
              (elim later [
                | some m ↦ some m
                | none ↦ (if is && str_beq file (path ++ name) then some mem else none)
              ])
              (find file files)
    step (some m) is = refl
    step none false = refl
    step none true = elim (Bool-cases (str_beq file (path ++ name))) [
      | inl h ↦ find-insert (path ++ name) file (some mem) files ∙ rw h refl
      | inr h ↦ find-insert (path ++ name) file (some mem) files ∙ rw h refl
    ]

-- After `load_trees` a file is mapped to the tree that the directory has under its name, the last if
-- there are two; a file that was in the map and is not in the directory stays in it, unmapped.
pub find-load_trees :
    (dir : List (Str × Mem)) (s : TreeFiles) (file : Str)
    → find file (load_trees dir s).file_to_mem ≡ (elim (tree_in s.path file dir) [
      | some mem ↦ some (some mem)
      | none ↦ unmapped (find file s.file_to_mem)
    ])
unfolding load_trees
find-load_trees dir s file =
    find-map_trees s.path file dir (unmap_all s.file_to_mem)
    ∙ ap (or_else (tree_in s.path file dir)) (find-unmap_all file s.file_to_mem)
    ∙ cases (tree_in s.path file dir) (unmapped (find file s.file_to_mem))
  where
    cases :
        (o : Option Mem) (before : Option (Option Mem))
        → or_else o before ≡ (elim o [ some mem ↦ some (some mem) | none ↦ before ])
    cases none before = refl
    cases (some mem) before = refl

is_tree-prefixed : (name : Str) → is_tree (str "TREE-" ++ name) ≡ true
unfolding is_tree str_beq
is_tree-prefixed name = refl

-- A loader that has nothing mapped yet, over a directory with one tree.
pub reload_children-one :
    (reused : Str → Option Mem) (path shown name : Str) (mem : Mem) (children : List IndexEntry)
    → get_children (mem ∷ []) shown ≡ ok children
    → (s : TreeFiles) × (reload_children reused
          ((str "TREE-" ++ name, mem) ∷ [])
          shown
          (record { path = path; file_to_mem = [] })
        ≡ ok (children, s))
unfolding reload_children insert
reload_children-one reused path shown name mem children h = (
  record { path = path; file_to_mem = (path ++ (str "TREE-" ++ name), some mem) ∷ [] },
  rw (is_tree-prefixed name, h) refl,
)
