-- ===== src/Cache/Invariant.antt =====
-- The invariant of `BlockCache` that its paths lead to inodes, and the operations that keep it.
pub mod Steps
pub mod Loading
pub mod Reachable
use mathlib.Core.List.{Memᴰ}
use zippy_fs.Common.{
  ℕ, ◌≡◌, ◌≢◌, refl, sym, ◌∙◌, ap, true, false, Bool, List, [], ◌∷◌, arith, ok, err, some, none,
  Str, str, Result, ◌>>=◌, if◌then◌else◌, Bool-cases, Option-cases, ◌⊎◌, inl, inr, or_fault,
  null_deref, str_beq, str_beq_iff,
}
use zippy_fs.Common.Map.{find, insert_ordered, str_key, find-insert_ordered}
use zippy_fs.Util.Numbers.{Clock}
use zippy_fs.Util.Names.{crypto_hash}
use zippy_fs.Inode.{Inode, is_link, dec_link}
use zippy_fs.Cache.State.{
  Cache, Loader, make, id_of, inode_at, put_inode, in_cache, update_inode, get_inode_by_path,
}

-- Every path has an id, and every id an inode.
abbrev pub Linked : Cache → Type 0
Linked c =
    (path id : Str)
    → find path c.inode_idx ≡ some id
    → (i : Inode) × (find id c.inode_ptrs ≡ some i)

abbrev pub HasInodes : Cache → List (Str × Str) → Type 0
HasInodes c [] = Unit {0}
HasInodes c ((path, id) ∷ m) = ((i : Inode) × (get_inode_by_path path c ≡ ok i)) × HasInodes c m

-- The paths of a part of the table are found in all of it.
abbrev Found : List (Str × Str) → List (Str × Str) → Type 0
Found all [] = Unit {0}
Found all ((path, id) ∷ m) = ((id' : Str) × (find path all ≡ some id')) × Found all m

find-cons :
    (path other id : Str) (all : List (Str × Str))
    → (id' : Str) × (find path all ≡ some id')
    → (id' : Str) × (find path ((other, id) ∷ all) ≡ some id')
unfolding find
find-cons path other id all (id', h) = elim (Bool-cases (str_beq path other)) [
  | inl k ↦ (id, ground arith)
  | inr k ↦ (id', ground arith)
]

Found-cons : (m all : List (Str × Str)) (path id : Str) → Found all m → Found ((path, id) ∷ all) m
Found-cons [] all path id v = tt
Found-cons ((other, id') ∷ m) all path id v =
    (find-cons other path id all v.0, Found-cons m all path id v.1)

Found-all : (m : List (Str × Str)) → Found m m
unfolding find
Found-all [] = tt
Found-all ((path, id) ∷ m) =
    ((id, ground (arith, str_beq_iff path path)), Found-cons m m path id (Found-all m))

Found-HasInodes :
    (c : Cache) (m : List (Str × Str)) → Linked c → Found c.inode_idx m → HasInodes c m
unfolding get_inode_by_path id_of inode_at
Found-HasInodes c [] linked v = tt
Found-HasInodes c ((path, id) ∷ m) linked v =
    let (id', h) = v.0 in
    let (i, k) = linked path id' h in ((i, rw (h, k)), Found-HasInodes c m linked v.1)

pub Linked-HasInodes : (c : Cache) → Linked c → HasInodes c c.inode_idx
Linked-HasInodes c linked = Found-HasInodes c c.inode_idx linked (Found-all c.inode_idx)

-- The operations that only add entries keep the invariant, if each id they name gets an inode.
pub Linked-put :
    (c c' : Cache) (id : Str) (i : Inode)
    → Linked c
    → c'.inode_ptrs ≡ insert_ordered id i c.inode_ptrs
    → ((path j : Str)
        → find path c'.inode_idx ≡ some j
        → (j ≡ id) ⊎ (find path c.inode_idx ≡ some j))
    → Linked c'
Linked-put c c' id i linked ptrs idx path j h = elim (Bool-cases (str_beq j id)) [
  | inl k ↦ (i, ground (arith, ap (λ m. find j m) ptrs, find-insert_ordered id j i c.inode_ptrs))
  | inr k ↦ elim (idx path j h) [
    | inl l ↦ ground (arith, str_beq_iff j id)
    | inr l ↦
        (let (o, q) = linked path j l in
          (o, ground (arith, ap (λ m. find j m) ptrs, find-insert_ordered id j i c.inode_ptrs)))
  ]
]

pub make-Linked : (memory : ℕ) → Linked (make memory)
unfolding make find
make-Linked memory path id h = cc
