-- ===== src/Index/Build/Ids.antt =====
-- The entries that a list of inodes makes: each id has its inode.
use zippy_fs.Common.{
  subst, ℕ, zero, suc, ◌+◌, ◌*◌, ◌≤◌, ◌≡◌, ◌≢◌, refl, ◌∙◌, sym, none, some, List, [], ◌∷◌, Str,
  str_beq_iff, get_elem?, arith,
}
use zippy_fs.Util.Names.{c_str}
use zippy_fs.Index.Memory.{Mem, inode_size}
use zippy_fs.Index.Entries.{lookup, insert_sorted}
use zippy_fs.Index.Started.{Layout}
use zippy_fs.Index.Build.{Item, Cursors, advance, Laid}
use zippy_fs.Index.Build.All.{entries_with, ends, AllLaid}
use zippy_fs.TreeLoader.Changed.{lookup-insert_sorted}

-- The key of an inode.
abbrev pub id_of : Item → Str
id_of a = c_str a.inode.inode_id

-- No inode has this id.
abbrev pub NotAmong : Str → List Item → Type 0
NotAmong p [] = Unit {0}
NotAmong p (a ∷ xs) = (p ≢ id_of a) × NotAmong p xs

abbrev pub Distinct : List Item → Type 0
Distinct [] = Unit {0}
Distinct (a ∷ xs) = NotAmong (id_of a) xs × Distinct xs

-- The ids are no keys yet.
AllNew : List Item → List (Str × ℕ) → Type 0
AllNew [] es = Unit {0}
AllNew (a ∷ xs) es = (lookup (id_of a) es ≡ none) × AllNew xs es

AllNew-nil : (xs : List Item) → AllNew xs []
unfolding AllNew lookup
AllNew-nil [] = tt
AllNew-nil (a ∷ xs) = (refl, AllNew-nil xs)

lookup-insert_sorted_ne :
    (q p : Str) (v : ℕ) (es : List (Str × ℕ))
    → lookup p es ≡ none
    → p ≢ q
    → lookup q (insert_sorted p v es) ≡ lookup q es
lookup-insert_sorted_ne q p v es new other =
    ground (arith, lookup-insert_sorted q p v es new, str_beq_iff q p)

AllNew-insert_sorted :
    (p : Str) (v : ℕ) (xs : List Item) (es : List (Str × ℕ))
    → lookup p es ≡ none
    → NotAmong p xs
    → AllNew xs es
    → AllNew xs (insert_sorted p v es)
unfolding AllNew
AllNew-insert_sorted p v [] es new not_in a = tt
AllNew-insert_sorted p v (x ∷ xs) es new not_in a = (
  lookup-insert_sorted_ne (id_of x) p v es new not_in.0 ∙ a.0,
  AllNew-insert_sorted p v xs es new not_in.1 a.1,
)

-- An id that is not among those added has what it had.
lookup-others :
    (l : Layout) (c : Cursors) (xs : List Item) (es : List (Str × ℕ)) (p : Str)
    → Distinct xs
    → AllNew xs es
    → NotAmong p xs
    → lookup p (entries_with l c xs es) ≡ lookup p es
unfolding entries_with AllNew
lookup-others l c [] es p d a not_in = refl
lookup-others l c (x ∷ xs) es p d a not_in =
    let v : ℕ = l.inodes + inode_size * c.inodes in
    lookup-others l (advance x c) xs (insert_sorted (id_of x) v es) p d.1
      (AllNew-insert_sorted (id_of x) v xs es a.0 d.0 a.1) not_in.1
    ∙ lookup-insert_sorted_ne p (id_of x) v es a.0 (λ e. not_in.0 (sym e))

-- Where an inode of the list stands.
pub record Stands (l : Layout) (c : Cursors) (xs : List Item) (es : List (Str × ℕ)) (a : Item)
    (m : Mem) : Type 0 where
  pub at : Cursors
  pub found : lookup (id_of a) (entries_with l c xs es) ≡ some (l.inodes + inode_size * at.inodes)
  pub laid : Laid l at a m
  pub inside : at.blocks ≤ (ends xs c).blocks

blocks-ends : (xs : List Item) (c : Cursors) → c.blocks ≤ (ends xs c).blocks
blocks-ends [] c = omega arith
blocks-ends (a ∷ xs) c = omega (arith, blocks-ends xs (advance a c))

Stands-lookup :
    (l : Layout) (c : Cursors) (xs : List Item) (es : List (Str × ℕ)) (k : ℕ) (a : Item) (m : Mem)
    → Distinct xs
    → AllNew xs es
    → AllLaid l c xs m
    → get_elem? xs k ≡ some a
    → Stands l c xs es a m
unfolding entries_with AllNew AllLaid
Stands-lookup l c [] es k a m d new laid h = cc
Stands-lookup l c (x ∷ xs) es zero a m d new laid h =
    let v : ℕ = l.inodes + inode_size * c.inodes in
    let same : x ≡ a = cc in
    subst (λ y. Stands l c (x ∷ xs) es y m) same
      (record {
        at = c;
        found =
            lookup-others l (advance x c) xs (insert_sorted (id_of x) v es) (id_of x) d.1
              (AllNew-insert_sorted (id_of x) v xs es new.0 d.0 new.1) d.0
            ∙ lookup-insert_sorted_self (id_of x) v es new.0;
        laid = laid.0;
        inside = blocks-ends (x ∷ xs) c;
      })
  where
    lookup-insert_sorted_self :
        (p : Str) (v : ℕ) (es : List (Str × ℕ))
        → lookup p es ≡ none
        → lookup p (insert_sorted p v es) ≡ some v
    lookup-insert_sorted_self p v es h =
        ground (arith, lookup-insert_sorted p p v es h, str_beq_iff p p)
Stands-lookup l c (x ∷ xs) es (suc k) a m d new laid h =
    let v : ℕ = l.inodes + inode_size * c.inodes in
    let s =
      Stands-lookup l (advance x c) xs (insert_sorted (id_of x) v es) k a m d.1
        (AllNew-insert_sorted (id_of x) v xs es new.0 d.0 new.1) laid.1 h in
    record { at = s.at; found = s.found; laid = s.laid; inside = s.inside }

-- Inodes with different ids, in a tree of their own, are each found under their ids.
pub AllLaid-Stands :
    (l : Layout) (c : Cursors) (xs : List Item) (k : ℕ) (a : Item) (m : Mem)
    → Distinct xs
    → AllLaid l c xs m
    → get_elem? xs k ≡ some a
    → Stands l c xs [] a m
AllLaid-Stands l c xs k a m d laid h = Stands-lookup l c xs [] k a m d (AllNew-nil xs) laid h
