-- ===== src/Inode/Contents/Copy.antt =====
-- The copy constructor of `Inode` takes over all blocks.
use zippy_fs.Common.{
  ℕ, ◌≡◌, refl, sym, ap, ◌∙◌, [], ◌∷◌, ◌++◌, arith, ok, some, none, map, Str, append_assoc,
  append-nil,
}
use zippy_fs.Common.Map.{find, insert, nat_key, find-insert}
use zippy_fs.Util.Numbers.{Clock, Moment, get_time}
use zippy_fs.Inode.{Inode, BlockMap, copy, copy_blocks, get_block, get_block_indx, copy_of}
use zippy_fs.Inode.Contents.{Distinct}

-- Each entry of the first table is found in the second.
abbrev Entries : BlockMap → BlockMap → Type 0
Entries [] b = Unit {0}
Entries ((k, p) ∷ m) b = (find k b ≡ some p) × Entries m b

-- No number of the first table stands in the second.
abbrev Apart : BlockMap → BlockMap → Type 0
Apart [] b = Unit {0}
Apart ((k, p) ∷ m) b = (find k b ≡ none) × Apart m b

Entries-cons : (k p : ℕ) (m b : BlockMap) → find k m ≡ none → Entries m b → Entries m ((k, p) ∷ b)
unfolding find
Entries-cons k p [] b h e = tt
Entries-cons k p ((j, q) ∷ m) b h e = ground (arith, Entries-cons k p m b)

Entries-self : (m : BlockMap) → Distinct m → Entries m m
unfolding find
Entries-self [] d = tt
Entries-self ((k, p) ∷ m) d = (ground arith, Entries-cons k p m m d.0 (Entries-self m d.1))

Apart-insert : (k p : ℕ) (m b : BlockMap) → find k m ≡ none → Apart m b → Apart m (insert k p b)
unfolding find
Apart-insert k p [] b h a = tt
Apart-insert k p ((j, q) ∷ m) b h a = ground (arith, Apart-insert k p m b, find-insert k j p b)

Apart-nil : (m : BlockMap) → Apart m []
unfolding find
Apart-nil [] = tt
Apart-nil ((k, p) ∷ m) = (refl, Apart-nil m)

insert_new : (k p : ℕ) (b : BlockMap) → find k b ≡ none → insert k p b ≡ b ++ (k, p) ∷ []
unfolding find insert
insert_new k p [] h = refl
insert_new k p ((j, q) ∷ b) h = ground (arith, insert_new k p b)

copy_blocks-append :
    (now : Moment) (that : Inode) (m b : BlockMap)
    → Distinct m
    → Entries m that.blocks
    → Apart m b
    → copy_blocks now (map (λ ent. ent.0) m) that b ≡ ok (b ++ m)
unfolding copy_blocks get_block
copy_blocks-append now that [] b d e a = ap ok (sym (append-nil b))
copy_blocks-append now that ((k, p) ∷ m) b d e a = rw (e.0) (
    copy_blocks-append now (record that { ul_mtime = get_time now }) m (insert k p b) d.1 e.1
      (Apart-insert k p m b d.0 a.1)
    ∙ ap ok (ap (λ r. r ++ m) (insert_new k p b a.0) ∙ append_assoc b ((k, p) ∷ []) m))

-- A copied inode has the whole block table.
pub copy_lem :
    (clock : Clock) (path id : Str) (that : Inode)
    → Distinct that.blocks
    → copy clock path id that ≡ ok (copy_of clock path id that that.blocks)
unfolding copy get_block_indx
copy_lem clock path id that d = rw (
    copy_blocks-append (clock 5) that that.blocks [] d (Entries-self that.blocks d)
      (Apart-nil that.blocks))
