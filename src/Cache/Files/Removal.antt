-- ===== src/Cache/Files/Removal.antt =====
-- `remove` and `rmdir` of block_cache.cpp.
use zippy_fs.Common.Map.{find-erase, find, str_key}
use zippy_fs.Cache.Files.{leb, remove, rmdir, drop_links, less, minus, truncate}
use zippy_fs.Common.{
  sym, subst, inr, inl, ◌<◌, Option-cases, Bool-cases, ◌⊎◌, ◌≤◌, str_beq_iff, ℕ, ◌+◌, ◌^◌, ◌≡◌, ◌≢◌,
  refl, ◌∙◌, ap, true, List, [], ◌∷◌, arith, ok, err, some, none, Str, if◌then◌else◌, or_fault,
  null_deref, str, str_beq,
}
use zippy_fs.Util.Numbers.{Clock}
use zippy_fs.Inode.{Inode, delete_inode, dec_link, is_link, update_mtime, get_refs}
use zippy_fs.Cache.State.{
  Cache, id_of, inode_at, put_inode, in_cache, update_inode, get_inode_by_path,
}
use zippy_fs.Cache.State.Lookup.{
  in_cache_of_id, get_inode_by_path-ok, update_inode-ok, inode_at-put_inode_self,
  inode_at-put_inode,
}

-- What the loop of `remove` does to an inode.
abbrev pub unlinked : Str → Inode → Inode
unlinked path i = if is_link path i then dec_link path i else i

pub find-drop_links :
    (path id : Str) (m : List (Str × Inode)) (i : Inode)
    → find id m ≡ some i
    → find id (drop_links path m) ≡ some (unlinked path i)
unfolding find drop_links
find-drop_links path id [] i h = cc
find-drop_links path id ((j, k) ∷ m) i h = ground (arith, find-drop_links path id m i)

-- `remove` of a path in the cache returns 0, takes one off the size, and leaves the path with an
-- inode that is deleted and has no links, no blocks and a link count of 0.
pub remove_lem :
    (clock : Clock) (path id : Str) (c : Cache) (i : Inode)
    → id_of path c ≡ ok id
    → inode_at id c ≡ ok i
    → (c' : Cache) × (remove clock path c ≡ ok (0, c'))
      × (c'.size ≡ less c.size)
      × ((j : Inode) × (get_inode_by_path path c' ≡ ok j)
          × (j.deleted ≡ 1)
          × (j.nlink ≡ 0)
          × (get_refs j ≡ [])
          × (j.blocks ≡ []))
unfolding remove delete_inode update_mtime get_refs id_of inode_at put_inode
remove_lem clock path id c i hid hi =
    let c₀ : Cache = record c { inode_ptrs = drop_links path c.inode_ptrs } in
    let gone : Inode = delete_inode (clock 0) (unlinked path i) in
    let c₁ : Cache = put_inode id gone c₀ in
    let c' : Cache = record c₁ { has_changed = true; size = less c.size } in
    let held : find id c.inode_ptrs ≡ some i = ground arith in
    let there : inode_at id c₀ ≡ ok (unlinked path i) =
      ap (λ o. or_fault o null_deref) (find-drop_links path id c.inode_ptrs i held) in
    (
      c',
      ground (
        arith,
        in_cache_of_id path id c hid,
        update_inode-ok path id (delete_inode (clock 0)) (unlinked path i) c₀ hid there,
      ),
      refl,
      (
        gone,
        get_inode_by_path-ok path id gone c' hid (inode_at-put_inode_self id gone c₀),
        refl,
        refl,
        refl,
        refl,
      ),
    )

-- An inode that has lost a link: one is taken off the count, and the blocks go with the last.
pub record LostLink (path : Str) (k k' : Inode) : Type 0 where
  pub nlink : k'.nlink + 1 ≡ k.nlink
  pub blocks : k'.blocks ≡ (if leb 2 k.nlink then k.blocks else [])
  pub links : (q : Str) → find q k'.links ≡ (if str_beq q path then none else find q k.links)
  pub size : k'.size ≡ k.size
  pub deleted : k'.deleted ≡ k.deleted
  pub inode_id : k'.inode_id ≡ k.inode_id

dec_link-LostLink :
    (path : Str) (k : Inode) → 1 ≤ k.nlink → k.nlink < 2 ^ 32 → LostLink path k (dec_link path k)
unfolding dec_link
dec_link-LostLink path k h h' = record {
  nlink = omega arith;
  blocks = ground arith;
  links = λ q. find-erase path q k.links;
  size = refl;
  deleted = refl;
  inode_id = refl;
}

unlinked-cases :
    (path : Str) (k : Inode)
    → ((find path k.links ≡ none) × (unlinked path k ≡ k))
      ⊎ ((find path k.links ≡ some tt) × (unlinked path k ≡ dec_link path k))
unfolding is_link
unlinked-cases path k = elim (Option-cases (find path k.links)) [
  | inl h ↦ inl (h, rw (is_link, h) refl)
  | inr (u, h) ↦ inr (h, rw (is_link, h) refl)
]

-- `remove` of a path in the cache returns 0, and leaves an inode of another id with a link count of 1
-- to 2 ^ 32 - 1 as it was, if the path is not among its links; if it is, this link and no other
-- is taken from it: the count goes down by one, and its blocks are emptied if none is left.
pub remove_others :
    (clock : Clock) (path id other : Str) (c : Cache) (i k : Inode)
    → id_of path c ≡ ok id
    → inode_at id c ≡ ok i
    → other ≢ id
    → find other c.inode_ptrs ≡ some k
    → 1 ≤ k.nlink
    → k.nlink < 2 ^ 32
    → (c' : Cache) × (k' : Inode) × (remove clock path c ≡ ok (0, c'))
      × (inode_at other c' ≡ ok k')
      × (((find path k.links ≡ none) × (k' ≡ k))
          ⊎ ((find path k.links ≡ some tt) × LostLink path k k'))
unfolding remove id_of inode_at put_inode
remove_others clock path id other c i k hid hi ne h low high =
    let c₀ : Cache = record c { inode_ptrs = drop_links path c.inode_ptrs } in
    let gone : Inode = delete_inode (clock 0) (unlinked path i) in
    let c₁ : Cache = put_inode id gone c₀ in
    let held : find id c.inode_ptrs ≡ some i = ground arith in
    let there : inode_at id c₀ ≡ ok (unlinked path i) =
      ap (λ o. or_fault o null_deref) (find-drop_links path id c.inode_ptrs i held) in
    (
      record c₁ { has_changed = true; size = less c.size },
      unlinked path k,
      ground (
        arith,
        in_cache_of_id path id c hid,
        update_inode-ok path id (delete_inode (clock 0)) (unlinked path i) c₀ hid there,
      ),
      inode_at-put_inode id other gone c₀ ne
          ∙ ap (λ o. or_fault o null_deref) (find-drop_links path other c.inode_ptrs k h),
      elim (unlinked-cases path k) [
        | inl (absent, same) ↦ inl (absent, same)
        | inr (linked, less_one) ↦
            inr (linked, subst (LostLink path k) (sym less_one) (dec_link-LostLink path k low high))
      ],
    )

-- `remove`, `rmdir` and `truncate` refuse a path, and change nothing.
abbrev pub Refused : Clock → Str → ℕ → Cache → Type 0
Refused clock path size c =
    (remove clock path c ≡ ok (minus 1, c))
    × (rmdir clock path c ≡ ok (minus 1, c))
    × (truncate clock path size c ≡ ok (minus 1, c))

-- They dereference a null pointer.
abbrev pub Faults : Clock → Str → ℕ → Cache → Type 0
Faults clock path size c =
    (remove clock path c ≡ err null_deref)
    × (rmdir clock path c ≡ err null_deref)
    × (truncate clock path size c ≡ err null_deref)

uncached-Refused :
    (clock : Clock) (path : Str) (size : ℕ) (c : Cache)
    → find path c.inode_idx ≡ none
    → path ≢ str "/"
    → Refused clock path size c
unfolding remove rmdir truncate in_cache
uncached-Refused clock path size c h ne = ground (arith, h, str_beq_iff path (str "/"), ne)

root-Faults :
    (clock : Clock) (size : ℕ) (c : Cache)
    → find (str "/") c.inode_idx ≡ none
    → Faults clock (str "/") size c
unfolding remove rmdir truncate in_cache update_inode id_of str_beq
root-Faults clock size c h = ground arith

-- A path that the cache has no inode for, on disk or not, is not removed or cut: `remove`, `rmdir`
-- and `truncate` return -1 and change nothing, but for the root, for which all three dereference a
-- null pointer.
pub remove_uncached :
    (clock : Clock) (path : Str) (size : ℕ) (c : Cache)
    → find path c.inode_idx ≡ none
    → ((path ≢ str "/") × Refused clock path size c) ⊎ ((path ≡ str "/") × Faults clock path size c)
remove_uncached clock path size c h = elim (Bool-cases (str_beq path (str "/"))) [
  | inl e ↦
      let root : path ≡ str "/" = (str_beq_iff path (str "/")).0 e in
      let faults : Faults clock (str "/") size c =
        root-Faults clock size c (subst (λ p. find p c.inode_idx ≡ none) root h) in
      inr (root, subst (λ p. Faults clock p size c) (sym root) faults)
  | inr e ↦
      let ne : path ≢ str "/" = λ r. ground (arith, e, (str_beq_iff path (str "/")).1 r) in
      inl (ne, uncached-Refused clock path size c h ne)
]
